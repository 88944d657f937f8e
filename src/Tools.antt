-- ===== src/Tools.antt =====
-- Tool handlers of open-bbcd/internal/llm/tools.
pub mod Composite
