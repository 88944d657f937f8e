-- ===== src/Artifacts.antt =====
-- open-bbcd/internal/artifacts: labels of stored artifacts.
pub mod Label
pub mod Mime
