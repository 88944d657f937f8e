-- ===== src/Flowmap.antt =====
-- open-bbcd/internal/flowmap: identifiers of skills, and workflows.
pub mod Id
pub mod Bypass
