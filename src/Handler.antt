-- ===== src/Handler.antt =====
-- HTTP handlers of open-bbcd/internal/handler.
pub mod Pagination
