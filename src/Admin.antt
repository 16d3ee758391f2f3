-- ===== src/Admin.antt =====
-- internal/domain/admin: the service and its handlers.
pub mod Service
pub mod Keeps
pub mod Handler
