-- ===== src/Auth.antt =====
-- internal/platform/auth: sessions over refresh tokens, and the handlers on them.
pub mod Service
pub mod Keeps
pub mod Rotation
pub mod Reuse
pub mod Handler
pub mod Success
pub mod Answer
