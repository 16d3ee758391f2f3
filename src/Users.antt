-- ===== src/Users.antt =====
-- internal/domain/users: users in the database with their cache, and the handlers on them.
pub mod Queries
pub mod Rows
pub mod Valid
pub mod Keeps
pub mod Repository
pub mod Service
pub mod Reading
pub mod Handler
pub mod Deletion
pub mod Avatars
