-- ===== src/Albums.antt =====
-- internal/domain/albums: albums in the database with their cache, and the handlers on them.
pub mod Reads
pub mod Integrity
pub mod Access
pub mod Queries
pub mod Writes
pub mod Repository
pub mod Lists
pub mod Service
pub mod Model
pub mod Handler
pub mod Paging
pub mod Visibility
pub mod Isolation
pub mod Keeps
pub mod Session
