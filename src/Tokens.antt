-- ===== src/Tokens.antt =====
-- internal/domain/tokens: refresh tokens in the database, access tokens sealed with PASETO, and the
-- claims that a request carries.
pub mod Queries
pub mod Valid
pub mod Repository
pub mod Closing
pub mod Manager
pub mod Sessions
