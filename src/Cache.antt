-- ===== src/Cache.antt =====
-- internal/platform/cache/cache.go: the Redis cache. A key that expires or is evicted is a step of
-- the environment; every command may fail.
pub mod Laws
pub mod Commands
pub mod Keeps
