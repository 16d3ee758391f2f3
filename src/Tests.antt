-- ===== src/Tests.antt =====
-- Concrete inputs: the theorems at work on a small world, and tests of the definitions.
mod Fixtures
mod History
mod Sessions
mod Sealing
mod Albums
mod Users
mod RateLimit
mod Middleware
mod Routes
mod Translations
mod Api
mod Urls
mod Refresh
mod Worker
mod Browsing
