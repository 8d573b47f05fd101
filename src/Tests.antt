-- ===== src/Tests.antt =====
-- The tests: each theorem at a concrete input.
pub mod Fixtures
pub mod Requests
pub mod Counting
pub mod Deciding
pub mod Sending
pub mod Sharing
pub mod Settings
pub mod Ranking
pub mod Scraping
pub mod Wiring
