-- ===== src/Observer.antt =====
-- src/observer: what the proxy counts, and how it is exposed.
pub mod Snapshot
pub mod Record
pub mod Histogram
pub mod Tally
pub mod Growth
pub mod Metrics
pub mod Ledger
pub mod Score
pub mod Views
pub mod Exposition
pub mod Collector
pub mod Logs
pub mod Tables
pub mod Outcomes
pub mod Moves
pub mod Asked
pub mod Seen
pub mod Ordered
pub mod Scrape
pub mod Scraped
pub mod Collected
pub mod Described
