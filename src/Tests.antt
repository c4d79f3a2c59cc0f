-- ===== src/Tests.antt =====
-- Each property at a concrete input.
pub mod Jobs
pub mod Crawler
pub mod Chunk
pub mod PageBudget
pub mod Fetch
pub mod Filenames
pub mod Watch
pub mod Store
pub mod Stage
pub mod Sitemaps
pub mod Crawl
pub mod Run
