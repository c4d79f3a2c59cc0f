-- ===== src/Run.antt =====
-- pkg/crawler/crawler.go: how a crawl starts, and how it ends.
pub mod Start
pub mod Finish
pub mod Seeding
pub mod Publishing
