-- ===== src/Crawler.antt =====
-- pkg/crawler: how failed pages are counted, and when a finished crawl is kept back.
pub mod Failures
pub mod Loss
