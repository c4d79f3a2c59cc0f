-- ===== src/Stage.antt =====
-- pkg/crawler/stage.go: where a crawl builds its output, and the swap that puts it in place.
pub mod Files
pub mod Swap
pub mod Plan
pub mod Renames
pub mod Turns
pub mod Commits
pub mod Outcomes
pub mod Recovery
pub mod Plans
