-- ===== src/PageTask.antt =====
-- pkg/crawler/crawler.go: the task of one page, from its URL to its entry in the database.
pub mod State
pub mod Fetching
pub mod Steps
pub mod Task
pub mod Endings
pub mod Rules
pub mod Body
pub mod Slots
pub mod Tallies
pub mod Outstanding
pub mod Requeued
