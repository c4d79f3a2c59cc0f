-- ===== src/Store.antt =====
-- pkg/storage: the database of visited pages and images.
pub mod Entries
pub mod Database
pub mod Scan
pub mod Counting
pub mod Answers
pub mod Requeue
