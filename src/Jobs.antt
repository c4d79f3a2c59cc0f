-- ===== src/Jobs.antt =====
-- pkg/mcp/jobs.go: the crawl jobs of the MCP server. A critical section of `JobManager.mu` is one
-- function on the manager's state; what follows it outside the lock, the flush, is another.
pub mod Types
pub mod Table
pub mod Manager
pub mod Slots
pub mod Persist
pub mod Prune
pub mod Ownership
pub mod Operations
pub mod Shutdown
pub mod History
pub mod Workers
pub mod Exclusion
pub mod Restart
pub mod Revival
