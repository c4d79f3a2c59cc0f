-- ===== src/Fetch.antt =====
-- pkg/fetch: politeness towards hosts, and the retries of a request.
pub mod RateLimit
pub mod Spacing
pub mod HostSemaphore
pub mod HostLimit
pub mod HostHistory
pub mod HostPermits
pub mod Retry
pub mod Attempts
