-- ===== src/Consistency.antt =====
-- pkg/consistency/retry.go: executeWithRetry of a RetryableQuery.
pub mod Retry
mod Examples
