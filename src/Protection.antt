-- ===== src/Protection.antt =====
-- pkg/protection: the rate limiter of simple_rate_limiter.go and the batch slots of
-- resource_limiter.go.
pub mod Limiter
pub mod Rate
pub mod Batch
mod Examples
