-- ===== src/Protection.antt =====
-- pkg/protection: the token bucket, the batch limiter under interleaving, the secure body reader
-- and the life cycle of the memory monitor.
pub mod Limiter
pub mod Batch
pub mod Request
pub mod Monitor
