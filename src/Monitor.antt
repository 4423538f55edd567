-- ===== src/Monitor.antt =====
-- internal/activity/monitor: the reconciliation of a provider response with the stored events.
pub mod Provider
pub mod Identity
pub mod Score
