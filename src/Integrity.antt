-- ===== src/Integrity.antt =====
-- internal/domain/providerintegrity: which provider observations may change stored state.

pub mod Policy
pub mod Facts
pub mod Clock
pub mod Assess
pub mod Freshness
pub mod Correlate
pub mod Recovery
pub mod Collector
