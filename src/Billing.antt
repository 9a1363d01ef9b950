-- ===== src/Billing.antt =====
-- pkg/billing: the metering of usage, tenants and API keys.
pub mod Meter
pub mod Store
pub mod Rollover
