-- ===== src/Messaging.antt =====
-- pkg/messaging: the circuit breaker and the retries of reliability.go.
pub mod Breaker
pub mod Retry
mod Tests
