-- ===== src/Registry.antt =====
-- pkg/registry: channels and their in-memory store.
pub mod Agent
pub mod AgentStore
pub mod Channel
pub mod ChannelStore
pub mod Presence
mod Tests
