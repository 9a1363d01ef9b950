-- ===== src/Relay.antt =====
-- cmd/relay: the hub, its clients, and the routing of messages.
pub mod Hub
pub mod ChannelRequest
pub mod ChannelHandlers
pub mod Deliver
pub mod Presence
mod Tests
pub mod Sender
