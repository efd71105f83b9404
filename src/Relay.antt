-- ===== src/Relay.antt =====
-- services/rdp_relay: the plugins, the two directions of bytes, and the limit on connections.
pub mod Plugins
pub mod Limit
pub mod Pipe
pub mod ClientAddress
pub mod Connection
pub mod Handler
mod Tests
