-- ===== src/Rdp.antt =====
-- libs/rdp: the framing and the messages of the RDP connection sequence.
pub mod Tpkt
pub mod X224
pub mod Mcs
mod Tests
