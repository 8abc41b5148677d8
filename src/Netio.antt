-- ===== src/Netio.antt =====
-- src/netio: what arrives over the network.
pub mod MultiPacket
pub mod NetCafe
pub mod NetDataProcessor
pub mod Service
