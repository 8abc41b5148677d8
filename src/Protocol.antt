-- ===== src/Protocol.antt =====
-- src/protocol: the wire format that agents, clients and the database files share.
pub mod Output
pub mod Input
pub mod Utf8
pub mod Reads
pub mod Numbers
pub mod Decimal
pub mod Blobs
pub mod Total
pub mod Value
pub mod Pack
