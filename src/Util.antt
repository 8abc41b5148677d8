-- ===== src/Util.antt =====
-- src/util.
pub mod Hash
