-- ===== src/Tests.antt =====
-- The theorems at concrete inputs.
mod Index
mod Wire
mod XLog
mod Packets
mod Core
mod Login
mod Stores
mod Datagrams
mod Services
mod Clients
mod Texts
