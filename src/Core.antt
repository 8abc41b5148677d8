-- ===== src/Core.antt =====
-- src/core: the caches and the services in front of them.
pub mod Queue
pub mod XLogCache
pub mod AlertCache
pub mod ObjectCache
pub mod AgentManager
pub mod Dispatcher
pub mod PerfCountCore
pub mod XLogCore
pub mod Table
pub mod TextCache
pub mod StatusCache
pub mod CounterCache
pub mod TextCore
pub mod ProfileCore
pub mod AlertCore
