-- ===== src/Db.antt =====
-- src/db/io: the files of the embedded store.
pub mod Buffer
pub mod MemHashBlock
pub mod RealKeyFile
pub mod IndexKeyFile
pub mod MemTimeBlock
pub mod IndexTimeFile
pub mod RealDataFile
pub mod XLogStore
pub mod CounterStore
pub mod TextStore
pub mod ProfileStore
pub mod AlertStore
pub mod SummaryStore
