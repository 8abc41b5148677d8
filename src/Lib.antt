-- ===== src/Lib.antt =====
-- A model of scouter-server-rust, the collector of the Scouter monitoring system, and theorems about
-- it. Agents send packs, over UDP in fragments or over TCP; the server keeps what is recent in caches
-- and the rest in database files of its own, and answers clients from both. The same wire format
-- carries packs, values and the records of the files.
--
-- The files, by the part of the program that they model:
-- - Word, Outcome, Assoc, Common: machine words as bit patterns, the outcomes of fallible code (a
--   result, an error, a panic, or fuel that ran out, which is no outcome of the program), hash maps
--   with numbers for keys, and shared lemmas.
-- - Protocol.Output, Protocol.Input, Protocol.Utf8: src/protocol/data_output.rs and data_input.rs. A
--   writer is the bytes that it appends; a reader is a function of the unread bytes and the offset.
--   Protocol.Reads is the relation in which round trips are stated: whatever follows the bytes, the
--   reader takes just those and returns the value. Protocol.Numbers, Decimal and Blobs prove it of each
--   pair; Protocol.Total proves that readers end.
-- - Protocol.Value and its children: src/protocol/value/mod.rs, MapValue included.
-- - Protocol.Pack and its children: src/protocol/pack/mod.rs. XLog is the record of a call, in an
--   envelope that Envelope models.
-- - Util.Hash: src/util/hash.rs.
-- - Db.MemHashBlock, Db.RealKeyFile, Db.IndexKeyFile: the files of these names under src/db/io. The
--   index is a hash table of chain heads and an append-only file of records that carry the position of
--   the next older record of their bucket. IndexKeyFile.Layout is its abstract view, a list of entries,
--   newest first; Chain, Find, Delete and Scan follow the loops over it; Refinement and Laws state what
--   a client sees.
-- - Db.MemTimeBlock, Db.IndexTimeFile: src/db/io/mem_time_block.rs and index_time_file.rs. The same
--   chains, with a bucket for each half second: IndexKeyFile.Layout takes the bucket of a key as an
--   argument and serves both. Ranges and InOrder are about the reads from a time to a time.
-- - Db.RealDataFile: src/db/io/real_data_file.rs, the data behind the indexes, with its buffer.
-- - Db.XLogStore, TextStore, ProfileStore, AlertStore, SummaryStore, CounterStore: the stores under
--   src/db, each the state of one day's container with the calls that write to it and read from it. All
--   but TextStore and CounterStore join a data file and indexes into it; a text is the data of its index
--   itself, and a counter's record is overwritten in place. CounterStore.Layout is its abstract view.
-- - Netio.NetCafe, Netio.NetDataProcessor: src/protocol/net_cafe.rs and src/netio/net_data_processor.rs,
--   from a datagram to the packs in it. Netio.MultiPacket: src/netio/multi_packet.rs, under its lock.
-- - Core.Dispatcher: src/core/dispatcher.rs, which hands each pack to its core. Core.XLogCore, TextCore,
--   ProfileCore, AlertCore: the files of these names under src/core, whose workers take the packs off
--   their queues one by one; what a worker does with one pack is a function.
-- - Core.XLogCache, Core.AlertCache, Core.ObjectCache, Core.AgentManager: src/core/cache/xlog_cache.rs,
--   alert_cache.rs, object_cache.rs and src/core/agent_manager.rs. A put into the first two takes its
--   locks one after the other: it is two steps, which XLogCache.Interleaved lets interleave.
-- - Core.TextCache, StatusCache, CounterCache, over Core.Table: the other maps under src/core/cache.
-- - Core.PerfCountCore: src/core/perf_count_core.rs. Netio.Service and its children: the requests
--   for what is recent in xlog_service.rs, counter_service.rs, object_service.rs, status_service.rs
--   and alert_service.rs under src/netio/service, and kv_service.rs there with
--   src/core/kv_store.rs. A handler reads its request and returns the bytes that it appends to the
--   answer. Service.Answer is the client's side, which is not in the repository: a reader of these
--   bytes, in which the theorems state what a client gets.
-- - Login: src/login/mod.rs, with the clock as an argument.
-- - Tests: the theorems at concrete inputs.
--
-- Numbers are natural numbers with the wrap-around of their width written out; an i8, i16, i32 or
-- i64 is its bit pattern. Texts are UTF-8 bytes, floats bit patterns. A HashMap is the list of its
-- entries in some order; where a table is written for a client, the order is an argument. An error
-- outcome leaves out the state that a call has changed before it failed. A file is its bytes; calls
-- of the file system are taken to succeed, and a lock makes the call under it one step.
--
-- Fuel: reading a value nests as deep as the value does, and every level takes a byte of the input, so
-- one unit more than there are bytes is enough. The loops over a chain of the index go to lower
-- positions, and the loop over the whole key file to higher ones, so the length of the file is enough.
-- The loops of a range read count their rounds, at most the 172800 half seconds of two days. That the
-- fuel is enough is part of the theorems: they state results, not outcomes in general.
--
-- Parameters: the size in bytes of a Value, which the compiler chooses; HashMap::with_capacity;
-- get_date_millis of src/util/date.rs, which asks the time zone database and is taken to return (it
-- panics where a day has no single midnight); the conversions from f32 and i64 to f64; hhmm of the
-- same file; the clock, and the address of a sender as a text.
--
-- Not modelled: the database manager, which opens and closes the containers, and the cleanup of old
-- days; src/core/summary_core.rs; the other services for clients, and those over the stores of past
-- days; the sockets, tasks and channels; HTTP, the configuration, dates, and what is printed.
pub mod Common
pub mod Assoc
pub mod Word
pub mod Outcome
pub mod Protocol
pub mod Util
pub mod Netio
pub mod Login
pub mod Db
pub mod Core
pub mod Tests
