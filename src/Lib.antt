-- ===== src/Lib.antt =====
-- A model of the qc-database cache, with the theorems that say what it does.
--
-- The repository is a distributed cache in C++. These of its parts carry the logic that this library
-- models. The storage engine keeps the newest entries in a table in memory (src/storage/memtable.cpp)
-- and logs every change to a file (src/storage/wal.cpp, with the checksum of src/crc32c.cpp). Full
-- tables become sorted files (src/storage/sstable.cpp), and the engine of src/storage/lsm_tree.cpp
-- looks keys up in all of these, from the newest to the oldest. The transaction manager
-- (src/transaction/transaction_manager.cpp) runs two-phase commits over a lock manager that detects
-- deadlocks, and a context hands one transaction to a client. The time service
-- (src/time/time_sync.cpp) gives timestamps from a hybrid logical clock, and the detector of
-- src/cluster/split_brain_detector.cpp decides from heartbeats which nodes of a cluster count. The
-- manager of src/hotspot/hotspot_manager.cpp watches for keys that are asked for too often.
--
-- Which file models which part:
--   Types                 include/cache/common/types.h: MultiLevelKey, DataEntry, Status, Result
--   MemTable              MemTable: get, put, remove, range_scan, clear and the queries
--   Crc32c                crc32c::Crc32c and crc32c::Extend, with the table of init_table
--   Wal.Entry             WALEntry: serialize, deserialize and the checksum
--   Wal.Log               WAL: open, close, append, sync, replay_from, truncate, file_size
--   SsTable               SSTable: write, read, range_scan and load_index
--   Lsm                   LSMTreeEngine: get, put, remove; Tables below it holds flush and
--                         compact, Scan range_scan and the calls for many keys, Lifecycle open,
--                         close and recovery, and Backup backup and restore
--   Transaction.WaitGraph find_cycle_in_wait_graph
--   Transaction.Locks     DefaultLockManager; Release and Queries below it hold its other calls
--   Transaction.Records   the structures of include/cache/transaction/transaction_manager.h
--   Transaction.Manager   DefaultTransactionManager: Data, Commit, Messages and Queries below it
--                         hold its calls, and Locking puts the default lock manager below it
--   Transaction.Context   TransactionContext
--   Cluster.SplitBrain    DefaultSplitBrainDetector: Quorum below it holds the strategies,
--                         Partitions the connected components, Loops the rounds of the threads,
--                         and Utilities split_brain_utils
--   Hotspot               include/cache/hotspot/hotspot_manager.h; Events below it holds what the
--                         handler hears, Calls the calls of DefaultHotspotManager, and Rounds the
--                         rounds of its threads
--   Time                  the hybrid logical clock of src/time/time_sync.cpp
-- The modules below these that are not named here hold proofs. Prelude passes on the libraries'
-- names and proves what all share, and Std models what the source uses of the C++ library: byte
-- strings, xor on words, std::fstream and std::ifstream, the maps and sets, and mutexes. Tests has
-- examples.
--
-- How the state corresponds. A class is a record of its fields, and a method a function from a state
-- to a result and the next state. Where methods of one object call each other, the object is
-- Std.Method.Guarded: its mutex and its fields, and a method that locks a mutex which its own thread
-- holds is undefined, as is moving an iterator past the end. Other threads come in where a method
-- lets go of its mutex in the middle: for acquire_lock, Transaction.Locks.World says what they do in
-- each such window and what the clock reads, and a round of a thread of the hotspot manager is
-- modelled without them. A transaction manager is over any lock
-- manager, the interface Transaction.Manager.LockManager. Texts of errors are left out.
--
-- Numbers. Sizes and logical times wrap at 2^64 where the source adds and subtracts; the words of
-- the log are written as their low bytes. Version numbers, times and the counters of ids are not
-- bounded.
--
-- Fuel. replay_from runs its loop with fuel for every byte of the file and one round more, since each
-- round reads a header. acquire_lock has fuel for the one call that it makes of itself, which locks
-- the mutex that is held. The search for a cycle has fuel for the start and for every target of an
-- edge, since it never enters a node twice; each search of the split-brain detector has fuel for
-- every node.
--
-- Files. The disk under the sorted tables is a map from names to bytes; the log keeps its own file.
-- Whether a directory can be made and a file opened is a parameter, as are the local time in a file's
-- name and which names end in ".sst". A number that a short read left without a value is undefined
-- once it is used, and so is a binary search in an index that is out of order.
--
-- Not modelled: LSMTreeEngine::cache_hit_ratio and the settings that the engine does not use; the
-- exchange of clock offsets and the figures of hotspot_utils, which compute with floating-point
-- numbers, and its names of levels and strategies; the
-- recorder of accesses, which the repository only declares and which is the parameter AccessRecorder
-- of the hotspot manager; the server and its configuration, which only start the services; the
-- headers without an implementation; failures of the disk in the middle of a write; the threads of
-- the transaction manager, of the detector and of the hotspot manager, of which the calls and the
-- rounds are modelled, without the try blocks around them; data races, such as the writes of a read
-- under a shared lock.
pub mod Prelude
pub mod Std
pub mod Types
pub mod MemTable
pub mod SsTable
pub mod Hotspot
pub mod Lsm
pub mod Crc32c
pub mod Wal
pub mod Transaction
pub mod Time
pub mod Cluster
pub mod Tests
