-- ===== src/Wal.antt =====
-- include/cache/storage/wal.h and src/storage/wal.cpp: the write-ahead log.
pub mod Entry
pub mod Log
