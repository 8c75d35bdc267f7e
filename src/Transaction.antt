-- ===== src/Transaction.antt =====
-- include/cache/transaction/transaction_manager.h and src/transaction/transaction_manager.cpp.
pub mod Records
pub mod WaitGraph
pub mod Locks
pub mod Manager
pub mod Context
