-- ===== src/Txn.antt =====
-- transaction/: multi-version concurrency control. `Defs` has the shared data of
-- transaction/txn_defs.h and transaction/transaction.h; the other modules are the parts of
-- transaction/transaction_manager.cpp.
pub mod Defs
pub mod Mvcc
pub mod Publication
pub mod Unique
pub mod Ssi
