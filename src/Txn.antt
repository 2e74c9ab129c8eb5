-- ===== src/Txn.antt =====
-- transaction/transaction.h, transaction/transaction.cpp and transaction/txn_status_log.cpp: the MVCC
-- transaction manager. Transaction ids are numbers, and a run does not use up 2^64 of them. What a
-- call does to the other components is the list of its effects, in order.
pub mod Log
pub mod Manager
pub mod Lifecycle
mod Examples
