-- ===== src/Lib.antt =====
-- MiniDB, a relational database engine in C++: a model of parts of its storage, concurrency and
-- transaction layers, its rows and its indexes, with theorems about them. The files of a part are
-- named in the comment at the top of its module; paths are those of the repository.
--
-- Fsm: src/storage/fsm.h and fsm.cpp, the free-space map of a heap file.
-- LockManager: src/concurrency/lock_manager.h and lock_manager.cpp. Mode has the lock modes, Requests
-- the requests on one lock object, State, TableLocks, RecordLocks and Release the calls, Deadlock the
-- search of the wait-for graph. Calls interleaves the threads.
-- Txn: src/transaction/transaction.h, transaction.cpp and the map of txn_status_log.cpp. Log has a
-- transaction and its undo log, Manager the slots, the visibility check and the conflict check of
-- serializable transactions, Lifecycle begin, commit, rollback and savepoints. A call is one step of
-- the manager and a list of effects on the other parts, in order; what they answer is an argument.
-- Page: src/storage/page.h and page.cpp. Space has the space check, Fresh, Insert, Changes
-- and Packed the layout of the tuples, Calls any calls, Redirects the redirected slots, Prune
-- the compaction. 16-bit arithmetic wraps.
-- BufferPool: src/storage/buffer_pool.h and buffer_pool.cpp. A call is cut at its latches and its I/O; the
-- page store is a function from page ids and the log is its durable LSN, and what they answer to a call
-- is an argument. Invariant has what holds between calls and the pages that the pool shows, Replaced and
-- Tables what one frame's change of page does to them, Victim the search of a frame. Fetch, Blocks,
-- Reserve and Load have the blocks of fetch_page and new_page, Served, FetchPage, MakeNew and NewPage
-- these calls whole, Touch and Flush the others. Calls has any calls as data, Refinement and NewPool
-- compare them with a plain memory, Logged and WalFirst with the log. Races has another thread between
-- two blocks.
-- VisibilityMap: src/storage/visibility_map.h and visibility_map.cpp; Calls runs any calls.
-- ResourceManager: src/common/resource_manager.h and resource_manager.cpp, the limits on connections,
-- queries, transactions and space; Limits runs any calls. Counts wrap in 32 and 64 bits.
-- RecordId: the row ids of src/index/btree.h, which the lock manager and the transactions share.
-- Value: src/record/value.h and value.cpp, values as bits and strings: Compare has their order, Stored
-- their bytes in a tuple.
-- Tuple: src/record/tuple.h and tuple.cpp, rows and their bytes: Bitmap has the null bitmap, Stored and
-- RoundTrip the writing and reading of a row, Columns the reading of one column.
-- IndexKey: src/index/index_key.h and index_key.cpp, composite keys: Compare has their order and prefixes,
-- Codec the bytes of a slot.
-- BTree: src/index/btree.h and btree.cpp, the nodes of the B+ tree. Slot compares a key with the bytes of
-- a slot, Search has the binary search in a node, Leaf and Split the insertion into a leaf and into a
-- parent and the splits. Tree has a whole tree and what it means that pages hold it, Descent and Range
-- the way to a leaf and range_search over the chain of leaves, Scan the loop over that chain,
-- Lookup the search of one key.
-- Prelude: what the parts share. Prelude.Assoc stands for HashMap, Prelude.Bytes for memcpy of integers,
-- Prelude.Order for the sign of a comparison.
--
-- A recursion is on the structure of a list or on fuel: the hops of a chain of pages, which the code
-- bounds too, and the rounds of a binary search, as many as the range is long. The threads of the
-- lock and the resource manager and the sessions of the transaction manager are interleaved call by
-- call; what happens between the latches inside one call is not, but for one race of the buffer
-- pool. Not modelled: the insertion into a B+ tree through the pool, removal from it and bulk
-- loading; the arithmetic of values, the projected reading of rows, schemas, the heap file, flushing
-- the whole buffer pool and waiting for a frame of it, the write-ahead log, the catalog and all of
-- SQL; the disk, sockets, the terminal, tracing and configuration.

pub mod Prelude
pub mod RecordId
pub mod Fsm
pub mod LockManager
pub mod Txn
pub mod Page
pub mod VisibilityMap
pub mod ResourceManager
pub mod Value
pub mod IndexKey
pub mod BTree
pub mod Tuple
pub mod BufferPool
