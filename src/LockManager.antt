-- ===== src/LockManager.antt =====
-- concurrency/lock_manager.h and concurrency/lock_manager.cpp. The latch makes each stretch of code
-- between two waits atomic; the children follow the file: modes, the requests on one object, the
-- calls, and the search for deadlocks.
pub mod Mode
pub mod Requests
pub mod Deadlock
pub mod State
pub mod TableLocks
pub mod RecordLocks
pub mod Release
pub mod Calls
mod Examples
