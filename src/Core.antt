-- ===== src/Core.antt =====
-- The Core of a pool: its threads and their counters, pool/core/cpool_core.h,
-- pool/core/cpool_core.c, pool/core/cpool_core_struct.h and
-- pool/core/cpool_core_thread_status.h. Every function is a critical section under `core->mut`.
-- A thread is found by its number, which stands for the address of its structure.
pub mod Threads
pub mod Wakeup
pub mod Sleepers
pub mod Pool
pub mod Services
pub mod Served
pub mod Grown
pub mod Limits
pub mod Status
pub mod Moves
pub mod Transitions
pub mod Sleep
pub mod Awake
pub mod Timeout
pub mod Kept
pub mod Run
pub mod Leave
pub mod Lifecycle
pub mod Com
pub mod Rest
mod Examples
pub mod Grow
pub mod Tally
pub mod Census
pub mod Revive
pub mod Create
pub mod Mark
pub mod Shrink
