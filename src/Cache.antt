-- ===== src/Cache.antt =====
-- The object cache, pool/core/sm_cache.h and pool/core/sm_cache.c. A queue of objects linked
-- through their first word is its chain from `qfirst`, its counter and its `qlast`; the store
-- `qlast->next = obj` appends to the chain. The lock is held by the caller, or is taken and
-- given back by the operation itself, so that each function is one critical section. The callback
-- `creater` is the list of the results of its calls (`none` for NULL, and an empty list for a
-- callback that is NULL or fails from then on); `need_destroy` is a test.
pub mod Defs
pub mod Limits
pub mod Invariant
pub mod Flushing
pub mod Steps
pub mod Linked
pub mod Runs
pub mod Faults
mod Examples
