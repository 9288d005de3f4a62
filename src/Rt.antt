-- ===== src/Rt.antt =====
-- The runtime pool, pool/rt: one queue of tasks, or the priority queues, on the Core.
pub mod Defs
pub mod Pending
pub mod Remove
pub mod Removal
pub mod Again
pub mod Service
pub mod Fifo
pub mod Queueing
pub mod Finish
pub mod Refusal
pub mod Dispatch
pub mod Notify
mod Examples
