-- ===== src/Gp.antt =====
-- pool/gp: a pool whose tasks belong to groups.
pub mod Defs
pub mod Sched
pub mod Ops
pub mod Admin
pub mod Remove
pub mod Mark
pub mod Balance
pub mod Places
pub mod Queueing
pub mod Taking
pub mod Ruling
pub mod Attributes
pub mod Finishing
pub mod Removing
pub mod Positions
pub mod Counting
pub mod Window
pub mod Activate
pub mod Packing
pub mod Shrink
pub mod Inactivate
pub mod Status
pub mod Sound
pub mod Kept
pub mod KeptTask
pub mod KeptGroup
pub mod KeptRemoval
pub mod Choice
pub mod Visited
pub mod Next
pub mod Pending
pub mod Tasks
pub mod Done
pub mod Run
pub mod Groups
pub mod SuspendAll
pub mod Marked
pub mod Steps
pub mod Stuck
mod Examples
