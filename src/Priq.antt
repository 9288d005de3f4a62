-- ===== src/Priq.antt =====
-- The priority queue, pool/com/cpool_com_priq.h. A container keeps one list of tasks for each
-- class of priorities, first to be scheduled first, and the ready queue: the indices of the lists
-- that are not empty. The result `none` is a stop: an assertion that fails in a build without
-- NDEBUG, or an access out of bounds. `ndebug` says how the library was built.
pub mod Defs
pub mod Locate
pub mod Nice
pub mod Order
pub mod Ready
pub mod Serve
pub mod Inversion
pub mod Conserve
pub mod Size
pub mod Top
mod Examples
