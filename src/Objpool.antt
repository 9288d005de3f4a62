-- ===== src/Objpool.antt =====
-- The object pool, pool/core/objpool.h and pool/core/objpool.c: its blocks, in the order of their
-- addresses.
pub mod Search
mod Examples
