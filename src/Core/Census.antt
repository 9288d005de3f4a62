-- ===== src/Core/Census.antt =====
-- How the counters of struct cpool_core (pool/core/cpool_core_struct.h) and the wait queue stand to
-- the list of the threads, and VERIFY of pool/core/cpool_core.c.
use libstpool.Base.{
  ℕ, ◌+◌, ◌-◌, ◌≤◌, ◌≡◌, List, [], ◌∷◌, Option, none, some, Bool, true, false, not, ◌&&◌, ◌||◌,
  ◌==◌, arith, if◌then◌else◌, length, leb, All, OnSome,
}
use libstpool.Core.Threads.{Thread, Env}
use libstpool.Core.Tally.{
  cnt, is_live, is_dying, is_running, is_dying_run, is_sleeping, is_free, is_waiting, is_waked,
  nothing, Tally,
}

-- How often a thread stands in the wait queue, is in the list, and waits there.
abbrev pub occ : ℕ → List ℕ → ℕ
occ i [] = 0
occ i (j ∷ js) = (if j == i then 1 else 0) + occ i js

abbrev pub named : ℕ → Thread → Bool
named i t = t.tid == i

abbrev pub waits_as : ℕ → Thread → Bool
waits_as i t = t.tid == i && is_waiting t

-- A thread is to go on exactly if it is not marked.
abbrev pub IsMarked : Thread → Type 0
IsMarked t = t.run ≡ not t.rm

pub record IsCensus (r w : ℕ) (e : Env) : Type 0 where
  pub tally : Tally (nothing r w) e e.ths
  pub size : e.n_qths ≡ length e.ths
  pub queued : (i : ℕ) → occ i e.ths_waitq ≡ cnt (waits_as i) e.ths
  pub unique : (i : ℕ) → cnt (named i) e.ths ≤ 1
  pub marks : All IsMarked e.ths

-- The three assertions of VERIFY.
unfoldable pub verify : Env → Option Thread → Bool
verify e self =
    leb e.n_qths (
      e.n_qths_wait
      + e.n_qths_waked
      + e.nthreads_running
      + (e.nthreads_dying - e.nthreads_dying_run)
      + e.nthreads_real_free)
    && (e.nthreads_real_pool
          == e.nthreads_real_sleeping
            + e.nthreads_real_free
            + (e.nthreads_running - e.nthreads_dying_run)
        && (leb e.n_qths_wait e.n_qths
            && (leb e.n_qths_waked e.n_qths && elim self [
              | none ↦ true
              | some t ↦ (not t.run && t.rm) || (t.run && not t.rm)
            ])))

-- Sums over the kinds of threads.
kinds :
    (ts : List Thread)
    → (length ts + cnt is_dying_run ts
        ≤ cnt is_waiting ts
          + cnt is_waked ts
          + cnt is_running ts
          + cnt is_dying ts
          + cnt is_free ts)
      × (cnt is_live ts + cnt is_dying_run ts
          ≡ cnt is_sleeping ts + cnt is_free ts + cnt is_running ts)
      × (cnt is_dying_run ts ≤ cnt is_running ts)
      × (cnt is_dying_run ts ≤ cnt is_dying ts)
      × (cnt is_waiting ts + cnt is_waked ts ≤ length ts)
kinds [] = omega arith
kinds (t ∷ ts) = ground (arith, kinds ts)

self_ok : (run rm : Bool) → run ≡ not rm → ((not run && rm) || (run && not rm)) ≡ true
self_ok run true e = rw e
self_ok run false e = rw e

-- Where the counters agree with the threads and the thread, if one is given, is to go on exactly
-- if it is not marked, the assertions of VERIFY hold.
pub IsCensus-verify :
    (e : Env) (self : Option Thread) → IsCensus 0 0 e → OnSome IsMarked self → verify e self ≡ true
unfolding verify
IsCensus-verify e none c m = ground (arith, c.tally, kinds e.ths, c.size)
IsCensus-verify e (some t) c m = ground (arith, c.tally, kinds e.ths, c.size, self_ok t.run t.rm m)
