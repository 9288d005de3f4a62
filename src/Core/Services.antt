-- ===== src/Core/Services.antt =====
-- cpool_core_ensure_servicesl, cpool_core_adjust_abs_l, cpool_core_suspendl and cpool_core_resume
-- of pool/core/cpool_core.c. `notifyl` is the method of the underlying pool, and `made` are the
-- threads that the system gives where the Core asks for some.
use libstpool.Base.{
  ℕ, ◌+◌, ◌-◌, List, [], ◌∷◌, Option, none, true, false, not, ◌&&◌, ◌||◌, ◌==◌, if◌then◌else◌, ltb,
  min, pos, negsuc,
}
use libstpool.Core.Threads.{Env}
use libstpool.Core.Wakeup.{wakeup_n_sleeping_threadsl}
use libstpool.Core.Grow.{add_threadsl, dec_threadsl}
use libstpool.Core.Pool.{Pool, Event, event_thread, event_core_suspend, event_core_resume}

-- The number of threads that are to be created.
unfoldable pub nthreads_to_create : Pool → ℕ → ℕ
nthreads_to_create p ntasks =
    let pending = if p.n_qdispatchs == 0 then ntasks else ntasks + 1 in
    let room = p.maxthreads - p.env.nthreads_real_pool in
    let n =
      if ltb p.limit_threads_create_per_time room then p.limit_threads_create_per_time else room in
    if ltb pending n then pending else n

unfoldable pub ensure_servicesl : Pool → Option ℕ → List (Option ℕ) → Pool
unfolding nthreads_to_create
ensure_servicesl p self made =
    let e = p.env in
    let ntasks = if p.paused then 0 else p.npendings in
    if not (e.n_qths_waked == 0)
      || (not (e.nthreads_real_free == 0) || (p.n_qdispatchs == 0 && ntasks == 0))
    then p
    else elim e.ths_waitq [
      | [] ↦
          if ltb e.nthreads_real_pool p.maxthreads
          then record p { env = (add_threadsl e self (nthreads_to_create p ntasks) made).1 }
          else p
      | i ∷ rest ↦ record p {
        env = wakeup_n_sleeping_threadsl e (pos (min 2 p.limit_threads_create_per_time));
      }
    ]

-- The threads after a change of the limits.
unfoldable pub adjusted : Pool → List (Option ℕ) → Env
adjusted p made =
    let e = p.env in
    if ltb e.nthreads_real_pool p.minthreads
    then (add_threadsl e none (p.minthreads - e.nthreads_real_pool) made).1
    else if ltb p.maxthreads e.nthreads_real_pool
    then (dec_threadsl e (e.nthreads_real_pool - p.maxthreads)).1
    else wakeup_n_sleeping_threadsl e (negsuc 0)

module _ (notifyl : Event → Pool → Pool) where
  -- As in a build with NDEBUG, without the assertion that maxthreads is at least 1 and minthreads
  -- not above it.
  unfoldable pub adjust_abs_l : Pool → ℕ → ℕ → List (Option ℕ) → Pool
  unfolding adjusted
  adjust_abs_l p maxthreads minthreads made =
      let p' =
        notifyl event_thread (record p { maxthreads = maxthreads; minthreads = minthreads }) in
      let e = adjusted p' made in
      if (not p.created && not p.destroying)
        || (p.destroying && (ltb 0 maxthreads || ltb 0 minthreads))
      then p
      else record p' { env = record e { nthreads_peak = e.nthreads_real_pool } }

  unfoldable pub suspendl : Pool → Pool
  suspendl p = if p.paused then p else notifyl event_core_suspend (record p { paused = true })

  unfoldable pub resume : Pool → List (Option ℕ) → Pool
  unfolding ensure_servicesl
  resume p made =
      let p' = notifyl event_core_resume (record p { paused = false }) in
      if p.paused && p.created
      then (if p'.npendings == 0 then p' else ensure_servicesl p' none made)
      else p
