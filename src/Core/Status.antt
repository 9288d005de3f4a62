-- ===== src/Core/Status.antt =====
-- cpool_core_thread_status_changel of pool/core/cpool_core_thread_status.h, with
-- cpool_core_objs_local_flushl of pool/core/cpool_core.h, as in a build with NDEBUG, without their
-- assertions on the status of the thread and on the counters.
use libstpool.Base.{
  ℕ, ◌+◌, ◌-◌, List, [], ◌∷◌, Option, none, some, Bool, true, false, not, ◌&&◌, ◌||◌, ◌==◌,
  if◌then◌else◌, ltb, leb,
}
use libstpool.Cache.Defs.{is_own, empty_q, smcache_add_ql_dir}
use libstpool.Core.Threads.{
  Thread, ThreadStat, initial, join, wait, run, complete, timedout, free, force_quit, leave,
  is_wait, Env, find, modify, remove, unqueue,
}
use libstpool.Core.Pool.{Pool, Event, event_free_try_notifyl}
use libstpool.Core.Services.{ensure_servicesl}

abbrev pub store : ℕ → (Thread → Thread) → Env → Env
store i f e = record e { ths = modify i f e.ths }

-- cpool_core_objs_local_flushl: only a queue that has objects is given to the cache, and it is
-- reset where the cache has a lock of its own.
unfoldable pub flushed : Bool → Thread → Thread
unfolding empty_q
flushed own t = record t {
  flush = false;
  qcache = if own && not (t.qcache.n == 0) then empty_q else t.qcache;
}

unfoldable pub local_flushl : Thread → Pool → Pool
unfolding flushed smcache_add_ql_dir
local_flushl t p = record p {
  cache_task = if t.qcache.n == 0 then p.cache_task else smcache_add_ql_dir p.cache_task t.qcache;
  env = store t.tid (flushed (is_own p.cache_task.lock)) p.env;
}

abbrev sleeps : Thread → Thread
sleeps t = record t { b_waked = false }

abbrev retires : Thread → Thread
retires t = record t { rm = true }

abbrev stops : Thread → Thread
stops t = record t { run = false }

-- The counters of a thread that goes to sleep; it is linked to the head of the wait queue.
unfoldable pub count_wait : Thread → Env → Env
count_wait t e = if t.rm then e else record e {
  nthreads_real_free = e.nthreads_real_free - 1;
  nthreads_real_sleeping = e.nthreads_real_sleeping + 1;
}

unfoldable pub link_wait : ℕ → Env → Env
link_wait i e = record e {
  ths = modify i sleeps e.ths;
  ths_waitq = i ∷ e.ths_waitq;
  n_qths_wait = e.n_qths_wait + 1;
}

-- The thread may leave: it has waited long enough in a pool with more threads than it needs.
unfoldable pub may_retire : Pool → Thread → Bool
may_retire p t =
    (not t.rm && not t.gc)
    && ((ltb p.minthreads p.env.nthreads_real_pool && p.n_qdispatchs == 0)
        && ((p.npendings == 0 || p.paused)
            && (ltb p.env.now p.env.crttime || leb (p.env.crttime + 4) p.env.now)))

unfoldable pub unlink_wait : Thread → Env → Env
unlink_wait t e =
    if t.b_waked
    then e
    else record e { ths_waitq = unqueue t.tid e.ths_waitq; n_qths_wait = e.n_qths_wait - 1 }

unfoldable pub retire : Thread → Env → Env
retire t e = record e {
  ths = modify t.tid retires e.ths;
  nthreads_dying = e.nthreads_dying + 1;
  nthreads_real_pool = e.nthreads_real_pool - 1;
}

unfoldable pub force_out : Thread → Env → Env
force_out t e = if t.rm then e else record e {
  ths = modify t.tid (λ u. stops (retires u)) e.ths;
  nthreads_dying = e.nthreads_dying + 1;
  nthreads_real_pool = e.nthreads_real_pool - 1;
  nthreads_real_free = e.nthreads_real_free - 1;
}

unfoldable pub count_run : Thread → Env → Env
count_run t e =
    if t.rm
    then record e {
      nthreads_running = e.nthreads_running + 1;
      nthreads_dying_run = e.nthreads_dying_run + 1;
    }
    else record e {
      nthreads_running = e.nthreads_running + 1;
      nthreads_real_free = e.nthreads_real_free - 1;
    }

unfoldable pub count_complete : Thread → Env → Env
count_complete t e =
    if not t.rm && not t.gc
    then record e {
      nthreads_running = e.nthreads_running - 1;
      nthreads_real_free = e.nthreads_real_free + 1;
    }
    else if t.rm
    then record e {
      nthreads_running = e.nthreads_running - 1;
      nthreads_dying_run = e.nthreads_dying_run - 1;
    }
    else record e { nthreads_running = e.nthreads_running - 1 }

-- The threads and their counters after a thread has left.
unfoldable pub unlink_leave : Thread → Env → Env
unlink_leave t e = record e {
  ths = remove t.tid e.ths;
  n_qths = e.n_qths - 1;
  crttime = e.now;
  nthreads_dying = if t.rm then e.nthreads_dying - 1 else e.nthreads_dying;
}

abbrev pub no_threads : List Thread → Bool
no_threads [] = true
no_threads (t ∷ ts) = false

abbrev pub last_left : Thread → Env → Bool
last_left t e = if t.rm then e.nthreads_dying == 0 else no_threads e.ths

-- The test before cpool_core_ensure_servicesl
unfoldable pub ensure_if_needed : Pool → ℕ → List (Option ℕ) → Pool
unfolding ensure_servicesl
ensure_if_needed p i made =
    if p.env.nthreads_real_free == 0 && (p.env.n_qths_waked == 0 && not (p.npendings == 0))
    then ensure_servicesl p (some i) made
    else p

-- What follows the switch where the thread has waited so far.
unfoldable pub count_awake : Thread → Env → Env
count_awake t e = if t.b_waked then record e { n_qths_waked = e.n_qths_waked - 1 } else e

unfoldable pub rejoin : Thread → Env → Env
rejoin t e =
    if t.rm
    then record e {
      ths = modify t.tid stops e.ths;
      nthreads_real_sleeping = e.nthreads_real_sleeping - 1;
    }
    else record e {
      nthreads_real_sleeping = e.nthreads_real_sleeping - 1;
      nthreads_real_free = e.nthreads_real_free + 1;
    }

unfoldable pub after_wait : Pool → Thread → List (Option ℕ) → Pool
unfolding count_awake rejoin ensure_if_needed
after_wait p t made =
    let awake = record p { env = count_awake t p.env } in
    if t.rm && not t.run
    then ensure_if_needed awake t.tid made
    else record awake { env = rejoin t awake.env }

unfoldable pub leave_wait : Pool → ℕ → List (Option ℕ) → Pool
unfolding after_wait
leave_wait p i made = elim (find i p.env.ths) [
  | none ↦ p
  | some t ↦ if is_wait t.status then after_wait p t made else p
]

module _ (notifyl : Event → Pool → Pool) where
  -- The switch over the new status.
  unfoldable pub enter : Pool → Thread → ThreadStat → List (Option ℕ) → Pool
  unfolding local_flushl count_wait link_wait may_retire unlink_wait retire force_out count_run
      count_complete unlink_leave ensure_if_needed event_free_try_notifyl
  enter p t initial made = p
  enter p t join made = p
  enter p t wait made =
      let p' = local_flushl t (record p { env = count_wait t p.env }) in
      event_free_try_notifyl notifyl (record p' { env = link_wait t.tid p'.env })
  enter p t timedout made =
      let e = unlink_wait t p.env in record p { env = if may_retire p t then retire t e else e }
  enter p t force_quit made = record p { env = force_out t p.env }
  enter p t run made = ensure_if_needed (record p { env = count_run t p.env }) t.tid made
  enter p t complete made = record p { env = count_complete t p.env }
  enter p t free made = p
  enter p t leave made =
      let e = unlink_leave t p.env in
      let p' = local_flushl t (record p {
        env = e;
        ths_broadcasts = p.ths_broadcasts + (if last_left t e then 1 else 0);
        gc_thread = if t.gc then none else p.gc_thread;
      }) in
      event_free_try_notifyl notifyl p'

  -- The whole function, for the thread of this number.
  unfoldable pub status_changel : Pool → ℕ → ThreadStat → List (Option ℕ) → Pool
  unfolding enter leave_wait
  status_changel p i status made = elim (find i p.env.ths) [
    | none ↦ p
    | some t ↦
        let p' = leave_wait (enter p t status made) i made in
        record p' { env = store i (λ u. record u { status = status }) p'.env }
  ]
