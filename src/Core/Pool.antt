-- ===== src/Core/Pool.antt =====
-- The part of struct cpool_core (pool/core/cpool_core_struct.h) that the services of the Core read
-- and change, and the tests of pool/core/cpool_core.h on it.
use libstpool.Base.{
  ℕ, ◌+◌, List, Option, none, some, Bool, true, false, not, ◌&&◌, ◌||◌, ◌==◌, if◌then◌else◌,
}
use libstpool.Cache.Defs.{SmCache}
use libstpool.Core.Threads.{Thread, Env, is_wait, find}

-- eEvent_F_xx
pub data Event : Type 0 where
  event_thread event_free event_core_suspend event_core_resume event_destroying event_shutdown :
      Event

-- struct cpool_core. `created` and `destroying` are bits of `status`, `dynamic` is one of `lflags`;
-- a notification may note its event in `events`, and `ths_broadcasts` counts those of
-- OSPX_pthread_cond_broadcast on `cond_ths`.
pub record Pool : Type 0 where
  pub env : Env
  pub maxthreads : ℕ
  pub minthreads : ℕ
  pub created : Bool
  pub destroying : Bool
  pub dynamic : Bool
  pub paused : Bool
  pub npendings : ℕ
  pub n_qdispatchs : ℕ
  pub limit_threads_create_per_time : ℕ
  pub gc_thread : Option ℕ
  pub event_free_notified : Bool
  pub cache_task : SmCache ℕ
  pub events : List Event
  pub ths_broadcasts : ℕ

-- The threads that all_donel expects not to wait: the one that does the GC, where it is waked up
-- and its status is not WAIT yet.
unfoldable pub gc_awake : Option Thread → ℕ
gc_awake none = 0
gc_awake (some t) = if not t.b_waked || is_wait t.status then 0 else 1

gc_structure : Pool → Option Thread
gc_structure p = elim p.gc_thread [ none ↦ none | some i ↦ find i p.env.ths ]

-- cpool_core_all_donel: the result; the flag `event_free_notified` is reset by `all_done_reset`.
unfoldable pub all_done : Pool → Bool
unfolding gc_awake gc_structure
all_done p =
    let e = p.env in
    (p.paused || p.npendings == 0)
    && (p.n_qdispatchs == 0
        && (if p.dynamic
            then e.nthreads_running == 0
            else e.n_qths == e.n_qths_wait + e.n_qths_waked + gc_awake (gc_structure p)))

unfoldable pub all_donel : Pool → Bool × Pool
unfolding all_done
all_donel p =
    let ok = all_done p in
    (ok, record p { event_free_notified = if ok then p.event_free_notified else false })

-- cpool_core_event_free_try_notifyl
unfoldable pub event_free_try_notifyl : (Event → Pool → Pool) → Pool → Pool
unfolding all_donel
event_free_try_notifyl notifyl p =
    let (ok, p') = all_donel p in
    if ok && not p'.event_free_notified
    then notifyl event_free (record p' { event_free_notified = true })
    else p'

-- cpool_core_need_ensure_servicesl
unfoldable pub need_ensure_servicesl : Pool → Bool
need_ensure_servicesl p =
    let e = p.env in
    e.nthreads_real_free == 0
    && (e.n_qths_waked == 0
        && (not (p.maxthreads == e.nthreads_real_pool) || not (e.n_qths_wait == 0)))
