-- ===== src/Rt/Pending.antt =====
-- The number of pending tasks of a runtime pool (pool/rt/cpool_rt_core_method.c) where the Core
-- calls for threads and where a thread begins to run.
use libstpool.Base.{
  ℕ, ◌≡◌, refl, ◌∙◌, List, [], ◌∷◌, Option, none, some, not, ◌&&◌, ◌||◌, ◌==◌, ltb, if◌then◌else◌,
  if_elim, min, pos,
}
use libstpool.Core.Threads.{run, complete, find, Thread, is_wait}
use libstpool.Core.Wakeup.{wakeup_n_sleeping_threadsl}
use libstpool.Core.Grow.{add_threadsl}
use libstpool.Core.Pool.{Pool, Event}
use libstpool.Core.Services.{ensure_servicesl, nthreads_to_create}
use libstpool.Core.Status.{
  status_changel, leave_wait, after_wait, ensure_if_needed, enter, store, count_awake, count_run,
}

-- Calls for threads do not change the number of pending tasks.
abbrev pub SamePending : Pool → Pool → Type 0
SamePending p p' = p'.npendings ≡ p.npendings

pub ensure_servicesl-pending :
    (p : Pool) (self : Option ℕ) (made : List (Option ℕ))
    → SamePending p (ensure_servicesl p self made)
unfolding ensure_servicesl
ensure_servicesl-pending p self made =
    if_elim (SamePending p)
      (not (p.env.n_qths_waked == 0)
        || (not (p.env.nthreads_real_free == 0)
            || (p.n_qdispatchs == 0 && (if p.paused then 0 else p.npendings) == 0)))
      (λ _. refl) (λ _. on_queue p.env.ths_waitq)
  where
    on_queue :
        (q : List ℕ)
        → SamePending p (elim q as (λ _. Pool) [
          | [] ↦
              if ltb p.env.nthreads_real_pool p.maxthreads
              then record p {
                env =
                    (add_threadsl p.env self
                      (nthreads_to_create p (if p.paused then 0 else p.npendings))
                      made).1;
              }
              else p
          | j ∷ rest ↦ record p {
            env = wakeup_n_sleeping_threadsl p.env (pos (min 2 p.limit_threads_create_per_time));
          }
        ])
    on_queue [] =
        if_elim (SamePending p) (ltb p.env.nthreads_real_pool p.maxthreads) (λ _. refl) (λ _. refl)
    on_queue (j ∷ rest) = refl

ensure_if_needed-pending :
    (p : Pool) (i : ℕ) (made : List (Option ℕ)) → SamePending p (ensure_if_needed p i made)
unfolding ensure_if_needed
ensure_if_needed-pending p i made =
    if_elim (SamePending p)
      (p.env.nthreads_real_free == 0 && (p.env.n_qths_waked == 0 && not (p.npendings == 0)))
      (λ _. ensure_servicesl-pending p (some i) made) (λ _. refl)

leave_wait-pending :
    (p : Pool) (i : ℕ) (made : List (Option ℕ)) → SamePending p (leave_wait p i made)
unfolding leave_wait after_wait
leave_wait-pending p i made = on_found (find i p.env.ths)
  where
    on_found :
        (o : Option Thread)
        → SamePending p (elim o as (λ _. Pool) [
          | none ↦ p
          | some t ↦ if is_wait t.status then after_wait p t made else p
        ])
    on_found none = refl
    on_found (some t) =
        if_elim (SamePending p) (is_wait t.status)
          (λ _.
            if_elim (SamePending p) (t.rm && not t.run)
              (λ _. ensure_if_needed-pending (record p { env = count_awake t p.env }) t.tid made)
              (λ _. refl))
          (λ _. refl)

pub run-pending :
    (notifyl : Event → Pool → Pool) (p : Pool) (i : ℕ) (made : List (Option ℕ))
    → SamePending p (status_changel notifyl p i run made)
unfolding status_changel enter
run-pending notifyl p i made = on_found (find i p.env.ths)
  where
    on_found :
        (o : Option Thread)
        → SamePending p (elim o as (λ _. Pool) [
          | none ↦ p
          | some t ↦
              let p' = leave_wait (enter notifyl p t run made) i made in
              record p' { env = store i (λ u. record u { status = run }) p'.env }
        ])
    on_found none = refl
    on_found (some t) =
        leave_wait-pending (enter notifyl p t run made) i made
        ∙ ensure_if_needed-pending (record p { env = count_run t p.env }) t.tid made

pub complete-pending :
    (notifyl : Event → Pool → Pool) (p : Pool) (i : ℕ) (made : List (Option ℕ))
    → SamePending p (status_changel notifyl p i complete made)
unfolding status_changel enter
complete-pending notifyl p i made = on_found (find i p.env.ths)
  where
    on_found :
        (o : Option Thread)
        → SamePending p (elim o as (λ _. Pool) [
          | none ↦ p
          | some t ↦
              let p' = leave_wait (enter notifyl p t complete made) i made in
              record p' { env = store i (λ u. record u { status = complete }) p'.env }
        ])
    on_found none = refl
    on_found (some t) = leave_wait-pending (enter notifyl p t complete made) i made
