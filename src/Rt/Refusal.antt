-- ===== src/Rt/Refusal.antt =====
-- When cpool_rt_task_queue of pool/rt/cpool_rt_method.c refuses a task, and what it leaves.
use libstpool.Base.{
  ℕ, ◌≡◌, refl, List, Option, none, some, Bool, true, false, not, ◌&&◌, ◌||◌, ◌==◌, arith,
  if◌then◌else◌, if_elim, OnSome,
}
use libstpool.Task.{Task, is_zero_stat}
use libstpool.Rt.Defs.{
  Rt, QueueResult, accepted, is_accepted, preprocessed, queue_preprocess, may_queue, may_preprocess,
  link_task, notify_core, queue_linked, task_queue,
}

-- A refused call leaves the pool and the status of the task; it is made while the task is not
-- queued yet and the pool is being destroyed, the task is disabled or the throttle is on.
abbrev pub IsRefusal : Rt → Task → QueueResult × Task × Rt → Type 0
IsRefusal r t (e, u, r') =
    is_accepted e ≡ false
    → (r' ≡ r)
      × (u.f_stat ≡ t.f_stat)
      × ((t.f_stat.waiting || t.f_stat.wpending) ≡ false)
      × ((r.core.destroying || (t.f_vmflags.disable_queue || r.throttle_on)) ≡ true)

linked-IsRefusal :
    (ndebug : Bool) (r : Rt) (t u : Task) (made : List (Option ℕ))
    → OnSome (IsRefusal r t) (queue_linked ndebug r u made)
unfolding queue_linked
linked-IsRefusal ndebug r t u made = on_linked (link_task ndebug r u)
  where
    on_linked :
        (o : Option Rt)
        → OnSome (IsRefusal r t) (elim o as (λ _. Option (QueueResult × Task × Rt)) [
          | none ↦ none
          | some r' ↦ some (accepted, u, notify_core r' made)
        ])
    on_linked none = tt
    on_linked (some r') = λ h. cc

forbidden :
    (r : Rt) (t : Task)
    → is_accepted (preprocessed r t).0 ≡ false
    → (r.core.destroying || (t.f_vmflags.disable_queue || r.throttle_on)) ≡ true
unfolding preprocessed
forbidden r t h = ground arith

-- Where cpool_rt_task_queue returns an error, the pool and the status of the task are as before,
-- the task was not queued or to be queued again, and the pool is being destroyed, the task is
-- disabled or the throttle is on.
pub task_queue-IsRefusal :
    (ndebug : Bool) (r : Rt) (t : Task) (made : List (Option ℕ))
    → OnSome (IsRefusal r t) (task_queue ndebug r t made)
unfolding task_queue queue_preprocess
task_queue-IsRefusal ndebug r t made =
    if_elim Ends (not (ndebug || may_queue t)) (λ _. tt)
      (λ _.
        if_elim Ends (progress && (t.f_stat.waiting || t.f_stat.wpending)) (λ _ h. cc)
          (λ k.
            if_elim (λ o. Ends (after o)) (ndebug || (may_preprocess t && classes))
              (λ _.
                if_elim Ends (not (is_accepted pre.0))
                  (λ no _. (refl, refl, not_queued k, forbidden r t (ground arith)))
                  (λ _.
                    if_elim Ends progress (λ _ h. cc)
                      (λ _. linked-IsRefusal ndebug r t pre.1 made)))
              (λ _. tt)))
  where
    Ends : Option (QueueResult × Task × Rt) → Type 0
    Ends = OnSome (IsRefusal r t)

    progress : Bool
    progress = not (is_zero_stat t.f_stat)

    pre : QueueResult × Task
    pre = preprocessed r t

    classes : Bool
    classes = not (is_accepted pre.0) || (r.c.priq_num == 0 || r.priority)

    after : Option (QueueResult × Task) → Option (QueueResult × Task × Rt)
    after none = none
    after (some (e, u)) =
        if not (is_accepted e)
        then some (e, record u { f_stat = t.f_stat }, r)
        else if progress
        then some (accepted, u, r)
        else queue_linked ndebug r u made

    not_queued :
        (progress && (t.f_stat.waiting || t.f_stat.wpending)) ≡ false
        → (t.f_stat.waiting || t.f_stat.wpending) ≡ false
    not_queued k = ground arith
