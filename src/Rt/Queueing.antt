-- ===== src/Rt/Queueing.antt =====
-- cpool_rt_task_queue of pool/rt/cpool_rt_method.c in a pool without priorities.
use mathlib.Core.List.{append-nil}
use libstpool.Base.{
  ℕ, ◌+◌, ◌≡◌, refl, sym, ap, ◌∙◌, List, [], ◌∷◌, ◌++◌, Option, none, some, Bool, true, false, not,
  ◌&&◌, ◌||◌, arith, if◌then◌else◌, if_elim, length-append,
}
use libstpool.Task.{Task, is_zero_stat}
use libstpool.Priq.Defs.{nice_preprocess}
use libstpool.Rt.Defs.{
  Rt, QueueResult, accepted, is_accepted, preprocessed, queue_preprocess, link_task, notify_core,
  queue_linked, task_queue,
}
use libstpool.Rt.Fifo.{IsPlain, ids, Returns, Same, Same-IsPlain, notify_core-Same, not_both}

-- The task joins the queue: it is not in progress, and nothing forbids it.
abbrev pub joins : Rt → Task → Bool
joins r t = is_zero_stat t.f_stat && is_accepted (preprocessed r t).0

abbrev pub ids_joined : Rt → Task → List ℕ
ids_joined r t = if joins r t then t.id ∷ [] else []

-- The pool is as before, with the task at the end if it joins.
pub record IsQueued (r : Rt) (t : Task) (x : QueueResult × Task × Rt) : Type 0 where
  pub order : ids x.2.ready_q ≡ ids r.ready_q ++ ids_joined r t
  pub plain : IsPlain x.2

pub ids-append : (q : List Task) (t : Task) → ids (q ++ t ∷ []) ≡ ids q ++ t.id ∷ []
ids-append [] t = refl
ids-append (x ∷ q) t = ap (λ is. x.id ∷ is) (ids-append q t)

preprocess_id : (r : Rt) (t : Task) → (preprocessed r t).1.id ≡ t.id
unfolding preprocessed nice_preprocess
preprocess_id r t = ground arith

kept-IsQueued :
    (r : Rt) (t u : Task) (e : QueueResult) → joins r t ≡ false → IsPlain r → IsQueued r t (e, u, r)
kept-IsQueued r t u e j p = record { order = rw j (sym (append-nil (ids r.ready_q))); plain = p }

linked-IsQueued :
    (ndebug : Bool) (r : Rt) (t u : Task) (made : List (Option ℕ))
    → joins r t ≡ true
    → u.id ≡ t.id
    → IsPlain r
    → Returns (IsQueued r t) (queue_linked ndebug r u made)
unfolding queue_linked link_task
linked-IsQueued ndebug r t u made j i p =
    if_elim (λ (o : Option Rt). Returns (IsQueued r t) (told o)) r.priority
      (λ h. absurd (not_both r.priority h p.plain))
      (λ _. record {
        order =
            ap ids same.ready_q
            ∙ ids-append r.ready_q u
            ∙ ap (λ k. ids r.ready_q ++ k ∷ []) i
            ∙ ap (λ b. ids r.ready_q ++ (if b then t.id ∷ [] else [])) (sym j);
        plain = Same-IsPlain linked (notify_core linked made) same (record {
          plain = p.plain;
          pending = omega (arith, p.pending, length-append r.ready_q (u ∷ []));
        });
      })
  where
    told : Option Rt → Option (QueueResult × Task × Rt)
    told none = none
    told (some r') = some (accepted, u, notify_core r' made)

    linked : Rt
    linked = record r {
      core = record r.core { npendings = r.core.npendings + 1 };
      ready_q = r.ready_q ++ u ∷ [];
    }

    same : Same linked (notify_core linked made)
    same = notify_core-Same linked made

pub task_queue-IsQueued :
    (r : Rt) (t : Task) (made : List (Option ℕ))
    → IsPlain r
    → Returns (IsQueued r t) (task_queue true r t made)
unfolding task_queue queue_preprocess
task_queue-IsQueued r t made p =
    if_elim (Returns (IsQueued r t)) (progress && (t.f_stat.waiting || t.f_stat.wpending))
      (λ h. kept-IsQueued r t t accepted (in_progress h) p)
      (λ _.
        if_elim (Returns (IsQueued r t)) (not (is_accepted pre.0))
          (λ h. kept-IsQueued r t (record pre.1 { f_stat = t.f_stat }) pre.0 (refused h) p)
          (λ ok.
            if_elim (Returns (IsQueued r t)) progress
              (λ h. kept-IsQueued r t pre.1 accepted (again h) p)
              (λ h. linked-IsQueued true r t pre.1 made (joined ok h) (preprocess_id r t) p)))
  where
    progress : Bool
    progress = not (is_zero_stat t.f_stat)

    pre : QueueResult × Task
    pre = preprocessed r t

    again : progress ≡ true → joins r t ≡ false
    again h = ground arith

    in_progress : (progress && (t.f_stat.waiting || t.f_stat.wpending)) ≡ true → joins r t ≡ false
    in_progress h = again (ground arith)

    refused : not (is_accepted pre.0) ≡ true → joins r t ≡ false
    refused h = ground arith

    joined : not (is_accepted pre.0) ≡ false → progress ≡ false → joins r t ≡ true
    joined h k = ground arith
