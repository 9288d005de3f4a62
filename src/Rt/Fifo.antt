-- ===== src/Rt/Fifo.antt =====
-- Getting tasks from a runtime pool without priorities (pool/rt/cpool_rt_method.c,
-- pool/rt/cpool_rt_core_method.c).
use libstpool.Base.{
  ℕ, ◌-◌, ◌≤◌, ◌≡◌, refl, sym, ap, ◌∙◌, List, [], ◌∷◌, ◌++◌, Option, none, some, Bool, true, false,
  not, ◌&&◌, ◌||◌, ◌==◌, leb, arith, if_elim, length, map,
}
use libstpool.Task.{Task, no_stat}
use libstpool.Core.Threads.{normal}
use libstpool.Core.Pool.{need_ensure_servicesl}
use libstpool.Rt.Defs.{
  Rt, Got, got_task, core_notifyl, notify_core, get_dispatch_taskl, starts, sets_type, pop_task,
  gettask,
}
use libstpool.Rt.Pending.{run-pending, ensure_servicesl-pending}

-- A pool without priorities whose counter of pending tasks is right.
pub record IsPlain (r : Rt) : Type 0 where
  pub plain : r.priority ≡ false
  pub pending : r.core.npendings ≡ length r.ready_q

abbrev pub ids : List Task → List ℕ
ids = map (λ t. t.id)

-- The tasks to run that a thread gets.
abbrev pub ids_got : Got → List ℕ
ids_got (got_task t) = t.id ∷ []
ids_got _ = []

-- The call returns, with a result that has the property.
abbrev pub Returns : {A : Type 0} → (A → Type 0) → Option A → Type 0
Returns P none = ⊥
Returns P (some x) = P x

-- The pool is as before, less the tasks that were got.
pub record IsGot (r : Rt) (x : Got × Rt) : Type 0 where
  pub order : ids r.ready_q ≡ ids_got x.0 ++ ids x.1.ready_q
  pub plain : IsPlain x.1

-- The operations that do not touch the tasks.
pub record Same (r r' : Rt) : Type 0 where
  pub priority : r'.priority ≡ r.priority
  pub ready_q : r'.ready_q ≡ r.ready_q
  pub pending : r'.core.npendings ≡ r.core.npendings

pub Same-IsPlain : (r r' : Rt) → Same r r' → IsPlain r → IsPlain r'
Same-IsPlain r r' s p = record {
  plain = s.priority ∙ p.plain;
  pending = s.pending ∙ p.pending ∙ ap length (sym s.ready_q);
}

starts-Same : (r : Rt) (self : ℕ) (made : List (Option ℕ)) → Same r (starts r self made)
unfolding starts
starts-Same r self made =
    if_elim (Same r) r.core.dynamic
      (λ _. record {
        priority = refl;
        ready_q = refl;
        pending = run-pending core_notifyl r.core self made;
      })
      (λ _. record { priority = refl; ready_q = refl; pending = refl })

pub notify_core-Same : (r : Rt) (made : List (Option ℕ)) → Same r (notify_core r made)
unfolding notify_core
notify_core-Same r made =
    if_elim (Same r) r.core.dynamic
      (λ _.
        if_elim (Same r) (need_ensure_servicesl r.core && not r.core.paused)
          (λ _. record {
            priority = refl;
            ready_q = refl;
            pending = ensure_servicesl-pending r.core none made;
          })
          (λ _. same))
      (λ _.
        if_elim (Same r) (not (r.core.env.n_qths_wait == 0) && not r.core.paused)
          (λ _. record { priority = refl; ready_q = refl; pending = refl }) (λ _. same))
  where
    same : Same r r
    same = record { priority = refl; ready_q = refl; pending = refl }

started-IsGot :
    (r s : Rt) (t : Task) (self : ℕ) (made : List (Option ℕ))
    → ids r.ready_q ≡ t.id ∷ ids s.ready_q
    → IsPlain s
    → IsGot r (
      got_task (record t { f_stat = record no_stat { scheduling = true } }),
      sets_type normal self (starts s self made),
    )
unfolding sets_type
started-IsGot r s t self made e p =
    let same = starts-Same s self made in
    record {
      order = e ∙ ap (λ q. t.id ∷ ids q) (sym same.ready_q);
      plain =
          let q = Same-IsPlain s (starts s self made) same p in
          record { plain = q.plain; pending = q.pending };
    }

pub not_both : (b : Bool) → b ≡ true → b ≡ false → ⊥
not_both b h k = ground arith

dispatch-Same : (r : Rt) → Same r (get_dispatch_taskl r).1
unfolding get_dispatch_taskl
dispatch-Same r =
    if_elim (λ (x : List Task × Rt). Same r x.1) (leb r.core.n_qdispatchs r.n)
      (λ _. record { priority = refl; ready_q = refl; pending = refl })
      (λ _. record { priority = refl; ready_q = refl; pending = refl })

pub gettask-IsGot :
    (ndebug : Bool) (r : Rt) (self : ℕ) (made : List (Option ℕ))
    → IsPlain r
    → Returns (IsGot r) (gettask ndebug r self made)
unfolding gettask pop_task sets_type
gettask-IsGot ndebug r self made p =
    if_elim (Returns (IsGot r)) (not (r.core.n_qdispatchs == 0))
      (λ _.
        let r' = (get_dispatch_taskl r).1 in
        let same = starts-Same r' self made in
        let first = dispatch-Same r in
        let q = Same-IsPlain r' (starts r' self made) same (Same-IsPlain r r' first p) in
        record {
          order = ap ids (sym (same.ready_q ∙ first.ready_q));
          plain = record { plain = q.plain; pending = q.pending };
        })
      (λ _.
        if_elim (Returns (IsGot r)) (r.core.paused || r.core.npendings == 0)
          (λ _. record { order = refl; plain = p })
          (λ some_pending.
            if_elim (λ (o : Option (Task × Rt)). Returns (IsGot r) (runs o)) r.priority
              (λ h. absurd (not_both r.priority h p.plain))
              (λ _. on_queue r.ready_q refl (ground arith))))
  where
    runs : Option (Task × Rt) → Option (Got × Rt)
    runs none = none
    runs (some (t, s)) = some (
      got_task (record t { f_stat = record no_stat { scheduling = true } }),
      sets_type normal self (starts s self made),
    )

    on_queue :
        (q : List Task)
        → r.ready_q ≡ q
        → 1 ≤ r.core.npendings
        → Returns (IsGot r) (
            runs (elim q as (λ _. Option (Task × Rt)) [
              | [] ↦ none
              | t ∷ rest ↦ some (
                t,
                record r {
                  core = record r.core { npendings = r.core.npendings - 1 };
                  ready_q = rest;
                },
              )
            ]))
    on_queue [] e h = absurd (omega (arith, p.pending, ap length e))
    on_queue (t ∷ rest) e h =
        started-IsGot r
          (record r { core = record r.core { npendings = r.core.npendings - 1 }; ready_q = rest }) t
          self made (ap ids e)
          (record { plain = p.plain; pending = omega (arith, p.pending, ap length e) })
