-- ===== src/Gp/Finishing.antt =====
-- The counters of pool/gp where a task has run: pool/gp/cpool_gp_core_method.c.
use libstpool.Base.{
  ℕ, ◌+◌, ◌-◌, ◌≤◌, ◌≡◌, refl, ◌∙◌, List, Option, some, Bool, true, ◌&&◌, arith, if_elim, get_elem?,
  modify_at,
}
use libstpool.Task.{Task}
use libstpool.Core.Threads.{find}
use libstpool.Rt.Pending.{complete-pending}
use libstpool.Gp.Defs.{Entry, Gp, on_entry}
use libstpool.Gp.Ops.{
  ignores, is_normal, ran, gains, eff_gained, after_run, was_dispatched, untraced, forget,
  completes, settle,
}
use libstpool.Gp.Balance.{
  IsServed, IsBalanced, get_elem?-modify_at, modify_at-modify_at, store-IsBalanced,
}
use libstpool.Gp.Ruling.{recount}

module _ (g : Gp) (e : Entry) (found : get_elem? g.entry e.id ≡ some e) (b : IsBalanced g) where
  served : IsServed e.id e
  served = b.served e.id e found

  after_run-IsBalanced : 1 ≤ e.nrunnings → IsBalanced (after_run g e)
  unfolding after_run
  after_run-IsBalanced h =
      if_elim IsBalanced (gains (ran e))
        (λ k.
          store-IsBalanced g
            (record (on_entry e.id eff_gained (on_entry e.id ran g)) {
              core = record g.core { npendings = g.core.npendings + 1 };
            })
            e.id (λ x. eff_gained (ran x)) e found (modify_at-modify_at e.id ran eff_gained g.entry)
            (recount e.id e (eff_gained (ran e)) served refl refl refl refl
              (λ r p. ground (arith, served.limited r p)) (λ r p. ground arith))
            refl (ground arith) b)
        (λ k.
          store-IsBalanced g (on_entry e.id ran g) e.id ran e found refl
            (recount e.id e (ran e) served refl refl refl refl
              (λ r p. ground (arith, served.limited r p)) served.idle)
            refl refl b)

  pub settle-IsBalanced :
      (self : ℕ)
      → (is_normal (find self g.core.env.ths) ≡ true → 1 ≤ e.nrunnings)
      → IsBalanced (settle g self e)
  unfolding settle
  settle-IsBalanced self h =
      if_elim IsBalanced (is_normal (find self g.core.env.ths)) (λ n. after_run-IsBalanced (h n))
        (λ _.
          store-IsBalanced g
            (record (on_entry e.id was_dispatched g) { ndispatchings = g.ndispatchings - 1 }) e.id
            was_dispatched e found refl
            (recount e.id e (was_dispatched e) served refl refl refl refl served.limited
              served.idle)
            refl refl b)

-- The record of the task is given up, whatever has been stored to its group.
pub forget-IsBalanced :
    (g : Gp) (e y : Entry) (unreferenced : Bool) (t : Task)
    → get_elem? g.entry e.id ≡ some y
    → IsBalanced g
    → IsBalanced (forget unreferenced g e t)
forget-IsBalanced g e y u t found b =
    if_elim IsBalanced (t.f_vmflags.cache && u)
      (λ _. record { pending = x.pending; counted = x.counted; served = x.served }) (λ _. x)
  where
    v : IsServed e.id y
    v = b.served e.id y found

    x : IsBalanced (record (on_entry e.id untraced g) { n_qtraces = g.n_qtraces - 1 })
    x =
        store-IsBalanced g (record (on_entry e.id untraced g) { n_qtraces = g.n_qtraces - 1 }) e.id
          untraced y found refl (recount e.id y (untraced y) v refl refl refl refl v.limited v.idle)
          refl refl b

-- The group as settle leaves it
pub settle-found :
    (g : Gp) (self : ℕ) (e : Entry)
    → get_elem? g.entry e.id ≡ some e
    → (y : Entry) × (get_elem? (settle g self e).entry e.id ≡ some y)
unfolding settle after_run
settle-found g self e found =
    if_elim Found (is_normal (find self g.core.env.ths))
      (λ _.
        if_elim Found (gains (ran e))
          (λ _. (
            eff_gained (ran e),
            get_elem?-modify_at e.id eff_gained (modify_at e.id ran g.entry) (ran e)
                (get_elem?-modify_at e.id ran g.entry e found),
          ))
          (λ _. (ran e, get_elem?-modify_at e.id ran g.entry e found)))
      (λ _. (was_dispatched e, get_elem?-modify_at e.id was_dispatched g.entry e found))
  where
    Found : Gp → Type 0
    Found h = (y : Entry) × (get_elem? h.entry e.id ≡ some y)

pub completes-IsBalanced :
    (g : Gp) (self : ℕ) (made : List (Option ℕ)) → IsBalanced g → IsBalanced (completes g self made)
completes-IsBalanced g self made b = record {
  pending = b.pending;
  counted = complete-pending ignores g.core self made ∙ b.counted;
  served = b.served;
}
