-- ===== src/Gp/KeptGroup.antt =====
-- The window and the marks of pool/gp/cpool_gp_entry.h where a group is resumed, gets other
-- attributes or loses a task, and where a task has run.
use libstpool.Base.{
  ℕ, ◌+◌, ◌≡◌, refl, ◌∙◌, Option, some, Bool, true, false, ◌&&◌, ◌||◌, ◌==◌, arith, if_elim,
  get_elem?,
}
use libstpool.Task.{Task}
use libstpool.Core.Threads.{find}
use libstpool.Gp.Defs.{Entry, Gp, on_entry, activel}
use libstpool.Gp.Ops.{
  is_normal, ran, gains, eff_gained, after_run, was_dispatched, untraced, forget, settle,
}
use libstpool.Gp.Admin.{
  Attr, given, attributed, paused_as, resumed, eff_limited, effective, core_counts, set_attrl,
}
use libstpool.Gp.Balance.{get_elem?-modify_at}
use libstpool.Gp.Positions.{index_at-modify_at}
use libstpool.Gp.Places.{activel-Kin}
use libstpool.Gp.Window.{is_ready}
use libstpool.Gp.Activate.{IsOpen, activel-IsOpen}
use libstpool.Gp.Status.{keep-Windowed, keep-IsOpen, Kin-flag, activel-actives}
use libstpool.Gp.Sound.{found-lt, found-flag, found-index, Opens}
use libstpool.Gp.Kept.{
  flag_at-other, flag_at-here, store-IsStatus, found-status, found-in, keep-Opens,
}

module _ (g : Gp) (e : Entry) (found : get_elem? g.entry e.id ≡ some e) (o : Opens g) where
  unpaused-IsOpen : IsOpen (on_entry e.id (paused_as false) g)
  unpaused-IsOpen = (
    keep-Windowed g e.id (paused_as false) (λ y. refl) (λ y. refl) o.0.0,
    λ k l h. ground (
      arith,
      o.0.1 k l,
      flag_at-here (λ x. x.paused) g.entry e.id (paused_as false) e found,
      flag_at-other (λ x. x.paused) g.entry e.id k (paused_as false),
      index_at-modify_at g.entry e.id k (paused_as false) (λ x. refl),
    ),
  )

  -- A paused group is resumed.
  pub resumed-Opens : e.paused ≡ true → Opens (resumed g e)
  unfolding resumed
  resumed-Opens p =
      if_elim Opens (e.npendings == 0)
        (λ z. (
          unpaused-IsOpen,
          store-IsStatus g.entry e.id (paused_as false) e found (ground (arith, mark)) o.1,
        ))
        (λ z. (
          activel-IsOpen g3 e open3 (omega (arith, found-in g e.id e found o.0))
              (index_at-modify_at g1.entry e.id e.id eff_limited (λ x. refl)
                ∙ index_at-modify_at g.entry e.id e.id (paused_as false) (λ x. refl)
                ∙ found-index g.entry e.id e found)
              (found-flag (λ x. x.active) g3.entry e.id y there ∙ ground (arith, mark))
              (found-flag (λ x. x.paused) g3.entry e.id y there),
          λ k. ground (
            arith,
            activel-actives g3 e k (found-lt g3.entry e.id y there),
            Kin-flag is_ready g3 (activel g3 e) k (λ x. refl) (activel-Kin g3 e),
            found-flag is_ready g3.entry e.id y there,
            flag_at-other is_ready g1.entry e.id k eff_limited,
            flag_at-other is_ready g.entry e.id k (paused_as false),
            flag_at-other (λ x. x.active) g1.entry e.id k eff_limited,
            flag_at-other (λ x. x.active) g.entry e.id k (paused_as false),
            o.1 k,
          ),
        ))
    where
      mark : e.active ≡ is_ready e
      mark = found-status g.entry e.id e found o.1

      g1 : Gp
      g1 = on_entry e.id (paused_as false) g

      g3 : Gp
      g3 =
          let g2 = record (on_entry e.id eff_limited g1) {
            npendings = g1.npendings + e.npendings;
          } in
          core_counts (g2.core.npendings + effective (eff_limited e)) g2

      y : Entry
      y = eff_limited (paused_as false e)

      there : get_elem? g3.entry e.id ≡ some y
      there =
          get_elem?-modify_at e.id eff_limited g1.entry (paused_as false e)
            (get_elem?-modify_at e.id (paused_as false) g.entry e found)

      open3 : IsOpen g3
      open3 = keep-IsOpen g1 e.id eff_limited (λ x. refl) (λ x. refl) (λ x. refl) unpaused-IsOpen

  pub set_attrl-Opens : (attr : Option Attr) → Opens (set_attrl g e attr)
  unfolding set_attrl attributed
  set_attrl-Opens attr =
      if_elim Opens (e.paused || e.npendings == 0) (λ _. kept)
        (λ _.
          keep-Opens (on_entry e.id f g) e.id eff_limited (λ x. refl) (λ x. refl) (λ x. refl)
            (λ x. refl) kept)
    where
      f : Entry → Entry
      f = attributed (given attr g.core.maxthreads) g.core.maxthreads

      kept : Opens (on_entry e.id f g)
      kept = keep-Opens g e.id f (λ x. refl) (λ x. refl) (λ x. refl) (λ x. refl) o

  pub settle-Opens : (self : ℕ) → Opens (settle g self e)
  unfolding settle after_run
  settle-Opens self =
      if_elim Opens (is_normal (find self g.core.env.ths))
        (λ _.
          if_elim Opens (gains (ran e))
            (λ _.
              keep-Opens (on_entry e.id ran g) e.id eff_gained (λ x. refl) (λ x. refl) (λ x. refl)
                (λ x. refl) after)
            (λ _. after))
        (λ _. keep-Opens g e.id was_dispatched (λ x. refl) (λ x. refl) (λ x. refl) (λ x. refl) o)
    where
      after : Opens (on_entry e.id ran g)
      after = keep-Opens g e.id ran (λ x. refl) (λ x. refl) (λ x. refl) (λ x. refl) o

pub forget-Opens :
    (g : Gp) (e : Entry) (unreferenced : Bool) (t : Task)
    → Opens g
    → Opens (forget unreferenced g e t)
forget-Opens g e u t o =
    let x = keep-Opens g e.id untraced (λ y. refl) (λ y. refl) (λ y. refl) (λ y. refl) o in
    if_elim Opens (t.f_vmflags.cache && u) (λ _. x) (λ _. x)
