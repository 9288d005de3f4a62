-- ===== src/Gp/KeptTask.antt =====
-- The window and the marks of pool/gp/cpool_gp_entry.h where a thread takes a task, where one is
-- taken back, and where a group leaves the active ones.
use libstpool.Base.{
  ℕ, zero, suc, ◌-◌, ◌≤◌, ◌<◌, ◌≡◌, ◌≢◌, refl, sym, ◌∙◌, List, [], ◌∷◌, Option, none, some, Bool,
  true, false, ◌==◌, arith, if◌then◌else◌, if_elim, OnSome, length, get_elem?, modify_at,
}
use libstpool.Task.{Task}
use libstpool.Priq.Defs.{Container, priq_pop}
use libstpool.Priq.Serve.{priq_pop-IsPopped}
use libstpool.Priq.Size.{IsPopped-HasShrunk}
use libstpool.Priq.Top.{priq_empty, priq_empty-size}
use libstpool.Gp.Defs.{Entry, Gp, on_entry, inactivel, shrink}
use libstpool.Gp.Sched.{emptied, lowered, pending_lowered, take_task}
use libstpool.Gp.Ops.{running_raised}
use libstpool.Gp.Admin.{paused_as, eff_reset, suspended}
use libstpool.Gp.Balance.{IsServed, get_elem?-modify_at}
use libstpool.Gp.Positions.{index_at, index_at-modify_at}
use libstpool.Gp.Window.{actives, sleeps, is_ready, Windowed}
use libstpool.Gp.Places.{inactivel-Kin, shrink-Kin}
use libstpool.Gp.Shrink.{shrink-IsOpen}
use libstpool.Gp.Inactivate.{inactivel-IsOpen}
use libstpool.Gp.Status.{
  readies, IsStatus, keep-Windowed, keep-IsOpen, Kin-flag, inactivel-actives, shrink-actives,
}
use libstpool.Gp.Sound.{found-lt, found-flag, Opens}
use libstpool.Gp.Kept.{flag_at-other, store-IsStatus, found-status, keep-Opens}

pub sleeps-ready : (es : List Entry) (k : ℕ) → sleeps es k ≡ true → readies es k ≡ false
sleeps-ready [] k h = refl
sleeps-ready (x ∷ es) zero h = rw h refl
sleeps-ready (x ∷ es) (suc k) h = sleeps-ready es k h

-- A group that is not ready any more leaves the active ones.
pub leaves-Opens :
    (h : Gp) (x y : Entry)
    → Windowed h
    → get_elem? h.entry x.id ≡ some y
    → y.active ≡ true
    → y.paused ≡ x.paused
    → is_ready y ≡ false
    → ((k : ℕ)
        → k < length h.actentry
        → k ≢ x.id
        → sleeps h.entry k ≡ true
        → h.active_idx ≤ index_at h.entry k)
    → ((k : ℕ) → k ≢ x.id → actives h.entry k ≡ readies h.entry k)
    → Opens (inactivel h x)
leaves-Opens h x y w found busy same gone awake others = (
  inactivel-IsOpen h x w (omega (arith, found-lt h.entry x.id y found, w.placed.sized))
      (found-flag (λ e. e.active) h.entry x.id y found ∙ busy)
      (λ k l n s. (awake k l n s, others k n ∙ sleeps-ready h.entry k s))
      (found-flag (λ e. e.paused) h.entry x.id y found ∙ same),
  λ k. ground (
    arith,
    inactivel-actives h x k (found-lt h.entry x.id y found),
    Kin-flag is_ready h (inactivel h x) k (λ e. refl) (inactivel-Kin h x),
    found-flag is_ready h.entry x.id y found,
    others k,
  ),
)

-- A store to one group leaves the marks of the others right.
pub others_right :
    (es : List Entry) (i : ℕ) (f : Entry → Entry) (k : ℕ)
    → IsStatus es
    → k ≢ i
    → actives (modify_at i f es) k ≡ readies (modify_at i f es) k
others_right es i f k s n =
    flag_at-other (λ x. x.active) es i k f n ∙ s k ∙ sym (flag_at-other is_ready es i k f n)

-- A thread takes a task of a group that has some and is not paused.
pub take_task-Opens :
    (ndebug : Bool) (g : Gp) (e : Entry)
    → get_elem? g.entry e.id ≡ some e
    → e.paused ≡ false
    → 1 ≤ e.npendings
    → IsServed e.id e
    → Opens g
    → OnSome (λ g'. Opens (on_entry e.id running_raised g')) (take_task ndebug g e)
unfolding take_task
take_task-Opens ndebug g e found up some_pending s o = on_pop (priq_pop ndebug e.c) refl
  where
    Runs : Gp → Type 0
    Runs g' = Opens (on_entry e.id running_raised g')

    runs : (x : Gp) → Opens x → Runs x
    runs x h = keep-Opens x e.id running_raised (λ y. refl) (λ y. refl) (λ y. refl) (λ y. refl) h

    mark : e.active ≡ is_ready e
    mark = found-status g.entry e.id e found o.1

    on_pop :
        (p : Option (Task × Container))
        → priq_pop ndebug e.c ≡ p
        → OnSome Runs (elim p as (λ _. Option Gp) [
          | none ↦ none
          | some (t, c) ↦
              if priq_empty c
              then some (inactivel (pending_lowered (on_entry e.id (emptied c) g)) (emptied c e))
              else some (pending_lowered (on_entry e.id (lowered c) g))
        ])
    on_pop none h = tt
    on_pop (some (t, c)) h =
        let popped = priq_pop-IsPopped ndebug e.c s.exact h in
        let less = (IsPopped-HasShrunk (λ u. u.gid ≡ e.id) e.c t c popped).less in
        let x = pending_lowered (on_entry e.id (emptied c) g) in
        let open_x = keep-IsOpen g e.id (emptied c) (λ y. refl) (λ y. refl) (λ y. refl) o.0 in
        if_elim (OnSome Runs) (priq_empty c)
          (λ z. runs (inactivel x (emptied c e)) (
            leaves-Opens x (emptied c e) (emptied c e) open_x.0
              (get_elem?-modify_at e.id (emptied c) g.entry e found) (ground (arith, mark)) refl
              (ground arith) (λ k l n q. open_x.1 k l q)
              (λ k n. others_right g.entry e.id (emptied c) k o.1 n)))
          (λ z. runs (pending_lowered (on_entry e.id (lowered c) g)) (
            keep-IsOpen g e.id (lowered c) (λ y. refl) (λ y. refl) (λ y. refl) o.0,
            store-IsStatus g.entry e.id (lowered c) e found
                (ground (arith, mark, priq_empty-size c popped.kept, s.counted, less)) o.1,
          ))

-- A group is suspended.
pub suspended-Opens :
    (g : Gp) (e : Entry)
    → get_elem? g.entry e.id ≡ some e
    → e.paused ≡ false
    → Opens g
    → Opens (suspended g e)
unfolding suspended
suspended-Opens g e found up o =
    if_elim Opens (e.npendings == 0)
      (λ z.
        let status =
          store-IsStatus g.entry e.id (paused_as true) e found (ground (arith, mark)) o.1 in
        (
          shrink-IsOpen g1 w1 (λ k l s. status k ∙ sleeps-ready g1.entry k s),
          λ k.
              shrink-actives g1 k
              ∙ status k
              ∙ sym (Kin-flag is_ready g1 (shrink g1) k (λ y. refl) (shrink-Kin g1)),
        ))
      (λ z.
        keep-Opens (inactivel g2 (paused_as true e)) e.id eff_reset (λ y. refl) (λ y. refl)
          (λ y. refl) (λ y. refl)
          (leaves-Opens g2 (paused_as true e) (paused_as true e) w1
            (get_elem?-modify_at e.id (paused_as true) g.entry e found) (ground (arith, mark)) refl
            refl
            (λ k l n q. ground (
              arith,
              o.0.1 k l,
              flag_at-other (λ x. x.paused) g.entry e.id k (paused_as true) n,
              index_at-modify_at g.entry e.id k (paused_as true) (λ x. refl),
            ))
            (λ k n. others_right g.entry e.id (paused_as true) k o.1 n)))
  where
    mark : e.active ≡ is_ready e
    mark = found-status g.entry e.id e found o.1

    g1 : Gp
    g1 = on_entry e.id (paused_as true) g

    g2 : Gp
    g2 = record g1 { npendings = g1.npendings - e.npendings }

    w1 : Windowed g1
    w1 = keep-Windowed g e.id (paused_as true) (λ y. refl) (λ y. refl) o.0.0
