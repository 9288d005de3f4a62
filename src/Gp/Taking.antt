-- ===== src/Gp/Taking.antt =====
-- The counters of pool/gp where a thread takes a task of a group: pool/gp/cpool_gp_internal.h and
-- pool/gp/cpool_gp_core_method.c.
use libstpool.Base.{
  ℕ, zero, suc, ◌≤◌, ◌<◌, ◌≡◌, ◌⊎◌, refl, sym, ap, ◌∙◌, List, [], ◌∷◌, map, Option, none, some,
  Bool, true, false, arith, if◌then◌else◌, if_elim, OnSome, get_elem?, modify_at,
}
use libstpool.Task.{Task}
use libstpool.Priq.Defs.{Container, priq_pop}
use libstpool.Priq.Ready.{IsContainer}
use libstpool.Priq.Serve.{IsPopped, priq_pop-IsPopped}
use libstpool.Priq.Size.{size, HasShrunk, IsPopped-HasShrunk}
use libstpool.Priq.Top.{priq_empty, priq_empty-size}
use libstpool.Gp.Defs.{Entry, Gp, on_entry, inactivel}
use libstpool.Gp.Sched.{emptied, lowered, pending_lowered, take_task}
use libstpool.Gp.Ops.{running_raised}
use libstpool.Gp.Balance.{
  weight, share, IsServed, IsBalanced, sum-le, modify_at-modify_at, store-IsBalanced, bare, Kin,
  Kin-IsBalanced,
}
use libstpool.Gp.Places.{inactivel-Kin}

map-bare-modify_at :
    (i : ℕ) (f : Entry → Entry) (es : List Entry)
    → ((e : Entry) → bare (f e) ≡ f (bare e))
    → map bare (modify_at i f es) ≡ modify_at i f (map bare es)
map-bare-modify_at i f [] h = refl
map-bare-modify_at zero f (x ∷ es) h = ap (λ y. y ∷ map bare es) (h x)
map-bare-modify_at (suc i) f (x ∷ es) h = ap (◌∷◌ (bare x)) (map-bare-modify_at i f es h)

-- A store that does not concern the places goes with a change of the places.
pub on_entry-Kin :
    (i : ℕ) (f : Entry → Entry) (g h : Gp)
    → ((e : Entry) → bare (f e) ≡ f (bare e))
    → Kin g h
    → Kin (on_entry i f g) (on_entry i f h)
on_entry-Kin i f g h c k = record {
  entry =
      map-bare-modify_at i f h.entry c
      ∙ ap (modify_at i f) k.entry
      ∙ sym (map-bare-modify_at i f g.entry c);
  npendings = k.npendings;
  core = k.core;
}

module _ (g : Gp) (e : Entry) (c : Container) (t : Task) (found : get_elem? g.entry e.id ≡ some e)
    (awake : e.paused ≡ false) (some_pending : 1 ≤ e.npendings)
    (room : (e.nrunnings < e.limit_tasks) ⊎ (e.receive_benifits ≡ true)) (popped : IsPopped e.c t c)
    (b : IsBalanced g) where
  served : IsServed e.id e
  served = b.served e.id e found

  shrunk : HasShrunk (λ u. u.gid ≡ e.id) e.c t c
  shrunk = IsPopped-HasShrunk (λ u. u.gid ≡ e.id) e.c t c popped

  -- The counters of the pool are not below those of the group.
  enough : (1 ≤ g.npendings) × (1 ≤ g.core.npendings)
  enough = (
    ground (arith, b.pending, sum-le weight e.id g.entry e found),
    ground (arith, b.counted, sum-le share e.id g.entry e found, served.limited),
  )

  emptied-IsServed : size c ≡ 0 → IsServed e.id (running_raised (emptied c e))
  emptied-IsServed z = record {
    named = served.named;
    counted = sym z;
    exact = popped.kept;
    own = shrunk.kept served.own;
    shown = λ h. absurd (omega arith);
    limited = λ r p. ground (arith, served.limited r p);
    idle = λ r p. absurd (cc (sym awake ∙ p));
  }

  lowered-IsServed : IsServed e.id (running_raised (lowered c e))
  lowered-IsServed = record {
    named = served.named;
    counted = omega (arith, served.counted, shrunk.less);
    exact = popped.kept;
    own = shrunk.kept served.own;
    shown = λ h. refl;
    limited = λ r p. ground (arith, served.limited r p);
    idle = λ r p. absurd (cc (sym awake ∙ p));
  }

  last : size c ≡ 0 → e.npendings ≡ 1
  last z = omega (arith, served.counted, shrunk.less)

  emptied-IsBalanced :
      size c ≡ 0
      → IsBalanced (on_entry e.id running_raised (pending_lowered (on_entry e.id (emptied c) g)))
  emptied-IsBalanced z =
      store-IsBalanced g
        (on_entry e.id running_raised (pending_lowered (on_entry e.id (emptied c) g))) e.id
        (λ x. running_raised (emptied c x)) e found
        (modify_at-modify_at e.id (emptied c) running_raised g.entry) (emptied-IsServed z)
        (ground (arith, enough, last z)) (ground (arith, enough, last z, served.limited)) b

  lowered-IsBalanced :
      IsBalanced (on_entry e.id running_raised (pending_lowered (on_entry e.id (lowered c) g)))
  lowered-IsBalanced =
      store-IsBalanced g
        (on_entry e.id running_raised (pending_lowered (on_entry e.id (lowered c) g))) e.id
        (λ x. running_raised (lowered c x)) e found
        (modify_at-modify_at e.id (lowered c) running_raised g.entry) lowered-IsServed
        (ground (arith, enough)) (ground (arith, enough, served.limited)) b

-- A group that is not paused gives a task to a thread, which runs it.
pub take_task-IsBalanced :
    (ndebug : Bool) (g : Gp) (e : Entry)
    → get_elem? g.entry e.id ≡ some e
    → e.paused ≡ false
    → 1 ≤ e.npendings
    → (e.nrunnings < e.limit_tasks) ⊎ (e.receive_benifits ≡ true)
    → IsBalanced g
    → OnSome (λ g'. IsBalanced (on_entry e.id running_raised g')) (take_task ndebug g e)
unfolding take_task
take_task-IsBalanced ndebug g e found awake some_pending room b = on_pop (priq_pop ndebug e.c) refl
  where
    Runs : Gp → Type 0
    Runs g' = IsBalanced (on_entry e.id running_raised g')

    exact : IsContainer e.c
    exact = (b.served e.id e found).exact

    on_pop :
        (o : Option (Task × Container))
        → priq_pop ndebug e.c ≡ o
        → OnSome Runs (elim o as (λ _. Option Gp) [
          | none ↦ none
          | some (t, c) ↦
              if priq_empty c
              then some (inactivel (pending_lowered (on_entry e.id (emptied c) g)) (emptied c e))
              else some (pending_lowered (on_entry e.id (lowered c) g))
        ])
    on_pop none h = tt
    on_pop (some (t, c)) h =
        let popped = priq_pop-IsPopped ndebug e.c exact h in
        let x = pending_lowered (on_entry e.id (emptied c) g) in
        if_elim (OnSome Runs) (priq_empty c)
          (λ z.
            Kin-IsBalanced (on_entry e.id running_raised x)
              (on_entry e.id running_raised (inactivel x (emptied c e)))
              (on_entry-Kin e.id running_raised x (inactivel x (emptied c e)) (λ y. refl)
                (inactivel-Kin x (emptied c e)))
              (emptied-IsBalanced g e c t found awake some_pending room popped b
                (ground (arith, priq_empty-size c popped.kept))))
          (λ _. lowered-IsBalanced g e c t found awake some_pending room popped b)
