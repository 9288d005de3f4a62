-- ===== src/Gp/Inactivate.antt =====
-- __cpool_gp_entry_inactivel of pool/gp/cpool_gp_entry.h: a group leaves the active ones.
use libstpool.Base.{
  ℕ, ◌+◌, ◌-◌, ◌≤◌, ◌<◌, ◌≡◌, ◌≢◌, refl, List, true, false, ◌||◌, ltb, ◌==◌, arith, if◌then◌else◌,
  if_elim, length, modify_at,
}
use libstpool.Gp.Defs.{Entry, Gp, marked_active, inactivel}
use libstpool.Gp.Positions.{index_at, index_at-modify_at, flag_at-modify_at}
use libstpool.Gp.Window.{actives, sleeps, Windowed, keep-IsPlaced, actives-marked, count-marked}
use libstpool.Gp.Activate.{IsOpen, none_at}
use libstpool.Gp.Shrink.{shrink-IsOpen}

module _ (g : Gp) (e : Entry) (w : Windowed g) (in_i : e.id < length g.actentry)
    (busy : actives g.entry e.id ≡ true)
    (awake : (k : ℕ)
      → k < length g.actentry
      → k ≢ e.id
      → sleeps g.entry k ≡ true
      → (g.active_idx ≤ index_at g.entry k) × (actives g.entry k ≡ false))
    (here : sleeps g.entry e.id ≡ e.paused) where
  marked : List Entry
  marked = modify_at e.id (marked_active false) g.entry

  left : Gp
  left = record g { entry = marked; nactives_ok = g.nactives_ok - 1 }

  marked_index : (k : ℕ) → index_at marked k ≡ index_at g.entry k
  unfolding marked
  marked_index k = index_at-modify_at g.entry e.id k (marked_active false) (λ x. refl)

  marked-sleeps : (k : ℕ) → sleeps marked k ≡ sleeps g.entry k
  unfolding marked
  marked-sleeps k =
      flag_at-modify_at (λ x. x.paused) g.entry e.id k (marked_active false) (λ x. refl)

  marked-actives : (k : ℕ) → actives marked k ≡ (if k == e.id then false else actives g.entry k)
  unfolding marked
  marked-actives k = actives-marked g.entry g.actentry e.id w.placed in_i false k

  left-Windowed : Windowed left
  unfolding left marked
  left-Windowed = record {
    placed = keep-IsPlaced g.entry g.actentry e.id (marked_active false) (λ x. refl) w.placed;
    small = w.small;
    within = λ k l a. ground (arith, marked_index k, marked-actives k, w.within k l);
    counted =
        ground (arith, count-marked g.entry g.actentry e.id w.placed in_i false, w.counted, busy);
  }

  left-calm : (k : ℕ) → k < length g.actentry → sleeps marked k ≡ true → actives marked k ≡ false
  left-calm k l s = ground (arith, marked-sleeps k, marked-actives k, awake k l)

  pub inactivel-IsOpen : IsOpen (inactivel g e)
  unfolding inactivel left marked
  inactivel-IsOpen =
      if_elim IsOpen (left.nactives_ok == 0)
        (λ z. (
          record {
            placed = left-Windowed.placed;
            small = omega arith;
            within = λ k l a. absurd (cc (none_at left left-Windowed (ground arith) k l));
            counted = left-Windowed.counted;
          },
          λ k l s. omega arith,
        ))
        (λ z.
          if_elim IsOpen (e.paused || ltb (left.nactives_ok + 2) left.active_idx)
            (λ _. shrink-IsOpen left left-Windowed left-calm)
            (λ h. (
              left-Windowed,
              λ k l s. ground (arith, marked-sleeps k, marked_index k, awake k l, here),
            )))
