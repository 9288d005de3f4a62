-- ===== src/Gp/Shrink.antt =====
-- __cpool_gp_entry_shrink of pool/gp/cpool_gp_entry.h brings the active groups to the front.
use libstpool.Base.{
  ℕ, zero, suc, ◌+◌, ◌-◌, ◌≤◌, ◌<◌, ◌≡◌, refl, sym, ◌∙◌, subst, Option, none, some, true, false,
  ◌==◌, arith, if◌then◌else◌, if_elim, length, get_or,
}
use libstpool.Gp.Defs.{Gp, is_active_at, swapl, find_active, swap_found, shrink_loop, shrink}
use libstpool.Gp.Positions.{index_at}
use libstpool.Gp.Counting.{count-le, count-full, count-rest}
use libstpool.Gp.Window.{actives, sleeps, Windowed}
use libstpool.Gp.Activate.{IsOpen}
use libstpool.Gp.Packing.{Finds, find_active-Finds, IsPacking, swapl-IsPacking}

-- While fewer than all active groups stand in front, another one is behind.
one_behind :
    (i : ℕ) (g : Gp)
    → IsPacking i g
    → i < g.nactives_ok
    → is_active_at g.entry g.actentry i ≡ false
    → ((p : ℕ)
        → i + 1 ≤ p
        → p < (i + 1) + (g.active_idx - (i + 1))
        → is_active_at g.entry g.actentry p ≡ false)
    → ⊥
one_behind i g pk l idle none_behind =
    ground (arith, pk.window.counted, count-le (actives g.entry) g.actentry i front_only)
  where
    front_only :
        (p : ℕ) → p < length g.actentry → actives g.entry (get_or g.actentry p 0) ≡ true → p < i
    front_only p k a = ground (
      arith,
      pk.window.placed.back p k,
      pk.window.placed.inside p k,
      pk.window.within (get_or g.actentry p 0),
      none_behind p,
    )

-- The window and the number of the active groups stay.
abbrev Steady : Gp → Gp → Type 0
Steady g h = (h.active_idx ≡ g.active_idx) × (h.nactives_ok ≡ g.nactives_ok)

abbrev Packed : ℕ → Gp → Gp → Type 0
Packed i g h = IsPacking i h × Steady g h

swap_found-Packed :
    (i : ℕ) (g : Gp) (o : Option ℕ)
    → IsPacking i g
    → i < g.nactives_ok
    → is_active_at g.entry g.actentry i ≡ false
    → Finds g.entry g.actentry (g.active_idx - (i + 1)) (i + 1) o
    → Packed (suc i) g (swap_found g i o)
unfolding swap_found swapl
swap_found-Packed i g none pk l idle f = absurd (one_behind i g pk l idle f)
swap_found-Packed i g (some j) pk l idle f =
    (swapl-IsPacking i j g pk (omega (arith, f.0)) (omega (arith, f.0, f.1)) idle f.2, (refl, refl))

shrink_loop-Packed :
    (n i : ℕ) (g : Gp)
    → i + n ≤ g.nactives_ok
    → IsPacking i g
    → Packed (i + n) g (shrink_loop n i g)
unfolding shrink_loop
shrink_loop-Packed zero i g l pk = (subst (λ m. IsPacking m g) (omega arith) pk, (refl, refl))
shrink_loop-Packed (suc n) i g l pk =
    let g1 =
      if is_active_at g.entry g.actentry i
      then g
      else swap_found g i (find_active g.entry g.actentry (g.active_idx - (i + 1)) (i + 1)) in
    let step =
      if_elim (Packed (suc i) g) (is_active_at g.entry g.actentry i)
        (λ a. (
          record {
            window = pk.window;
            front = λ p k. ground (arith, a, pk.front p);
            calm = pk.calm;
          },
          (refl, refl),
        ))
        (λ a.
          swap_found-Packed i g (find_active g.entry g.actentry (g.active_idx - (i + 1)) (i + 1)) pk
            (omega (arith, l)) a
            (find_active-Finds g.entry g.actentry (g.active_idx - (i + 1)) (i + 1))) in
    let rest = shrink_loop-Packed n (suc i) g1 (omega (arith, l, step.1.1)) step.0 in
    (
      subst (λ m. IsPacking m (shrink_loop n (suc i) g1)) (omega arith) rest.0,
      (rest.1.0 ∙ step.1.0, rest.1.1 ∙ step.1.1),
    )

packed-IsOpen :
    (h : Gp) → IsPacking h.nactives_ok h → IsOpen (record h { active_idx = h.nactives_ok })
packed-IsOpen h pk = (
  record {
    placed = pk.window.placed;
    small = fits;
    within = λ k l a. ground (
      arith,
      pk.window.placed.there k l,
      pk.window.placed.indexed k l,
      behind (index_at h.entry k),
    );
    counted = pk.window.counted;
  },
  λ k l s. ground (arith, pk.calm k l s, pk.window.placed.there k l, pk.front (index_at h.entry k)),
)
  where
    fits : h.nactives_ok ≤ length h.actentry
    fits = omega (
      arith,
      pk.window.counted,
      count-le (actives h.entry) h.actentry (length h.actentry) (λ p l a. l),
    )

    behind :
        (p : ℕ)
        → h.nactives_ok ≤ p
        → p < length h.actentry
        → actives h.entry (get_or h.actentry p 0) ≡ false
    behind =
        count-rest (actives h.entry) h.actentry h.nactives_ok pk.front fits (sym pk.window.counted)

-- Where no paused group is active, none is in the window afterwards.
pub shrink-IsOpen :
    (g : Gp)
    → Windowed g
    → ((k : ℕ) → k < length g.actentry → sleeps g.entry k ≡ true → actives g.entry k ≡ false)
    → IsOpen (shrink g)
unfolding shrink
shrink-IsOpen g w calm =
    if_elim IsOpen (g.active_idx == g.nactives_ok)
      (λ full. (w, λ k l s. tight (ground arith) k l (calm k l s)))
      (λ _.
        let packed =
          shrink_loop-Packed g.nactives_ok 0 g (omega arith)
            (record { window = w; front = λ p l. absurd (omega arith); calm = calm }) in
        let h = shrink_loop g.nactives_ok 0 g in
        let here : g.nactives_ok ≡ h.nactives_ok = sym packed.1.1 in
        subst (λ m. IsOpen (record h { active_idx = m })) (sym here)
          (packed-IsOpen h (subst (λ m. IsPacking m h) (omega (arith, here)) packed.0)))
  where
    tight :
        g.active_idx ≡ g.nactives_ok
        → (k : ℕ) → k < length g.actentry
        → actives g.entry k ≡ false
        → g.active_idx ≤ index_at g.entry k
    tight full k l a = ground (
      arith,
      w.placed.there k l,
      count-full (actives g.entry) g.actentry g.active_idx first_only (sym w.counted ∙ sym full)
          (index_at g.entry k),
    )
      where
        first_only :
            (p : ℕ)
            → p < length g.actentry
            → actives g.entry (get_or g.actentry p 0) ≡ true
            → p < g.active_idx
        first_only p l a =
            ground (arith, w.placed.back p l, w.placed.inside p l, w.within (get_or g.actentry p 0))
