-- ===== src/Gp/Packing.antt =====
-- The array of groups while __cpool_gp_entry_shrink (pool/gp/cpool_gp_entry.h) packs the active ones.
use libstpool.Base.{
  ℕ, zero, suc, ◌+◌, ◌≤◌, ◌<◌, ◌≡◌, refl, sym, ◌∙◌, List, Option, none, some, Bool, true, false,
  ◌==◌, arith, if◌then◌else◌, if_elim, length, get_or, set, length-set,
}
use libstpool.Gp.Defs.{Entry, Gp, placed_at, flag_at, is_active_at, swapl, find_active}
use libstpool.Gp.Positions.{index_at, index_at-swap, get_or-swap, swap-IsPlaced}
use libstpool.Gp.Counting.{count-swap, count-ext}
use libstpool.Gp.Window.{actives, sleeps, Windowed, flag_at-swap}

-- What the inner loop finds: the first active group of the places that it looks at.
abbrev pub Finds : List Entry → List ℕ → ℕ → ℕ → Option ℕ → Type 0
Finds es act n j none = (p : ℕ) → j ≤ p → p < j + n → is_active_at es act p ≡ false
Finds es act n j (some p) = (j ≤ p) × (p < j + n) × (is_active_at es act p ≡ true)

pub find_active-Finds :
    (es : List Entry) (act : List ℕ) (n j : ℕ) → Finds es act n j (find_active es act n j)
unfolding find_active
find_active-Finds es act zero j = λ p h k. absurd (omega arith)
find_active-Finds es act (suc n) j =
    later (find_active es act n (suc j)) (find_active-Finds es act n (suc j))
  where
    later :
        (o : Option ℕ)
        → Finds es act n (suc j) o
        → Finds es act (suc n) j (if is_active_at es act j then some j else o)
    later none f =
        if_elim (Finds es act (suc n) j) (is_active_at es act j)
          (λ a. (omega arith, omega arith, a)) (λ a. λ p h k. ground (arith, f p))
    later (some q) f =
        if_elim (Finds es act (suc n) j) (is_active_at es act j)
          (λ a. (omega arith, omega arith, a)) (λ a. (omega (arith, f.0), omega (arith, f.1), f.2))

-- The first `i` places are active, and no paused group is.
pub record IsPacking (i : ℕ) (g : Gp) : Type 0 where
  pub window : Windowed g
  pub front : (p : ℕ) → p < i → is_active_at g.entry g.actentry p ≡ true
  pub calm : (k : ℕ) → k < length g.actentry → sleeps g.entry k ≡ true → actives g.entry k ≡ false

module _ (i j : ℕ) (g : Gp) (packing : IsPacking i g) (after : i < j) (inner : j < g.active_idx)
    (idle : is_active_at g.entry g.actentry i ≡ false)
    (busy : is_active_at g.entry g.actentry j ≡ true) where
  w : Windowed g
  w = packing.window

  in_j : j < length g.actentry
  in_j = omega (arith, w.small)

  in_i : i < length g.actentry
  in_i = omega (arith, in_j)

  swapped : Gp
  swapped = swapl g i j

  size : length swapped.actentry ≡ length g.actentry
  unfolding swapped swapl
  size =
      length-set (set g.actentry i (get_or g.actentry j 0)) j (get_or g.actentry i 0)
      ∙ length-set g.actentry i (get_or g.actentry j 0)

  kept_flag :
      (q : Entry → Bool)
      → ((n : ℕ) (e : Entry) → q (placed_at n e) ≡ q e)
      → (k : ℕ) → flag_at q swapped.entry k ≡ flag_at q g.entry k
  unfolding swapped swapl
  kept_flag q h k = flag_at-swap g.entry g.actentry i j q h k

  moved_index :
      (k : ℕ)
      → index_at swapped.entry k ≡ (
          if k == get_or g.actentry j 0
          then i
          else if k == get_or g.actentry i 0
          then j
          else index_at g.entry k)
  unfolding swapped swapl
  moved_index = index_at-swap g.entry g.actentry i j w.placed in_i in_j

  moved :
      (p : ℕ)
      → get_or swapped.actentry p 0 ≡ (
          if p == j
          then get_or g.actentry i 0
          else if p == i
          then get_or g.actentry j 0
          else get_or g.actentry p 0)
  unfolding swapped swapl
  moved = get_or-swap g.entry g.actentry i j w.placed in_i in_j

  still : (k : ℕ) → actives swapped.entry k ≡ actives g.entry k
  still = kept_flag (λ e. e.active) (λ n e. refl)

  pub swapl-IsPacking : IsPacking (suc i) (swapl g i j)
  unfolding swapped swapl
  swapl-IsPacking = record {
    window = record {
      placed = swap-IsPlaced g.entry g.actentry i j w.placed in_i in_j;
      small = omega (arith, size, w.small);
      within = λ k l a. ground (arith, size, moved_index k, still k, w.within k);
      counted =
          w.counted
          ∙ sym (count-swap (actives g.entry) g.actentry i j in_i in_j)
          ∙ sym (
              count-ext (actives g.entry) (actives swapped.entry) swapped.actentry
                (λ p l. still (get_or swapped.actentry p 0)));
    };
    front = λ p l. ground (
      arith,
      moved p,
      still (get_or g.actentry p 0),
      still (get_or g.actentry j 0),
      packing.front p,
    );
    calm = λ k l s.
        ground (arith, size, still k, kept_flag (λ e. e.paused) (λ n e. refl) k, packing.calm k);
  }
