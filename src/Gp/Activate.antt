-- ===== src/Gp/Activate.antt =====
-- __cpool_gp_entry_activel of pool/gp/cpool_gp_entry.h: a group joins the active ones.
use libstpool.Base.{
  ℕ, ◌+◌, ◌≤◌, ◌<◌, ◌≡◌, ◌≢◌, refl, sym, ap, ◌∙◌, List, Bool, true, false, leb, ◌==◌, arith,
  if◌then◌else◌, if_elim, length, get_or, set, modify_at, length-set,
}
use libstpool.Gp.Defs.{Entry, Gp, placed_at, flag_at, marked_active, swapl, activel}
use libstpool.Gp.Positions.{
  count, index_at, IsPlaced, index_at-modify_at, flag_at-modify_at, index_at-swap, swap-IsPlaced,
}
use libstpool.Gp.Counting.{count-swap, count-ext, count-rest}
use libstpool.Gp.Window.{
  actives, sleeps, IsWindow, IsAwake, Windowed, AllAwake, keep-IsPlaced, actives-marked,
  count-marked, flag_at-swap,
}

-- The window holds, and no paused group is in it.
abbrev pub IsOpen : Gp → Type 0
IsOpen g = Windowed g × AllAwake g

-- The groups from `idx` on change places, and the one that stood behind joins the window.
module _ (es : List Entry) (act : List ℕ) (idx n i b : ℕ) (placed : IsPlaced es act)
    (in_i : i < length act)
    (others : (k : ℕ) → k < length act → actives es k ≡ true → k ≢ i → index_at es k < idx)
    (awake : IsAwake es act idx) (up : sleeps es i ≡ false) (at_b : index_at es i ≡ b)
    (behind : idx ≤ b) (counted : n ≡ count (actives es) act) where
  in_b : b < length act
  in_b = omega (arith, placed.indexed i in_i, at_b)

  there_b : get_or act b 0 ≡ i
  there_b = ap (λ p. get_or act p 0) (sym at_b) ∙ placed.there i in_i

  swapped : List Entry
  swapped =
      modify_at (get_or act b 0) (placed_at idx) (modify_at (get_or act idx 0) (placed_at b) es)

  moved_index :
      (k : ℕ)
      → index_at swapped k
        ≡ (if k == i then idx else if k == get_or act idx 0 then b else index_at es k)
  unfolding swapped
  moved_index k =
      ground (arith, index_at-swap es act idx b placed (omega (arith, in_b)) in_b k, there_b)

  kept_flag :
      (q : Entry → Bool)
      → ((n : ℕ) (e : Entry) → q (placed_at n e) ≡ q e)
      → (k : ℕ) → flag_at q swapped k ≡ flag_at q es k
  unfolding swapped
  kept_flag q h k = flag_at-swap es act idx b q h k

  new_act : List ℕ
  new_act = set (set act idx (get_or act b 0)) b (get_or act idx 0)

  size : length new_act ≡ length act
  unfolding new_act
  size =
      length-set (set act idx (get_or act b 0)) b (get_or act idx 0)
      ∙ length-set act idx (get_or act b 0)

  pub join-IsWindow :
      IsWindow
        (modify_at (get_or act b 0) (placed_at idx) (modify_at (get_or act idx 0) (placed_at b) es))
        (set (set act idx (get_or act b 0)) b (get_or act idx 0))
        (idx + 1)
        n
  unfolding swapped new_act
  join-IsWindow = record {
    placed = swap-IsPlaced es act idx b placed (omega (arith, in_b)) in_b;
    small = omega (arith, in_b, size);
    within = λ k l h. ground (
      arith,
      size,
      moved_index k,
      kept_flag (λ e. e.active) (λ n e. refl) k,
      others k,
      placed.back idx (omega (arith, in_b)),
    );
    counted =
        counted
        ∙ sym (count-swap (actives es) act idx b (omega (arith, in_b)) in_b)
        ∙ sym (
            count-ext (actives es) (actives swapped) new_act
              (λ p l. kept_flag (λ e. e.active) (λ n e. refl) (get_or new_act p 0)));
  }

  pub join-IsAwake :
      IsAwake
        (modify_at (get_or act b 0) (placed_at idx) (modify_at (get_or act idx 0) (placed_at b) es))
        (set (set act idx (get_or act b 0)) b (get_or act idx 0))
        (idx + 1)
  unfolding swapped new_act
  join-IsAwake = λ k l h. ground (
    arith,
    size,
    moved_index k,
    kept_flag (λ e. e.paused) (λ n e. refl) k,
    awake k,
    placed.there k,
    there_b,
    placed.back idx (omega (arith, in_b)),
  )

-- Where no group is counted as active, none is.
pub none_at :
    (g : Gp)
    → Windowed g
    → g.nactives_ok ≡ 0
    → (k : ℕ) → k < length g.actentry
    → actives g.entry k ≡ false
none_at g w z k l = ground (
  arith,
  w.placed.there k l,
  count-rest (actives g.entry) g.actentry 0 (λ p q. absurd (omega arith)) (omega arith)
      (sym w.counted ∙ z) (index_at g.entry k) (omega arith) (w.placed.indexed k l),
)

module _ (g : Gp) (e : Entry) (open_g : IsOpen g) (in_i : e.id < length g.actentry)
    (place : index_at g.entry e.id ≡ e.index) (idle : actives g.entry e.id ≡ false)
    (up : sleeps g.entry e.id ≡ false) where
  w : Windowed g
  w = open_g.0

  marked : List Entry
  marked = modify_at e.id (marked_active true) g.entry

  marked_index : (k : ℕ) → index_at marked k ≡ index_at g.entry k
  unfolding marked
  marked_index k = index_at-modify_at g.entry e.id k (marked_active true) (λ x. refl)

  marked-sleeps : (k : ℕ) → sleeps marked k ≡ sleeps g.entry k
  unfolding marked
  marked-sleeps k =
      flag_at-modify_at (λ x. x.paused) g.entry e.id k (marked_active true) (λ x. refl)

  marked-actives : (k : ℕ) → actives marked k ≡ (if k == e.id then true else actives g.entry k)
  unfolding marked
  marked-actives k = actives-marked g.entry g.actentry e.id w.placed in_i true k

  marked-IsPlaced : IsPlaced marked g.actentry
  unfolding marked
  marked-IsPlaced = keep-IsPlaced g.entry g.actentry e.id (marked_active true) (λ x. refl) w.placed

  marked_counted : g.nactives_ok + 1 ≡ count (actives marked) g.actentry
  unfolding marked
  marked_counted =
      ground (arith, count-marked g.entry g.actentry e.id w.placed in_i true, w.counted, idle)

  others :
      (idx : ℕ)
      → ((k : ℕ) → k < length g.actentry → actives g.entry k ≡ true → index_at g.entry k < idx)
      → (k : ℕ) → k < length g.actentry
      → actives marked k ≡ true
      → k ≢ e.id
      → index_at marked k < idx
  others idx h k l a n = ground (arith, marked_index k, marked-actives k, h k)

  none_active :
      g.nactives_ok ≡ 0
      → (k : ℕ) → k < length g.actentry
      → actives g.entry k ≡ true
      → index_at g.entry k < 0
  none_active z k l a = absurd (cc (none_at g w z k l))

  first-IsOpen :
      g.nactives_ok ≡ 0
      → e.index ≡ 0
      → IsOpen (record g { entry = marked; nactives_ok = g.nactives_ok + 1; active_idx = 1 })
  first-IsOpen z f = (
    record {
      placed = marked-IsPlaced;
      small = omega (arith, in_i);
      within = λ k l a. ground (arith, marked_index k, marked-actives k, none_active z k l, place);
      counted = marked_counted;
    },
    λ k l a. ground (
      arith,
      marked_index k,
      marked-sleeps k,
      w.placed.there k l,
      w.placed.there e.id in_i,
      place,
    ),
  )

  up_marked : sleeps marked e.id ≡ false
  up_marked = marked-sleeps e.id ∙ up

  at_b : index_at marked e.id ≡ e.index
  at_b = marked_index e.id ∙ place

  IsAwake-marked : IsAwake marked g.actentry g.active_idx
  IsAwake-marked k l a = ground (arith, marked_index k, marked-sleeps k, open_g.1 k l)

  pub activel-IsOpen : IsOpen (activel g e)
  unfolding activel swapl marked
  activel-IsOpen =
      if_elim IsOpen (g.nactives_ok + 1 == 1)
        (λ z.
          if_elim (λ (x : Gp). IsOpen (record x { active_idx = 1 })) (e.index == 0)
            (λ f. first-IsOpen (ground arith) (ground arith))
            (λ f.
              let o = others 0 (none_active (ground arith)) in
              (
                join-IsWindow marked g.actentry 0 (g.nactives_ok + 1) e.id e.index marked-IsPlaced
                    in_i o (λ k l a. omega arith) up_marked at_b (omega arith) marked_counted,
                join-IsAwake marked g.actentry 0 (g.nactives_ok + 1) e.id e.index marked-IsPlaced
                    in_i o (λ k l a. omega arith) up_marked at_b (omega arith) marked_counted,
              )))
        (λ z.
          if_elim IsOpen (leb g.active_idx e.index)
            (λ h.
              let o = others g.active_idx w.within in
              (
                join-IsWindow marked g.actentry g.active_idx (g.nactives_ok + 1) e.id e.index
                    marked-IsPlaced in_i o IsAwake-marked up_marked at_b (ground arith)
                    marked_counted,
                join-IsAwake marked g.actentry g.active_idx (g.nactives_ok + 1) e.id e.index
                    marked-IsPlaced in_i o IsAwake-marked up_marked at_b (ground arith)
                    marked_counted,
              ))
            (λ h. (
              record {
                placed = marked-IsPlaced;
                small = w.small;
                within =
                    λ k l a. ground (arith, marked_index k, marked-actives k, w.within k l, place);
                counted = marked_counted;
              },
              λ k l a. ground (arith, marked_index k, marked-sleeps k, open_g.1 k l),
            )))
