-- ===== src/Gp/Status.antt =====
-- Which groups of pool/gp/cpool_gp_entry.h are active: those that have tasks and are not paused.
use libstpool.Base.{
  ℕ, zero, suc, ◌+◌, ◌-◌, ◌<◌, ◌≡◌, refl, sym, ap, ◌∙◌, List, [], ◌∷◌, map, Option, none, some,
  Bool, true, false, ◌||◌, ltb, leb, ◌==◌, arith, if◌then◌else◌, if_elim, length, get_or, modify_at,
}
use libstpool.Gp.Defs.{
  Entry, Gp, on_entry, flag_at, marked_active, is_active_at, swapl, activel, find_active,
  swap_found, shrink_loop, shrink, inactivel,
}
use libstpool.Gp.Balance.{Kin, bare}
use libstpool.Gp.Positions.{flag_at-modify_at, flag_at-set, index_at-modify_at}
use libstpool.Gp.Counting.{count-ext}
use libstpool.Gp.Window.{actives, is_ready, Windowed, keep-IsPlaced, flag_at-swap}
use libstpool.Gp.Activate.{IsOpen}

abbrev pub readies : List Entry → ℕ → Bool
readies = flag_at is_ready

abbrev pub IsStatus : List Entry → Type 0
IsStatus es = (k : ℕ) → actives es k ≡ readies es k

-- A store that keeps the place and the mark of a group, and one that keeps its pause too
pub keep-Windowed :
    (g : Gp) (i : ℕ) (f : Entry → Entry)
    → ((e : Entry) → (f e).index ≡ e.index)
    → ((e : Entry) → (f e).active ≡ e.active)
    → Windowed g
    → Windowed (on_entry i f g)
keep-Windowed g i f x a w = record {
  placed = keep-IsPlaced g.entry g.actentry i f x w.placed;
  small = w.small;
  within = λ k l h. ground (
    arith,
    index_at-modify_at g.entry i k f x,
    flag_at-modify_at (λ e. e.active) g.entry i k f a,
    w.within k l,
  );
  counted =
      w.counted
      ∙ sym (
          count-ext (actives g.entry) (actives (modify_at i f g.entry)) g.actentry
            (λ p l. flag_at-modify_at (λ e. e.active) g.entry i (get_or g.actentry p 0) f a));
}

pub keep-IsOpen :
    (g : Gp) (i : ℕ) (f : Entry → Entry)
    → ((e : Entry) → (f e).index ≡ e.index)
    → ((e : Entry) → (f e).active ≡ e.active)
    → ((e : Entry) → (f e).paused ≡ e.paused)
    → IsOpen g
    → IsOpen (on_entry i f g)
keep-IsOpen g i f x a s o = (
  keep-Windowed g i f x a o.0,
  λ k l h. ground (
    arith,
    index_at-modify_at g.entry i k f x,
    flag_at-modify_at (λ e. e.paused) g.entry i k f s,
    o.1 k l,
  ),
)

-- A test that does not read what `bare` leaves out, where only the places have changed
flag_at-bare :
    (q : Entry → Bool) (es : List Entry) (k : ℕ)
    → ((e : Entry) → q (bare e) ≡ q e)
    → flag_at q (map bare es) k ≡ flag_at q es k
flag_at-bare q [] k h = refl
flag_at-bare q (x ∷ es) zero h = h x
flag_at-bare q (x ∷ es) (suc k) h = flag_at-bare q es k h

pub Kin-flag :
    (q : Entry → Bool) (g h : Gp) (k : ℕ)
    → ((e : Entry) → q (bare e) ≡ q e)
    → Kin g h
    → flag_at q h.entry k ≡ flag_at q g.entry k
Kin-flag q g h k b kin =
    sym (flag_at-bare q h.entry k b)
    ∙ ap (λ es. flag_at q es k) kin.entry
    ∙ flag_at-bare q g.entry k b

swapl-actives : (g : Gp) (a b k : ℕ) → actives (swapl g a b).entry k ≡ actives g.entry k
unfolding swapl
swapl-actives g a b k = flag_at-swap g.entry g.actentry a b (λ e. e.active) (λ n e. refl) k

pub activel-actives :
    (g : Gp) (e : Entry) (k : ℕ)
    → e.id < length g.entry
    → actives (activel g e).entry k ≡ (if k == e.id then true else actives g.entry k)
unfolding activel
activel-actives g e k l =
    if_elim Marks (g.nactives_ok + 1 == 1)
      (λ _.
        if_elim (λ (x : Gp). Marks (record x { active_idx = 1 })) (e.index == 0) (λ _. marked)
          (λ _. swapl-actives g1 0 e.index k ∙ marked))
      (λ _.
        if_elim Marks (leb g.active_idx e.index)
          (λ _. swapl-actives g1 g.active_idx e.index k ∙ marked) (λ _. marked))
  where
    Marks : Gp → Type 0
    Marks h = actives h.entry k ≡ (if k == e.id then true else actives g.entry k)

    g1 : Gp
    g1 = record g {
      entry = modify_at e.id (marked_active true) g.entry;
      nactives_ok = g.nactives_ok + 1;
    }

    marked : Marks g1
    marked = flag_at-set (λ x. x.active) g.entry e.id k (marked_active true) true l (λ x. refl)

swap_found-actives :
    (g : Gp) (i : ℕ) (o : Option ℕ) (k : ℕ) → actives (swap_found g i o).entry k ≡ actives g.entry k
unfolding swap_found
swap_found-actives g i none k = refl
swap_found-actives g i (some j) k = swapl-actives g i j k

shrink_loop-actives :
    (n i : ℕ) (g : Gp) (k : ℕ) → actives (shrink_loop n i g).entry k ≡ actives g.entry k
unfolding shrink_loop
shrink_loop-actives zero i g k = refl
shrink_loop-actives (suc n) i g k =
    shrink_loop-actives n (suc i) g1 k
    ∙ if_elim (λ (x : Gp). actives x.entry k ≡ actives g.entry k)
        (is_active_at g.entry g.actentry i) (λ _. refl) (λ _. swap_found-actives g i found k)
  where
    found : Option ℕ
    found = find_active g.entry g.actentry (g.active_idx - (i + 1)) (i + 1)

    g1 : Gp
    g1 = if is_active_at g.entry g.actentry i then g else swap_found g i found

pub shrink-actives : (g : Gp) (k : ℕ) → actives (shrink g).entry k ≡ actives g.entry k
unfolding shrink
shrink-actives g k =
    if_elim (λ (x : Gp). actives x.entry k ≡ actives g.entry k) (g.active_idx == g.nactives_ok)
      (λ _. refl) (λ _. shrink_loop-actives g.nactives_ok 0 g k)

pub inactivel-actives :
    (g : Gp) (e : Entry) (k : ℕ)
    → e.id < length g.entry
    → actives (inactivel g e).entry k ≡ (if k == e.id then false else actives g.entry k)
unfolding inactivel
inactivel-actives g e k l =
    if_elim Marks (g1.nactives_ok == 0) (λ _. marked)
      (λ _.
        if_elim Marks (e.paused || ltb (g1.nactives_ok + 2) g1.active_idx)
          (λ _. shrink-actives g1 k ∙ marked) (λ _. marked))
  where
    Marks : Gp → Type 0
    Marks h = actives h.entry k ≡ (if k == e.id then false else actives g.entry k)

    g1 : Gp
    g1 = record g {
      entry = modify_at e.id (marked_active false) g.entry;
      nactives_ok = g.nactives_ok - 1;
    }

    marked : Marks g1
    marked = flag_at-set (λ x. x.active) g.entry e.id k (marked_active false) false l (λ x. refl)
