-- ===== src/Gp/Window.antt =====
-- The first `active_idx` places of `actentry` (pool/gp/cpool_gp_entry.h) hold every active group and
-- no paused one: what that says, and what a mark and a swap change.
use libstpool.Base.{
  ℕ, ◌+◌, ◌≤◌, ◌<◌, ◌≡◌, refl, sym, ap, ◌∙◌, List, Bool, true, not, ◌&&◌, ◌==◌, arith,
  if◌then◌else◌, length, get_or, modify_at,
}
use libstpool.Gp.Defs.{Entry, Gp, placed_at, flag_at, marked_active}
use libstpool.Gp.Positions.{
  count, index_at, IsPlaced, length-modify_at, index_at-modify_at, flag_at-modify_at, flag_at-set,
}
use libstpool.Gp.Counting.{bit, count-change}

abbrev pub actives : List Entry → ℕ → Bool
actives = flag_at (λ e. e.active)

abbrev pub sleeps : List Entry → ℕ → Bool
sleeps = flag_at (λ e. e.paused)

-- The group has tasks and is not paused.
abbrev pub is_ready : Entry → Bool
is_ready e = not e.paused && not (e.npendings == 0)

-- `n` groups are active, and they are among the first `idx` of the array.
pub record IsWindow (es : List Entry) (act : List ℕ) (idx n : ℕ) : Type 0 where
  pub placed : IsPlaced es act
  pub small : idx ≤ length act
  pub within : (k : ℕ) → k < length act → actives es k ≡ true → index_at es k < idx
  pub counted : n ≡ count (actives es) act

-- No paused group is among the first `idx`.
abbrev pub IsAwake : List Entry → List ℕ → ℕ → Type 0
IsAwake es act idx = (k : ℕ) → k < length act → sleeps es k ≡ true → idx ≤ index_at es k

abbrev pub Windowed : Gp → Type 0
Windowed g = IsWindow g.entry g.actentry g.active_idx g.nactives_ok

abbrev pub AllAwake : Gp → Type 0
AllAwake g = IsAwake g.entry g.actentry g.active_idx

-- A store that keeps the places
pub keep-IsPlaced :
    (es : List Entry) (act : List ℕ) (i : ℕ) (f : Entry → Entry)
    → ((e : Entry) → (f e).index ≡ e.index)
    → IsPlaced es act
    → IsPlaced (modify_at i f es) act
keep-IsPlaced es act i f h p = record {
  sized = p.sized ∙ sym (length-modify_at i f es);
  inside = p.inside;
  back = λ q l. index_at-modify_at es i (get_or act q 0) f h ∙ p.back q l;
  indexed = λ k l. ground (arith, index_at-modify_at es i k f h, p.indexed k l);
  there = λ k l. ap (λ n. get_or act n 0) (index_at-modify_at es i k f h) ∙ p.there k l;
}

module _ (es : List Entry) (act : List ℕ) (i : ℕ) (placed : IsPlaced es act)
    (in_i : i < length act) where
  in_entries : i < length es
  in_entries = omega (arith, placed.sized)

  -- A group is marked.
  pub actives-marked :
      (b : Bool) (k : ℕ)
      → actives (modify_at i (marked_active b) es) k ≡ (if k == i then b else actives es k)
  actives-marked b k = flag_at-set (λ e. e.active) es i k (marked_active b) b in_entries (λ e. refl)

  pub count-marked :
      (b : Bool)
      → count (actives (modify_at i (marked_active b) es)) act + bit (actives es i)
        ≡ count (actives es) act + bit b
  count-marked b = ground (
    arith,
    count-change (actives es) (actives (modify_at i (marked_active b) es)) act (index_at es i)
        (placed.indexed i in_i)
        (λ p l n. ground (arith, actives-marked b (get_or act p 0), placed.back p l)),
    placed.there i in_i,
    actives-marked b i,
  )

module _ (es : List Entry) (act : List ℕ) (a b : ℕ) (q : Entry → Bool)
    (free : (n : ℕ) (e : Entry) → q (placed_at n e) ≡ q e) where
  -- A swap keeps a test that does not read the place.
  pub flag_at-swap :
      (k : ℕ)
      → flag_at q
          (modify_at (get_or act b 0) (placed_at a) (modify_at (get_or act a 0) (placed_at b) es))
          k
        ≡ flag_at q es k
  flag_at-swap k =
      flag_at-modify_at q (modify_at (get_or act a 0) (placed_at b) es) (get_or act b 0) k
        (placed_at a) (free a)
      ∙ flag_at-modify_at q es (get_or act a 0) k (placed_at b) (free b)
