-- ===== src/Priq/Ready.antt =====
-- The ready queue of pool/com/cpool_com_priq.h: when it is exact, and the lemmas on its changes.
use libstpool.Base.{
  ℕ, ◌≤◌, ◌<◌, ◌≡◌, ◌≢◌, refl, ap, List, [], ◌∷◌, ◌++◌, Bool, true, false, not, ◌&&◌, ◌||◌, arith,
  All, All-append, ◌==◌, length, get_or, is_empty,
}
use libstpool.Priq.Defs.{Container, last_of, link_before, active, unlink_ready}

abbrev pub IsFalling : List ℕ → Type 0
IsFalling [] = Unit {0}
IsFalling (i ∷ is) = All (λ j. j < i) is × IsFalling is

abbrev pub has : ℕ → List ℕ → Bool
has j [] = false
has j (i ∷ is) = j == i || has j is

pub record IsContainer (c : Container) : Type 0 where
  pub sized : length c.priq ≡ c.priq_num
  pub falling : IsFalling c.ready_q
  pub exact : (i : ℕ) → has i c.ready_q ≡ not (is_empty (get_or c.priq i []))

pub has-append : (j : ℕ) (is : List ℕ) (q : ℕ) → has j (is ++ q ∷ []) ≡ (j == q || has j is)
has-append j [] q = refl
has-append j (i ∷ is) q = ground (arith, has-append j is q)

pub link_before-has :
    (j q i : ℕ) (is : List ℕ)
    → last_of i is < q
    → has j (link_before q (i ∷ is)) ≡ (j == q || has j (i ∷ is))
unfolding link_before
link_before-has j q i [] h = ground arith
link_before-has j q i (k ∷ is) h = ground (arith, link_before-has j q k is h)

pub link_before-All :
    (P : ℕ → Type 0) (q : ℕ) (is : List ℕ) → P q → All P is → All P (link_before q is)
unfolding link_before
link_before-All P q [] h a = tt
link_before-All P q (i ∷ is) h a = ground (arith, link_before-All P q is h a.1)

pub All-lt_trans : (a b : ℕ) (is : List ℕ) → a ≤ b → All (λ j. j < a) is → All (λ j. j < b) is
All-lt_trans a b [] h l = tt
All-lt_trans a b (i ∷ is) h l = (omega arith, All-lt_trans a b is h l.1)

pub link_before-IsFalling :
    (q : ℕ) (is : List ℕ) → has q is ≡ false → IsFalling is → IsFalling (link_before q is)
unfolding link_before
link_before-IsFalling q [] n f = tt
link_before-IsFalling q (i ∷ is) n f =
    ground
      (arith, link_before-IsFalling q is, link_before-All (λ j. j < i) q is, All-lt_trans i q is)

pub last_of-le : (i : ℕ) (is : List ℕ) → IsFalling (i ∷ is) → last_of i is ≤ i
last_of-le i [] f = omega arith
last_of-le i (k ∷ is) f = omega (arith, last_of-le k is f.1, f.0.0)

pub append-IsFalling :
    (q i : ℕ) (is : List ℕ) → q < last_of i is → IsFalling (i ∷ is) → IsFalling ((i ∷ is) ++ q ∷ [])
append-IsFalling q i [] h f = ((h, tt), (tt, tt))
append-IsFalling q i (k ∷ is) h f = (
  All-append (λ j. j < i) (k ∷ is) (q ∷ []) f.0 (omega (arith, last_of-le i (k ∷ is) f), tt),
  append-IsFalling q k is h f.1,
)

pub has-last : (i : ℕ) (is : List ℕ) → has (last_of i is) (i ∷ is) ≡ true
has-last i [] = ground arith
has-last i (k ∷ is) = ground (arith, has-last k is)

pub active-IsFalling :
    (q : ℕ) (is : List ℕ) → has q is ≡ false → IsFalling is → IsFalling (active q is)
unfolding active
active-IsFalling q [] n f = (tt, tt)
active-IsFalling q (i ∷ is) n f =
    ground (arith, append-IsFalling q i is, link_before-IsFalling q (i ∷ is) n f)

pub has-ne : (i j : ℕ) (is : List ℕ) → has i is ≡ true → has j is ≡ false → i ≢ j
has-ne i j is h k e = ground arith

pub active-has :
    (j q : ℕ) (is : List ℕ) → has q is ≡ false → has j (active q is) ≡ (j == q || has j is)
unfolding active
active-has j q [] n = refl
active-has j q (i ∷ is) n = ground (
  arith,
  has-append j (i ∷ is) q,
  link_before-has j q i is,
  has-ne (last_of i is) q (i ∷ is) (has-last i is) n,
)

pub has-same : (i j : ℕ) (is : List ℕ) → i ≡ j → has i is ≡ has j is
has-same i j is e = ap (λ k. has k is) e

pub unlink_ready-All : (P : ℕ → Type 0) (q : ℕ) (is : List ℕ) → All P is → All P (unlink_ready q is)
unfolding unlink_ready
unlink_ready-All P q [] a = tt
unlink_ready-All P q (i ∷ is) a = ground (arith, unlink_ready-All P q is a.1)

pub unlink_ready-IsFalling : (q : ℕ) (is : List ℕ) → IsFalling is → IsFalling (unlink_ready q is)
unfolding unlink_ready
unlink_ready-IsFalling q [] f = tt
unlink_ready-IsFalling q (i ∷ is) f =
    ground (arith, unlink_ready-IsFalling q is f.1, unlink_ready-All (λ j. j < i) q is f.0)

pub above-has : (i : ℕ) (is : List ℕ) → All (λ j. j < i) is → has i is ≡ false
above-has i [] a = refl
above-has i (j ∷ is) a = ground (arith, above-has i is a.1)

pub unlink_ready-has :
    (j q : ℕ) (is : List ℕ) → IsFalling is → has j (unlink_ready q is) ≡ (not (j == q) && has j is)
unfolding unlink_ready
unlink_ready-has j q [] f = ground arith
unlink_ready-has j q (i ∷ is) f = ground (arith, unlink_ready-has j q is f.1, above-has i is f.0)
