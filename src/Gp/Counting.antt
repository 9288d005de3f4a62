-- ===== src/Gp/Counting.antt =====
-- How many positions of `actentry` (pool/gp/cpool_gp_entry.h) pass a test, and where they are.
use libstpool.Base.{
  ℕ, zero, suc, ◌+◌, ◌≤◌, ◌<◌, ◌≡◌, ◌≢◌, refl, ap, List, [], ◌∷◌, Bool, true, false, arith,
  if◌then◌else◌, length, get_or, set, length-set,
}
use libstpool.Gp.Positions.{count, get_or-set}

-- 1 where the test holds
abbrev pub bit : Bool → ℕ
bit b = if b then 1 else 0

pub count-set :
    (f : ℕ → Bool) (is : List ℕ) (a v : ℕ)
    → a < length is
    → count f (set is a v) + bit (f (get_or is a 0)) ≡ count f is + bit (f v)
count-set f [] a v h = absurd (omega arith)
count-set f (x ∷ is) zero v h = omega arith
count-set f (x ∷ is) (suc a) v h = omega (arith, count-set f is a v (omega arith))

pub count-swap :
    (f : ℕ → Bool) (is : List ℕ) (a b : ℕ)
    → a < length is
    → b < length is
    → count f (set (set is a (get_or is b 0)) b (get_or is a 0)) ≡ count f is
count-swap f is a b in_a in_b = omega (
  arith,
  count-set f is a (get_or is b 0) in_a,
  count-set f (set is a (get_or is b 0)) b (get_or is a 0)
      (omega (arith, length-set is a (get_or is b 0))),
  ap (λ i. bit (f i)) same,
)
  where
    same : get_or (set is a (get_or is b 0)) b 0 ≡ get_or is b 0
    same = ground (arith, get_or-set is a (get_or is b 0) b in_a)

pub count-ext :
    (f h : ℕ → Bool) (is : List ℕ)
    → ((p : ℕ) → p < length is → h (get_or is p 0) ≡ f (get_or is p 0))
    → count h is ≡ count f is
count-ext f h [] e = refl
count-ext f h (x ∷ is) e =
    omega (arith, ap bit (e 0 (omega arith)), count-ext f h is (λ p l. e (suc p) (omega arith)))

-- Another test that differs at one position
pub count-change :
    (f h : ℕ → Bool) (is : List ℕ) (a : ℕ)
    → a < length is
    → ((p : ℕ) → p < length is → p ≢ a → h (get_or is p 0) ≡ f (get_or is p 0))
    → count h is + bit (f (get_or is a 0)) ≡ count f is + bit (h (get_or is a 0))
count-change f h [] a l e = absurd (omega arith)
count-change f h (x ∷ is) zero l e =
    omega
      (arith, count-ext f h is (λ p k. e (suc p) (omega arith) (λ q. absurd (omega (arith, q)))))
count-change f h (x ∷ is) (suc a) l e = omega (
  arith,
  ap bit (e 0 (omega arith) (λ q. absurd (omega (arith, q)))),
  count-change f h is a (omega arith)
      (λ p k n. e (suc p) (omega arith) (λ q. n (omega (arith, q)))),
)

-- The positions that pass are among the first `n`, so there are at most `n`.
pub count-le :
    (f : ℕ → Bool) (is : List ℕ) (n : ℕ)
    → ((p : ℕ) → p < length is → f (get_or is p 0) ≡ true → p < n)
    → count f is ≤ n
count-le f [] n e = omega arith
count-le f (x ∷ is) zero e = ground (
  arith,
  count-le f is zero (λ p l q. absurd (omega (arith, e (suc p) (omega arith) q))),
  e 0 (omega arith),
)
count-le f (x ∷ is) (suc n) e =
    ground (arith, count-le f is n (λ p l q. omega (arith, e (suc p) (omega arith) q)))

later :
    (f : ℕ → Bool) (x : ℕ) (is : List ℕ) (n : ℕ)
    → ((p : ℕ) → p < length (x ∷ is) → f (get_or (x ∷ is) p 0) ≡ true → p < suc n)
    → (p : ℕ) → p < length is
    → f (get_or is p 0) ≡ true
    → p < n
later f x is n e p k q = omega (arith, e (suc p) (omega arith) q)

-- If there are `n` of them, they are these.
pub count-full :
    (f : ℕ → Bool) (is : List ℕ) (n : ℕ)
    → ((p : ℕ) → p < length is → f (get_or is p 0) ≡ true → p < n)
    → count f is ≡ n
    → (p : ℕ) → p < n
    → f (get_or is p 0) ≡ true
count-full f [] n e c p l = absurd (omega arith)
count-full f (x ∷ is) zero e c p l = absurd (omega arith)
count-full f (x ∷ is) (suc n) e c zero l = ground (arith, count-le f is n (later f x is n e))
count-full f (x ∷ is) (suc n) e c (suc p) l =
    count-full f is n (later f x is n e) (ground (arith, count-le f is n (later f x is n e))) p
      (omega arith)

-- If the first `n` pass and no more than `n` do, the others do not.
pub count-rest :
    (f : ℕ → Bool) (is : List ℕ) (n : ℕ)
    → ((p : ℕ) → p < n → f (get_or is p 0) ≡ true)
    → n ≤ length is
    → count f is ≡ n
    → (p : ℕ) → n ≤ p
    → p < length is
    → f (get_or is p 0) ≡ false
count-rest f [] n e s c p l k = absurd (omega arith)
count-rest f (x ∷ is) zero e s c zero l k = ground arith
count-rest f (x ∷ is) zero e s c (suc p) l k =
    count-rest f is zero (λ q h. absurd (omega arith)) (omega arith) (ground arith) p (omega arith)
      (omega arith)
count-rest f (x ∷ is) (suc n) e s c zero l k = absurd (omega arith)
count-rest f (x ∷ is) (suc n) e s c (suc p) l k =
    count-rest f is n (λ q h. e (suc q) (omega arith)) (omega arith) (ground (arith, e 0)) p
      (omega arith) (omega arith)
