-- ===== src/Gp/Positions.antt =====
-- The arrays `entry` and `actentry` of pool/gp/cpool_gp_entry.h: the places of the groups, and how a
-- swap changes them.
use libstpool.Base.{
  ℕ, zero, suc, ◌+◌, ◌<◌, ◌≡◌, refl, ap, ◌∙◌, List, [], ◌∷◌, Option, none, some, Bool, ◌==◌, arith,
  if◌then◌else◌, length, get_or, set, get_elem?, modify_at, length-set,
}
use libstpool.Gp.Defs.{Entry, placed_at, flag_at}

abbrev pub count : (ℕ → Bool) → List ℕ → ℕ
count f [] = 0
count f (i ∷ is) = (if f i then 1 else 0) + count f is

abbrev pub index_of : Option Entry → ℕ
index_of none = 0
index_of (some e) = e.index

abbrev pub index_at : List Entry → ℕ → ℕ
index_at es i = index_of (get_elem? es i)

pub get_or-set :
    (is : List ℕ) (a v p : ℕ)
    → a < length is
    → get_or (set is a v) p 0 ≡ (if p == a then v else get_or is p 0)
get_or-set [] a v p h = absurd (omega arith)
get_or-set (x ∷ is) zero v zero h = refl
get_or-set (x ∷ is) zero v (suc p) h = ground arith
get_or-set (x ∷ is) (suc a) v zero h = ground arith
get_or-set (x ∷ is) (suc a) v (suc p) h = ground (arith, get_or-set is a v p)

pub length-modify_at :
    (i : ℕ) (f : Entry → Entry) (es : List Entry) → length (modify_at i f es) ≡ length es
length-modify_at i f [] = refl
length-modify_at zero f (x ∷ es) = refl
length-modify_at (suc i) f (x ∷ es) = ap suc (length-modify_at i f es)

pub index_at-placed_at :
    (es : List Entry) (i b k : ℕ)
    → i < length es
    → index_at (modify_at i (placed_at b) es) k ≡ (if k == i then b else index_at es k)
index_at-placed_at [] i b k h = absurd (omega arith)
index_at-placed_at (x ∷ es) zero b zero h = refl
index_at-placed_at (x ∷ es) zero b (suc k) h = ground arith
index_at-placed_at (x ∷ es) (suc i) b zero h = ground arith
index_at-placed_at (x ∷ es) (suc i) b (suc k) h = ground (arith, index_at-placed_at es i b k)

-- A store that keeps a test of the group, and one that keeps its place
pub flag_at-modify_at :
    (q : Entry → Bool) (es : List Entry) (i k : ℕ) (f : Entry → Entry)
    → ((e : Entry) → q (f e) ≡ q e)
    → flag_at q (modify_at i f es) k ≡ flag_at q es k
flag_at-modify_at q [] i k f h = refl
flag_at-modify_at q (x ∷ es) zero zero f h = h x
flag_at-modify_at q (x ∷ es) zero (suc k) f h = refl
flag_at-modify_at q (x ∷ es) (suc i) zero f h = refl
flag_at-modify_at q (x ∷ es) (suc i) (suc k) f h = flag_at-modify_at q es i k f h

pub index_at-modify_at :
    (es : List Entry) (i k : ℕ) (f : Entry → Entry)
    → ((e : Entry) → (f e).index ≡ e.index)
    → index_at (modify_at i f es) k ≡ index_at es k
index_at-modify_at [] i k f h = refl
index_at-modify_at (x ∷ es) zero zero f h = h x
index_at-modify_at (x ∷ es) zero (suc k) f h = refl
index_at-modify_at (x ∷ es) (suc i) zero f h = refl
index_at-modify_at (x ∷ es) (suc i) (suc k) f h = index_at-modify_at es i k f h

-- A store that sets a test of the group
pub flag_at-set :
    (q : Entry → Bool) (es : List Entry) (i k : ℕ) (f : Entry → Entry) (b : Bool)
    → i < length es
    → ((e : Entry) → q (f e) ≡ b)
    → flag_at q (modify_at i f es) k ≡ (if k == i then b else flag_at q es k)
flag_at-set q [] i k f b l h = absurd (omega arith)
flag_at-set q (x ∷ es) zero zero f b l h = h x
flag_at-set q (x ∷ es) zero (suc k) f b l h = ground arith
flag_at-set q (x ∷ es) (suc i) zero f b l h = ground arith
flag_at-set q (x ∷ es) (suc i) (suc k) f b l h =
    ground (arith, flag_at-set q es i k f b (omega arith) h)

-- `actentry` and the member `index` are inverse to each other.
pub record IsPlaced (es : List Entry) (act : List ℕ) : Type 0 where
  pub sized : length act ≡ length es
  pub inside : (p : ℕ) → p < length act → get_or act p 0 < length act
  pub back : (p : ℕ) → p < length act → index_at es (get_or act p 0) ≡ p
  pub indexed : (k : ℕ) → k < length act → index_at es k < length act
  pub there : (k : ℕ) → k < length act → get_or act (index_at es k) 0 ≡ k

module _ (es : List Entry) (act : List ℕ) (a b : ℕ) (placed : IsPlaced es act)
    (in_a : a < length act) (in_b : b < length act) where
  pub index_at-swap :
      (k : ℕ)
      → index_at
          (modify_at (get_or act b 0) (placed_at a) (modify_at (get_or act a 0) (placed_at b) es))
          k
        ≡ (if k == get_or act b 0 then a else if k == get_or act a 0 then b else index_at es k)
  index_at-swap k = ground (
    arith,
    index_at-placed_at (modify_at (get_or act a 0) (placed_at b) es) (get_or act b 0) a k,
    index_at-placed_at es (get_or act a 0) b k,
    length-modify_at (get_or act a 0) (placed_at b) es,
    placed.inside a in_a,
    placed.inside b in_b,
    placed.sized,
  )

  pub get_or-swap :
      (p : ℕ)
      → get_or (set (set act a (get_or act b 0)) b (get_or act a 0)) p 0
        ≡ (if p == b then get_or act a 0 else if p == a then get_or act b 0 else get_or act p 0)
  get_or-swap p = ground (
    arith,
    get_or-set (set act a (get_or act b 0)) b (get_or act a 0) p,
    get_or-set act a (get_or act b 0) p,
    length-set act a (get_or act b 0),
  )

-- A swap keeps the two arrays inverse to each other.
pub swap-IsPlaced :
    (es : List Entry) (act : List ℕ) (a b : ℕ)
    → IsPlaced es act
    → a < length act
    → b < length act
    → IsPlaced
        (modify_at (get_or act b 0) (placed_at a) (modify_at (get_or act a 0) (placed_at b) es))
        (set (set act a (get_or act b 0)) b (get_or act a 0))
swap-IsPlaced es act a b pl in_a in_b = record {
  sized = omega (
    arith,
    size,
    pl.sized,
    length-modify_at (get_or act b 0) (placed_at a) (modify_at (get_or act a 0) (placed_at b) es),
    length-modify_at (get_or act a 0) (placed_at b) es,
  );
  inside = λ p h. ground (arith, size, moved p, pl.inside a in_a, pl.inside b in_b, pl.inside p);
  back = λ p h. ground (
    arith,
    size,
    moved p,
    index (get_or act b 0),
    index (get_or act a 0),
    index (get_or act p 0),
    pl.back a in_a,
    pl.back b in_b,
    pl.back p,
  );
  indexed = λ k h. ground (arith, size, index k, pl.indexed k);
  there = λ k h. ground (
    arith,
    size,
    index k,
    moved a,
    moved b,
    moved (index_at es k),
    pl.back a in_a,
    pl.back b in_b,
    pl.there k,
  );
}
  where
    size : length (set (set act a (get_or act b 0)) b (get_or act a 0)) ≡ length act
    size =
        length-set (set act a (get_or act b 0)) b (get_or act a 0)
        ∙ length-set act a (get_or act b 0)

    moved :
        (p : ℕ)
        → get_or (set (set act a (get_or act b 0)) b (get_or act a 0)) p 0
          ≡ (if p == b then get_or act a 0 else if p == a then get_or act b 0 else get_or act p 0)
    moved = get_or-swap es act a b pl in_a in_b

    index :
        (k : ℕ)
        → index_at
            (modify_at (get_or act b 0) (placed_at a) (modify_at (get_or act a 0) (placed_at b) es))
            k
          ≡ (if k == get_or act b 0 then a else if k == get_or act a 0 then b else index_at es k)
    index = index_at-swap es act a b pl in_a in_b
