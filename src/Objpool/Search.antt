-- ===== src/Objpool/Search.antt =====
-- The search of objpool_put, pool/core/objpool.c, for the block of an object. Addresses are
-- numbers. Where the source's `r` becomes -1 it is 0 here; the loop ends in both cases, and reads
-- the first block.
use libstpool.Base.{
  ℕ, zero, suc, ◌+◌, ◌-◌, ◌/◌, ◌≤◌, ◌<◌, ◌≡◌, List, length, get_or, not, ltb, arith, if◌then◌else◌,
  if_elim,
}

-- obj_block_t, less its free queue: the array of the objects, from `begin` to before `end`.
pub record ObjBlock : Type 0 where
  pub begin : ℕ
  pub end : ℕ

abbrev pub block_at : List ObjBlock → ℕ → ObjBlock
block_at blocks i = get_or blocks i (record { begin = 0; end = 0 })

-- The loop, on fuel, and the index (l+r)/2 behind it.
unfoldable pub search_block : ℕ → List ObjBlock → ℕ → ℕ → ℕ → ℕ
search_block zero blocks obj l r = (l + r) / 2
search_block (suc fuel) blocks obj l r =
    let mid = (l + r) / 2 in
    let lower = search_block fuel blocks obj l (mid - 1) in
    let upper = search_block fuel blocks obj (mid + 1) r in
    if not (ltb l r)
    then mid
    else if ltb obj (block_at blocks mid).begin
    then lower
    else if ltb obj (block_at blocks mid).end
    then mid
    else upper

-- The loop of objpool_put, with the number of blocks as fuel.
unfoldable pub find_block : List ObjBlock → ℕ → ℕ
unfolding search_block
find_block blocks obj = search_block (length blocks) blocks obj 0 (length blocks - 1)

-- The blocks follow one another.
pub record IsOrdered (blocks : List ObjBlock) : Type 0 where
  pub apart :
      (i j : ℕ) → i < j → j < length blocks → (block_at blocks i).end ≤ (block_at blocks j).begin
  pub forward : (i : ℕ) → (block_at blocks i).begin ≤ (block_at blocks i).end

-- The object lies in this block.
pub record IsIn (blocks : List ObjBlock) (obj k : ℕ) : Type 0 where
  pub range : k < length blocks
  pub from : (block_at blocks k).begin ≤ obj
  pub below : obj < (block_at blocks k).end

search_block-finds :
    (fuel : ℕ) (blocks : List ObjBlock) (obj k l r : ℕ)
    → IsOrdered blocks
    → IsIn blocks obj k
    → l ≤ k
    → k ≤ r
    → r < length blocks
    → r - l ≤ fuel
    → search_block fuel blocks obj l r ≡ k
unfolding search_block
search_block-finds zero blocks obj k l r o i a b c f = omega arith
search_block-finds (suc fuel) blocks obj k l r o i a b c f =
    if_elim (λ x. x ≡ k) (not (ltb l r)) (λ done. ground arith)
      (λ more.
        if_elim (λ x. x ≡ k) (ltb obj (block_at blocks mid).begin)
          (λ h.
            let less = lower (ground arith) (ground arith) in
            search_block-finds fuel blocks obj k l (mid - 1) o i a (omega (arith, less))
              (omega (arith, less, inside (ground arith)))
              (omega (arith, f, inside (ground arith))))
          (λ h.
            if_elim (λ x. x ≡ k) (ltb obj (block_at blocks mid).end)
              (λ g. here (ground arith) (ground arith) (ground arith))
              (λ g.
                let past = upper (ground arith) (ground arith) in
                search_block-finds fuel blocks obj k (mid + 1) r o i (omega (arith, past)) b c
                  (omega (arith, f, inside (ground arith))))))
  where
    mid : ℕ
    mid = (l + r) / 2

    inside : l < r → (l ≤ mid) × (mid < r)
    inside g = (omega arith, omega arith)

    before : mid < length blocks → k < mid → (block_at blocks k).end ≤ (block_at blocks mid).begin
    before g h = o.apart k mid h g

    after : mid < k → (block_at blocks mid).end ≤ (block_at blocks k).begin
    after h = o.apart mid k h i.range

    lower : l < r → obj < (block_at blocks mid).begin → k < mid
    lower g h = ground (arith, after, o.forward mid, i.from)

    upper : l < r → (block_at blocks mid).end ≤ obj → mid < k
    upper g h = ground (arith, before (omega (arith, inside g)), o.forward mid, i.below)

    here : l < r → (block_at blocks mid).begin ≤ obj → obj < (block_at blocks mid).end → mid ≡ k
    here g h j = ground (arith, before (omega (arith, inside g)), after, i.from, i.below)

-- Where the blocks follow one another and an object lies in one of them, the search of
-- objpool_put ends after at most as many rounds as there are blocks, with the block of the
-- object.
pub find_block-finds :
    (blocks : List ObjBlock) (obj k : ℕ)
    → IsOrdered blocks
    → IsIn blocks obj k
    → find_block blocks obj ≡ k
unfolding find_block
find_block-finds blocks obj k o i =
    search_block-finds (length blocks) blocks obj k 0 (length blocks - 1) o i (omega arith)
      (omega (arith, i.range)) (omega (arith, i.range)) (omega arith)
