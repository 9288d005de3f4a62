-- ===== src/Objpool/Examples.antt =====
-- A concrete run of the search of pool/core/objpool.c.
use libstpool.Base.{ℕ, zero, suc, ◌≤◌, ◌<◌, ◌≡◌, List, [], ◌∷◌, arith, length}
use libstpool.Objpool.Search.{ObjBlock, block_at, find_block, IsOrdered, find_block-finds}

abbrev two_blocks : List ObjBlock
two_blocks = record { begin = 10; end = 20 } ∷ record { begin = 30; end = 40 } ∷ []

two_blocks-IsOrdered : IsOrdered two_blocks
two_blocks-IsOrdered = record { apart = apart; forward = forward }
  where
    apart :
        (i j : ℕ)
        → i < j
        → j < length two_blocks
        → (block_at two_blocks i).end ≤ (block_at two_blocks j).begin
    apart zero zero h k = absurd (omega arith)
    apart zero (suc zero) h k = omega arith
    apart zero (suc (suc j)) h k = absurd (omega arith)
    apart (suc i) zero h k = absurd (omega arith)
    apart (suc i) (suc zero) h k = absurd (omega arith)
    apart (suc i) (suc (suc j)) h k = absurd (omega arith)

    forward : (i : ℕ) → (block_at two_blocks i).begin ≤ (block_at two_blocks i).end
    forward zero = omega arith
    forward (suc zero) = omega arith
    forward (suc (suc i)) = omega arith

find_block-finds_example : find_block two_blocks 33 ≡ 1
find_block-finds_example =
    find_block-finds two_blocks 33 1 two_blocks-IsOrdered
      (record { range = omega arith; from = omega arith; below = omega arith })
