-- ===== src/Core/Com.antt =====
-- The methods that all pools share and that change the threads: cpool_com_adjust,
-- cpool_com_adjust_abs and cpool_com_flush of pool/com/cpool_com_method.c.
use libstpool.Base.{
  ℕ, suc, ◌+◌, ◌-◌, ◌≡◌, List, Option, ◌||◌, ◌==◌, arith, ltb, if◌then◌else◌, min, ℤ, pos, negsuc,
  is_negative, magnitude,
}
use libstpool.Core.Grow.{dec_threadsl}
use libstpool.Core.Census.{IsCensus}
use libstpool.Core.Shrink.{dec_threadsl-left, dec_threadsl-count}
use libstpool.Core.Pool.{Pool, Event}
use libstpool.Core.Services.{adjust_abs_l}

-- A limit and a change of it, where what would be negative is 0.
abbrev pub shifted : ℕ → ℤ → ℕ
shifted n (pos k) = n + k
shifted n (negsuc k) = n - suc k

-- The limits that cpool_com_adjust asks for.
abbrev pub new_max : Pool → ℤ → ℕ
new_max p d = if shifted p.maxthreads d == 0 then 1 else shifted p.maxthreads d

abbrev pub new_min : Pool → ℤ → ℤ → ℕ
new_min p d b = min (new_max p d) (shifted p.minthreads b)

-- The threads to dismiss in a flush; a number that is not positive dismisses none.
unfoldable pub com_flush : Pool → ℕ × Pool
com_flush p =
    let (n, e) = dec_threadsl p.env (p.env.nthreads_real_pool - p.minthreads) in
    (n, record p { env = e })

-- Where the counters agree with the threads, cpool_com_flush leaves the smaller of the number of
-- live threads and the lower limit, and returns how many it dismissed.
pub com_flush-min :
    (p : Pool)
    → IsCensus 0 0 p.env
    → let (n, p') = com_flush p in
      (p'.env.nthreads_real_pool ≡ min p.env.nthreads_real_pool p.minthreads)
      × (p'.env.nthreads_real_pool + n ≡ p.env.nthreads_real_pool)
unfolding com_flush
com_flush-min p c =
    let k = p.env.nthreads_real_pool - p.minthreads in
    let left = dec_threadsl-left p.env k c in
    let count = dec_threadsl-count p.env k c in (omega (arith, left), omega (arith, left, count))

module _ (notifyl : Event → Pool → Pool) where
  unfoldable pub com_adjust : Pool → ℤ → ℤ → List (Option ℕ) → Pool
  com_adjust p max min made = adjust_abs_l notifyl p (new_max p max) (new_min p max min) made

  unfoldable pub com_adjust_abs : Pool → ℤ → ℤ → List (Option ℕ) → Pool
  com_adjust_abs p max min made =
      if is_negative min || (is_negative max || ltb (magnitude max) (magnitude min))
      then p
      else adjust_abs_l notifyl p (magnitude max) (magnitude min) made
