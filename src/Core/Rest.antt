-- ===== src/Core/Rest.antt =====
-- How long a thread waits for tasks: cpool_core_get_restto of pool/core/cpool_core.c, and the clock
-- of the GC in pool/core/cpool_core_gc.h.
use libstpool.Base.{
  ℕ, zero, suc, ◌+◌, ◌-◌, ◌*◌, ◌/◌, ◌%◌, ◌^◌, ◌≤◌, ◌<◌, ◌≡◌, refl, sym, ap, subst, Option, none,
  some, Bool, true, false, not, ◌&&◌, ◌||◌, ltb, leb, ◌==◌, arith, if◌then◌else◌, if_elim, max, ℤ,
  pos, negsuc, above, magnitude,
}
use libstpool.Core.Threads.{Thread}
use libstpool.Core.Pool.{Pool}

-- The members of struct cpool_core that time the waits: `acttimeo` and `randtimeo` as words of 64
-- bits, and the clock of the GC, in microseconds; `us_now` is what `us_startr` gives.
pub record Timing : Type 0 where
  pub acttimeo : ℕ
  pub randtimeo : ℕ
  pub release_cleaning : Bool
  pub rest_timeo : ℕ
  pub us_gc_left_timeo : ℕ
  pub us_last_gcclock : ℕ
  pub us_now : ℕ

abbrev pub word : ℕ
word = 2 ^ 64

abbrev pub signed : ℕ → ℤ
signed w = if ltb w (2 ^ 63) then pos w else negsuc (word - w - 1)

-- cpool_core_GC_gettimeol: the time in milliseconds, and the clock.
unfoldable pub gc_gettimeol : Pool → Timing → ℕ × Timing
gc_gettimeol p m =
    let whole = m.rest_timeo * 1000 in
    let left = if m.us_gc_left_timeo == 0 || not p.created then whole else m.us_gc_left_timeo in
    let rest = left - (m.us_now - m.us_last_gcclock) in
    (max 1 (rest / 1000), record m { us_gc_left_timeo = rest; us_last_gcclock = m.us_now })

-- `acttimeo + random % randtimeo`, made positive
abbrev pub first_to : Timing → ℕ → ℕ
first_to m random =
    let w = (m.acttimeo + random % m.randtimeo) % word in if ltb w (2 ^ 63) then w else w % 2 ^ 16

-- `4600 - 1000 * (nt - crttime)`, computed on unsigned words and stored to a long
abbrev pub interleaved : ℕ → ℤ
interleaved age = signed ((word + 4600 - (1000 * age) % word) % word)

-- `while (last_to < t_interleaved) last_to += t_interleaved / 4`
unfoldable pub rest_loop : ℕ → ℕ → ℤ → Option ℕ
rest_loop zero last_to t = none
rest_loop (suc fuel) last_to t =
    let again = rest_loop fuel (last_to + magnitude t / 4) t in
    if above t last_to then again else some last_to

-- The thread is to be destroyed at once.
abbrev pub is_leaving : Pool → Timing → Thread → Bool
is_leaving p m self =
    (self.rm && p.created) || (not p.created && (m.release_cleaning || not self.gc))

-- `nt - crttime`, after `crttime`, a word of 32 bits, was set back to a time that is not later
abbrev pub age_of : Pool → ℕ
age_of p = p.env.now - p.env.crttime

abbrev pub set_back : Pool → Pool
set_back p = record p {
  env = record p.env { crttime = if leb p.env.now p.env.crttime then p.env.now else p.env.crttime };
}

abbrev timed : Pool → Timing → Option ℕ → Option (ℤ × Pool × Timing)
timed p m none = none
timed p m (some n) = some (pos n, p, m)

-- cpool_core_get_restto; `none` stands for the division by a `randtimeo` of 0, and for a number of
-- rounds that is not enough.
unfoldable pub get_restto : ℕ → Pool → Timing → Thread → ℕ → Option (ℤ × Pool × Timing)
unfolding gc_gettimeol rest_loop
get_restto fuel p m self random =
    let (gc, m') = gc_gettimeol p m in
    let loop = rest_loop fuel (first_to m random) (interleaved (age_of p)) in
    if is_leaving p m self
    then some (pos 0, p, m)
    else if self.gc
    then some (pos gc, p, m')
    else if ltb p.env.nthreads_real_sleeping p.minthreads
    then some (negsuc 0, p, m)
    else if m.randtimeo == 0
    then none
    else timed (set_back p) m loop

quarter : (q : ℕ) → 4 * q / 4 ≡ q
quarter q = omega arith

abbrev Ends : ℕ → ℕ → Option ℕ → Type 0
Ends q last_to o = (n : ℕ) × (o ≡ some n) × (4 * q ≤ n) × (last_to ≤ n) × (n ≤ max last_to (5 * q))

-- `k` rounds more
abbrev pub rounds : ℕ → ℕ → ℕ
rounds zero fuel = fuel
rounds (suc k) fuel = suc (rounds k fuel)

-- Where the interval is four times `q`, a quarter of it is added as often as it is missing.
loop-Ends :
    (k q last_to fuel : ℕ)
    → 4 * q ≤ last_to + k * q
    → Ends q last_to (rest_loop (suc (rounds k fuel)) last_to (pos (4 * q)))
unfolding rest_loop
loop-Ends zero q last_to fuel h =
    if_elim (Ends q last_to) (above (pos (4 * q)) last_to) (λ t. absurd (ground (arith, t, h)))
      (λ f. (last_to, refl, omega (arith, h), omega arith, omega arith))
loop-Ends (suc k) q last_to fuel h =
    if_elim (Ends q last_to) (above (pos (4 * q)) last_to)
      (λ t.
        let (n, e, low, up, top) =
          loop-Ends k q (last_to + 4 * q / 4) fuel (omega (arith, h, quarter q)) in
        (n, e, low, omega (arith, up), ground (arith, top, t, quarter q)))
      (λ f. (last_to, refl, ground (arith, f), omega arith, omega arith))

-- A quarter of the interval a new thread keeps, by the seconds since the last one was made
abbrev pub quarter_at : ℕ → ℕ
quarter_at age =
    if age == 0
    then 1150
    else if age == 1
    then 900
    else if age == 2
    then 650
    else if age == 3
    then 400
    else if age == 4
    then 150
    else 0

abbrev Out : Option (ℤ × Pool × Timing) → (ℤ → Type 0) → Type 0
Out o S = (ms : ℤ) × (p : Pool) × (m : Timing) × (o ≡ some (ms, p, m)) × S ms

abbrev IsTime : (ℕ → Type 0) → ℤ → Type 0
IsTime P ms = (n : ℕ) × (ms ≡ pos n) × P n

-- How long the thread waits, in milliseconds; -1 is for ever.
abbrev pub Rests : Pool → Timing → Thread → ℕ → Option (ℤ × Pool × Timing) → Type 0
Rests p m self random o =
    let q = quarter_at (age_of p) in
    let first = first_to m random in
    Out o (λ ms.
      if is_leaving p m self
      then ms ≡ pos 0
      else if self.gc
      then IsTime (λ n. 1 ≤ n) ms
      else if ltb p.env.nthreads_real_sleeping p.minthreads
      then ms ≡ negsuc 0
      else IsTime (λ n. (4 * q ≤ n) × (first ≤ n) × (n ≤ max first (5 * q))) ms)

on_both :
    (a : Bool) {x y : Option (ℤ × Pool × Timing)} {S T : ℤ → Type 0}
    → (a ≡ true → Out x S)
    → (a ≡ false → Out y T)
    → Out (if a then x else y) (λ ms. if a then S ms else T ms)
on_both true f g = f refl
on_both false f g = g refl

-- No interval is negative on a signed word of at least 2 ^ 63.
signed-above : (w last_to : ℕ) → 2 ^ 63 ≤ w → above (signed w) last_to ≡ false
signed-above w last_to h =
    if_elim (λ x. above x last_to ≡ false) (ltb w (2 ^ 63)) (λ t. absurd (ground (arith, t, h)))
      (λ _. refl)

old-quarter_at : (age : ℕ) → 5 ≤ age → quarter_at age ≡ 0
old-quarter_at age h = ground (arith, h)

later-Ends :
    (age last_to fuel : ℕ)
    → 5 ≤ age
    → age < 2 ^ 53
    → Ends (quarter_at age) last_to (rest_loop (suc (rounds 4 fuel)) last_to (interleaved age))
unfolding rest_loop
later-Ends age last_to fuel h u =
    subst (λ q. Ends q last_to (rest_loop (suc (rounds 4 fuel)) last_to (interleaved age)))
      (sym (old-quarter_at age h))
      (if_elim (Ends 0 last_to) (above (interleaved age) last_to)
        (λ t. absurd (
          ground (
            arith,
            t,
            signed-above ((word + 4600 - (1000 * age) % word) % word) last_to (omega (arith, h, u)),
          )))
        (λ f. (last_to, refl, omega arith, omega arith, omega arith)))

interleaved-quarter_at :
    (age last_to fuel : ℕ)
    → age < 2 ^ 53
    → Ends (quarter_at age) last_to (rest_loop (suc (rounds 4 fuel)) last_to (interleaved age))
interleaved-quarter_at zero last_to fuel h = loop-Ends 4 1150 last_to fuel (omega arith)
interleaved-quarter_at (suc zero) last_to fuel h = loop-Ends 4 900 last_to fuel (omega arith)
interleaved-quarter_at (suc (suc zero)) last_to fuel h = loop-Ends 4 650 last_to fuel (omega arith)
interleaved-quarter_at (suc (suc (suc zero))) last_to fuel h =
    loop-Ends 4 400 last_to fuel (omega arith)
interleaved-quarter_at (suc (suc (suc (suc zero)))) last_to fuel h =
    loop-Ends 4 150 last_to fuel (omega arith)
interleaved-quarter_at (suc (suc (suc (suc (suc k))))) last_to fuel h =
    later-Ends (suc (suc (suc (suc (suc k))))) last_to fuel (omega arith) (omega (arith, h))

-- Where randtimeo is not 0 and the time is below 2 ^ 32 seconds, cpool_core_get_restto returns
-- after at most five tests of its loop. The time is 0 for a thread that is to be destroyed, at
-- least 1 for one that does the GC, and -1 where fewer threads sleep than are to stay; else it is
-- at least the random time and the interval left since the last creation of threads, and at most
-- the random time or five quarters of the interval.
pub get_restto-Rests :
    (p : Pool) (m : Timing) (self : Thread) (random fuel : ℕ)
    → 0 < m.randtimeo
    → p.env.now < 2 ^ 32
    → Rests p m self random (get_restto (suc (rounds 4 fuel)) p m self random)
unfolding get_restto gc_gettimeol
get_restto-Rests p m self random fuel some_range now_lt =
    on_both (is_leaving p m self) (λ _. (pos 0, p, m, refl, refl))
      (λ _.
        on_both self.gc (λ _. (_, p, _, refl, (_, refl, omega arith)))
          (λ _.
            on_both (ltb p.env.nthreads_real_sleeping p.minthreads)
              (λ _. (negsuc 0, p, m, refl, refl))
              (λ _.
                if_elim (λ o. Out o Waits) (m.randtimeo == 0)
                  (λ h. absurd (ground (arith, h, some_range)))
                  (λ _.
                    let (n, e, low, up, top) =
                      interleaved-quarter_at (age_of p) (first_to m random) fuel
                        (omega (arith, now_lt)) in
                    (
                      pos n,
                      set_back p,
                      m,
                      ap (timed (set_back p) m) e,
                      (n, refl, (low, up, top)),
                    )))))
  where
    Waits : ℤ → Type 0
    Waits = IsTime (λ n.
        (4 * quarter_at (age_of p) ≤ n)
        × (first_to m random ≤ n)
        × (n ≤ max (first_to m random) (5 * quarter_at (age_of p))))
