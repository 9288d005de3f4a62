-- ===== src/Core/Sleepers.antt =====
-- cpool_core_wakeup_n_sleeping_threadsl of pool/core/cpool_core.h: how many threads it wakes, and
-- the counters.
use libstpool.Base.{
  take, ◌-◌, ◌||◌, ℕ, zero, suc, ◌+◌, ◌≤◌, ◌≡◌, refl, sym, ap, ◌∙◌, List, [], ◌∷◌, Option, none,
  some, Bool, true, false, ◌==◌, arith, if◌then◌else◌, Bool-cases, inl, inr, length, if_elim, ℤ,
  pos, negsuc, min, drop,
}
use libstpool.Core.Threads.{Thread, Env, modify, find}
use libstpool.Core.Wakeup.{
  decrement, is_one, waked, wake_first, wake_loop, wakeup_n_sleeping_threadsl,
}
use libstpool.Core.Tally.{cnt, is_waiting, Counts, nothing, Tally, modify-Tally}
use libstpool.Core.Census.{occ, named, waits_as, IsMarked, IsCensus}
use libstpool.Core.Create.{cnt-modify, length-modify, All-modify}

-- A thread was found, and waits.
abbrev pub waits : Option Thread → Bool
waits none = false
waits (some t) = is_waiting t

waits_named : (i : ℕ) (ts : List Thread) → cnt (waits_as i) ts ≤ cnt (named i) ts
waits_named i [] = omega arith
waits_named i (t ∷ ts) = ground (arith, waits_named i ts)

pub find-waits :
    (i : ℕ) (ts : List Thread)
    → 1 ≤ cnt (waits_as i) ts
    → cnt (named i) ts ≤ 1
    → waits (find i ts) ≡ true
find-waits i [] h u = absurd (omega arith)
find-waits i (t ∷ ts) h u =
    if_elim (λ o. waits o ≡ true) (t.tid == i) (λ same. ground (arith, waits_named i ts))
      (λ other. find-waits i ts (ground arith) (ground arith))

waked-Tally :
    (i : ℕ) (e : Env) (rest : List ℕ) (t : Thread)
    → is_waiting t ≡ true
    → (b : Counts) (ts : List Thread) → Tally b e (t ∷ ts)
    → Tally b (wake_first e i rest) (waked t ∷ ts)
unfolding wake_first
waked-Tally i e rest t w b ts h = record {
  live = omega (arith, h.live);
  dying = omega (arith, h.dying);
  running = omega (arith, h.running);
  dying_run = omega (arith, h.dying_run);
  sleeping = omega (arith, h.sleeping);
  free = omega (arith, h.free);
  waiting = ground (arith, h.waiting);
  waked = ground (arith, h.waked, h.waiting);
}

-- A woken thread waits no more; the others do as before.
pub waits_after :
    (i j : ℕ) (ts : List Thread)
    → waits (find i ts) ≡ true
    → cnt (waits_as j) (modify i waked ts) + (if i == j then 1 else 0) ≡ cnt (waits_as j) ts
waits_after i j [] w = cc
waits_after i j (t ∷ ts) w = elim (Bool-cases (t.tid == i)) [
  | inl same ↦ rw same (let w' : is_waiting t ≡ true = rw same at w in ground arith)
  | inr other ↦
      rw other
        (let w' : waits (find i ts) ≡ true = rw other at w in omega (arith, waits_after i j ts w'))
]

wake_first-IsCensus :
    (r w i : ℕ) (e : Env) (rest : List ℕ)
    → e.ths_waitq ≡ i ∷ rest
    → IsCensus r w e
    → IsCensus r w (wake_first e i rest)
unfolding wake_first
wake_first-IsCensus r w i e rest q c = record {
  tally = on_found (find i e.ths) refl;
  size = omega (arith, c.size, length-modify i waked e.ths);
  queued = λ j. omega (arith, head j, c.queued j, waits_after i j e.ths found);
  unique = λ j. omega (arith, c.unique j, cnt-modify (named j) i waked e.ths (λ t. refl));
  marks = All-modify IsMarked i waked e.ths (λ t h. h) c.marks;
}
  where
    head : (j : ℕ) → occ j e.ths_waitq ≡ (if i == j then 1 else 0) + occ j rest
    head j = ap (occ j) q

    found : waits (find i e.ths) ≡ true
    found = find-waits i e.ths (ground (arith, head i, c.queued i)) (c.unique i)

    on_found :
        (o : Option Thread)
        → find i e.ths ≡ o
        → Tally (nothing r w) (wake_first e i rest) (modify i waked e.ths)
    on_found none f = cc (rw f at found)
    on_found (some t) f =
        modify-Tally i waked e (wake_first e i rest) t (waked-Tally i e rest t (rw f at found))
          (nothing r w) e.ths f c.tally

wake_loop-IsCensus :
    (r w : ℕ) (q : List ℕ) (nwake : ℤ) (e : Env)
    → e.ths_waitq ≡ q
    → IsCensus r w e
    → IsCensus r w (wake_loop q nwake e)
unfolding wake_loop wake_first
wake_loop-IsCensus r w [] nwake e f c = c
wake_loop-IsCensus r w (i ∷ rest) nwake e f c =
    if_elim (IsCensus r w) (is_one nwake) (λ _. wake_first-IsCensus r w i e rest f c)
      (λ _.
        wake_loop-IsCensus r w rest (decrement nwake) (wake_first e i rest) refl
          (wake_first-IsCensus r w i e rest f c))

-- cpool_core_wakeup_n_sleeping_threadsl keeps the counters and the threads in agreement.
pub wakeup_n-IsCensus :
    (r w : ℕ) (e : Env) (nwake : ℤ)
    → IsCensus r w e
    → IsCensus r w (wakeup_n_sleeping_threadsl e nwake)
unfolding wakeup_n_sleeping_threadsl
wakeup_n-IsCensus r w e nwake c = wake_loop-IsCensus r w e.ths_waitq nwake e refl c

-- How many of `k` sleeping threads a call is to wake: a limit that is not positive is no limit.
abbrev pub wakes : ℤ → ℕ → ℕ
wakes (pos zero) k = k
wakes (pos (suc n)) k = min (suc n) k
wakes (negsuc n) k = k

wakes_next :
    (nwake : ℤ) (k : ℕ)
    → is_one nwake ≡ false
    → wakes nwake (suc k) ≡ suc (wakes (decrement nwake) k)
wakes_next (pos zero) k h = refl
wakes_next (pos (suc zero)) k h = cc
wakes_next (pos (suc (suc n))) k h = ground arith
wakes_next (negsuc n) k h = refl

is_one_lem : (nwake : ℤ) → is_one nwake ≡ true → nwake ≡ pos 1
is_one_lem (pos zero) h = cc
is_one_lem (pos (suc zero)) h = refl
is_one_lem (pos (suc (suc n))) h = cc
is_one_lem (negsuc n) h = cc

wakes_one : (k : ℕ) → min 1 (suc k) ≡ 1
wakes_one k = omega arith

-- The thread of this number is among them.
abbrev pub holds_id : ℕ → List ℕ → Bool
holds_id j [] = false
holds_id j (i ∷ is) = i == j || holds_id j is

-- A thread that was waked up, or is as before.
abbrev pub woken : Bool → Option Thread → Option Thread
woken b none = none
woken b (some t) = if b then some (waked t) else some t

-- The condition variables that were signalled, the last first, after those of these threads
abbrev pub signals : List ℕ → List ℕ → List ℕ
signals [] s = s
signals (i ∷ is) s = signals is (i ∷ s)

-- What a call does: it wakes the `k` threads at the head of the wait queue, that is, it sets their
-- `b_waked`, signals their condition variables in this order, and counts them as waked up.
pub record IsWoken (k : ℕ) (e e' : Env) : Type 0 where
  pub queue : e'.ths_waitq ≡ drop k e.ths_waitq
  pub threads : (j : ℕ) → find j e'.ths ≡ woken (holds_id j (take k e.ths_waitq)) (find j e.ths)
  pub signalled : e'.signalled ≡ signals (take k e.ths_waitq) e.signalled
  pub waked : e'.n_qths_waked ≡ e.n_qths_waked + k
  pub waiting : e'.n_qths_wait ≡ e.n_qths_wait - k
  pub pool : e'.nthreads_real_pool ≡ e.nthreads_real_pool

find-modify : (i j : ℕ) (ts : List Thread) → find j (modify i waked ts) ≡ woken (i == j) (find j ts)
find-modify i j [] = refl
find-modify i j (t ∷ ts) = elim (Bool-cases (t.tid == i)) [
  | inl same ↦ rw same (ground arith)
  | inr other ↦ rw other (ground (arith, find-modify i j ts))
]

woken-woken : (a b : Bool) (o : Option Thread) → woken b (woken a o) ≡ woken (a || b) o
woken-woken a b none = refl
woken-woken true true (some t) = refl
woken-woken true false (some t) = refl
woken-woken false b (some t) = refl

none-IsWoken : (e : Env) → IsWoken 0 e e
none-IsWoken e = record {
  queue = refl;
  threads = λ j. unwoken (find j e.ths);
  signalled = refl;
  waked = omega arith;
  waiting = omega arith;
  pool = refl;
}
  where
    unwoken : (o : Option Thread) → o ≡ woken false o
    unwoken none = refl
    unwoken (some t) = refl

-- One round, and `m` threads after it
round-IsWoken :
    (m i : ℕ) (rest : List ℕ) (e e' : Env)
    → e.ths_waitq ≡ i ∷ rest
    → IsWoken m (wake_first e i rest) e'
    → IsWoken (suc m) e e'
unfolding wake_first
round-IsWoken m i rest e e' f next = record {
  queue = next.queue ∙ ap (drop (suc m)) (sym f);
  threads = λ j.
      next.threads j
      ∙ ap (woken (holds_id j (take m rest))) (find-modify i j e.ths)
      ∙ woken-woken (i == j) (holds_id j (take m rest)) (find j e.ths)
      ∙ ap (λ q. woken (holds_id j (take (suc m) q)) (find j e.ths)) (sym f);
  signalled = next.signalled ∙ ap (λ q. signals (take (suc m) q) e.signalled) (sym f);
  waked = omega (arith, next.waked);
  waiting = omega (arith, next.waiting);
  pool = next.pool;
}

wakes_none : (nwake : ℤ) → wakes nwake 0 ≡ 0
wakes_none (pos zero) = refl
wakes_none (pos (suc n)) = omega arith
wakes_none (negsuc n) = refl

first_queue : (e : Env) (i : ℕ) (rest : List ℕ) → (wake_first e i rest).ths_waitq ≡ rest
unfolding wake_first
first_queue e i rest = refl

wake_loop-IsWoken :
    (q : List ℕ) (nwake : ℤ) (e : Env)
    → e.ths_waitq ≡ q
    → IsWoken (wakes nwake (length q)) e (wake_loop q nwake e)
unfolding wake_loop
wake_loop-IsWoken [] nwake e f = rw (wakes_none nwake) (none-IsWoken e)
wake_loop-IsWoken (i ∷ rest) nwake e f = elim (Bool-cases (is_one nwake)) [
  | inl one ↦
      rw (one, is_one_lem nwake one, wakes_one (length rest))
        (round-IsWoken 0 i rest e (wake_first e i rest) f (none-IsWoken (wake_first e i rest)))
  | inr more ↦
      rw (more, wakes_next nwake (length rest) more)
        (round-IsWoken (wakes (decrement nwake) (length rest)) i rest e
          (wake_loop rest (decrement nwake) (wake_first e i rest)) f
          (wake_loop-IsWoken rest (decrement nwake) (wake_first e i rest) (first_queue e i rest)))
]

-- cpool_core_wakeup_n_sleeping_threadsl takes the threads that it wakes from the head of the wait
-- queue, as many as it is told to or all that sleep, and all of them where the number is 0 or
-- negative. It sets `b_waked` of these threads and changes no other thread, signals the condition
-- variable of each of them in this order, and moves them from the counter of the waiting threads
-- to the one of the woken threads, while the number of live threads stays.
pub wakeup_n-IsWoken :
    (e : Env) (nwake : ℤ)
    → IsWoken (wakes nwake (length e.ths_waitq)) e (wakeup_n_sleeping_threadsl e nwake)
unfolding wakeup_n_sleeping_threadsl
wakeup_n-IsWoken e nwake = wake_loop-IsWoken e.ths_waitq nwake e refl
