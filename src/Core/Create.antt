-- ===== src/Core/Create.antt =====
-- The new threads of cpool_core_add_threadsl, pool/core/cpool_core.c, and the whole of it.
use libstpool.Base.{
  ℕ, zero, suc, ◌+◌, ◌*◌, ◌≤◌, ◌≡◌, refl, ap, ◌∙◌, List, [], ◌∷◌, ◌++◌, Option, none, some, Bool,
  ◌==◌, arith, if◌then◌else◌, length, All, length-append, if_elim, All-append,
}
use libstpool.Core.Threads.{Thread, Env, modify, init_thread}
use libstpool.Core.Grow.{revive, create, create_loop, link_new, add_threadsl}
use libstpool.Core.Tally.{
  cnt, is_live, is_dying, is_running, is_dying_run, is_sleeping, is_free, is_waiting, is_waked,
}
use libstpool.Core.Census.{named, waits_as, IsMarked, IsCensus}
use libstpool.Core.Revive.{revive-IsCensus, revive-names}

cnt-append : (p : Thread → Bool) (ts us : List Thread) → cnt p (ts ++ us) ≡ cnt p ts + cnt p us
cnt-append p [] us = omega arith
cnt-append p (t ∷ ts) us = omega (arith, cnt-append p ts us)

-- A store that leaves the kind of the thread alone.
pub cnt-modify :
    (p : Thread → Bool) (i : ℕ) (f : Thread → Thread) (ts : List Thread)
    → ((t : Thread) → p (f t) ≡ p t)
    → cnt p (modify i f ts) ≡ cnt p ts
cnt-modify p i f [] h = refl
cnt-modify p i f (t ∷ ts) h = ground (arith, h t, cnt-modify p i f ts h)

pub length-modify :
    (i : ℕ) (f : Thread → Thread) (ts : List Thread) → length (modify i f ts) ≡ length ts
length-modify i f [] = refl
length-modify i f (t ∷ ts) = ground (arith, length-modify i f ts)

pub All-modify {ℓ} :
    (P : Thread → Type ℓ) (i : ℕ) (f : Thread → Thread) (ts : List Thread)
    → ((t : Thread) → P t → P (f t))
    → All P ts
    → All P (modify i f ts)
All-modify P i f [] h a = tt
All-modify P i f (t ∷ ts) h a =
    if_elim (All P) (t.tid == i) (λ _. (h t a.0, a.1)) (λ _. (a.0, All-modify P i f ts h a.1))

abbrev pub queues : ℕ → Thread → Thread
queues i t = record t { thq = t.thq ++ i ∷ [] }

cnt-link_new :
    (p : Thread → Bool) (self : Option ℕ) (i : ℕ) (ts : List Thread)
    → ((t : Thread) → p (queues i t) ≡ p t)
    → cnt p (link_new self i ts) ≡ cnt p ts + cnt p (init_thread i ∷ [])
unfolding link_new
cnt-link_new p none i ts h = cnt-append p ts (init_thread i ∷ [])
cnt-link_new p (some s) i ts h = omega (
  arith,
  cnt-append p (modify s (queues i) ts) (init_thread i ∷ []),
  cnt-modify p s (queues i) ts h,
)

-- The number of new threads, each of which counts `c` for a kind.
pub create_loop-cnt :
    (p : Thread → Bool) (c : ℕ) (self : Option ℕ) (n : ℕ) (made : List (Option ℕ))
    (ts : List Thread)
    → ((i : ℕ) (t : Thread) → p (queues i t) ≡ p t)
    → ((i : ℕ) → cnt p (init_thread i ∷ []) ≡ c)
    → cnt p (create_loop self n made ts).1 ≡ cnt p ts + (create_loop self n made ts).0 * c
unfolding create_loop
create_loop-cnt p c self zero made ts h k = omega arith
create_loop-cnt p c self (suc n) [] ts h k = omega arith
create_loop-cnt p c self (suc n) (none ∷ made) ts h k = omega arith
create_loop-cnt p c self (suc n) (some i ∷ made) ts h k = omega (
  arith,
  create_loop-cnt p c self n made (link_new self i ts) h k,
  cnt-link_new p self i ts (h i),
  k i,
)

link_new-size :
    (self : Option ℕ) (i : ℕ) (ts : List Thread) → length (link_new self i ts) ≡ length ts + 1
unfolding link_new
link_new-size none i ts = length-append ts (init_thread i ∷ [])
link_new-size (some s) i ts =
    length-append (modify s (queues i) ts) (init_thread i ∷ [])
    ∙ ap (λ n. n + 1) (length-modify s (queues i) ts)

link_new-marks :
    (self : Option ℕ) (i : ℕ) (ts : List Thread)
    → All IsMarked ts
    → All IsMarked (link_new self i ts)
unfolding link_new init_thread
link_new-marks none i ts m = All-append IsMarked ts (init_thread i ∷ []) m (refl, tt)
link_new-marks (some s) i ts m =
    All-append IsMarked (modify s (queues i) ts) (init_thread i ∷ [])
      (All-modify IsMarked s (queues i) ts (λ t h. h) m) (refl, tt)

create_loop-size :
    (self : Option ℕ) (n : ℕ) (made : List (Option ℕ)) (ts : List Thread)
    → length (create_loop self n made ts).1 ≡ length ts + (create_loop self n made ts).0
unfolding create_loop
create_loop-size self zero made ts = omega arith
create_loop-size self (suc n) [] ts = omega arith
create_loop-size self (suc n) (none ∷ made) ts = omega arith
create_loop-size self (suc n) (some i ∷ made) ts =
    omega (arith, create_loop-size self n made (link_new self i ts), link_new-size self i ts)

create_loop-marks :
    (self : Option ℕ) (n : ℕ) (made : List (Option ℕ)) (ts : List Thread)
    → All IsMarked ts
    → All IsMarked (create_loop self n made ts).1
unfolding create_loop
create_loop-marks self zero made ts m = m
create_loop-marks self (suc n) [] ts m = m
create_loop-marks self (suc n) (none ∷ made) ts m = m
create_loop-marks self (suc n) (some i ∷ made) ts m =
    create_loop-marks self n made (link_new self i ts) (link_new-marks self i ts m)

-- How often a number is given to a new thread.
abbrev pub given : ℕ → List (Option ℕ) → ℕ
given i [] = 0
given i (none ∷ made) = given i made
given i (some j ∷ made) = (if j == i then 1 else 0) + given i made

-- Each new thread has a number of its own.
abbrev pub IsFresh : List (Option ℕ) → List Thread → Type 0
IsFresh made ts = (i : ℕ) → cnt (named i) ts + given i made ≤ 1

create_loop-names :
    (i : ℕ) (self : Option ℕ) (n : ℕ) (made : List (Option ℕ)) (ts : List Thread)
    → cnt (named i) (create_loop self n made ts).1 ≤ cnt (named i) ts + given i made
unfolding create_loop
create_loop-names i self zero made ts = omega arith
create_loop-names i self (suc n) [] ts = omega arith
create_loop-names i self (suc n) (none ∷ made) ts = omega arith
create_loop-names i self (suc n) (some j ∷ made) ts = omega (
  arith,
  create_loop-names i self n made (link_new self j ts),
  cnt-link_new (named i) self j ts (λ t. refl),
  new_name i j,
)
  where
    new_name : (i j : ℕ) → cnt (named i) (init_thread j ∷ []) ≡ (if j == i then 1 else 0)
    new_name i j = omega arith

create-IsCensus :
    (r w : ℕ) (self : Option ℕ) (n : ℕ) (made : List (Option ℕ)) (e : Env)
    → IsFresh made e.ths
    → IsCensus r w e
    → IsCensus r w (create self n made e).1
unfolding create init_thread
create-IsCensus r w self n made e f c = record {
  tally = record {
    live = omega (arith, c.tally, grown is_live 1 (λ i t. refl) (λ i. refl));
    dying = omega (arith, c.tally, grown is_dying 0 (λ i t. refl) (λ i. refl));
    running = omega (arith, c.tally, grown is_running 0 (λ i t. refl) (λ i. refl));
    dying_run = omega (arith, c.tally, grown is_dying_run 0 (λ i t. refl) (λ i. refl));
    sleeping = omega (arith, c.tally, grown is_sleeping 0 (λ i t. refl) (λ i. refl));
    free = omega (arith, c.tally, grown is_free 1 (λ i t. refl) (λ i. refl));
    waiting = omega (arith, c.tally, grown is_waiting 0 (λ i t. refl) (λ i. refl));
    waked = omega (arith, c.tally, grown is_waked 0 (λ i t. refl) (λ i. refl));
  };
  size = omega (arith, c.size, create_loop-size self n made e.ths);
  queued = λ i. omega (arith, c.queued i, grown (waits_as i) 0 (λ j t. refl) (not_waiting i));
  unique = λ i. omega (arith, f i, create_loop-names i self n made e.ths);
  marks = create_loop-marks self n made e.ths c.marks;
}
  where
    grown :
        (p : Thread → Bool) (k : ℕ)
        → ((i : ℕ) (t : Thread) → p (queues i t) ≡ p t)
        → ((i : ℕ) → cnt p (init_thread i ∷ []) ≡ k)
        → cnt p (create_loop self n made e.ths).1
          ≡ cnt p e.ths + (create_loop self n made e.ths).0 * k
    grown p k = create_loop-cnt p k self n made e.ths

    not_waiting : (i j : ℕ) → cnt (waits_as i) (init_thread j ∷ []) ≡ 0
    not_waiting i j = ground arith

-- cpool_core_add_threadsl keeps the counters and the threads in agreement, also where some
-- threads are counted as running early or owe a wakeup, if every new thread has a number of its
-- own.
pub add_threadsl-IsCensus :
    (r w : ℕ) (e : Env) (self : Option ℕ) (n : ℕ) (made : List (Option ℕ))
    → IsFresh made e.ths
    → IsCensus r w e
    → IsCensus r w (add_threadsl e self n made).1
unfolding add_threadsl
add_threadsl-IsCensus r w e self n made f c =
    create-IsCensus r w self (revive n e).0 made (revive n e).1
      (λ i. omega (arith, f i, revive-names i n e)) (revive-IsCensus r w n e c)
