-- ===== src/Core/Served.antt =====
-- cpool_core_ensure_servicesl of pool/core/cpool_core.c: the counters, and the threads that a pool
-- with work has afterwards.
use libstpool.Base.{
  ℕ, zero, suc, ◌+◌, ◌-◌, ◌≤◌, ◌<◌, ◌≡◌, ◌⊎◌, inl, inr, refl, ap, List, [], ◌∷◌, Option, none, some,
  Bool, true, not, ◌&&◌, ◌||◌, ◌==◌, arith, if◌then◌else◌, length, map, if_elim, pos, min, ltb,
}
use libstpool.Core.Threads.{Thread, Env}
use libstpool.Core.Wakeup.{wakeup_n_sleeping_threadsl}
use libstpool.Core.Sleepers.{wakes, wakeup_n-IsCensus, wakeup_n-IsWoken}
use libstpool.Core.Grow.{
  count_revived, revive_loop, revive, create_loop, create, link_new, add_threadsl,
}
use libstpool.Core.Census.{IsCensus}
use libstpool.Core.Create.{IsFresh, add_threadsl-IsCensus}
use libstpool.Core.Pool.{Pool}
use libstpool.Core.Services.{nthreads_to_create, ensure_servicesl}

-- Each round of the loop takes one thread back.
revive_loop-balance :
    (ts : List Thread) (n : ℕ) (e : Env)
    → 1 ≤ n
    → (revive_loop ts n e).2.nthreads_real_pool + (revive_loop ts n e).1 ≡ e.nthreads_real_pool + n
unfolding revive_loop count_revived
revive_loop-balance [] n e h = refl
revive_loop-balance (t ∷ ts) n e h =
    ground (arith, revive_loop-balance ts n e h, revive_loop-balance ts (n - 1) (count_revived e t))

revive-balance :
    (n : ℕ) (e : Env)
    → (revive n e).1.nthreads_real_pool + (revive n e).0 ≡ e.nthreads_real_pool + n
unfolding revive
revive-balance n e =
    if_elim (λ (x : ℕ × Env). x.1.nthreads_real_pool + x.0 ≡ e.nthreads_real_pool + n)
      (e.nthreads_dying == 0 || n == 0) (λ _. refl)
      (λ h. revive_loop-balance e.ths n e (ground arith))

revive_loop-le : (ts : List Thread) (n : ℕ) (e : Env) → (revive_loop ts n e).1 ≤ n
unfolding revive_loop
revive_loop-le [] n e = omega arith
revive_loop-le (t ∷ ts) n e =
    ground (arith, revive_loop-le ts n e, revive_loop-le ts (n - 1) (count_revived e t))

revive-le : (n : ℕ) (e : Env) → (revive n e).0 ≤ n
unfolding revive
revive-le n e =
    if_elim (λ (x : ℕ × Env). x.0 ≤ n) (e.nthreads_dying == 0 || n == 0) (λ _. omega arith)
      (λ _. revive_loop-le e.ths n e)

create_loop-le :
    (self : Option ℕ) (n : ℕ) (made : List (Option ℕ)) (ts : List Thread)
    → (create_loop self n made ts).0 ≤ n
unfolding create_loop
create_loop-le self zero made ts = omega arith
create_loop-le self (suc n) [] ts = omega arith
create_loop-le self (suc n) (none ∷ made) ts = omega arith
create_loop-le self (suc n) (some i ∷ made) ts =
    omega (arith, create_loop-le self n made (link_new self i ts))

pub create_loop-all :
    (self : Option ℕ) (n : ℕ) (is : List ℕ) (ts : List Thread)
    → n ≤ length is
    → (create_loop self n (map some is) ts).0 ≡ n
unfolding create_loop
create_loop-all self zero is ts h = refl
create_loop-all self (suc n) [] ts h = absurd (omega arith)
create_loop-all self (suc n) (i ∷ is) ts h =
    omega (arith, create_loop-all self n is (link_new self i ts) (omega arith))

pub add_threadsl-le :
    (e : Env) (self : Option ℕ) (n : ℕ) (made : List (Option ℕ))
    → (add_threadsl e self n made).1.nthreads_real_pool ≤ e.nthreads_real_pool + n
unfolding add_threadsl create
add_threadsl-le e self n made =
    omega (arith, revive-balance n e, create_loop-le self (revive n e).0 made (revive n e).1.ths)

pub add_threadsl-all :
    (e : Env) (self : Option ℕ) (n : ℕ) (is : List ℕ)
    → n ≤ length is
    → (add_threadsl e self n (map some is)).1.nthreads_real_pool ≡ e.nthreads_real_pool + n
unfolding add_threadsl create
add_threadsl-all e self n is h = omega (
  arith,
  revive-balance n e,
  create_loop-all self (revive n e).0 is (revive n e).1.ths (omega (arith, revive-le n e)),
)

pub ensure_servicesl-IsCensus :
    (r w : ℕ) (p : Pool) (self : Option ℕ) (made : List (Option ℕ))
    → IsFresh made p.env.ths
    → IsCensus r w p.env
    → IsCensus r w (ensure_servicesl p self made).env
unfolding ensure_servicesl
ensure_servicesl-IsCensus r w p self made f c =
    if_elim (λ (x : Pool). IsCensus r w x.env) _ (λ _. c) (λ _. on_queue p.env.ths_waitq)
  where
    on_queue :
        (q : List ℕ)
        → IsCensus r w
            (elim q as (λ _. Pool) [
              | [] ↦
                  if ltb p.env.nthreads_real_pool p.maxthreads
                  then record p {
                    env =
                        (add_threadsl p.env self
                          (nthreads_to_create p (if p.paused then 0 else p.npendings))
                          made).1;
                  }
                  else p
              | i ∷ rest ↦ record p {
                env =
                    wakeup_n_sleeping_threadsl p.env (pos (min 2 p.limit_threads_create_per_time));
              }
            ]).env
    on_queue [] =
        if_elim (λ (x : Pool). IsCensus r w x.env) (ltb p.env.nthreads_real_pool p.maxthreads)
          (λ _. add_threadsl-IsCensus r w p.env self _ made f c) (λ _. c)
    on_queue (i ∷ rest) = wakeup_n-IsCensus r w p.env _ c

-- There are error handlers to run, or tasks to run in a pool that is not suspended.
abbrev pub has_work : Pool → Bool
has_work p = not (p.n_qdispatchs == 0) || (not p.paused && not (p.npendings == 0))

-- A thread is waked up or free, or there are as many threads as the pool may have, or more than
-- there were.
abbrev pub IsServed : Pool → Pool → Type 0
IsServed p p' =
    (1 ≤ p'.env.n_qths_waked)
    ⊎ (1 ≤ p'.env.nthreads_real_free)
    ⊎ (p.maxthreads ≤ p.env.nthreads_real_pool)
    ⊎ (p.env.nthreads_real_pool < p'.env.nthreads_real_pool)

to_create_range :
    (p : Pool)
    → has_work p ≡ true
    → 1 ≤ p.limit_threads_create_per_time
    → p.env.nthreads_real_pool < p.maxthreads
    → let n = nthreads_to_create p (if p.paused then 0 else p.npendings) in
      (1 ≤ n) × (n ≤ p.limit_threads_create_per_time)
unfolding nthreads_to_create
to_create_range p w l h = ground arith

some_wake : (n k : ℕ) → 1 ≤ n → 1 ≤ wakes (pos (min 2 n)) (suc k)
some_wake zero k h = absurd (omega arith)
some_wake (suc zero) k h = omega arith
some_wake (suc (suc n)) k h =
    let two : min 2 (suc (suc n)) ≡ 2 = omega arith in rw two (omega arith)

-- In a pool with work, a positive limit_threads_create_per_time and a system that gives that many
-- threads, cpool_core_ensure_servicesl leaves a thread that is waked up or free, or more live
-- threads than there were, or the pool has as many as it may have.
pub ensure_servicesl-serves :
    (p : Pool) (self : Option ℕ) (is : List ℕ)
    → has_work p ≡ true
    → 1 ≤ p.limit_threads_create_per_time
    → p.limit_threads_create_per_time ≤ length is
    → IsServed p (ensure_servicesl p self (map some is))
unfolding ensure_servicesl
ensure_servicesl-serves p self is w l m =
    if_elim (IsServed p)
      (not (p.env.n_qths_waked == 0)
        || (not (p.env.nthreads_real_free == 0)
            || (p.n_qdispatchs == 0 && (if p.paused then 0 else p.npendings) == 0)))
      (λ idle. idle_case idle) (λ _. on_queue p.env.ths_waitq refl)
  where
    idle_case :
        (not (p.env.n_qths_waked == 0)
            || (not (p.env.nthreads_real_free == 0)
                || (p.n_qdispatchs == 0 && (if p.paused then 0 else p.npendings) == 0)))
          ≡ true
        → IsServed p p
    idle_case idle = ground arith

    on_queue :
        (q : List ℕ)
        → p.env.ths_waitq ≡ q
        → IsServed p (elim q as (λ _. Pool) [
          | [] ↦
              if ltb p.env.nthreads_real_pool p.maxthreads
              then record p {
                env =
                    (add_threadsl p.env self
                      (nthreads_to_create p (if p.paused then 0 else p.npendings))
                      (map some is)).1;
              }
              else p
          | i ∷ rest ↦ record p {
            env = wakeup_n_sleeping_threadsl p.env (pos (min 2 p.limit_threads_create_per_time));
          }
        ])
    on_queue [] e =
        if_elim (IsServed p) (ltb p.env.nthreads_real_pool p.maxthreads)
          (λ h.
            let r = to_create_range p w l (ground arith) in
            let n = nthreads_to_create p (if p.paused then 0 else p.npendings) in
            inr (inr (inr (omega (arith, r, add_threadsl-all p.env self n is (omega (arith, r)))))))
          (λ h. inr (inr (inl (ground arith))))
    on_queue (i ∷ rest) e =
        let k = wakeup_n-IsWoken p.env (pos (min 2 p.limit_threads_create_per_time)) in
        inl (
          omega (
            arith,
            k.waked,
            ap (λ q. wakes (pos (min 2 p.limit_threads_create_per_time)) (length q)) e,
            some_wake p.limit_threads_create_per_time (length rest) l,
          ))
