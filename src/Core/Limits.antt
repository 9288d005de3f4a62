-- ===== src/Core/Limits.antt =====
-- cpool_core_adjust_abs_l of pool/core/cpool_core.c: the limits and the counters.
use libstpool.Base.{
  ℕ, ◌-◌, ◌≤◌, ◌<◌, ◌≡◌, refl, sym, subst, List, Option, none, some, true, false, not, ◌&&◌, ◌||◌,
  arith, length, map, if_elim, negsuc, ltb,
}
use libstpool.Core.Threads.{Env}
use libstpool.Core.Wakeup.{wakeup_n_sleeping_threadsl}
use libstpool.Core.Sleepers.{wakeup_n-IsCensus, wakeup_n-IsWoken}
use libstpool.Core.Grow.{add_threadsl, dec_threadsl}
use libstpool.Core.Tally.{nothing, refit}
use libstpool.Core.Census.{IsCensus}
use libstpool.Core.Create.{IsFresh, add_threadsl-IsCensus}
use libstpool.Core.Shrink.{dec_threadsl-IsCensus, dec_threadsl-left}
use libstpool.Core.Served.{add_threadsl-all}
use libstpool.Core.Pool.{Pool, Event, event_thread}
use libstpool.Core.Services.{adjusted, adjust_abs_l}

adjusted-IsCensus :
    (w : ℕ) (p : Pool) (made : List (Option ℕ))
    → IsFresh made p.env.ths
    → IsCensus 0 w p.env
    → IsCensus 0 w (adjusted p made)
unfolding adjusted
adjusted-IsCensus w p made f c =
    if_elim (IsCensus 0 w) (ltb p.env.nthreads_real_pool p.minthreads)
      (λ _. add_threadsl-IsCensus 0 w p.env none _ made f c)
      (λ _.
        if_elim (IsCensus 0 w) (ltb p.maxthreads p.env.nthreads_real_pool)
          (λ _. dec_threadsl-IsCensus w _ p.env c) (λ _. wakeup_n-IsCensus 0 w p.env (negsuc 0) c))

-- The number of live threads is within the limits, where the system gives the threads.
adjusted-range :
    (p : Pool) (is : List ℕ)
    → p.minthreads ≤ p.maxthreads
    → p.minthreads ≤ length is
    → IsCensus 0 0 p.env
    → (p.minthreads ≤ (adjusted p (map some is)).nthreads_real_pool)
      × ((adjusted p (map some is)).nthreads_real_pool ≤ p.maxthreads)
unfolding adjusted
adjusted-range p is h l c =
    if_elim Within (ltb e.nthreads_real_pool p.minthreads) (λ g. grow (ground arith))
      (λ g.
        if_elim Within (ltb p.maxthreads e.nthreads_real_pool) (λ k. shrink (ground arith))
          (λ k. keep (ground arith) (ground arith)))
  where
    e : Env
    e = p.env

    Within : Env → Type 0
    Within x = (p.minthreads ≤ x.nthreads_real_pool) × (x.nthreads_real_pool ≤ p.maxthreads)

    grow :
        e.nthreads_real_pool < p.minthreads
        → Within (add_threadsl e none (p.minthreads - e.nthreads_real_pool) (map some is)).1
    grow g =
        let all = add_threadsl-all e none (p.minthreads - e.nthreads_real_pool) is (omega arith) in
        (omega (arith, all), omega (arith, all))

    shrink :
        p.maxthreads < e.nthreads_real_pool
        → Within (dec_threadsl e (e.nthreads_real_pool - p.maxthreads)).1
    shrink g =
        let left = dec_threadsl-left e (e.nthreads_real_pool - p.maxthreads) c in
        (omega (arith, left), omega (arith, left))

    keep :
        p.minthreads ≤ e.nthreads_real_pool
        → e.nthreads_real_pool ≤ p.maxthreads
        → Within (wakeup_n_sleeping_threadsl e (negsuc 0))
    keep g k =
        let same = (wakeup_n-IsWoken e (negsuc 0)).pool in
        (omega (arith, same), omega (arith, same))

-- What the Core expects of the notification of the underlying pool where the limits change: it
-- leaves the threads alone and may raise the lower limit up to the upper one.
pub record IsNotified (p p' : Pool) : Type 0 where
  pub env : p'.env ≡ p.env
  pub most : p'.maxthreads ≡ p.maxthreads
  pub least : p.minthreads ≤ p.maxthreads → p.minthreads ≤ p'.minthreads
  pub limits : p.minthreads ≤ p.maxthreads → p'.minthreads ≤ p'.maxthreads

-- The pool after an accepted change of the limits.
pub record IsAdjusted (maxthreads minthreads : ℕ) (p : Pool) : Type 0 where
  pub most : p.maxthreads ≡ maxthreads
  pub at_most : p.env.nthreads_real_pool ≤ maxthreads
  pub at_least : minthreads ≤ p.env.nthreads_real_pool
  pub peak : p.env.nthreads_peak ≡ p.env.nthreads_real_pool
  pub census : IsCensus 0 0 p.env

module _ (notifyl : Event → Pool → Pool) where
  -- In a created pool whose counters agree with its threads, cpool_core_adjust_abs_l with a lower
  -- limit up to the upper one leaves a number of live threads within both limits, resets the peak
  -- to it and keeps the counters right. The system gives as many threads as the upper limit, each
  -- with a number of its own, and the underlying pool leaves the threads and the upper limit
  -- alone when it hears of the change, and does not lower the lower limit.
  pub adjust_abs_l-IsAdjusted :
      (p : Pool) (maxthreads minthreads : ℕ) (is : List ℕ)
      → ((q : Pool) → IsNotified q (notifyl event_thread q))
      → p.created ≡ true
      → p.destroying ≡ false
      → minthreads ≤ maxthreads
      → maxthreads ≤ length is
      → IsFresh (map some is) p.env.ths
      → IsCensus 0 0 p.env
      → IsAdjusted maxthreads minthreads
          (adjust_abs_l notifyl p maxthreads minthreads (map some is))
  unfolding adjust_abs_l
  adjust_abs_l-IsAdjusted p maxthreads minthreads is n a d h l f c =
      if_elim (IsAdjusted maxthreads minthreads)
        ((not p.created && not p.destroying)
          || (p.destroying && (ltb 0 maxthreads || ltb 0 minthreads)))
        (λ refused. absurd (accepted refused))
        (λ _. record {
          most = told.most;
          at_most = omega (arith, range, told.most);
          at_least = omega (arith, range, told.least h);
          peak = refl;
          census =
              reset (adjusted p' (map some is)) (adjusted-IsCensus 0 p' (map some is) fresh census);
        })
    where
      accepted :
          ((not p.created && not p.destroying)
              || (p.destroying && (ltb 0 maxthreads || ltb 0 minthreads)))
            ≡ true
          → ⊥
      accepted refused = ground arith

      p' : Pool
      p' = notifyl event_thread (record p { maxthreads = maxthreads; minthreads = minthreads })

      told : IsNotified (record p { maxthreads = maxthreads; minthreads = minthreads }) p'
      told = n (record p { maxthreads = maxthreads; minthreads = minthreads })

      census : IsCensus 0 0 p'.env
      census = subst (IsCensus 0 0) (sym told.env) c

      fresh : IsFresh (map some is) p'.env.ths
      fresh = subst (λ (e : Env). IsFresh (map some is) e.ths) (sym told.env) f

      range :
          (p'.minthreads ≤ (adjusted p' (map some is)).nthreads_real_pool)
          × ((adjusted p' (map some is)).nthreads_real_pool ≤ p'.maxthreads)
      range = adjusted-range p' is (told.limits h) (omega (arith, told.limits h, told.most)) census

      reset :
          (e : Env)
          → IsCensus 0 0 e
          → IsCensus 0 0 (record e { nthreads_peak = e.nthreads_real_pool })
      reset e v = record {
        tally =
            refit (nothing 0 0) e e.ths e.ths e.ths_waitq e.n_qths e.nthreads_real_pool e.signalled
              v.tally;
        size = v.size;
        queued = v.queued;
        unique = v.unique;
        marks = v.marks;
      }
