-- ===== src/Rt/Notify.antt =====
-- cpool_rt_core_notifyl of pool/rt/cpool_rt_core_method.c and what the Core expects of it.
use libstpool.Base.{
  ℕ, ◌≤◌, ap, ◌∙◌, ◌≡◌, refl, true, false, arith, if_elim, List, Option, some, map, length,
}
use libstpool.Core.Pool.{Pool, event_thread}
use libstpool.Core.Census.{IsCensus}
use libstpool.Core.Create.{IsFresh}
use libstpool.Core.Sleep.{IsQuiet}
use libstpool.Core.Limits.{IsNotified, IsAdjusted, adjust_abs_l-IsAdjusted}
use libstpool.Core.Services.{adjust_abs_l}
use libstpool.Rt.Defs.{core_notifyl}

pub core_notifyl-IsQuiet : IsQuiet core_notifyl
unfolding core_notifyl
core_notifyl-IsQuiet q = refl

core_notifyl-IsNotified : (p : Pool) → IsNotified p (core_notifyl event_thread p)
unfolding core_notifyl
core_notifyl-IsNotified p =
    if_elim (IsNotified p) p.dynamic
      (λ _. record { env = refl; most = refl; least = λ k. omega arith; limits = λ k. k })
      (λ _. record { env = refl; most = refl; least = λ k. k; limits = λ k. omega arith })

-- Without dynamic threads the lower limit is the upper one.
static_limits :
    (p : Pool) (maxthreads minthreads : ℕ) (made : List (Option ℕ))
    → p.dynamic ≡ false
    → p.created ≡ true
    → p.destroying ≡ false
    → adjust_abs_l core_notifyl p maxthreads minthreads made
      ≡ adjust_abs_l core_notifyl p maxthreads maxthreads made
unfolding core_notifyl adjust_abs_l
static_limits p maxthreads minthreads made s a d = ground arith

-- In a created runtime pool without dynamic threads whose counters agree with its threads,
-- cpool_core_adjust_abs_l leaves exactly as many live threads as the upper limit, where this is
-- at least 1 and the lower one is not above it, if the system gives that many, each with a number
-- of its own.
pub adjust-static :
    (p : Pool) (maxthreads minthreads : ℕ) (is : List ℕ)
    → p.dynamic ≡ false
    → p.created ≡ true
    → p.destroying ≡ false
    → 1 ≤ maxthreads
    → minthreads ≤ maxthreads
    → maxthreads ≤ length is
    → IsFresh (map some is) p.env.ths
    → IsCensus 0 0 p.env
    → (adjust_abs_l core_notifyl p maxthreads minthreads (map some is)).env.nthreads_real_pool
      ≡ maxthreads
adjust-static p maxthreads minthreads is s a d _ _ l f c =
    ap (λ (q : Pool). q.env.nthreads_real_pool)
      (static_limits p maxthreads minthreads (map some is) s a d)
    ∙ omega (arith, exact.at_most, exact.at_least)
  where
    exact :
        IsAdjusted maxthreads maxthreads
          (adjust_abs_l core_notifyl p maxthreads maxthreads (map some is))
    exact =
        adjust_abs_l-IsAdjusted core_notifyl p maxthreads maxthreads is core_notifyl-IsNotified a d
          (omega arith) l f c
