-- ===== src/Cache/Examples.antt =====
-- Tests and concrete runs of the object cache (pool/core/sm_cache.h, pool/core/sm_cache.c).
use libstpool.Base.{
  ℕ, ◌≡◌, ◌⊎◌, refl, List, [], ◌∷◌, none, some, true, false, arith, pos, negsuc, map,
}
use libstpool.Cache.Defs.{
  SmCache, always, stack_lock, empty_q, smcache_init2, remove_unflushable_objectsl, needs_opt,
  qfirst,
}
use libstpool.Cache.Limits.{smcache_add_limit, smcache_flush, smcache_reserve, smcache_deinit}
use libstpool.Cache.Invariant.{IsQueue, IsFront, IsCache, Stays}
use libstpool.Cache.Steps.{remove_unflushable_cases}
use libstpool.Cache.Runs.{Op, adds, gets, resets, run, uses_direct, run-init2-IsCache}
use libstpool.Cache.Faults.{
  IsFlush, smcache_flush-IsFlush, smcache_add_limit-loses, smcache_reserve-half,
  smcache_deinit-init2,
}

-- Three objects that can all be destroyed.
abbrev three_objects : SmCache ℕ
three_objects = record {
  xq = record { n = 3; items = 1 ∷ 2 ∷ 3 ∷ []; qlast = some 3 };
  nlimit_cache = negsuc 0;
  need_destroy = always;
  lock = stack_lock;
}

abbrev no_objects : SmCache ℕ
no_objects = record three_objects { xq = record { n = 0; items = []; qlast = none } }

three_objects-IsCache : IsCache three_objects
three_objects-IsCache = record {
  counted = refl;
  ended = refl;
  front = ((λ e. cc), ((λ e. cc), ((λ e. cc), tt)));
}

abbrev made_cache : SmCache ℕ
made_cache = record {
  xq = record { n = 0; items = []; qlast = none };
  nlimit_cache = pos 2;
  need_destroy = always;
  lock = stack_lock;
}

abbrev operations : List (Op ℕ)
operations = adds 1 ∷ adds 2 ∷ gets false [] ∷ resets true ∷ adds 3 ∷ []

run-init2-IsCache_example :
    IsQueue (run made_cache operations).xq
    × ((uses_direct operations ≡ true)
        ⊎ IsFront (run made_cache operations).need_destroy (run made_cache operations).xq.items)
unfolding smcache_init2 empty_q
run-init2-IsCache_example = run-init2-IsCache (pos 2) false always true operations refl

smcache_flush-IsFlush_example : IsFlush three_objects 1 (smcache_flush three_objects (pos 1))
smcache_flush-IsFlush_example = smcache_flush-IsFlush three_objects 1 three_objects-IsCache

-- Of the three objects that leave the cache, one is destroyed.
smcache_add_limit-loses_example :
    let (smc', gone, n) = smcache_add_limit three_objects (some 4) (pos 1) in
    (gone ≡ 4 ∷ []) × (smc'.xq.n ≡ 1) × (n ≡ 3)
smcache_add_limit-loses_example =
    smcache_add_limit-loses three_objects 4 1 three_objects-IsCache refl (omega arith)

smcache_reserve-half_example :
    (smcache_reserve no_objects 4 (map some (5 ∷ 6 ∷ 7 ∷ 8 ∷ []))).xq.n ≡ 2
smcache_reserve-half_example =
    smcache_reserve-half no_objects 4 (5 ∷ 6 ∷ 7 ∷ 8 ∷ []) refl (omega arith) (omega arith)

smcache_deinit-init2_example : (smcache_deinit made_cache).2 ≡ none
unfolding smcache_init2 empty_q
smcache_deinit-init2_example = smcache_deinit-init2 (pos 2) false always true refl

abbrev AllOrNone : SmCache ℕ → Type 0
AllOrNone smc =
    ((needs_opt smc.need_destroy (qfirst smc.xq.items) ≡ true)
      × (remove_unflushable_objectsl smc ≡ smc))
    ⊎ (Stays smc.need_destroy smc.xq.items
        × (remove_unflushable_objectsl smc ≡ record smc { xq = empty_q }))

remove_unflushable_cases_example : AllOrNone three_objects
remove_unflushable_cases_example = remove_unflushable_cases three_objects three_objects-IsCache
