-- ===== src/Cache/Runs.antt =====
-- The public operations of the object cache (pool/core/sm_cache.h, pool/core/sm_cache.c) as steps,
-- in any order.
use libstpool.Base.{
  ℕ, zero, suc, ◌≤◌, ◌≡◌, ◌⊎◌, ◌||◌, arith, if_elim, refl, subst, inl, inr, List, [], ◌∷◌, Option,
  none, some, Bool, true, false, ◌==◌, leb, ℤ, pos, Bool-cases,
}
use libstpool.Cache.Defs.{
  SmQueue, NeedDestroy, SmCache, empty_q, smcache_addl, smcache_addl_dir, smcache_add_ql,
  smcache_add_ql_dir, smcache_getl, remove_unflushable_objectsl, smcache_init2,
}
use libstpool.Cache.Limits.{
  add_unless, smcache_add_limit, smcache_add_q_limit, smcache_reset, smcache_reserve, reserve_loop,
  flush_if_flushable, add_limit_of, add_q_limit_of, ejects, smcache_deinit,
}
use libstpool.Cache.Invariant.{IsQueue, IsFront, IsCache, smcache_addl-IsCache}
use libstpool.Cache.Linked.{
  IsLinked, smcache_addl-IsLinked, smcache_addl_dir-IsLinked, smcache_add_ql-IsLinked,
  smcache_add_ql_dir-IsLinked, smcache_getl-IsLinked, flush-IsLinked, add_unless-IsLinked,
  drop-IsLinked,
}
use libstpool.Cache.Steps.{
  add_unless-IsCache, flush_if_flushable-IsCache, smcache_add_ql-IsCache, smcache_getl-IsCache,
  remove_unflushable_cases, empty-IsCache,
}

pub data Op {ℓ} (A : Type ℓ) : Type ℓ where
  adds : A → Op A
  adds_limit : Option A → ℤ → Op A
  adds_q_limit : (q : SmQueue A) → IsQueue q → 1 ≤ q.n → ℤ → Op A
  gets : Bool → List (Option A) → Op A
  drops_unflushable : Op A
  resets : Bool → Op A
  reserves : ℕ → List (Option A) → Op A
  deinits : Op A
  adds_dir : A → Op A
  adds_q : (q : SmQueue A) → IsQueue q → 1 ≤ q.n → Op A
  adds_q_dir : (q : SmQueue A) → IsQueue q → 1 ≤ q.n → Op A

module _ {ℓ} {A : Type ℓ} where
  -- One of the functions that put objects in front whether they may be destroyed or not
  abbrev pub is_direct : Op A → Bool
  is_direct (adds_dir obj) = true
  is_direct (adds_q_dir q u k) = true
  is_direct _ = false

  abbrev pub uses_direct : List (Op A) → Bool
  uses_direct [] = false
  uses_direct (o ∷ os) = is_direct o || uses_direct os

  unfoldable pub step : SmCache A → Op A → SmCache A
  step smc (adds obj) = smcache_addl smc obj
  step smc (adds_limit obj limit) = (smcache_add_limit smc obj limit).0
  step smc (adds_q_limit q u k limit) = (smcache_add_q_limit smc q limit).0
  step smc (gets create made) = (smcache_getl smc create made).1
  step smc drops_unflushable = remove_unflushable_objectsl smc
  step smc (resets oq) = (smcache_reset smc oq).0
  step smc (reserves n made) = smcache_reserve smc n made
  step smc deinits = (smcache_deinit smc).0
  step smc (adds_dir obj) = smcache_addl_dir smc obj
  step smc (adds_q q u k) = smcache_add_ql smc q
  step smc (adds_q_dir q u k) = smcache_add_ql_dir smc q

  unfoldable pub run : SmCache A → List (Op A) → SmCache A
  run smc [] = smc
  run smc (o ∷ os) = run (step smc o) os

  reserve_loop-IsCache :
      (n : ℕ) (smc : SmCache A) (made : List (Option A))
      → IsCache smc
      → IsCache (reserve_loop n smc made)
  unfolding reserve_loop
  reserve_loop-IsCache zero smc made v = v
  reserve_loop-IsCache (suc n) smc [] v = v
  reserve_loop-IsCache (suc n) smc (none ∷ made) v = v
  reserve_loop-IsCache (suc n) smc (some obj ∷ made) v = elim (Bool-cases (n == 0)) [
    | inl e ↦ rw e v
    | inr e ↦ rw e (elim (Bool-cases (leb n (smcache_addl smc obj).xq.n)) [
      | inl f ↦ rw f added
      | inr f ↦ rw f (reserve_loop-IsCache n (smcache_addl smc obj) made added)
    ])
  ]
    where
      added : IsCache (smcache_addl smc obj)
      added = smcache_addl-IsCache smc obj v

  reset-IsCache : (smc : SmCache A) (oq : Bool) → IsCache smc → IsCache (smcache_reset smc oq).0
  unfolding smcache_reset
  reset-IsCache smc true v = empty-IsCache (flush_if_flushable smc (pos 0)).0
  reset-IsCache smc false v = flush_if_flushable-IsCache smc (pos 0) v

  drop-IsCache : (smc : SmCache A) → IsCache smc → IsCache (remove_unflushable_objectsl smc)
  drop-IsCache smc v = elim (remove_unflushable_cases smc v) [
    | inl (_, e) ↦ rw e v
    | inr (_, e) ↦ rw e (empty-IsCache smc)
  ]

  -- Every operation but the direct ones keeps the order of the cache.
  step-IsCache :
      (smc : SmCache A) (o : Op A) → is_direct o ≡ false → IsCache smc → IsCache (step smc o)
  unfolding step smcache_add_limit smcache_add_q_limit smcache_reserve smcache_deinit
  step-IsCache smc (adds obj) d v = smcache_addl-IsCache smc obj v
  step-IsCache smc (adds_limit obj limit) d v =
      flush_if_flushable-IsCache _ (add_limit_of smc.nlimit_cache limit)
        (add_unless-IsCache (ejects smc obj (add_limit_of smc.nlimit_cache limit)) smc obj v)
  step-IsCache smc (adds_q_limit q u k limit) d v =
      flush_if_flushable-IsCache _ (add_q_limit_of smc.nlimit_cache limit)
        (smcache_add_ql-IsCache smc q u v)
  step-IsCache smc (gets create made) d v = smcache_getl-IsCache smc create made v
  step-IsCache smc drops_unflushable d v = drop-IsCache smc v
  step-IsCache smc (resets oq) d v = reset-IsCache smc oq v
  step-IsCache smc (reserves n made) d v = reserve_loop-IsCache _ smc made v
  step-IsCache smc deinits d v = flush_if_flushable-IsCache smc (pos 0) v
  step-IsCache smc (adds_dir obj) d v = cc
  step-IsCache smc (adds_q q u k) d v = smcache_add_ql-IsCache smc q u v
  step-IsCache smc (adds_q_dir q u k) d v = cc

  reserve_loop-IsLinked :
      (n : ℕ) (smc : SmCache A) (made : List (Option A))
      → IsLinked smc
      → IsLinked (reserve_loop n smc made)
  unfolding reserve_loop
  reserve_loop-IsLinked zero smc made v = v
  reserve_loop-IsLinked (suc n) smc [] v = v
  reserve_loop-IsLinked (suc n) smc (none ∷ made) v = v
  reserve_loop-IsLinked (suc n) smc (some obj ∷ made) v =
      if_elim IsLinked (n == 0) (λ _. v)
        (λ _.
          if_elim IsLinked (leb n (smcache_addl smc obj).xq.n) (λ _. added)
            (λ _. reserve_loop-IsLinked n (smcache_addl smc obj) made added))
    where
      added : IsLinked (smcache_addl smc obj)
      added = smcache_addl-IsLinked smc obj v

  reset-IsLinked : (smc : SmCache A) (oq : Bool) → IsLinked smc → IsLinked (smcache_reset smc oq).0
  unfolding smcache_reset empty_q
  reset-IsLinked smc true v = record { counted = refl; ended = refl }
  reset-IsLinked smc false v = flush-IsLinked smc (pos 0) v

  -- Every operation keeps the counter and the last pointer.
  step-IsLinked : (smc : SmCache A) (o : Op A) → IsLinked smc → IsLinked (step smc o)
  unfolding step smcache_add_limit smcache_add_q_limit smcache_reserve smcache_deinit
  step-IsLinked smc (adds obj) v = smcache_addl-IsLinked smc obj v
  step-IsLinked smc (adds_limit obj limit) v =
      flush-IsLinked (add_unless (ejects smc obj (add_limit_of smc.nlimit_cache limit)) smc obj)
        (add_limit_of smc.nlimit_cache limit)
        (add_unless-IsLinked (ejects smc obj (add_limit_of smc.nlimit_cache limit)) smc obj v)
  step-IsLinked smc (adds_q_limit q u k limit) v =
      flush-IsLinked (smcache_add_ql smc q) (add_q_limit_of smc.nlimit_cache limit)
        (smcache_add_ql-IsLinked smc q u v)
  step-IsLinked smc (gets create made) v = smcache_getl-IsLinked smc create made v
  step-IsLinked smc drops_unflushable v = drop-IsLinked smc v
  step-IsLinked smc (resets oq) v = reset-IsLinked smc oq v
  step-IsLinked smc (reserves n made) v = reserve_loop-IsLinked _ smc made v
  step-IsLinked smc deinits v = flush-IsLinked smc (pos 0) v
  step-IsLinked smc (adds_dir obj) v = smcache_addl_dir-IsLinked smc obj v
  step-IsLinked smc (adds_q q u k) v = smcache_add_ql-IsLinked smc q u v
  step-IsLinked smc (adds_q_dir q u k) v = smcache_add_ql_dir-IsLinked smc q u v

  run-IsLinked : (smc : SmCache A) (os : List (Op A)) → IsLinked smc → IsLinked (run smc os)
  unfolding run
  run-IsLinked smc [] v = v
  run-IsLinked smc (o ∷ os) v = run-IsLinked (step smc o) os (step-IsLinked smc o v)

  run-IsCache :
      (smc : SmCache A) (os : List (Op A))
      → uses_direct os ≡ false
      → IsCache smc
      → IsCache (run smc os)
  unfolding run
  run-IsCache smc [] d v = v
  run-IsCache smc (o ∷ os) d v =
      run-IsCache (step smc o) os (ground arith) (step-IsCache smc o (ground arith) v)

  some_inj : {x y : SmCache A} → some x ≡ some y → x ≡ y
  some_inj h = cc

  init2-IsCache :
      (nlimit : ℤ) (external : Bool) (d : NeedDestroy A) (lock_ok : Bool) {smc : SmCache A}
      → smcache_init2 nlimit external d lock_ok ≡ some smc
      → IsCache smc
  unfolding smcache_init2 empty_q
  init2-IsCache nlimit true d lock_ok {smc} h =
      subst IsCache (some_inj h) (record { counted = refl; ended = refl; front = tt })
  init2-IsCache nlimit false d true {smc} h =
      subst IsCache (some_inj h) (record { counted = refl; ended = refl; front = tt })
  init2-IsCache nlimit false d false {smc} h = cc

  -- In a cache that smcache_init2 makes, the counter is the number of linked objects and qlast is
  -- the last of them after any sequence of smcache_addl, smcache_addl_dir, smcache_add_ql,
  -- smcache_add_ql_dir, smcache_add_limit, smcache_add_q_limit, smcache_getl,
  -- smcache_remove_unflushable_objectsl, smcache_reset, smcache_reserve and smcache_deinit.
  -- Unless smcache_addl_dir or smcache_add_ql_dir is among them, no object that may be destroyed
  -- stands behind one that stays. A queue that is passed in has an object, and its counter and
  -- last pointer are right.
  pub run-init2-IsCache :
      (nlimit : ℤ) (external : Bool) (d : NeedDestroy A) (lock_ok : Bool) (os : List (Op A))
      {smc : SmCache A}
      → smcache_init2 nlimit external d lock_ok ≡ some smc
      → IsQueue (run smc os).xq
        × ((uses_direct os ≡ true) ⊎ IsFront (run smc os).need_destroy (run smc os).xq.items)
  run-init2-IsCache nlimit external d lock_ok os {smc} h =
      let v = init2-IsCache nlimit external d lock_ok h in
      (
        run-IsLinked smc os (record { counted = v.counted; ended = v.ended }),
        elim (Bool-cases (uses_direct os)) [
          | inl e ↦ inl e
          | inr e ↦ inr (run-IsCache smc os e v).front
        ],
      )
