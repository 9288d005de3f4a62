-- ===== src/Cache/Limits.antt =====
-- pool/core/sm_cache.c: flushing, limits, resetting and reserving. An operation that destroys
-- objects returns them, in the order in which `destroy` is called.
use libstpool.Base.{
  ℕ, zero, suc, ◌+◌, ◌-◌, List, [], ◌∷◌, Option, none, some, Bool, true, false, not, ◌&&◌, leb,
  ◌==◌, if◌then◌else◌, ℤ, pos, negsuc, magnitude, length, get_last?,
}
use libstpool.Cache.Defs.{
  SmQueue, NeedDestroy, Lock, is_own, SmCache, needs, needs_opt, empty_q, smcache_accessl,
  smcache_flushablel, smcache_addl, smcache_add_ql,
}

-- The limit that smcache_add_limit works with.
abbrev pub add_limit_of : ℤ → ℤ → ℤ
add_limit_of nlimit_cache (negsuc zero) = nlimit_cache
add_limit_of nlimit_cache (negsuc (suc k)) = pos 1
add_limit_of nlimit_cache (pos k) = pos k

-- The limit that smcache_add_q_limit works with.
abbrev pub add_q_limit_of : ℤ → ℤ → ℤ
add_q_limit_of nlimit_cache (negsuc zero) = nlimit_cache
add_q_limit_of nlimit_cache (negsuc (suc k)) = negsuc (suc k)
add_q_limit_of nlimit_cache (pos k) = pos k

module _ {ℓ} {A : Type ℓ} where
  -- The loop of smcache_get_flush_ql: at most `nflushed` objects, up to one that stays.
  unfoldable pub take_destroyable : NeedDestroy A → ℕ → List A → List A × List A
  take_destroyable d zero p = ([], p)
  take_destroyable d (suc nflushed) [] = ([], [])
  take_destroyable d (suc nflushed) (obj ∷ next) =
      let rest = take_destroyable d nflushed next in
      if needs d obj then (obj ∷ rest.0, rest.1) else ([], obj ∷ next)

  unfoldable pub cut_front : SmCache A → List A × List A → SmCache A × SmQueue A
  cut_front smc (taken, p) =
      let k = length taken in
      let q : SmQueue A = record { n = k; items = taken; qlast = get_last? taken } in
      if k == 0
      then (smc, q)
      else (record smc { xq = record smc.xq { n = smc.xq.n - k; items = p } }, q)

  -- The queue that is passed in is empty, as at every call in the source.
  unfoldable pub smcache_get_flush_ql : SmCache A → ℕ → SmCache A × SmQueue A
  unfolding take_destroyable cut_front empty_q
  smcache_get_flush_ql smc limit =
      if limit == 0 && needs_opt smc.need_destroy smc.xq.qlast
      then (record smc { xq = empty_q }, smc.xq)
      else cut_front smc (take_destroyable smc.need_destroy (smc.xq.n - limit) smc.xq.items)

  -- The calls of `destroy` in smcache_destroy_q.
  unfoldable pub destroyed : NeedDestroy A → List A → List A
  destroyed d [] = []
  destroyed d (c ∷ next) = let rest = destroyed d next in if needs d c then c ∷ rest else rest

  unfoldable pub smcache_destroy_q : SmCache A → SmQueue A → List A
  unfolding destroyed
  smcache_destroy_q smc q = if q.n == 0 then [] else destroyed smc.need_destroy q.items

  unfoldable pub flush_if_flushable : SmCache A → ℤ → SmCache A × SmQueue A
  unfolding smcache_get_flush_ql smcache_flushablel empty_q
  flush_if_flushable smc limit =
      if smcache_flushablel smc limit
      then smcache_get_flush_ql smc (magnitude limit)
      else (smc, empty_q)

  unfoldable pub ejects : SmCache A → Option A → ℤ → Bool
  unfolding smcache_accessl
  ejects smc none limit = false
  ejects smc (some obj) limit = not (smcache_accessl smc obj limit)

  unfoldable pub add_unless : Bool → SmCache A → Option A → SmCache A
  unfolding smcache_addl
  add_unless true smc obj = smc
  add_unless false smc none = smc
  add_unless false smc (some obj) = smcache_addl smc obj

  -- `nflushed` is still 0 where the source tests it, so that the ejected object always becomes the
  -- first of the chain.
  unfoldable pub eject : Bool → Option A → SmQueue A → SmQueue A
  eject false obj rmq = rmq
  eject true none rmq = rmq
  eject true (some obj) rmq = record { n = rmq.n + 1; items = obj ∷ []; qlast = some obj }

  -- The cache, the objects that are destroyed and the result.
  unfoldable pub smcache_add_limit : SmCache A → Option A → ℤ → SmCache A × List A × ℕ
  unfolding flush_if_flushable ejects add_unless eject smcache_destroy_q
  smcache_add_limit smc obj ncached_limit =
      let limit = add_limit_of smc.nlimit_cache ncached_limit in
      let ejected = ejects smc obj limit in
      let (smc', flushed) = flush_if_flushable (add_unless ejected smc obj) limit in
      let rmq = eject ejected obj flushed in (smc', smcache_destroy_q smc' rmq, rmq.n)

  unfoldable pub smcache_flush : SmCache A → ℤ → SmCache A × List A × ℕ
  unfolding smcache_add_limit
  smcache_flush smc ncached_limit = smcache_add_limit smc none ncached_limit

  unfoldable pub smcache_add_q_limit : SmCache A → SmQueue A → ℤ → SmCache A × List A × ℕ
  unfolding flush_if_flushable smcache_add_ql smcache_destroy_q
  smcache_add_q_limit smc q ncached_limit =
      let limit = add_q_limit_of smc.nlimit_cache ncached_limit in
      let (smc', rmq) = flush_if_flushable (smcache_add_ql smc q) limit in
      (smc', smcache_destroy_q smc' rmq, rmq.n)

  -- The cache, the queue that is dumped to `oq` where it is not NULL, and the objects destroyed.
  unfoldable pub smcache_reset : SmCache A → Bool → SmCache A × Option (SmQueue A) × List A
  unfolding flush_if_flushable smcache_destroy_q empty_q
  smcache_reset smc oq =
      let (smc', rmq) = flush_if_flushable smc (pos 0) in
      let smc'' = if oq then record smc' { xq = empty_q } else smc' in
      (smc'', if oq then some smc'.xq else none, smcache_destroy_q smc' rmq)

  -- The objects destroyed, and the mutex that is destroyed.
  unfoldable pub smcache_deinit : SmCache A → SmCache A × List A × Option Lock
  unfolding flush_if_flushable smcache_destroy_q
  smcache_deinit smc =
      let (smc', q) = flush_if_flushable smc (pos 0) in
      (smc', smcache_destroy_q smc' q, if is_own smc'.lock then none else some smc'.lock)

  -- The loop of smcache_reserve, from the value of `n` before `-- n`; a result `none` of the
  -- creater ends it.
  unfoldable pub reserve_loop : ℕ → SmCache A → List (Option A) → SmCache A
  unfolding smcache_addl
  reserve_loop zero smc made = smc
  reserve_loop (suc n) smc [] = smc
  reserve_loop (suc n) smc (none ∷ made) = smc
  reserve_loop (suc n) smc (some obj ∷ made) =
      let smc' = smcache_addl smc obj in
      let rest = reserve_loop n smc' made in
      if n == 0 then smc else if leb n smc'.xq.n then smc' else rest

  unfoldable pub smcache_reserve : SmCache A → ℕ → List (Option A) → SmCache A
  unfolding reserve_loop
  smcache_reserve smc n made = reserve_loop (n - smc.xq.n) smc made
