-- ===== src/Cache/Faults.antt =====
-- Where pool/core/sm_cache.c gives away or drops objects: flushing, the ejected object of
-- smcache_add_limit, smcache_reserve and smcache_deinit.
use libstpool.Base.{
  ℕ, zero, suc, ◌+◌, ◌-◌, ◌/◌, ◌≤◌, ◌<◌, ◌≡◌, refl, ap, ◌⊎◌, inl, inr, List, [], ◌∷◌, ◌++◌, none,
  some, Bool, true, false, ◌==◌, ◌&&◌, ltb, arith, if◌then◌else◌, ℤ, pos, length, map,
  length-append, Bool-cases,
}
use libstpool.Cache.Defs.{
  SmQueue, NeedDestroy, always, SmCache, empty_q, smcache_addl, needs_opt, qfirst, smcache_accessl,
  smcache_flushablel, external_lock, smcache_need_destroy, smcache_init2,
}
use libstpool.Cache.Limits.{
  smcache_add_limit, smcache_flush, smcache_reserve, reserve_loop, flush_if_flushable,
  smcache_get_flush_ql, destroyed, smcache_destroy_q, ejects, eject, add_unless, smcache_deinit,
}
use libstpool.Cache.Invariant.{IsQueue, IsCache}
use libstpool.Cache.Flushing.{Flushes, Destroyable, smcache_get_flush_ql-Flushes}

module _ {ℓ} {A : Type ℓ} where
  destroyed-all : (d : NeedDestroy A) (xs : List A) → Destroyable d xs → destroyed d xs ≡ xs
  unfolding destroyed
  destroyed-all d [] h = refl
  destroyed-all d (x ∷ xs) h = rw (h.0, destroyed-all d xs h.1)

  destroy_q-all :
      (smc : SmCache A) (q : SmQueue A)
      → IsQueue q
      → Destroyable smc.need_destroy q.items
      → smcache_destroy_q smc q ≡ q.items
  unfolding smcache_destroy_q
  destroy_q-all smc q u h = on_chain q.items refl
    where
      on_chain :
          (xs : List A)
          → q.items ≡ xs
          → (if q.n == 0 then [] else destroyed smc.need_destroy q.items) ≡ q.items
      on_chain [] e = ground (arith, u, ap length e)
      on_chain (x ∷ xs) e = ground (arith, ap length e, destroyed-all smc.need_destroy q.items h)

  -- What a flush to a limit that is not negative gives: the objects that are destroyed and those
  -- that are kept make up the cache, in order; only destroyable objects go, the result is their
  -- number, no more than needed go, and a destroyable object is above the limit no longer.
  pub record IsFlush (smc : SmCache A) (k : ℕ) (r : SmCache A × List A × ℕ) : Type ℓ where
    pub whole : r.1 ++ r.0.xq.items ≡ smc.xq.items
    pub only_destroyable : Destroyable smc.need_destroy r.1
    pub result : r.2 ≡ length r.1
    pub not_below : k ≤ smc.xq.n → k ≤ r.0.xq.n
    pub maximal : (r.0.xq.n ≤ k) ⊎ (needs_opt smc.need_destroy (qfirst r.0.xq.items) ≡ false)

  Flushes-IsFlush :
      (smc smc' : SmCache A) (k : ℕ) (q : SmQueue A)
      → Flushes smc k smc' q
      → IsFlush smc k (smc', smcache_destroy_q smc' q, q.n)
  Flushes-IsFlush smc smc' k q f = rw all_go (record {
    whole = f.whole;
    only_destroyable = f.all_taken;
    result = f.queue.counted;
    not_below = λ _. f.not_below;
    maximal = ground (arith, f.maximal);
  })
    where
      all_go : smcache_destroy_q smc' q ≡ q.items
      all_go = destroy_q-all smc' q f.queue (rw f.same_rule f.all_taken)

  -- Flushing a cache that satisfies its invariant to a limit that is not negative: the objects
  -- that are destroyed and those that are kept make up the cache, in order; only destroyable
  -- objects go, the result is their number, no more than needed go, and afterwards the limit is
  -- reached or the first object is not destroyable.
  pub smcache_flush-IsFlush :
      (smc : SmCache A) (k : ℕ) → IsCache smc → IsFlush smc k (smcache_flush smc (pos k))
  unfolding smcache_flush flush_if_flushable smcache_flushablel add_unless ejects eject
  smcache_flush-IsFlush smc k v =
      elim (Bool-cases (ltb k smc.xq.n && needs_opt smc.need_destroy (qfirst smc.xq.items))) [
        | inl go ↦
            rw go (Flushes-IsFlush smc _ k _ (smcache_get_flush_ql-Flushes smc k v (ground arith)))
        | inr stop ↦ rw stop (record {
          whole = refl;
          only_destroyable = tt;
          result = refl;
          not_below = λ h. h;
          maximal = ground arith;
        })
      ]

  -- In a cache whose objects can all be destroyed the limit is reached exactly.
  Flushes-always :
      (smc smc' : SmCache A) (k : ℕ) (q : SmQueue A)
      → smc.need_destroy ≡ always
      → Flushes smc k smc' q
      → smc'.xq.n ≡ k
  Flushes-always smc smc' k q e f = on_chain smc'.xq.items refl
    where
      on_chain : (xs : List A) → smc'.xq.items ≡ xs → smc'.xq.n ≡ k
      on_chain [] h = omega (arith, f.not_below, f.kept.counted, ap length h)
      on_chain (x ∷ xs) h = ground arith

  first_always : (xs : List A) → 0 < length xs → needs_opt always (qfirst xs) ≡ true
  first_always [] h = elim h [ ]
  first_always (x ∷ xs) h = refl

  flushable_always :
      (smc : SmCache A) (k : ℕ)
      → IsCache smc
      → smc.need_destroy ≡ always
      → k < smc.xq.n
      → smcache_flushablel smc (pos k) ≡ true
  unfolding smcache_flushablel
  flushable_always smc k v e h = ground (arith, first_always smc.xq.items)

  ejects_always :
      (smc : SmCache A) (obj : A) (k : ℕ)
      → smc.need_destroy ≡ always
      → k < smc.xq.n
      → ejects smc (some obj) (pos k) ≡ true
  unfolding ejects smcache_accessl smcache_need_destroy
  ejects_always smc obj k e h = ground arith

  -- In a cache that satisfies its invariant, may destroy all its objects and holds more than the
  -- limit, adding an object with this limit ejects and destroys the object and takes the surplus
  -- out of the cache without destroying it, while the result counts both.
  pub smcache_add_limit-loses :
      (smc : SmCache A) (obj : A) (k : ℕ)
      → IsCache smc
      → smc.need_destroy ≡ always
      → k < smc.xq.n
      → let (smc', gone, n) = smcache_add_limit smc (some obj) (pos k) in
        (gone ≡ obj ∷ []) × (smc'.xq.n ≡ k) × (n ≡ smc.xq.n - k + 1)
  unfolding smcache_add_limit flush_if_flushable add_unless eject smcache_destroy_q
  smcache_add_limit-loses smc obj k v e h =
      rw (ejects_always smc obj k e h, flushable_always smc k v e h)
        (ground (arith, f.same_rule), left, omega (arith, left, taken, size, f.kept, v))
    where
      f : Flushes smc k (smcache_get_flush_ql smc k).0 (smcache_get_flush_ql smc k).1
      f = smcache_get_flush_ql-Flushes smc k v (omega arith)

      left : (smcache_get_flush_ql smc k).0.xq.n ≡ k
      left = Flushes-always smc _ k _ e f

      taken : (smcache_get_flush_ql smc k).1.n ≡ length (smcache_get_flush_ql smc k).1.items
      taken = f.queue.counted

      size :
          length (smcache_get_flush_ql smc k).1.items
            + length (smcache_get_flush_ql smc k).0.xq.items
          ≡ length smc.xq.items
      size = omega (
        arith,
        ap length f.whole,
        length-append {ℓ} (smcache_get_flush_ql smc k).1.items
            (smcache_get_flush_ql smc k).0.xq.items,
      )

  addl-count : (smc : SmCache A) (x : A) → (smcache_addl smc x).xq.n ≡ smc.xq.n + 1
  unfolding smcache_addl
  addl-count smc x = ground arith

  add_many :
      (n : ℕ) (smc : SmCache A) (objs : List A)
      → smc.xq.n ≤ n
      → n < length objs
      → 0 < n
      → (reserve_loop (suc n) smc (map some objs)).xq.n ≡ smc.xq.n + (n + 2 - smc.xq.n) / 2
  unfolding reserve_loop
  add_many n smc [] h l p = elim l [ ]
  add_many zero smc (x ∷ objs) h l p = elim p [ ]
  add_many (suc n) smc (x ∷ objs) h l p =
      ground (arith, addl-count smc x, add_many n (smcache_addl smc x) objs)

  -- Reserving at least 2 objects in an empty cache with a creater that gives as many adds only
  -- half of them, rounded up.
  pub smcache_reserve-half :
      (smc : SmCache A) (n : ℕ) (objs : List A)
      → smc.xq.n ≡ 0
      → 2 ≤ n
      → n ≤ length objs
      → (smcache_reserve smc n (map some objs)).xq.n ≡ (n + 1) / 2
  unfolding smcache_reserve
  smcache_reserve-half smc (suc n) objs e h l = ground (arith, add_many n smc objs)
  smcache_reserve-half smc zero objs e h l = elim h [ ]

  -- After a successful smcache_init2, smcache_deinit destroys the mutex of the caller where there
  -- is one, and no mutex where the cache made its own.
  pub smcache_deinit-init2 :
      (nlimit : ℤ) (external : Bool) (d : NeedDestroy A) (lock_ok : Bool) {smc : SmCache A}
      → smcache_init2 nlimit external d lock_ok ≡ some smc
      → (smcache_deinit smc).2 ≡ (if external then some external_lock else none)
  unfolding smcache_deinit smcache_init2 flush_if_flushable smcache_flushablel empty_q
  smcache_deinit-init2 nlimit true d lock_ok h = ground arith
  smcache_deinit-init2 nlimit false d true h = ground arith
  smcache_deinit-init2 nlimit false d false h = cc
