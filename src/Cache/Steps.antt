-- ===== src/Cache/Steps.antt =====
-- The operations of the object cache (pool/core/sm_cache.h, pool/core/sm_cache.c) and its
-- invariant.
use libstpool.Base.{
  ℕ, ◌-◌, ◌≡◌, refl, subst, sym, ap, ◌∙◌, ◌⊎◌, inl, inr, List, [], ◌∷◌, ◌++◌, Option, none, some,
  Bool, true, false, ◌&&◌, ltb, arith, if◌then◌else◌, ℤ, pos, negsuc, length, get_last?,
  length-append, get_last?-append, Bool-cases,
}
use mathlib.Core.List.{append-nil}
use libstpool.Cache.Defs.{
  SmQueue, NeedDestroy, never, always, callback, SmCache, needs, needs_opt, qfirst, empty_q,
  smcache_flushablel, smcache_addl, smcache_add_ql, smcache_add_ql_dir, add_each, smcache_getl,
  pop_first, drop_unflushable, remove_unflushable_objectsl, getl_from, is_never,
}
use libstpool.Cache.Limits.{flush_if_flushable, add_unless}
use libstpool.Cache.Invariant.{
  IsQueue, Stays, IsFront, IsCache, Stays-IsFront, smcache_addl-IsCache,
}
use libstpool.Cache.Flushing.{smcache_get_flush_ql-Flushes}

module _ {ℓ} {A : Type ℓ} where
  Stays-never : (xs : List A) → Stays never xs
  Stays-never [] = tt
  Stays-never (x ∷ xs) = (refl, Stays-never xs)

  add_each-IsCache : (smc : SmCache A) (xs : List A) → IsCache smc → IsCache (add_each smc xs)
  unfolding add_each
  add_each-IsCache smc [] v = v
  add_each-IsCache smc (x ∷ xs) v =
      add_each-IsCache (smcache_addl smc x) xs (smcache_addl-IsCache smc x v)

  last_some : (y : A) (ys : List A) → (z : A) × (get_last? (y ∷ ys) ≡ some z)
  last_some y [] = (y, refl)
  last_some y (x ∷ ys) = last_some x ys

  pub join_last :
      (xs ys : List A) (l r : Option A)
      → l ≡ get_last? xs
      → r ≡ get_last? ys
      → (elim r as (λ _. Option A) [ none ↦ l | some z ↦ some z ]) ≡ get_last? (xs ++ ys)
  join_last xs [] l r e f = rw (f, append-nil xs) e
  join_last xs (y ∷ ys) l r e f =
      let (z, found) = last_some y ys in rw (get_last?-append xs y ys, f ∙ found) (sym found)

  getl_from-IsCache :
      (xs : List A) (smc : SmCache A) (create : Bool) (made : List (Option A))
      → smc.xq.items ≡ xs
      → IsCache smc
      → IsCache (getl_from xs smc create made).1
  unfolding getl_from pop_first
  getl_from-IsCache [] smc create made e v = v
  getl_from-IsCache (x ∷ []) smc create made e v = record {
    counted = omega (arith, v.counted, ap length e);
    ended = ground (arith, ap length e);
    front = tt;
  }
  getl_from-IsCache (x ∷ y ∷ ys) smc create made e v = record {
    counted = omega (arith, v.counted, ap length e);
    ended = ground (arith, ap length e, ap get_last? e);
    front = (subst (IsFront smc.need_destroy) e v.front).1;
  }

  pub smcache_getl-IsCache :
      (smc : SmCache A) (create : Bool) (made : List (Option A))
      → IsCache smc
      → IsCache (smcache_getl smc create made).1
  unfolding smcache_getl
  smcache_getl-IsCache smc create made v = getl_from-IsCache smc.xq.items smc create made refl v

  pub empty-IsCache : (smc : SmCache A) → IsCache (record smc { xq = empty_q })
  unfolding empty_q
  empty-IsCache smc = record { counted = refl; ended = refl; front = tt }

  splice-IsCache :
      (smc : SmCache A) (q : SmQueue A)
      → smc.need_destroy ≡ never
      → IsQueue q
      → IsCache smc
      → IsCache (smcache_add_ql_dir smc q)
  unfolding smcache_add_ql_dir
  splice-IsCache smc q e u v = record {
    counted = omega (arith, length-append q.items smc.xq.items, u.counted, v.counted);
    ended = join_last q.items smc.xq.items q.qlast smc.xq.qlast u.ended v.ended;
    front = Stays-IsFront smc.need_destroy _ (rw e (Stays-never _));
  }

  pub smcache_add_ql-IsCache :
      (smc : SmCache A) (q : SmQueue A) → IsQueue q → IsCache smc → IsCache (smcache_add_ql smc q)
  unfolding smcache_add_ql
  smcache_add_ql-IsCache smc q u v = by_rule smc.need_destroy refl
    where
      by_rule :
          (d : NeedDestroy A)
          → smc.need_destroy ≡ d
          → IsCache (if is_never d then smcache_add_ql_dir smc q else add_each smc q.items)
      by_rule never e = splice-IsCache smc q e u v
      by_rule always e = add_each-IsCache smc q.items v
      by_rule (callback f) e = add_each-IsCache smc q.items v

  pub flush_if_flushable-IsCache :
      (smc : SmCache A) (limit : ℤ) → IsCache smc → IsCache (flush_if_flushable smc limit).0
  unfolding flush_if_flushable smcache_flushablel
  flush_if_flushable-IsCache smc (negsuc k) v = v
  flush_if_flushable-IsCache smc (pos k) v =
      elim (Bool-cases (ltb k smc.xq.n && needs_opt smc.need_destroy (qfirst smc.xq.items))) [
        | inl go ↦ rw go (smcache_get_flush_ql-Flushes smc k v (ground arith)).kept
        | inr stop ↦ rw stop v
      ]

  pub add_unless-IsCache :
      (ejected : Bool) (smc : SmCache A) (obj : Option A)
      → IsCache smc
      → IsCache (add_unless ejected smc obj)
  unfolding add_unless
  add_unless-IsCache true smc obj v = v
  add_unless-IsCache false smc none v = v
  add_unless-IsCache false smc (some obj) v = smcache_addl-IsCache smc obj v

  drop_all :
      (d : NeedDestroy A) (n : ℕ) (xs : List A)
      → n ≡ length xs
      → Stays d xs
      → drop_unflushable d n xs ≡ (0, [])
  unfolding drop_unflushable
  drop_all d n [] e h = rw e
  drop_all d n (x ∷ xs) e h = ground (arith, drop_all d (n - 1) xs, h.1)

  drop_first :
      (d : NeedDestroy A) (n : ℕ) (x : A) (xs : List A)
      → needs d x ≡ true
      → drop_unflushable d n (x ∷ xs) ≡ (n, x ∷ xs)
  unfolding drop_unflushable
  drop_first d n x xs e = ground arith

  abbrev AllOrNothing : SmCache A → Type ℓ
  AllOrNothing smc =
      ((needs_opt smc.need_destroy (qfirst smc.xq.items) ≡ true)
        × (remove_unflushable_objectsl smc ≡ smc))
      ⊎ (Stays smc.need_destroy smc.xq.items
          × (remove_unflushable_objectsl smc ≡ record smc { xq = empty_q }))

  on_chain :
      (smc : SmCache A) (xs : List A)
      → let c = record smc { xq = record { n = length xs; items = xs; qlast = get_last? xs } } in
        IsFront smc.need_destroy xs → AllOrNothing c
  unfolding remove_unflushable_objectsl empty_q
  on_chain smc [] h = inr (tt, refl)
  on_chain smc (x ∷ xs) h = elim (Bool-cases (needs smc.need_destroy x)) [
    | inl e ↦ inl (e, ground (arith, drop_first smc.need_destroy (length (x ∷ xs)) x xs e))
    | inr e ↦ inr (
      (e, h.0 e),
      ground (arith, drop_all smc.need_destroy (length (x ∷ xs)) (x ∷ xs) refl (e, h.0 e)),
    )
  ]

  -- In a cache that satisfies its invariant, smcache_remove_unflushable_objectsl changes nothing
  -- if the first object may be destroyed, and else empties the cache, in which no object may be
  -- destroyed then.
  pub remove_unflushable_cases :
      (smc : SmCache A)
      → IsCache smc
      → ((needs_opt smc.need_destroy (qfirst smc.xq.items) ≡ true)
          × (remove_unflushable_objectsl smc ≡ smc))
        ⊎ (Stays smc.need_destroy smc.xq.items
            × (remove_unflushable_objectsl smc ≡ record smc { xq = empty_q }))
  remove_unflushable_cases smc v = subst AllOrNothing same (on_chain smc smc.xq.items v.front)
    where
      same :
          record smc {
            xq = record {
              n = length smc.xq.items;
              items = smc.xq.items;
              qlast = get_last? smc.xq.items;
            };
          }
          ≡ smc
      same = λ i. record smc {
        xq = record { n = sym v.counted i; items = smc.xq.items; qlast = sym v.ended i };
      }
