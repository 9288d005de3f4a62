-- ===== src/Cache/Linked.antt =====
-- The counter and the last pointer of the object cache (pool/core/sm_cache.h,
-- pool/core/sm_cache.c) under every operation, wherever its objects stand.
use libstpool.Base.{
  ℕ, zero, suc, ◌+◌, ◌-◌, ◌≤◌, ◌≡◌, refl, sym, ap, ◌∙◌, List, [], ◌∷◌, ◌++◌, Option, none, some,
  Bool, true, false, ◌&&◌, ltb, ◌==◌, arith, if_elim, ◌⊎◌, ℤ, pos, negsuc, length, get_last?,
  length-append, get_last?-append, Bool-cases, inl, inr,
}
use mathlib.Core.List.{append-nil}
use libstpool.Cache.Defs.{
  SmQueue, NeedDestroy, SmCache, is_never, needs_opt, qfirst, empty_q, pop_first,
  smcache_flushablel, smcache_addl, smcache_addl_dir, smcache_add_ql, smcache_add_ql_dir, add_each,
  getl_from, smcache_getl, drop_unflushable, remove_unflushable_objectsl,
}
use libstpool.Cache.Limits.{
  take_destroyable, cut_front, smcache_get_flush_ql, flush_if_flushable, add_unless,
}
use libstpool.Cache.Invariant.{IsQueue, add_front_last, append_back}
use libstpool.Cache.Flushing.{Destroyable, Destroyable-last}
use libstpool.Cache.Steps.{join_last}

module _ {ℓ} {A : Type ℓ} where
  -- The counter and the last pointer are right.
  abbrev pub IsLinked : SmCache A → Type ℓ
  IsLinked smc = IsQueue smc.xq

  pub smcache_addl-IsLinked :
      (smc : SmCache A) (obj : A) → IsLinked smc → IsLinked (smcache_addl smc obj)
  unfolding smcache_addl
  smcache_addl-IsLinked smc obj v = ground (
    arith,
    add_front_last smc.xq.items obj smc.xq.n,
    append_back smc.xq.items obj smc.xq.n,
    length-append smc.xq.items (obj ∷ []),
    get_last?-append smc.xq.items obj [],
  )

  pub smcache_addl_dir-IsLinked :
      (smc : SmCache A) (obj : A) → IsLinked smc → IsLinked (smcache_addl_dir smc obj)
  unfolding smcache_addl_dir
  smcache_addl_dir-IsLinked smc obj v = ground (
    arith,
    add_front_last smc.xq.items obj smc.xq.n,
    append_back smc.xq.items obj smc.xq.n,
    length-append smc.xq.items (obj ∷ []),
    get_last?-append smc.xq.items obj [],
  )

  add_each-IsLinked : (smc : SmCache A) (xs : List A) → IsLinked smc → IsLinked (add_each smc xs)
  unfolding add_each
  add_each-IsLinked smc [] v = v
  add_each-IsLinked smc (x ∷ xs) v =
      add_each-IsLinked (smcache_addl smc x) xs (smcache_addl-IsLinked smc x v)

  pub smcache_add_ql_dir-IsLinked :
      (smc : SmCache A) (q : SmQueue A)
      → IsQueue q
      → IsLinked smc
      → IsLinked (smcache_add_ql_dir smc q)
  unfolding smcache_add_ql_dir
  smcache_add_ql_dir-IsLinked smc q u v = record {
    counted = omega (arith, length-append q.items smc.xq.items, u.counted, v.counted);
    ended = join_last q.items smc.xq.items q.qlast smc.xq.qlast u.ended v.ended;
  }

  pub smcache_add_ql-IsLinked :
      (smc : SmCache A) (q : SmQueue A) → IsQueue q → IsLinked smc → IsLinked (smcache_add_ql smc q)
  unfolding smcache_add_ql
  smcache_add_ql-IsLinked smc q u v =
      if_elim IsLinked (is_never smc.need_destroy) (λ _. smcache_add_ql_dir-IsLinked smc q u v)
        (λ _. add_each-IsLinked smc q.items v)

  getl_from-IsLinked :
      (xs : List A) (smc : SmCache A) (create : Bool) (made : List (Option A))
      → smc.xq.items ≡ xs
      → IsLinked smc
      → IsLinked (getl_from xs smc create made).1
  unfolding getl_from pop_first
  getl_from-IsLinked [] smc create made e v = v
  getl_from-IsLinked (x ∷ []) smc create made e v = record {
    counted = omega (arith, v.counted, ap length e);
    ended = ground (arith, ap length e);
  }
  getl_from-IsLinked (x ∷ y ∷ ys) smc create made e v = record {
    counted = omega (arith, v.counted, ap length e);
    ended = ground (arith, ap length e, ap get_last? e);
  }

  pub smcache_getl-IsLinked :
      (smc : SmCache A) (create : Bool) (made : List (Option A))
      → IsLinked smc
      → IsLinked (smcache_getl smc create made).1
  unfolding smcache_getl
  smcache_getl-IsLinked smc create made v = getl_from-IsLinked smc.xq.items smc create made refl v

  -- The objects that are taken from the front, at most as many as are allowed
  record Takes (d : NeedDestroy A) (budget : ℕ) (xs taken left : List A) : Type ℓ where
    whole : taken ++ left ≡ xs
    all_taken : Destroyable d taken
    within : length taken ≤ budget

  take_destroyable-Takes :
      (d : NeedDestroy A) (k : ℕ) (xs : List A)
      → Takes d k xs (take_destroyable d k xs).0 (take_destroyable d k xs).1
  unfolding take_destroyable
  take_destroyable-Takes d zero xs = record { whole = refl; all_taken = tt; within = omega arith }
  take_destroyable-Takes d (suc k) [] = record {
    whole = refl;
    all_taken = tt;
    within = omega arith;
  }
  take_destroyable-Takes d (suc k) (x ∷ xs) = ground (arith, take_destroyable-Takes d k xs)

  cut_front-IsLinked :
      (smc : SmCache A) (limit : ℕ) (taken left : List A)
      → IsLinked smc
      → limit ≤ smc.xq.n
      → (limit == 0 && needs_opt smc.need_destroy smc.xq.qlast) ≡ false
      → Takes smc.need_destroy (smc.xq.n - limit) smc.xq.items taken left
      → IsLinked (cut_front smc (taken, left)).0
  unfolding cut_front
  cut_front-IsLinked smc limit [] left v h c s = v
  cut_front-IsLinked smc limit (x ∷ xs) [] v h c s =
      ground (arith, append-nil xs, ap length s.whole, Destroyable-last smc.need_destroy (x ∷ xs))
  cut_front-IsLinked smc limit (x ∷ xs) (y ∷ ys) v h c s = rw some_taken (record {
    counted = omega (arith, size);
    ended = v.ended ∙ sym (ap get_last? s.whole) ∙ get_last?-append (x ∷ xs) y ys;
  })
    where
      some_taken : (length (x ∷ xs) == 0) ≡ false
      some_taken = ground arith

      size : length (x ∷ xs) + length (y ∷ ys) ≡ smc.xq.n
      size = omega (arith, length-append (x ∷ xs) (y ∷ ys), ap length s.whole)

  get_flush_ql-IsLinked :
      (smc : SmCache A) (limit : ℕ)
      → IsLinked smc
      → limit ≤ smc.xq.n
      → IsLinked (smcache_get_flush_ql smc limit).0
  unfolding smcache_get_flush_ql empty_q
  get_flush_ql-IsLinked smc limit v h =
      elim (Bool-cases (limit == 0 && needs_opt smc.need_destroy smc.xq.qlast)) [
        | inl all ↦ rw all (record { counted = refl; ended = refl })
        | inr part ↦ rw part (
            cut_front-IsLinked smc limit _ _ v h part
              (take_destroyable-Takes smc.need_destroy (smc.xq.n - limit) smc.xq.items))
      ]

  pub flush-IsLinked :
      (smc : SmCache A) (limit : ℤ) → IsLinked smc → IsLinked (flush_if_flushable smc limit).0
  unfolding flush_if_flushable smcache_flushablel
  flush-IsLinked smc (negsuc k) v = v
  flush-IsLinked smc (pos k) v =
      elim (Bool-cases (ltb k smc.xq.n && needs_opt smc.need_destroy (qfirst smc.xq.items))) [
        | inl go ↦ rw go (get_flush_ql-IsLinked smc k v (ground arith))
        | inr stop ↦ rw stop v
      ]

  pub add_unless-IsLinked :
      (ejected : Bool) (smc : SmCache A) (obj : Option A)
      → IsLinked smc
      → IsLinked (add_unless ejected smc obj)
  unfolding add_unless
  add_unless-IsLinked true smc obj v = v
  add_unless-IsLinked false smc none v = v
  add_unless-IsLinked false smc (some obj) v = smcache_addl-IsLinked smc obj v

  -- What is left after the loop: its counter is right, and its last object is the last one, or it
  -- is empty.
  drop-counts :
      (d : NeedDestroy A) (n : ℕ) (xs : List A)
      → n ≡ length xs
      → ((drop_unflushable d n xs).0 ≡ length (drop_unflushable d n xs).1)
        × (((drop_unflushable d n xs).1 ≡ [])
            ⊎ (get_last? (drop_unflushable d n xs).1 ≡ get_last? xs))
  unfolding drop_unflushable
  drop-counts d n [] e = (e, inl refl)
  drop-counts d n (x ∷ []) e = ground arith
  drop-counts d n (x ∷ y ∷ xs) e = ground (arith, drop-counts d (n - 1) (y ∷ xs))

  pub drop-IsLinked : (smc : SmCache A) → IsLinked smc → IsLinked (remove_unflushable_objectsl smc)
  unfolding remove_unflushable_objectsl
  drop-IsLinked smc v = ground (arith, drop-counts smc.need_destroy smc.xq.n smc.xq.items v.counted)
