-- ===== src/Cache/Flushing.antt =====
-- What smcache_get_flush_ql (pool/core/sm_cache.c) takes from the cache and what it leaves.
use libstpool.Base.{
  ℕ, zero, suc, ◌+◌, ◌-◌, ◌≤◌, ◌<◌, ◌≡◌, refl, sym, ap, ◌∙◌, ◌⊎◌, inl, inr, List, [], ◌∷◌, ◌++◌,
  true, false, ◌&&◌, ◌==◌, arith, length, get_last?, All, length-append, get_last?-append,
  Bool-cases,
}
use mathlib.Core.List.{append-nil}
use libstpool.Cache.Defs.{SmQueue, NeedDestroy, SmCache, needs, needs_opt, qfirst, empty_q}
use libstpool.Cache.Limits.{take_destroyable, smcache_get_flush_ql, cut_front}
use libstpool.Cache.Invariant.{IsQueue, Stays, IsFront, IsCache}

module _ {ℓ} {A : Type ℓ} where
  abbrev pub Destroyable : NeedDestroy A → List A → Type 0
  Destroyable d = All (λ x. needs d x ≡ true)

  -- Every object goes in turn, `taken` first.
  pub record Splits (d : NeedDestroy A) (budget : ℕ) (xs taken left : List A) : Type ℓ where
    pub whole : taken ++ left ≡ xs
    pub all_taken : Destroyable d taken
    pub within : length taken ≤ budget
    pub maximal : (length taken ≡ budget) ⊎ (needs_opt d (qfirst left) ≡ false)
    pub left_front : IsFront d left

  take_destroyable-Splits :
      (d : NeedDestroy A) (k : ℕ) (xs : List A)
      → IsFront d xs
      → Splits d k xs (take_destroyable d k xs).0 (take_destroyable d k xs).1
  unfolding take_destroyable
  take_destroyable-Splits d zero xs h = record {
    whole = refl;
    all_taken = tt;
    within = omega arith;
    maximal = inl refl;
    left_front = h;
  }
  take_destroyable-Splits d (suc k) [] h = record {
    whole = refl;
    all_taken = tt;
    within = omega arith;
    maximal = inr refl;
    left_front = h;
  }
  take_destroyable-Splits d (suc k) (x ∷ xs) h = ground (arith, take_destroyable-Splits d k xs h.1)

  Stays-last :
      (d : NeedDestroy A) (x : A) (xs : List A)
      → Stays d (x ∷ xs)
      → needs_opt d (get_last? (x ∷ xs)) ≡ false
  Stays-last d x [] h = h.0
  Stays-last d x (y ∷ xs) h = Stays-last d y xs h.1

  Front-last :
      (d : NeedDestroy A) (xs : List A)
      → IsFront d xs
      → needs_opt d (get_last? xs) ≡ true
      → Destroyable d xs
  Front-last d [] h e = tt
  Front-last d (x ∷ []) h e = (e, tt)
  Front-last d (x ∷ y ∷ xs) h e = ground (arith, Front-last d (y ∷ xs) h.1 e, Stays-last d y xs)

  pub Destroyable-last :
      (d : NeedDestroy A) (xs : List A)
      → Destroyable d xs
      → 0 < length xs
      → needs_opt d (get_last? xs) ≡ true
  Destroyable-last d [] h e = elim e [ ]
  Destroyable-last d (x ∷ []) h e = h.0
  Destroyable-last d (x ∷ y ∷ xs) h e = Destroyable-last d (y ∷ xs) h.1 (omega arith)

  -- What the flush of a cache down to `limit` gives: a queue of destroyable objects from its
  -- front, the cache of the others, and no destroyable object above the limit.
  pub record Flushes (smc : SmCache A) (limit : ℕ) (smc' : SmCache A) (q : SmQueue A) : Type ℓ where
    pub whole : q.items ++ smc'.xq.items ≡ smc.xq.items
    pub all_taken : Destroyable smc.need_destroy q.items
    pub queue : IsQueue q
    pub kept : IsCache smc'
    pub not_below : limit ≤ smc'.xq.n
    pub maximal : (smc'.xq.n ≡ limit) ⊎ (needs_opt smc.need_destroy (qfirst smc'.xq.items) ≡ false)
    pub same_rule : smc'.need_destroy ≡ smc.need_destroy
    pub same_limit : smc'.nlimit_cache ≡ smc.nlimit_cache

  cut_front-Flushes :
      (smc : SmCache A) (limit : ℕ) (taken left : List A)
      → IsCache smc
      → limit ≤ smc.xq.n
      → ((limit == 0) ≡ false) ⊎ (needs_opt smc.need_destroy smc.xq.qlast ≡ false)
      → Splits smc.need_destroy (smc.xq.n - limit) smc.xq.items taken left
      → Flushes smc limit (cut_front smc (taken, left)).0 (cut_front smc (taken, left)).1
  unfolding cut_front
  cut_front-Flushes smc limit [] left v h c s = ground arith
  cut_front-Flushes smc limit (x ∷ xs) [] v h c s =
      ground (arith, append-nil xs, ap length s.whole, Destroyable-last smc.need_destroy (x ∷ xs))
  cut_front-Flushes smc limit (x ∷ xs) (y ∷ ys) v h c s = rw some_taken (record {
    whole = s.whole;
    all_taken = s.all_taken;
    queue = record { counted = refl; ended = refl };
    kept = record {
      counted = omega (arith, size);
      ended = v.ended ∙ sym (ap get_last? s.whole) ∙ get_last?-append (x ∷ xs) y ys;
      front = s.left_front;
    };
    not_below = omega (arith, s.within);
    maximal = ground (arith, s.maximal, size);
    same_rule = refl;
    same_limit = refl;
  })
    where
      some_taken : (length (x ∷ xs) == 0) ≡ false
      some_taken = ground arith

      size : length (x ∷ xs) + length (y ∷ ys) ≡ smc.xq.n
      size = omega (arith, length-append (x ∷ xs) (y ∷ ys), ap length s.whole)

  pub smcache_get_flush_ql-Flushes :
      (smc : SmCache A) (limit : ℕ)
      → IsCache smc
      → limit ≤ smc.xq.n
      → Flushes smc limit (smcache_get_flush_ql smc limit).0 (smcache_get_flush_ql smc limit).1
  unfolding smcache_get_flush_ql empty_q
  smcache_get_flush_ql-Flushes smc limit v h =
      elim (Bool-cases (limit == 0 && needs_opt smc.need_destroy smc.xq.qlast)) [
        | inl all ↦ rw all (take_all all)
        | inr part ↦ rw part (
            cut_front-Flushes smc limit _ _ v h (ground arith)
              (take_destroyable-Splits smc.need_destroy (smc.xq.n - limit) smc.xq.items v.front))
      ]
    where
      take_all :
          (limit == 0 && needs_opt smc.need_destroy smc.xq.qlast) ≡ true
          → Flushes smc limit (record smc { xq = empty_q }) smc.xq
      take_all all = record {
        whole = append-nil smc.xq.items;
        all_taken = Front-last smc.need_destroy smc.xq.items v.front (ground arith);
        queue = record { counted = v.counted; ended = v.ended };
        kept = record { counted = refl; ended = refl; front = tt };
        not_below = ground arith;
        maximal = inl (ground arith);
        same_rule = refl;
        same_limit = refl;
      }
