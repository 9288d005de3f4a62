-- ===== src/Cache/Invariant.antt =====
-- The invariant of the object cache (pool/core/sm_cache.h, pool/core/sm_cache.c): how counter, chain
-- and last pointer go together, and where objects that may be destroyed stand.
use libstpool.Base.{
  ℕ, ◌≡◌, refl, ◌≢◌, List, [], ◌∷◌, ◌++◌, false, ◌==◌, arith, if◌then◌else◌, length, get_last?, All,
  All-append, length-append, get_last?-append,
}
use libstpool.Cache.Defs.{SmQueue, NeedDestroy, SmCache, needs, smcache_addl}

module _ {ℓ} {A : Type ℓ} where
  pub record IsQueue (q : SmQueue A) : Type ℓ where
    pub counted : q.n ≡ length q.items
    pub ended : q.qlast ≡ get_last? q.items

  abbrev pub Stays : NeedDestroy A → List A → Type 0
  Stays d = All (λ x. needs d x ≡ false)

  -- After an object that stays, no object is destroyable.
  abbrev pub IsFront : NeedDestroy A → List A → Type 0
  IsFront d [] = Unit
  IsFront d (x ∷ xs) = (needs d x ≡ false → Stays d xs) × IsFront d xs

  pub record IsCache (smc : SmCache A) : Type ℓ where
    pub counted : smc.xq.n ≡ length smc.xq.items
    pub ended : smc.xq.qlast ≡ get_last? smc.xq.items
    pub front : IsFront smc.need_destroy smc.xq.items

  pub Stays-IsFront : (d : NeedDestroy A) (xs : List A) → Stays d xs → IsFront d xs
  Stays-IsFront d [] h = tt
  Stays-IsFront d (x ∷ xs) h = ((λ _. h.1), Stays-IsFront d xs h.1)

  Front-append :
      (d : NeedDestroy A) (xs : List A) (y : A)
      → IsFront d xs
      → needs d y ≡ false
      → IsFront d (xs ++ y ∷ [])
  Front-append d [] y h e = ((λ _. tt), tt)
  Front-append d (x ∷ xs) y h e = (
    (λ stays. All-append (λ x. needs d x ≡ false) xs (y ∷ []) (h.0 stays) (e, tt)),
    Front-append d xs y h.1 e,
  )

  pub add_front_last :
      (xs : List A) (x : A) (n : ℕ) → n ≡ length xs → n ≢ 0 → get_last? (x ∷ xs) ≡ get_last? xs
  add_front_last [] x n e h = absurd (h e)
  add_front_last (y ∷ xs) x n e h = refl

  pub append_back :
      (xs : List A) (x : A) (n : ℕ)
      → n ≡ length xs
      → (if n == 0 then x ∷ [] else xs ++ x ∷ []) ≡ xs ++ x ∷ []
  append_back [] x n e = rw e refl
  append_back (y ∷ xs) x n e = ground arith

  pub smcache_addl-IsCache :
      (smc : SmCache A) (obj : A) → IsCache smc → IsCache (smcache_addl smc obj)
  unfolding smcache_addl
  smcache_addl-IsCache smc obj v = ground (
    arith,
    add_front_last smc.xq.items obj smc.xq.n,
    append_back smc.xq.items obj smc.xq.n,
    Front-append smc.need_destroy smc.xq.items obj,
    length-append smc.xq.items (obj ∷ []),
    get_last?-append smc.xq.items obj [],
  )
