-- ===== src/Cache/Defs.antt =====
-- pool/core/sm_cache.h: the queue of objects and the operations that its header defines inline.
use libstpool.Base.{
  ℕ, ◌+◌, ◌-◌, List, [], ◌∷◌, ◌++◌, Option, none, some, Bool, true, false, not, ◌&&◌, ◌||◌, ltb,
  ◌==◌, if◌then◌else◌, ℤ, negsuc, is_zero, below, is_negative, above,
}

-- Which mutex `smc->lock` points to: the cache's own `stack_lock`, or one of the caller.
pub data Lock : Type 0 where
  stack_lock external_lock : Lock

abbrev pub is_own : Lock → Bool
is_own stack_lock = true
is_own external_lock = false

module _ {ℓ} where
  -- struct smlink_q
  pub record SmQueue (A : Type ℓ) : Type ℓ where
    pub n : ℕ
    pub items : List A
    pub qlast : Option A

  -- The member `need_destroy`: NULL, FUNC_ALWAYS_NEED_DESTROY, or a callback.
  pub data NeedDestroy (A : Type ℓ) : Type ℓ where
    never : NeedDestroy A
    always : NeedDestroy A
    callback : (A → Bool) → NeedDestroy A

  -- struct smcache, less its name and the callbacks that are arguments
  pub record SmCache (A : Type ℓ) : Type ℓ where
    pub xq : SmQueue A
    pub nlimit_cache : ℤ
    pub need_destroy : NeedDestroy A
    pub lock : Lock

module _ {ℓ} {A : Type ℓ} where
  unfoldable pub empty_q : SmQueue A
  empty_q = record { n = 0; items = []; qlast = none }

  unfoldable pub smlink_q_push : SmQueue A → A → SmQueue A
  smlink_q_push q obj = record {
    n = q.n + 1;
    items = obj ∷ q.items;
    qlast = if q.n == 0 then some obj else q.qlast;
  }

  -- smcache_init2; `lock_ok` is the result of OSPX_pthread_mutex_init.
  unfoldable pub smcache_init2 : ℤ → Bool → NeedDestroy A → Bool → Option (SmCache A)
  unfolding empty_q
  smcache_init2 nlimit external d lock_ok =
      let smc : SmCache A = record {
        xq = empty_q;
        nlimit_cache = if is_zero nlimit then negsuc 0 else nlimit;
        need_destroy = d;
        lock = if external then external_lock else stack_lock;
      } in
      if external || lock_ok then some smc else none

  -- `q->qfirst` and what follows it; an empty chain stands for the NULL pointer.
  unfoldable pub pop_first : List A → SmQueue A → Option A × SmQueue A
  pop_first [] q = (none, q)
  pop_first (obj ∷ next) q = (
    some obj,
    record { n = q.n - 1; items = next; qlast = if q.n - 1 == 0 then none else q.qlast },
  )

  unfoldable pub smlink_q_pop : SmQueue A → Option A × SmQueue A
  unfolding pop_first
  smlink_q_pop q = if q.n == 0 then (none, q) else pop_first q.items q

  abbrev pub needs : NeedDestroy A → A → Bool
  needs never obj = false
  needs always obj = true
  needs (callback f) obj = f obj

  unfoldable pub smcache_need_destroy : SmCache A → A → Bool
  smcache_need_destroy smc obj = needs smc.need_destroy obj

  -- `smcache_need_destroy(smc, smc->xq.qfirst)` and the like, where the pointer may be NULL; the
  -- code reads it only where the queue has an object.
  abbrev pub needs_opt : NeedDestroy A → Option A → Bool
  needs_opt d none = false
  needs_opt d (some obj) = needs d obj

  abbrev pub qfirst : List A → Option A
  qfirst [] = none
  qfirst (obj ∷ next) = some obj

  unfoldable pub smcache_accessl : SmCache A → A → ℤ → Bool
  unfolding smcache_need_destroy
  smcache_accessl smc obj limited =
      is_negative limited || (not (smcache_need_destroy smc obj) || above limited smc.xq.n)

  unfoldable pub smcache_flushablel : SmCache A → ℤ → Bool
  smcache_flushablel smc limit =
      not (is_negative limit)
      && (below limit smc.xq.n && needs_opt smc.need_destroy (qfirst smc.xq.items))

  -- The loop of smcache_remove_unflushable_objectsl, over the chain and its counter.
  unfoldable pub drop_unflushable : NeedDestroy A → ℕ → List A → ℕ × List A
  drop_unflushable d n [] = (n, [])
  drop_unflushable d n (obj ∷ next) =
      let rest = drop_unflushable d (n - 1) next in
      if ltb 0 n && not (needs d obj) then rest else (n, obj ∷ next)

  unfoldable pub remove_unflushable_objectsl : SmCache A → SmCache A
  unfolding drop_unflushable
  remove_unflushable_objectsl smc =
      let (n, items) = drop_unflushable smc.need_destroy smc.xq.n smc.xq.items in
      if ltb 0 smc.xq.n
      then record smc {
        xq = record { n = n; items = items; qlast = if n == 0 then qfirst items else smc.xq.qlast };
      }
      else smc

  push_front : SmQueue A → A → SmQueue A
  push_front q obj = record { n = q.n + 1; items = obj ∷ q.items; qlast = q.qlast }

  push_back : SmQueue A → A → SmQueue A
  push_back q obj = record {
    n = q.n + 1;
    items = if q.n == 0 then obj ∷ [] else q.items ++ obj ∷ [];
    qlast = some obj;
  }

  unfoldable pub smcache_addl : SmCache A → A → SmCache A
  unfolding push_front push_back smcache_need_destroy
  smcache_addl smc obj = record smc {
    xq =
        if smcache_need_destroy smc obj && not (smc.xq.n == 0)
        then push_front smc.xq obj
        else push_back smc.xq obj;
  }

  unfoldable pub smcache_addl_dir : SmCache A → A → SmCache A
  unfolding push_front push_back
  smcache_addl_dir smc obj = record smc {
    xq = if not (smc.xq.n == 0) then push_front smc.xq obj else push_back smc.xq obj;
  }

  -- `q->qlast->next = smc->xq.qfirst`: the chain of `q` in front.
  unfoldable pub smcache_add_ql_dir : SmCache A → SmQueue A → SmCache A
  smcache_add_ql_dir smc q = record smc {
    xq = record {
      n = smc.xq.n + q.n;
      items = q.items ++ smc.xq.items;
      qlast = elim smc.xq.qlast [ none ↦ q.qlast | some l ↦ some l ];
    };
  }

  unfoldable pub add_each : SmCache A → List A → SmCache A
  add_each smc [] = smc
  add_each smc (c ∷ next) = add_each (smcache_addl smc c) next

  abbrev pub is_never : NeedDestroy A → Bool
  is_never never = true
  is_never _ = false

  unfoldable pub smcache_add_ql : SmCache A → SmQueue A → SmCache A
  unfolding smcache_add_ql_dir add_each
  smcache_add_ql smc q =
      if is_never smc.need_destroy then smcache_add_ql_dir smc q else add_each smc q.items

  abbrev pub next_result : List (Option A) → Option A
  next_result [] = none
  next_result (r ∷ rs) = r

  unfoldable pub getl_from : List A → SmCache A → Bool → List (Option A) → Option A × SmCache A
  unfolding pop_first
  getl_from [] smc create made = (if create then next_result made else none, smc)
  getl_from (obj ∷ next) smc create made =
      (some obj, record smc { xq = (pop_first (obj ∷ next) smc.xq).1 })

  unfoldable pub smcache_getl : SmCache A → Bool → List (Option A) → Option A × SmCache A
  unfolding getl_from
  smcache_getl smc create made = getl_from smc.xq.items smc create made
