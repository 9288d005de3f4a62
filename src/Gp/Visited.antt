-- ===== src/Gp/Visited.antt =====
-- The groups that the loop of __cpool_gp_get_pending_task (pool/gp/cpool_gp_internal.h) looks at.
use libstpool.Base.{
  ℕ, zero, suc, ◌≤◌, ◌<◌, ◌≡◌, refl, sym, ap, ◌∙◌, subst, List, [], ◌∷◌, some, true, false, ltb,
  arith, inl, inr, length, get_or, get_elem?, take, Bool-cases,
}
use libstpool.Task.{Task}
use libstpool.Priq.Size.{IsPopped-HasShrunk}
use libstpool.Priq.Top.{priq_top, priq_pop-IsTop}
use libstpool.Gp.Defs.{Entry, Gp}
use libstpool.Gp.Balance.{sum}
use libstpool.Gp.Positions.{index_at}
use libstpool.Gp.Window.{sleeps, is_ready, IsWindow}
use libstpool.Gp.Sound.{IsSound, found-lt, found-flag}

pub sum-pos :
    (w : Entry → ℕ) (es : List Entry)
    → 1 ≤ sum w es
    → (i : ℕ) × ((e : Entry) × (get_elem? es i ≡ some e) × (1 ≤ w e))
sum-pos w [] h = absurd (omega arith)
sum-pos w (x ∷ es) h = elim (Bool-cases (ltb 0 (w x))) [
  | inl p ↦ (0, (x, refl, ground arith))
  | inr p ↦ let r = sum-pos w es (ground arith) in (suc r.0, r.1)
]

get_or-take : (n p : ℕ) (is : List ℕ) → p < n → get_or (take n is) p 0 ≡ get_or is p 0
get_or-take zero p is h = absurd (omega arith)
get_or-take (suc n) p [] h = refl
get_or-take (suc n) zero (x ∷ is) h = refl
get_or-take (suc n) (suc p) (x ∷ is) h = get_or-take n p is (omega arith)

length-taken : (n : ℕ) (is : List ℕ) → n ≤ length is → length (take n is) ≡ n
length-taken zero is h = refl
length-taken (suc n) [] h = absurd (omega arith)
length-taken (suc n) (x ∷ is) h = ap suc (length-taken n is (omega arith))

pub get_or-in : (es : List Entry) (k : ℕ) → k < length es → (e : Entry) × (get_elem? es k ≡ some e)
get_or-in [] k h = absurd (omega arith)
get_or-in (x ∷ es) zero h = (x, refl)
get_or-in (x ∷ es) (suc k) h = get_or-in es k (omega arith)

module _ (g : Gp) (s : IsSound g) where
  abbrev pub is : List ℕ
  is = take g.active_idx g.actentry

  -- A group that is ready is among those that the loop looks at.
  pub ready_place :
      (i : ℕ) (e : Entry)
      → get_elem? g.entry i ≡ some e
      → is_ready e ≡ true
      → (p : ℕ) × (p < length is) × (get_or is p 0 ≡ i)
  ready_place i e found r = (
    index_at g.entry i,
    omega (arith, inside, length-taken g.active_idx g.actentry w.small),
    get_or-take g.active_idx (index_at g.entry i) g.actentry inside ∙ w.placed.there i in_i,
  )
    where
      w : IsWindow g.entry g.actentry g.active_idx g.nactives_ok
      w = s.window.0

      in_i : i < length g.actentry
      in_i = omega (arith, found-lt g.entry i e found, w.placed.sized)

      inside : index_at g.entry i < g.active_idx
      inside = w.within i in_i (s.status i ∙ found-flag is_ready g.entry i e found ∙ r)

  -- A group that the loop looks at
  pub place_awake :
      (p : ℕ)
      → p < length is
      → (get_or is p 0 < length g.entry) × (sleeps g.entry (get_or is p 0) ≡ false)
  place_awake p l =
      subst (λ k. (k < length g.entry) × (sleeps g.entry k ≡ false)) (sym same)
        (
          omega (arith, w.placed.sized, w.placed.inside p in_p),
          ground (
            arith,
            before,
            w.placed.back p in_p,
            s.window.1 (get_or g.actentry p 0) (w.placed.inside p in_p),
          ),
        )
    where
      w : IsWindow g.entry g.actentry g.active_idx g.nactives_ok
      w = s.window.0

      before : p < g.active_idx
      before = omega (arith, l, length-taken g.active_idx g.actentry w.small)

      in_p : p < length g.actentry
      in_p = omega (arith, before, w.small)

      same : get_or is p 0 ≡ get_or g.actentry p 0
      same = get_or-take g.active_idx p g.actentry before

  -- The first task of a group that has one
  pub top_of :
      (i : ℕ) (e : Entry)
      → get_elem? g.entry i ≡ some e
      → 1 ≤ e.npendings
      → (t : Task) × (e.top ≡ some t) × (priq_top e.c ≡ some t) × (t.gid ≡ i)
  top_of i e found n =
      let sv = s.balanced.served i e found in
      let top = priq_pop-IsTop e.c sv.exact (omega (arith, n, sv.counted)) in
      (
        top.task,
        sv.shown n ∙ top.shown,
        top.shown,
        (IsPopped-HasShrunk (λ u. u.gid ≡ i) e.c top.task top.rest top.popped).taken sv.own,
      )
