-- ===== src/Gp/Stuck.antt =====
-- __cpool_gp_get_pending_task (pool/gp/cpool_gp_internal.h) after __cpool_gp_entry_set_attrl
-- (pool/gp/cpool_gp_entry.h) has lowered the limit of a group below the number of its running tasks.
use libstpool.Base.{
  ℕ, zero, suc, ◌+◌, ◌-◌, ◌≤◌, ◌<◌, ◌≡◌, ◌≢◌, refl, sym, ap, ◌∙◌, subst, List, [], ◌∷◌, Option,
  none, some, Bool, true, false, not, ◌&&◌, ◌||◌, ◌==◌, arith, if◌then◌else◌, if_elim, length,
  get_or, get_elem?, modify_at, take, pos, Bool-cases, inl, inr,
}
use libstpool.Task.{Task}
use libstpool.Gp.Defs.{Entry, Gp, on_entry}
use libstpool.Gp.Sched.{may_serve, select, picked, get_pending_task}
use libstpool.Gp.Admin.{Attr, attributed, limit_of, effective, eff_limited, core_counts, set_attrl}
use libstpool.Gp.Balance.{some_inj, get_elem?-modify_at}
use libstpool.Gp.Sound.{IsSound, found-flag}
use libstpool.Gp.Choice.{scan-none}
use libstpool.Gp.Visited.{place_awake}

-- No group that the loop looks at may give a task.
abbrev IsBlocked : Gp → Type 0
IsBlocked g =
    (b : Bool) (p : ℕ) (e : Entry)
    → p < length (take g.active_idx g.actentry)
    → get_elem? g.entry (get_or (take g.active_idx g.actentry) p 0) ≡ some e
    → may_serve b e ≡ false

goes_on :
    (c b : Bool) (x : Option (Option Task))
    → c ≡ false
    → x ≡ none
    → (if c then some none else if b && not true then none else x) ≡ none
goes_on true b x h k = cc
goes_on false true x h k = k
goes_on false false x h k = k

select-none :
    (fuel : ℕ) (b : Bool) (g : Gp)
    → IsBlocked g
    → 1 ≤ g.core.npendings
    → select fuel true b g ≡ none
unfolding select
select-none zero b g blocked h = refl
select-none (suc fuel) b g blocked h =
    ap round (scan-none b g.entry (take g.active_idx g.actentry) (blocked b))
    ∙ goes_on (g.core.npendings == 0) b (select fuel true true g) (ground (arith, h))
        (select-none fuel true g blocked h)
  where
    round : Option Task → Option (Option Task)
    round o = elim o as (λ _. Option (Option Task)) [
      | some t ↦ some (some t)
      | none ↦
          if g.core.npendings == 0
          then some none
          else if b && not true
          then none
          else select fuel true true g
    ]

get_elem?-other :
    (i k : ℕ) (f : Entry → Entry) (es : List Entry)
    → k ≢ i
    → get_elem? (modify_at i f es) k ≡ get_elem? es k
get_elem?-other i k f [] n = refl
get_elem?-other zero zero f (x ∷ es) n = absurd (n refl)
get_elem?-other zero (suc k) f (x ∷ es) n = refl
get_elem?-other (suc i) zero f (x ∷ es) n = refl
get_elem?-other (suc i) (suc k) f (x ∷ es) n = get_elem?-other i k f es (λ h. n (ap suc h))

-- No benefits, and at most this number of tasks at a time
abbrev pub limited_to : ℕ → Attr
limited_to limit = record { limit_paralle_tasks = pos limit; receive_benifits = false }

module _ (g : Gp) (e : Entry) (limit : ℕ) (s : IsSound g) (found : get_elem? g.entry e.id ≡ some e)
    (up : e.paused ≡ false) (some_pending : 1 ≤ e.npendings) (positive : 1 ≤ limit)
    (reached : limit ≤ e.nrunnings) (low : limit < g.core.maxthreads)
    (idle : (i : ℕ) (x : Entry)
      → get_elem? g.entry i ≡ some x
      → i ≢ e.id
      → x.paused ≡ false
      → x.npendings ≡ 0) where
  f : Entry → Entry
  f = attributed (limited_to limit) g.core.maxthreads

  cut : Gp
  cut =
      core_counts ((g.core.npendings - effective e) + effective (eff_limited (f e)))
        (on_entry e.id eff_limited (on_entry e.id f g))

  set_attrl-cut : set_attrl g e (some (limited_to limit)) ≡ cut
  unfolding set_attrl f cut
  set_attrl-cut =
      if_elim (λ x. x ≡ cut) (e.paused || e.npendings == 0) (λ h. absurd (ground arith)) (λ _. refl)

  cut_entry : (b : Bool) → may_serve b (eff_limited (f e)) ≡ false
  unfolding f attributed limit_of
  cut_entry b = ground arith

  cut-IsBlocked : IsBlocked cut
  unfolding cut
  cut-IsBlocked b p x l h = elim (Bool-cases (k == e.id)) [
    | inl same ↦
        subst (λ y. may_serve b y ≡ false) (some_inj (sym (there k (ground arith)) ∙ h))
          (cut_entry b)
    | inr other ↦
        let was : get_elem? g.entry k ≡ some x =
          sym (get_elem?-other e.id k f g.entry (ground arith))
          ∙ sym (get_elem?-other e.id k eff_limited (modify_at e.id f g.entry) (ground arith))
          ∙ h in
        ground (
          arith,
          idle k x was (ground arith)
              (sym (found-flag (λ y. y.paused) g.entry k x was) ∙ (place_awake g s p l).1),
        )
  ]
    where
      k : ℕ
      k = get_or (take g.active_idx g.actentry) p 0

      there :
          (k : ℕ)
          → k ≡ e.id
          → get_elem? (modify_at e.id eff_limited (modify_at e.id f g.entry)) k
            ≡ some (eff_limited (f e))
      there k same =
          ap (get_elem? (modify_at e.id eff_limited (modify_at e.id f g.entry))) same
          ∙ get_elem?-modify_at e.id eff_limited (modify_at e.id f g.entry) (f e)
              (get_elem?-modify_at e.id f g.entry e found)

  counted : 1 ≤ cut.core.npendings
  unfolding cut f attributed limit_of
  counted = ground arith

  -- In a sound group pool let a group that is not paused have pending tasks, while no other group
  -- that is not paused has any. Where __cpool_gp_entry_set_attrl tells it to receive no benefits
  -- and to run at most a positive number of tasks, below the number of threads and not above the
  -- number of its running tasks, __cpool_gp_get_pending_task of a build with NDEBUG gives no task
  -- after any number of rounds.
  pub set_attrl-stuck :
      (fuel : ℕ) → get_pending_task fuel true (set_attrl g e (some (limited_to limit))) ≡ none
  unfolding get_pending_task
  set_attrl-stuck fuel =
      ap (get_pending_task fuel true) set_attrl-cut
      ∙ ap (picked true cut) (select-none fuel false cut cut-IsBlocked counted)
