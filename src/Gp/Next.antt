-- ===== src/Gp/Next.antt =====
-- __cpool_gp_get_pending_task of pool/gp/cpool_gp_internal.h finds a task in at most two rounds.
use libstpool.Base.{
  ℕ, zero, suc, ◌≤◌, ◌<◌, ◌≡◌, ◌⊎◌, refl, sym, ap, ◌∙◌, subst, List, Option, none, some, Bool, true,
  false, not, ◌&&◌, ltb, ◌==◌, arith, if◌then◌else◌, inl, inr, length, get_or, get_elem?, take,
  Bool-cases,
}
use libstpool.Task.{Task}
use libstpool.Priq.Top.{priq_top}
use libstpool.Gp.Defs.{Entry, Gp}
use libstpool.Gp.Sched.{scan_actives, select}
use libstpool.Gp.Balance.{share}
use libstpool.Gp.Window.{sleeps}
use libstpool.Gp.Sound.{IsSound, found-flag}
use libstpool.Gp.Choice.{task_inj, Gives, IsChosen, scan-IsChosen, scan-some}
use libstpool.Gp.Visited.{sum-pos, get_or-in, ready_place, place_awake, top_of}

-- The group may run a task of its own limit.
abbrev pub IsFree : Entry → Type 0
IsFree e = (e.paused ≡ false) × (1 ≤ e.npendings) × (e.nrunnings < e.limit_tasks)

-- The task is the first one of its group, which is not paused and either has not reached its limit
-- or receives benefits; and no group below its limit has a first task of a higher priority.
pub record IsNext (g : Gp) (t : Task) : Type 0 where
  pub group : Entry
  pub found : get_elem? g.entry t.gid ≡ some group
  pub first : priq_top group.c ≡ some t
  pub awake : group.paused ≡ false
  pub pending : 1 ≤ group.npendings
  pub room : (group.nrunnings < group.limit_tasks) ⊎ (group.receive_benifits ≡ true)
  pub highest :
      (i : ℕ) (e : Entry) (u : Task)
      → get_elem? g.entry i ≡ some e
      → IsFree e
      → priq_top e.c ≡ some u
      → u.pri ≤ t.pri

some_some_inj :
    {u t : Task}
    → ◌≡◌ {A = Option (Option Task)} (some (some u)) (some (some t))
    → ◌≡◌ {A = Option Task} (some u) (some t)
some_some_inj h = cc

through :
    (c d : Bool) (x : Option (Option Task)) (t : Task)
    → (if c then some none else if d then none else x) ≡ some (some t)
    → x ≡ some (some t)
through true d x t h = absurd (cc h)
through false true x t h = absurd (cc h)
through false false x t h = h

module _ (g : Gp) (s : IsSound g) where
  abbrev is : List ℕ
  is = take g.active_idx g.actentry

  -- A group below its limit gives its first task in either round.
  free-Gives :
      (b : Bool) (i : ℕ) (e : Entry) (u : Task)
      → get_elem? g.entry i ≡ some e
      → IsFree e
      → priq_top e.c ≡ some u
      → (p : ℕ) × (p < length is) × Gives b (get_elem? g.entry (get_or is p 0)) u
  free-Gives b i e u found free top =
      let place = ready_place g s i e found (ground arith) in
      (
        place.0,
        place.1,
        subst (λ o. Gives b o u) (sym (ap (get_elem? g.entry) place.2 ∙ found))
            (ground arith, (s.balanced.served i e found).shown free.1 ∙ top),
      )

  given-IsNext :
      (b : Bool) (t : Task) (i : ℕ) (e : Entry)
      → get_elem? g.entry i ≡ some e
      → sleeps g.entry i ≡ false
      → Gives b (some e) t
      → IsChosen b g.entry is none t
      → IsNext g t
  given-IsNext b t i e found up gives chosen =
      let n : 1 ≤ e.npendings = ground arith in
      let top = top_of g s i e found n in
      let same : top.0 ≡ t = task_inj (sym top.1 ∙ gives.1) in
      record {
        group = e;
        found = ap (get_elem? g.entry) (ap (λ (x : Task). x.gid) (sym same) ∙ top.3) ∙ found;
        first = top.2 ∙ ap some same;
        awake = sym (found-flag (λ x. x.paused) g.entry i e found) ∙ up;
        pending = n;
        room = elim (Bool-cases (ltb e.nrunnings e.limit_tasks)) [
          | inl h ↦ inl (ground arith)
          | inr h ↦ inr (ground arith)
        ];
        highest =
            λ j x u f free k. let r = free-Gives b j x u f free k in chosen.highest r.0 u r.1 r.2;
      }

  chosen-IsNext : (b : Bool) (t : Task) → scan_actives b g.entry is none ≡ some t → IsNext g t
  chosen-IsNext b t h = on_origin (scan-IsChosen b g.entry is none t h).origin
    where
      on_origin :
          (◌≡◌ {A = Option Task} none (some t))
            ⊎ ((p : ℕ) × (p < length is) × Gives b (get_elem? g.entry (get_or is p 0)) t)
          → IsNext g t
      on_origin (inl x) = cc
      on_origin (inr (p, l, gives)) =
          let a = place_awake g s p l in
          let e = get_or-in g.entry (get_or is p 0) a.0 in
          given-IsNext b t (get_or is p 0) e.0 e.1 a.1 (subst (λ o. Gives b o t) e.1 gives)
            (scan-IsChosen b g.entry is none t h)

  -- The Core counts a task, so that a group gives one, in the second round at least.
  some-Gives :
      1 ≤ g.core.npendings
      → (p : ℕ) × ((u : Task) × (p < length is) × Gives true (get_elem? g.entry (get_or is p 0)) u)
  some-Gives h =
      let (i, (e, found, n)) = sum-pos share g.entry (omega (arith, h, s.balanced.counted)) in
      let sv = s.balanced.served i e found in
      let pending : 1 ≤ e.npendings = ground (arith, sv.limited) in
      let top = top_of g s i e found pending in
      let place = ready_place g s i e found (ground arith) in
      (
        place.0,
        (
          top.0,
          place.1,
          subst (λ o. Gives true o top.0) (sym (ap (get_elem? g.entry) place.2 ∙ found))
              (ground (arith, sv.limited), top.1),
        ),
      )

  -- The task that is chosen, in the first or in the second round
  pub select-IsNext :
      (fuel : ℕ)
      → 1 ≤ g.core.npendings
      → (t : Task) × (select (suc (suc fuel)) true false g ≡ some (some t)) × IsNext g t
  unfolding select
  select-IsNext fuel h =
      let second =
        scan-some true g.entry is none (some-Gives h).0 (some-Gives h).1.0 (some-Gives h).1.1
          (some-Gives h).1.2 in
      on_first (scan_actives false g.entry is none) refl second.0 second.1
    where
      again : Option Task → Option (Option Task)
      again o = elim o as (λ _. Option (Option Task)) [
        | some t ↦ some (some t)
        | none ↦ if g.core.npendings == 0 then some none else select fuel true true g
      ]

      first : Option Task → Option Task → Option (Option Task)
      first o o2 = elim o as (λ _. Option (Option Task)) [
        | some t ↦ some (some t)
        | none ↦ if g.core.npendings == 0 then some none else again o2
      ]

      counts : (g.core.npendings == 0) ≡ false
      counts = ground (arith, h)

      skip : (x : Option (Option Task)) → (if g.core.npendings == 0 then some none else x) ≡ x
      skip x = rw counts refl

      on_first :
          (o : Option Task)
          → scan_actives false g.entry is none ≡ o
          → (t2 : Task) → scan_actives true g.entry is none ≡ some t2
          → (t : Task) × (select (suc (suc fuel)) true false g ≡ some (some t)) × IsNext g t
      on_first (some t) e t2 e2 =
          (t, ap (λ x. first x (scan_actives true g.entry is none)) e, chosen-IsNext false t e)
      on_first none e t2 e2 = (
        t2,
        ap (λ x. first x (scan_actives true g.entry is none)) e
            ∙ skip (again (scan_actives true g.entry is none))
            ∙ ap again e2,
        chosen-IsNext true t2 e2,
      )

  -- What any number of rounds finds
  pub select-found :
      (fuel : ℕ) (ndebug b : Bool) (t : Task) → select fuel ndebug b g ≡ some (some t) → IsNext g t
  unfolding select
  select-found zero ndebug b t h = absurd (cc h)
  select-found (suc fuel) ndebug b t h =
      on_scan (scan_actives b g.entry is none) refl (select-found fuel ndebug true t) h
    where
      round : Option Task → Option (Option Task)
      round o = elim o as (λ _. Option (Option Task)) [
        | some u ↦ some (some u)
        | none ↦
            if g.core.npendings == 0
            then some none
            else if b && not ndebug
            then none
            else select fuel ndebug true g
      ]

      on_scan :
          (o : Option Task)
          → scan_actives b g.entry is none ≡ o
          → (select fuel ndebug true g ≡ some (some t) → IsNext g t)
          → round o ≡ some (some t)
          → IsNext g t
      on_scan (some u) e ih k = chosen-IsNext b t (e ∙ some_some_inj k)
      on_scan none e ih k =
          ih (through (g.core.npendings == 0) (b && not ndebug) (select fuel ndebug true g) t k)
