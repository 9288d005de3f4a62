-- ===== src/Gp/Sound.antt =====
-- The whole invariant of a group pool (pool/gp): the counters are right, and the active groups are
-- those with tasks to run; it is kept where a task joins its group.
use libstpool.Base.{
  ℕ, zero, suc, ◌+◌, ◌≤◌, ◌<◌, ◌≡◌, ◌≢◌, refl, sym, ap, ◌∙◌, subst, List, [], ◌∷◌, Option, some,
  Bool, false, not, ◌==◌, arith, if_elim, length, get_elem?, max,
}
use libstpool.Gp.Defs.{Entry, Gp, flag_at, activel}
use libstpool.Gp.Sched.{counts_more, eff_raised, raise_pending, consumer_notifyl}
use libstpool.Gp.Balance.{some_inj, IsBalanced}
use libstpool.Gp.Positions.{length-modify_at, index_at, index_at-modify_at, flag_at-modify_at}
use libstpool.Gp.Window.{actives, is_ready}
use libstpool.Gp.Places.{activel-Kin}
use libstpool.Gp.Activate.{IsOpen, activel-IsOpen}
use libstpool.Gp.Status.{readies, IsStatus, keep-IsOpen, Kin-flag, activel-actives}

pub record IsSound (g : Gp) : Type 0 where
  pub balanced : IsBalanced g
  pub window : IsOpen g
  pub status : IsStatus g.entry

-- What is known of a group that was read
pub found-lt : (es : List Entry) (i : ℕ) (e : Entry) → get_elem? es i ≡ some e → i < length es
found-lt [] i e h = cc
found-lt (x ∷ es) zero e h = omega arith
found-lt (x ∷ es) (suc i) e h = omega (arith, found-lt es i e h)

pub found-flag :
    (q : Entry → Bool) (es : List Entry) (i : ℕ) (e : Entry)
    → get_elem? es i ≡ some e
    → flag_at q es i ≡ q e
found-flag q [] i e h = cc
found-flag q (x ∷ es) zero e h = ap q (some_inj h)
found-flag q (x ∷ es) (suc i) e h = found-flag q es i e h

pub found-index :
    (es : List Entry) (i : ℕ) (e : Entry) → get_elem? es i ≡ some e → index_at es i ≡ e.index
found-index [] i e h = cc
found-index (x ∷ es) zero e h = ap (λ (y : Entry). y.index) (some_inj h)
found-index (x ∷ es) (suc i) e h = found-index es i e h

-- The window and the marks
abbrev pub Opens : Gp → Type 0
Opens g = IsOpen g × IsStatus g.entry

raise-IsOpen :
    (g : Gp) (e : Entry) (made : List (Option ℕ)) → IsOpen g → IsOpen (raise_pending g e made)
unfolding raise_pending
raise-IsOpen g e made o =
    if_elim IsOpen (counts_more (record g { npendings = g.npendings + 1 }) e)
      (λ _. keep-IsOpen g e.id eff_raised (λ x. refl) (λ x. refl) (λ x. refl) o) (λ _. o)

raise-flag :
    (q : Entry → Bool) (g : Gp) (e : Entry) (made : List (Option ℕ)) (k : ℕ)
    → ((x : Entry) → q (eff_raised x) ≡ q x)
    → flag_at q (raise_pending g e made).entry k ≡ flag_at q g.entry k
unfolding raise_pending
raise-flag q g e made k h =
    if_elim (λ (x : Gp). flag_at q x.entry k ≡ flag_at q g.entry k)
      (counts_more (record g { npendings = g.npendings + 1 }) e)
      (λ _. flag_at-modify_at q g.entry e.id k eff_raised h) (λ _. refl)

raise-index :
    (g : Gp) (e : Entry) (made : List (Option ℕ)) (k : ℕ)
    → index_at (raise_pending g e made).entry k ≡ index_at g.entry k
unfolding raise_pending
raise-index g e made k =
    if_elim (λ (x : Gp). index_at x.entry k ≡ index_at g.entry k)
      (counts_more (record g { npendings = g.npendings + 1 }) e)
      (λ _. index_at-modify_at g.entry e.id k eff_raised (λ x. refl)) (λ _. refl)

raise-sizes :
    (g : Gp) (e : Entry) (made : List (Option ℕ))
    → ((raise_pending g e made).actentry ≡ g.actentry)
      × (length (raise_pending g e made).entry ≡ length g.entry)
unfolding raise_pending
raise-sizes g e made =
    if_elim (λ (x : Gp). (x.actentry ≡ g.actentry) × (length x.entry ≡ length g.entry))
      (counts_more (record g { npendings = g.npendings + 1 }) e)
      (λ _. (refl, length-modify_at e.id eff_raised g.entry)) (λ _. (refl, refl))

-- The Core hears of a task of a group that is ready and, but for its first task, active.
pub consumer_notifyl-Opens :
    (g : Gp) (e : Entry) (made : List (Option ℕ))
    → IsOpen g
    → get_elem? g.entry e.id ≡ some e
    → e.id < length g.actentry
    → e.paused ≡ false
    → 1 ≤ e.npendings
    → e.active ≡ not (e.npendings == 1)
    → ((k : ℕ) → k ≢ e.id → actives g.entry k ≡ readies g.entry k)
    → Opens (consumer_notifyl g e made)
unfolding consumer_notifyl
consumer_notifyl-Opens g e made o found in_i up some_pending mark others =
    if_elim (λ (x : Gp). Opens (record x { ntasks_peak = max x.ntasks_peak x.npendings }))
      (e.npendings == 1)
      (λ h. (
        activel-IsOpen r e (raise-IsOpen g e made o)
            (subst (λ act. e.id < length act) (sym (raise-sizes g e made).0) in_i)
            (raise-index g e made e.id ∙ found-index g.entry e.id e found)
            (still_active e.id ∙ found-flag (λ x. x.active) g.entry e.id e found ∙ mark ∙ ap not h)
            (raise-flag (λ x. x.paused) g e made e.id (λ x. refl)
              ∙ found-flag (λ x. x.paused) g.entry e.id e found
              ∙ up),
        λ k. ground (
          arith,
          activel-actives r e k
              (omega (arith, found-lt g.entry e.id e found, (raise-sizes g e made).1)),
          Kin-flag is_ready r (activel r e) k (λ x. refl) (activel-Kin r e),
          still_active k,
          still_ready k,
          others k,
          found-flag is_ready g.entry e.id e found,
        ),
      ))
      (λ h. (
        raise-IsOpen g e made o,
        λ k. ground (
          arith,
          still_active k,
          still_ready k,
          others k,
          found-flag is_ready g.entry e.id e found,
          found-flag (λ x. x.active) g.entry e.id e found,
        ),
      ))
  where
    r : Gp
    r = raise_pending g e made

    still_active : (k : ℕ) → actives r.entry k ≡ actives g.entry k
    still_active k = raise-flag (λ x. x.active) g e made k (λ x. refl)

    still_ready : (k : ℕ) → readies r.entry k ≡ readies g.entry k
    still_ready k = raise-flag is_ready g e made k (λ x. refl)
