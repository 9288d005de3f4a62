-- ===== src/Gp/Groups.antt =====
-- Resuming all groups and the throttle of one: cpool_gp_entry_resume_all and
-- cpool_gp_entry_throttle_ctl of pool/gp/cpool_gp_advance_method.c.
use libstpool.Base.{
  ℕ, zero, suc, ◌+◌, ◌≡◌, refl, sym, ◌∙◌, List, Option, none, some, Bool, true, false, not, ◌&&◌,
  ◌==◌, arith, if◌then◌else◌, if_elim, length, get_elem?,
}
use libstpool.Gp.Defs.{Entry, Gp, is_gone, on_entry, flag_at, activel}
use libstpool.Gp.Admin.{
  resumed, peaked, serve_if_needed, paused_as, eff_limited, core_counts, effective,
}
use libstpool.Gp.Ruling.{recount, resumed-IsBalanced}
use libstpool.Gp.Positions.{flag_at-modify_at}
use libstpool.Gp.Places.{activel-Kin}
use libstpool.Gp.Window.{is_ready}
use libstpool.Gp.Status.{Kin-flag, keep-IsOpen}
use libstpool.Gp.Balance.{store-IsBalanced}
use libstpool.Gp.Sound.{IsSound, found-flag}
use libstpool.Gp.KeptGroup.{resumed-Opens}
use libstpool.Gp.Pending.{sound}
use libstpool.Gp.Tasks.{found-named}
use libstpool.Gp.Run.{serve-IsSound, peaked-IsSound}

-- The body of the loop of cpool_gp_entry_resume_all
unfoldable pub resume_one : Gp → Option Entry → Gp
unfolding resumed
resume_one g none = g
resume_one g (some e) = if not (is_gone e) && e.paused then resumed g e else g

unfoldable pub resume_each : ℕ → ℕ → Gp → Gp
unfolding resume_one
resume_each zero i g = g
resume_each (suc n) i g = resume_each n (suc i) (resume_one g (get_elem? g.entry i))

-- cpool_gp_entry_resume_all
unfoldable pub entry_resume_all : Gp → List (Option ℕ) → Gp
unfolding resume_each
entry_resume_all g made =
    if g.core.created then serve_if_needed made (peaked (resume_each (length g.entry) 0 g)) else g

abbrev throttled : Bool → Entry → Entry
throttled enable e = record e { throttle = enable }

-- cpool_gp_entry_throttle_ctl, less the wakeup of those that wait for the throttle
unfoldable pub entry_throttle_ctl : Gp → ℕ → Bool → Gp
entry_throttle_ctl g id enable = elim (get_elem? g.entry id) [
  | none ↦ g
  | some e ↦ if is_gone e then g else on_entry id (throttled enable) g
]

-- A group that is to receive no benefits and runs a task
abbrev pub is_busy : Entry → Bool
is_busy e = not e.receive_benifits && not (e.nrunnings == 0)

abbrev pub NoneBusy : Gp → Type 0
NoneBusy g = (k : ℕ) → flag_at is_busy g.entry k ≡ false

resumed-NoneBusy : (g : Gp) (e : Entry) → NoneBusy g → NoneBusy (resumed g e)
unfolding resumed
resumed-NoneBusy g e b k =
    if_elim (λ (x : Gp). flag_at is_busy x.entry k ≡ false) (e.npendings == 0) (λ _. unpaused)
      (λ _. Kin-flag is_busy g3 (activel g3 e) k (λ x. refl) (activel-Kin g3 e) ∙ limited)
  where
    g1 : Gp
    g1 = on_entry e.id (paused_as false) g

    g2 : Gp
    g2 = record (on_entry e.id eff_limited g1) { npendings = g1.npendings + e.npendings }

    g3 : Gp
    g3 = core_counts (g2.core.npendings + effective (eff_limited e)) g2

    unpaused : flag_at is_busy g1.entry k ≡ false
    unpaused = flag_at-modify_at is_busy g.entry e.id k (paused_as false) (λ x. refl) ∙ b k

    limited : flag_at is_busy g3.entry k ≡ false
    limited = flag_at-modify_at is_busy g1.entry e.id k eff_limited (λ x. refl) ∙ unpaused

resume_one-IsSound :
    (g : Gp) (i : ℕ) (o : Option Entry)
    → get_elem? g.entry i ≡ o
    → NoneBusy g
    → IsSound g
    → IsSound (resume_one g o) × NoneBusy (resume_one g o)
unfolding resume_one
resume_one-IsSound g i none h b s = (s, b)
resume_one-IsSound g i (some e) h b s =
    if_elim (λ x. IsSound x × NoneBusy x) (not (is_gone e) && e.paused)
      (λ k.
        let named = found-named g i e s h in
        let p : e.paused ≡ true = ground arith in
        (
          sound (resumed g e)
              (resumed-IsBalanced g e named.1 s.balanced p
                (λ r. ground (arith, b i, found-flag is_busy g.entry i e h)))
              (resumed-Opens g e named.1 (s.window, s.status) p),
          resumed-NoneBusy g e b,
        ))
      (λ _. (s, b))

resume_each-IsSound : (n i : ℕ) (g : Gp) → NoneBusy g → IsSound g → IsSound (resume_each n i g)
unfolding resume_each
resume_each-IsSound zero i g b s = s
resume_each-IsSound (suc n) i g b s =
    let r = resume_one-IsSound g i (get_elem? g.entry i) refl b s in
    resume_each-IsSound n (suc i) (resume_one g (get_elem? g.entry i)) r.1 r.0

pub entry_resume_all-IsSound :
    (g : Gp) (made : List (Option ℕ)) → NoneBusy g → IsSound g → IsSound (entry_resume_all g made)
unfolding entry_resume_all
entry_resume_all-IsSound g made b s =
    if_elim IsSound g.core.created
      (λ _.
        let all = resume_each (length g.entry) 0 g in
        serve-IsSound (peaked all) made
          (peaked-IsSound all (resume_each-IsSound (length g.entry) 0 g b s)))
      (λ _. s)

pub entry_throttle_ctl-IsSound :
    (g : Gp) (i : ℕ) (enable : Bool) → IsSound g → IsSound (entry_throttle_ctl g i enable)
unfolding entry_throttle_ctl
entry_throttle_ctl-IsSound g i enable s = on_found (get_elem? g.entry i) refl
  where
    on_found :
        (o : Option Entry)
        → get_elem? g.entry i ≡ o
        → IsSound (elim o as (λ _. Gp) [
          | none ↦ g
          | some e ↦ if is_gone e then g else on_entry i (throttled enable) g
        ])
    on_found none h = s
    on_found (some e) h =
        if_elim IsSound (is_gone e) (λ _. s)
          (λ _.
            let v = s.balanced.served i e h in
            sound (on_entry i (throttled enable) g)
              (store-IsBalanced g (on_entry i (throttled enable) g) i (throttled enable) e h refl
                (recount i e (throttled enable e) v refl refl refl refl v.limited v.idle) refl refl
                s.balanced)
              (
                keep-IsOpen g i (throttled enable) (λ x. refl) (λ x. refl) (λ x. refl) s.window,
                λ k.
                    flag_at-modify_at (λ (x : Entry). x.active) g.entry i k (throttled enable)
                      (λ x. refl)
                    ∙ s.status k
                    ∙ sym (flag_at-modify_at is_ready g.entry i k (throttled enable) (λ x. refl)),
              ))
