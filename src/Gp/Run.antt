-- ===== src/Gp/Run.antt =====
-- Sequences of the operations of a group pool, pool/gp, and what holds after them.
use libstpool.Base.{
  ℕ, ◌≡◌, refl, List, Option, none, some, true, false, not, ◌&&◌, ltb, ◌==◌, arith, if◌then◌else◌,
  if_elim, OnSome, length, get_elem?,
}
use libstpool.Core.Pool.{need_ensure_servicesl}
use libstpool.Rt.Pending.{SamePending, ensure_servicesl-pending}
use libstpool.Gp.Defs.{Entry, Gp, is_gone}
use libstpool.Gp.Admin.{
  Attr, GroupResult, set_attrl, entry_setattr, suspended, resumed, entry_suspend, entry_resume,
  peaked, serve_if_needed,
}
use libstpool.Gp.Ruling.{suspended-IsBalanced, resumed-IsBalanced}
use libstpool.Gp.Attributes.{IsSafe, set_attrl-IsBalanced}
use libstpool.Gp.Sound.{IsSound}
use libstpool.Gp.KeptTask.{suspended-Opens}
use libstpool.Gp.KeptGroup.{resumed-Opens, set_attrl-Opens}
use libstpool.Gp.Pending.{sound, rest-IsSound}
use libstpool.Gp.Tasks.{found-named}

-- What holds of the group at a position, if there is one
abbrev pub OfGroup : (Entry → Type 0) → Gp → ℕ → Type 0
OfGroup P g i = (e : Entry) → get_elem? g.entry i ≡ some e → P e

pub serve-IsSound : (g : Gp) (made : List (Option ℕ)) → IsSound g → IsSound (serve_if_needed made g)
serve-IsSound g made s =
    rest-IsSound g (serve_if_needed made g).core g.ndispatchings g.dispatch_q
      (if_elim (SamePending g.core) (need_ensure_servicesl g.core)
        (λ _. ensure_servicesl-pending g.core none made) (λ _. refl))
      s

pub peaked-IsSound : (g : Gp) → IsSound g → IsSound (peaked g)
peaked-IsSound g s = record {
  balanced = record {
    pending = s.balanced.pending;
    counted = s.balanced.counted;
    served = s.balanced.served;
  };
  window = s.window;
  status = s.status;
}

pub setattr-IsSound :
    (g : Gp) (i : ℕ) (attr : Option Attr)
    → OfGroup (λ e. IsSafe g e attr) g i
    → IsSound g
    → IsSound (entry_setattr g i attr).1
unfolding entry_setattr
setattr-IsSound g i attr safe s = on_found (get_elem? g.entry i) refl
  where
    on_found :
        (o : Option Entry)
        → get_elem? g.entry i ≡ o
        → IsSound
            (elim o as (λ _. GroupResult × Gp) [
              | none ↦ (GroupResult.err_group_not_found, g)
              | some e ↦
                  if is_gone e
                  then (GroupResult.err_group_not_found, g)
                  else (GroupResult.ok, set_attrl g e attr)
            ]).1
    on_found none h = s
    on_found (some e) h =
        let named = found-named g i e s h in
        if_elim (λ (x : GroupResult × Gp). IsSound x.1) (is_gone e) (λ _. s)
          (λ _.
            sound (set_attrl g e attr) (set_attrl-IsBalanced g e attr named.1 (safe e h) s.balanced)
              (set_attrl-Opens g e named.1 (s.window, s.status) attr))

pub suspend-IsSound : (g : Gp) (i : ℕ) → IsSound g → OnSome (λ x. IsSound x.1) (entry_suspend g i)
unfolding entry_suspend
suspend-IsSound g i s =
    if_elim Ends (ltb (length g.entry) i) (λ _. s) (λ _. on_found (get_elem? g.entry i) refl)
  where
    Ends : Option (GroupResult × Gp) → Type 0
    Ends = OnSome (λ x. IsSound x.1)

    on_found :
        (o : Option Entry)
        → get_elem? g.entry i ≡ o
        → Ends (elim o as (λ _. Option (GroupResult × Gp)) [
          | none ↦ none
          | some e ↦
              if is_gone e
              then some (GroupResult.err_group_not_found, g)
              else if not g.core.created
              then some (GroupResult.err_destroying, g)
              else some (GroupResult.ok, if e.paused then g else suspended g e)
        ])
    on_found none h = tt
    on_found (some e) h =
        let named = found-named g i e s h in
        if_elim Ends (is_gone e) (λ _. s)
          (λ _.
            if_elim Ends (not g.core.created) (λ _. s)
              (λ _.
                if_elim IsSound e.paused (λ _. s)
                  (λ up.
                    sound (suspended g e) (suspended-IsBalanced g e named.1 s.balanced up)
                      (suspended-Opens g e named.1 up (s.window, s.status)))))

-- A group without benefits runs no task.
abbrev pub IsSettled : Entry → Type 0
IsSettled e = e.receive_benifits ≡ false → e.nrunnings ≡ 0

pub resume-IsSound :
    (g : Gp) (i : ℕ) (made : List (Option ℕ))
    → OfGroup IsSettled g i
    → IsSound g
    → OnSome IsSound (entry_resume g i made)
unfolding entry_resume
resume-IsSound g i made settled s =
    if_elim (OnSome IsSound) (ltb (length g.entry) i) (λ _. s)
      (λ _. on_found (get_elem? g.entry i) refl)
  where
    on_found :
        (o : Option Entry)
        → get_elem? g.entry i ≡ o
        → OnSome IsSound (elim o as (λ _. Option Gp) [
          | none ↦ none
          | some e ↦
              if not (is_gone e) && (g.core.created && e.paused)
              then some (
                  if e.npendings == 0
                  then resumed g e
                  else peaked (serve_if_needed made (resumed g e)))
              else some g
        ])
    on_found none h = tt
    on_found (some e) h =
        let named = found-named g i e s h in
        if_elim (OnSome IsSound) (not (is_gone e) && (g.core.created && e.paused))
          (λ k.
            let p : e.paused ≡ true = ground arith in
            let r =
              sound (resumed g e) (resumed-IsBalanced g e named.1 s.balanced p (settled e h))
                (resumed-Opens g e named.1 (s.window, s.status) p) in
            if_elim IsSound (e.npendings == 0) (λ _. r)
              (λ _.
                peaked-IsSound (serve_if_needed made (resumed g e))
                  (serve-IsSound (resumed g e) made r)))
          (λ _. s)
