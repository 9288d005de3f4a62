-- ===== src/Priq/Conserve.antt =====
-- The tasks in a queue after __cpool_com_priq_insert0 of pool/com/cpool_com_priq.h.
use mathlib.Core.List.{Perm, perm_middle, append-nil}
use mathlib.Core.List.Perm
use libstpool.Base.{
  ◌≡◌, ◌⊎◌, subst, List, [], ◌∷◌, ◌++◌, Option, none, some, Bool, true, false, arith, OnSome,
  if◌then◌else◌,
}
use libstpool.Task.{Task, is_unset}
use libstpool.Priq.Defs.{overtakes, scan, insert0}

scan-perm : (t : Task) (q : List Task) → OnSome (Perm (t ∷ q)) (scan t q)
unfolding scan
scan-perm t [] = tt
scan-perm t (x ∷ q) = after_first (scan t q) (scan-perm t q)
  where
    after_first :
        (o : Option (List Task))
        → OnSome (Perm (t ∷ q)) o
        → OnSome (Perm (t ∷ x ∷ q)) (
            if overtakes t x
            then some (t ∷ x ∷ q)
            else elim o [ none ↦ none | some q' ↦ some (x ∷ q') ])
    after_first none h = ground (arith, Perm.refl (t ∷ x ∷ q))
    after_first (some q') h =
        ground (arith, Perm.refl (t ∷ x ∷ q), Perm.trans (Perm.swap x t q) (Perm.cons x h))

append-perm : (t : Task) (q : List Task) → Perm (t ∷ q) (q ++ t ∷ [])
append-perm t q =
    Perm.symm (subst (λ r. Perm (q ++ t ∷ []) (t ∷ r)) (append-nil q) (perm_middle q []))

-- Where the task has a policy or is pushed, the queue after an insertion that is not stopped
-- holds the tasks of the queue before it and the new one, each as often.
pub insert0-perm :
    (ndebug : Bool) (q : List Task) (t : Task)
    → (t.f_vmflags.push ≡ true) ⊎ (is_unset t.pri_policy ≡ false)
    → OnSome (Perm (t ∷ q)) (insert0 ndebug q t)
unfolding insert0 scan
insert0-perm ndebug [] t h = Perm.refl (t ∷ [])
insert0-perm ndebug (x ∷ q) t h =
    ground
      (arith, Perm.refl (t ∷ x ∷ q), Perm.swap x t q, append-perm t (x ∷ q), scan-perm t (x ∷ q))
