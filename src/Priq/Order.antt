-- ===== src/Priq/Order.antt =====
-- Order in a queue of pool/com/cpool_com_priq.h after __cpool_com_priq_insert0.
use libstpool.Base.{
  ℕ, ◌≤◌, ◌<◌, ◌≡◌, ◌⊎◌, List, [], ◌∷◌, ◌++◌, none, some, Bool, true, false, arith, if◌then◌else◌,
  All, All-append, OnSome,
}
use libstpool.Task.{Task, top}
use libstpool.Priq.Defs.{scan, insert0}

-- Every task has a priority of at most `p`.
abbrev pub Within : ℕ → List Task → Type 0
Within p = All (λ t. t.pri ≤ p)

-- Priorities do not rise along the queue.
abbrev pub IsSorted : List Task → Type 0
IsSorted [] = Unit {0}
IsSorted (t ∷ q) = Within t.pri q × IsSorted q

-- No task of the queue has a higher priority than the first.
abbrev pub IsHeadMax : List Task → Type 0
IsHeadMax [] = Unit {0}
IsHeadMax (t ∷ q) = Within t.pri q

Within-mono : {a b : ℕ} (q : List Task) → a ≤ b → Within a q → Within b q
Within-mono [] h w = tt
Within-mono (t ∷ q) h w = (omega arith, Within-mono q h w.1)

scan-Within :
    (t : Task) (q : List Task) (p : ℕ) → t.pri ≤ p → Within p q → OnSome (Within p) (scan t q)
unfolding scan
scan-Within t [] p h w = tt
scan-Within t (x ∷ q) p h w = ground (arith, scan-Within t q p h w.1)

scan-IsSorted : (t : Task) (q : List Task) → IsSorted q → OnSome IsSorted (scan t q)
unfolding scan
scan-IsSorted t [] s = tt
scan-IsSorted t (x ∷ q) s =
    ground
      (arith, scan-IsSorted t q s.1, scan-Within t q x.pri, Within-mono {a = x.pri} {b = t.pri} q)

Within-append : (p : ℕ) (q : List Task) (t : Task) → t.pri ≤ p → Within p q → Within p (q ++ t ∷ [])
Within-append p q t h w = All-append (λ x. x.pri ≤ p) q (t ∷ []) w (h, tt)

-- A task that is pushed has the lowest priority, 0.
abbrev pub IsPushed : Task → Type 0
IsPushed t = t.f_vmflags.push ≡ true → t.pri ≡ 0

-- Where no task of a queue has a higher priority than its first and a pushed task has priority 0,
-- no task has a higher priority than the first after an insertion that is not stopped.
pub insert0-IsHeadMax :
    (ndebug : Bool) (q : List Task) (t : Task)
    → IsPushed t
    → IsHeadMax q
    → OnSome IsHeadMax (insert0 ndebug q t)
unfolding insert0
insert0-IsHeadMax ndebug [] t e h = tt
insert0-IsHeadMax ndebug (x ∷ q) t e h =
    ground
      (arith, scan-Within t q x.pri, Within-append x.pri q t, Within-mono {a = x.pri} {b = t.pri} q)

IsSorted-append : (q : List Task) (t : Task) → t.pri ≡ 0 → IsSorted q → IsSorted (q ++ t ∷ [])
IsSorted-append [] t e s = (tt, tt)
IsSorted-append (x ∷ q) t e s =
    (Within-append x.pri q t (omega arith) s.0, IsSorted-append q t e s.1)

-- The task is pushed, or comes before all tasks but the first.
abbrev pub IsPlaceable : List Task → Task → Type 0
IsPlaceable [] t = Unit {0}
IsPlaceable (x ∷ q) t = (t.f_vmflags.push ≡ true) ⊎ (x.pri < t.pri) ⊎ Within t.pri q

-- A sorted queue stays sorted after an insertion that is not stopped, if a pushed task has
-- priority 0 and the task is pushed, has a higher priority than the first one, or has at least
-- the priority of every task behind the first.
pub insert0-IsSorted :
    (ndebug : Bool) (q : List Task) (t : Task)
    → IsPushed t
    → IsPlaceable q t
    → IsSorted q
    → OnSome IsSorted (insert0 ndebug q t)
unfolding insert0
insert0-IsSorted ndebug [] t e h s = (tt, tt)
insert0-IsSorted ndebug (x ∷ q) t e h s = ground (
  arith,
  scan-IsSorted t q s.1,
  scan-Within t q x.pri,
  IsSorted-append (x ∷ q) t,
  Within-mono {a = x.pri} {b = t.pri} q,
)

-- A task below the second one is linked before it.
pub insert0-misplaces :
    (ndebug : Bool) (x y : Task) (q : List Task) (t : Task)
    → t.f_vmflags.push ≡ false
    → t.pri < y.pri
    → y.pri ≤ x.pri
    → insert0 ndebug (x ∷ y ∷ q) t ≡ some (x ∷ t ∷ y ∷ q)
unfolding insert0
insert0-misplaces ndebug x y q t e h s = ground arith

-- A task of the first one's priority that is to go before it stops a build without NDEBUG, and
-- goes to the front in a build with it.
pub insert0-top :
    (ndebug : Bool) (x : Task) (q : List Task) (t : Task)
    → t.f_vmflags.push ≡ false
    → t.pri ≡ x.pri
    → t.pri_policy ≡ top
    → insert0 ndebug (x ∷ q) t ≡ (if ndebug then some (t ∷ x ∷ q) else none)
unfolding insert0 scan
insert0-top ndebug x q t e h s = ground arith
