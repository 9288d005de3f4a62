-- ===== src/Gp/Attributes.antt =====
-- The counters of pool/gp where a group gets other attributes: pool/gp/cpool_gp_entry.h.
use libstpool.Base.{
  ℕ, ◌+◌, ◌-◌, ◌≡◌, refl, Option, some, true, false, ◌||◌, ◌==◌, arith, if_elim, get_elem?,
}
use libstpool.Gp.Defs.{Entry, Gp, on_entry}
use libstpool.Gp.Admin.{Attr, given, attributed, effective, eff_limited, core_counts, set_attrl}
use libstpool.Gp.Balance.{IsServed, IsBalanced, modify_at-modify_at, store-IsBalanced}
use libstpool.Gp.Ruling.{enough, recount}

-- A group that receives no benefits under the new attributes runs no task, and where its number of
-- effective tasks is not computed anew, it is 0.
abbrev pub IsSafe : Gp → Entry → Option Attr → Type 0
IsSafe g e attr =
    (attributed (given attr g.core.maxthreads) g.core.maxthreads e).receive_benifits ≡ false
    → (e.nrunnings ≡ 0) × ((e.paused || e.npendings == 0) ≡ true → e.npendings_eff ≡ 0)

pub set_attrl-IsBalanced :
    (g : Gp) (e : Entry) (attr : Option Attr)
    → get_elem? g.entry e.id ≡ some e
    → IsSafe g e attr
    → IsBalanced g
    → IsBalanced (set_attrl g e attr)
unfolding set_attrl attributed
set_attrl-IsBalanced g e attr found safe b =
    if_elim IsBalanced (e.paused || e.npendings == 0)
      (λ h.
        store-IsBalanced g (on_entry e.id f g) e.id f e found refl
          (recount e.id e (f e) served refl refl refl refl (λ r p. ground (arith, safe r))
            (λ r p. (safe r).1 h))
          (ground arith) (ground (arith, served.limited, safe)) b)
      (λ h.
        store-IsBalanced g (core_counts n (on_entry e.id eff_limited (on_entry e.id f g))) e.id
          (λ x. eff_limited (f x)) e found (modify_at-modify_at e.id f eff_limited g.entry)
          (recount e.id e (eff_limited (f e)) served refl refl refl refl
            (λ r p. ground (arith, safe r)) (λ r p. ground arith))
          refl (ground (arith, enough g e found b)) b)
  where
    served : IsServed e.id e
    served = b.served e.id e found

    f : Entry → Entry
    f = attributed (given attr g.core.maxthreads) g.core.maxthreads

    n : ℕ
    n = (g.core.npendings - effective e) + effective (eff_limited (f e))
