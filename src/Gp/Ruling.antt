-- ===== src/Gp/Ruling.antt =====
-- The counters of pool/gp where a group is suspended, resumed or gets other attributes:
-- pool/gp/cpool_gp_advance_method.c and pool/gp/cpool_gp_entry.h.
use libstpool.Base.{
  ℕ, ◌+◌, ◌-◌, ◌≤◌, ◌≡◌, refl, sym, ap, ◌∙◌, subst, some, true, false, ◌==◌, arith, if_elim,
  get_elem?,
}
use libstpool.Priq.Ready.{IsContainer}
use libstpool.Priq.Size.{size, AllTasks}
use libstpool.Priq.Top.{priq_top}
use libstpool.Gp.Defs.{Entry, Gp, on_entry, activel, inactivel, shrink}
use libstpool.Gp.Admin.{
  effective, eff_limited, core_counts, paused_as, eff_reset, suspended, resumed,
}
use libstpool.Gp.Balance.{
  weight, share, IsLimited, IsServed, IsBalanced, sum-le, modify_at-modify_at, store-IsBalanced,
  Kin, Kin-IsBalanced,
}
use libstpool.Gp.Places.{activel-Kin, inactivel-Kin, shrink-Kin}
use libstpool.Gp.Taking.{on_entry-Kin}

-- The counters of the pool are not below those of the group.
pub enough :
    (g : Gp) (e : Entry)
    → get_elem? g.entry e.id ≡ some e
    → IsBalanced g
    → (weight e ≤ g.npendings) × (share e ≤ g.core.npendings)
enough g e found b = (
  omega (arith, b.pending, sum-le weight e.id g.entry e found),
  omega (arith, b.counted, sum-le share e.id g.entry e found),
)

-- The task counters of a group and its queue are as before.
pub recount :
    (i : ℕ) (e x : Entry)
    → IsServed i e
    → x.id ≡ e.id
    → x.npendings ≡ e.npendings
    → x.c ≡ e.c
    → x.top ≡ e.top
    → (x.receive_benifits ≡ false → x.paused ≡ false → IsLimited x)
    → (x.receive_benifits ≡ false → x.paused ≡ true → x.npendings_eff ≡ 0)
    → IsServed i x
recount i e x s n k c t l d = record {
  named = n ∙ s.named;
  counted = k ∙ s.counted ∙ ap size (sym c);
  exact = subst IsContainer (sym c) s.exact;
  own = subst (AllTasks (λ u. u.gid ≡ i)) (sym c) s.own;
  shown = λ h. t ∙ s.shown (omega (arith, k)) ∙ ap priq_top (sym c);
  limited = l;
  idle = d;
}

module _ (g : Gp) (e : Entry) (found : get_elem? g.entry e.id ≡ some e) (b : IsBalanced g) where
  served : IsServed e.id e
  served = b.served e.id e found

  suspend-IsServed : IsServed e.id (eff_reset (paused_as true e))
  suspend-IsServed =
      recount e.id e (eff_reset (paused_as true e)) served refl refl refl refl (λ r p. cc)
        (λ r p. ground arith)

  suspend_idle-IsServed : e.npendings ≡ 0 → e.paused ≡ false → IsServed e.id (paused_as true e)
  suspend_idle-IsServed z p =
      recount e.id e (paused_as true e) served refl refl refl refl (λ r q. cc)
        (λ r q. ground (arith, served.limited r p))

  pub suspended-IsBalanced : e.paused ≡ false → IsBalanced (suspended g e)
  unfolding suspended
  suspended-IsBalanced p =
      if_elim IsBalanced (e.npendings == 0)
        (λ z. Kin-IsBalanced g1 (shrink g1) (shrink-Kin g1) (
          store-IsBalanced g g1 e.id (paused_as true) e found refl
            (suspend_idle-IsServed (ground arith) p) (ground arith) (ground (arith, served.limited))
            b))
        (λ _. Kin-IsBalanced (fixed g2) (fixed (inactivel g2 (paused_as true e))) moved (
          store-IsBalanced g (fixed g2) e.id (λ x. eff_reset (paused_as true x)) e found
            (modify_at-modify_at e.id (paused_as true) eff_reset g.entry) suspend-IsServed
            (ground (arith, enough g e found b)) (ground (arith, enough g e found b)) b))
    where
      g1 : Gp
      g1 = on_entry e.id (paused_as true) g

      g2 : Gp
      g2 = record g1 { npendings = g1.npendings - e.npendings }

      fixed : Gp → Gp
      fixed x = core_counts (x.core.npendings - effective e) (on_entry e.id eff_reset x)

      moved : Kin (fixed g2) (fixed (inactivel g2 (paused_as true e)))
      moved =
          let k = inactivel-Kin g2 (paused_as true e) in
          let q = on_entry-Kin e.id eff_reset g2 (inactivel g2 (paused_as true e)) (λ x. refl) k in
          record {
            entry = q.entry;
            npendings = q.npendings;
            core = ap (λ n. n - effective e) k.core;
          }

  resume-IsLimited :
      e.paused ≡ true
      → (e.receive_benifits ≡ false → e.nrunnings ≡ 0)
      → e.receive_benifits ≡ false
      → IsLimited (eff_limited (paused_as false e))
  resume-IsLimited p z r = ground (arith, z r)

  pub resumed-IsBalanced :
      e.paused ≡ true → (e.receive_benifits ≡ false → e.nrunnings ≡ 0) → IsBalanced (resumed g e)
  unfolding resumed
  resumed-IsBalanced p z =
      if_elim IsBalanced (e.npendings == 0)
        (λ n.
          store-IsBalanced g g1 e.id (paused_as false) e found refl
            (recount e.id e (paused_as false e) served refl refl refl refl
              (λ r q. ground (arith, z r, served.idle r p)) (λ r q. cc))
            (ground arith) (ground (arith, served.idle)) b)
        (λ _. Kin-IsBalanced g3 (activel g3 e) (activel-Kin g3 e) (
          store-IsBalanced g g3 e.id (λ x. eff_limited (paused_as false x)) e found
            (modify_at-modify_at e.id (paused_as false) eff_limited g.entry)
            (recount e.id e (eff_limited (paused_as false e)) served refl refl refl refl
              (λ r q. resume-IsLimited p z r) (λ r q. cc))
            (ground arith) (ground arith) b))
    where
      g1 : Gp
      g1 = on_entry e.id (paused_as false) g

      g2 : Gp
      g2 = record (on_entry e.id eff_limited g1) { npendings = g1.npendings + e.npendings }

      g3 : Gp
      g3 = core_counts (g2.core.npendings + effective (eff_limited e)) g2
