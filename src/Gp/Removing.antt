-- ===== src/Gp/Removing.antt =====
-- The counters of pool/gp where a task is taken back: pool/gp/cpool_gp_internal.h.
use libstpool.Base.{
  ℕ, ◌+◌, ◌-◌, ◌≤◌, ◌<◌, ◌≡◌, refl, sym, ap, ◌∙◌, subst, List, [], ◌∷◌, some, Bool, true, false,
  not, ◌&&◌, ◌||◌, ◌==◌, arith, if◌then◌else◌, if_elim, if_elim2, length, All, get_or, get_elem?,
  modify_at,
}
use libstpool.Task.{Task}
use libstpool.Priq.Defs.{Container, unlink, priq_erase}
use libstpool.Priq.Ready.{IsContainer}
use libstpool.Priq.Serve.{priq_erase-IsContainer}
use libstpool.Priq.Size.{size, total-set, All-set, All-get_or, AllTasks}
use libstpool.Priq.Top.{priq_empty-size}
use libstpool.Gp.Defs.{Entry, Gp, on_entry, inactivel}
use libstpool.Gp.Ops.{untraced}
use libstpool.Gp.Admin.{core_counts}
use libstpool.Gp.Remove.{
  dispatches, removed_to, unqueued, loses, eff_lost, uncount, retopped, contains, removel,
}
use libstpool.Gp.Balance.{
  IsLimited, IsServed, IsBalanced, modify_at-modify_at, store-IsBalanced, Kin, Kin-trans,
  Kin-IsBalanced, map-modify_at,
}
use libstpool.Gp.Places.{inactivel-Kin}
use libstpool.Gp.Taking.{on_entry-Kin}
use libstpool.Gp.Ruling.{enough}

-- The queue holds a task at this address.
abbrev pub holds : ℕ → List Task → Bool
holds id [] = false
holds id (t ∷ q) = t.id == id || holds id q

unlink-length : (id : ℕ) (q : List Task) → holds id q ≡ true → length (unlink id q) + 1 ≡ length q
unfolding unlink
unlink-length id [] h = cc
unlink-length id (t ∷ q) h = ground (arith, unlink-length id q)

unlink-All : (P : Task → Type 0) (id : ℕ) (q : List Task) → All P q → All P (unlink id q)
unfolding unlink
unlink-All P id [] a = tt
unlink-All P id (t ∷ q) a =
    if_elim (All P) (t.id == id) (λ _. a.1) (λ _. (a.0, unlink-All P id q a.1))

-- The task is gone from the container, and what holds of all tasks still does.
pub erased :
    (i : ℕ) (c : Container) (t : Task)
    → holds t.id (get_or c.priq t.priq []) ≡ true
    → t.priq < c.priq_num
    → IsContainer c
    → AllTasks (λ u. u.gid ≡ i) c
    → (size (priq_erase c t) + 1 ≡ size c) × AllTasks (λ u. u.gid ≡ i) (priq_erase c t)
unfolding priq_erase
erased i c t h k v a = (
  omega (
    arith,
    total-set c.priq t.priq (unlink t.id (get_or c.priq t.priq []))
        (subst (λ n. t.priq < n) (sym v.sized) k),
    unlink-length t.id (get_or c.priq t.priq []) h,
  ),
  All-set (λ u. u.gid ≡ i) c.priq t.priq (unlink t.id (get_or c.priq t.priq []))
      (unlink-All (λ u. u.gid ≡ i) t.id (get_or c.priq t.priq [])
        (All-get_or (λ u. u.gid ≡ i) c.priq t.priq a))
      a,
)

abbrev fewer : Gp → Entry → Gp
fewer g e = let g1 = on_entry e.id unqueued g in record g1 { npendings = g1.npendings - 1 }

abbrev core_fewer : Gp → Entry → Gp
core_fewer g e = core_counts (g.core.npendings - 1) (on_entry e.id eff_lost g)

-- uncount, less the step that takes the group from the active ones
abbrev plain : Gp → Entry → Gp
plain g e =
    if e.paused
    then on_entry e.id unqueued g
    else if loses e
    then core_fewer (fewer g e) e
    else fewer g e

fewer-Kin : (g h : Gp) (e : Entry) → Kin g h → Kin (fewer g e) (fewer h e)
fewer-Kin g h e k =
    let q = on_entry-Kin e.id unqueued g h (λ x. refl) k in
    record { entry = q.entry; npendings = ap (λ n. n - 1) q.npendings; core = q.core }

core_fewer-Kin : (g h : Gp) (e : Entry) → Kin g h → Kin (core_fewer g e) (core_fewer h e)
core_fewer-Kin g h e k =
    let q = on_entry-Kin e.id eff_lost g h (λ x. refl) k in
    record { entry = q.entry; npendings = q.npendings; core = ap (λ n. n - 1) k.core }

uncount-Kin : (g h : Gp) (e : Entry) → Kin g h → Kin (plain g e) (uncount h e)
unfolding uncount
uncount-Kin g h e k =
    if_elim2 Kin e.paused (λ _. on_entry-Kin e.id unqueued g h (λ x. refl) k)
      (λ _.
        if_elim (Kin counted) (e.npendings - 1 == 0)
          (λ _. Kin-trans counted left (inactivel left e) same (inactivel-Kin left e)) (λ _. same))
  where
    counted : Gp
    counted = if loses e then core_fewer (fewer g e) e else fewer g e

    left : Gp
    left = if loses e then core_fewer (fewer h e) e else fewer h e

    same : Kin counted left
    same =
        if_elim2 Kin (loses e) (λ _. core_fewer-Kin (fewer g e) (fewer h e) e (fewer-Kin g h e k))
          (λ _. fewer-Kin g h e k)

removed_to-Kin :
    (bypool unreferenced : Bool) (g : Gp) (e : Entry) (t : Task)
    → Kin g (removed_to bypool unreferenced g e t).1
unfolding removed_to
removed_to-Kin p u g e t =
    if_elim (λ (x : List Task × Gp). Kin g x.1) (not t.has_err_handler)
      (λ _.
        if_elim (Kin g) (t.f_vmflags.cache && u)
          (λ _. record {
            entry = map-modify_at e.id untraced g.entry (λ x. refl);
            npendings = refl;
            core = refl;
          })
          (λ _. record {
            entry = map-modify_at e.id untraced g.entry (λ x. refl);
            npendings = refl;
            core = refl;
          }))
      (λ _.
        if_elim (λ (x : List Task × Gp). Kin g x.1) p
          (λ _. record {
            entry = map-modify_at e.id dispatches g.entry (λ x. refl);
            npendings = refl;
            core = refl;
          })
          (λ _. record {
            entry = map-modify_at e.id dispatches g.entry (λ x. refl);
            npendings = refl;
            core = refl;
          }))

module _ (g : Gp) (e : Entry) (c : Container) (found : get_elem? g.entry e.id ≡ some e)
    (gone : (size c + 1 ≡ size e.c) × AllTasks (λ u. u.gid ≡ e.id) c) (exact : IsContainer c)
    (b : IsBalanced g) where
  served : IsServed e.id e
  served = b.served e.id e found

  removed-IsServed :
      (n : ℕ)
      → (e.receive_benifits ≡ false
          → e.paused ≡ false
          → IsLimited (record (unqueued e) { npendings_eff = n }))
      → (e.receive_benifits ≡ false → e.paused ≡ true → n ≡ 0)
      → IsServed e.id (retopped c (record (unqueued (contains c e)) { npendings_eff = n }))
  removed-IsServed n l d = record {
    named = served.named;
    counted = omega (arith, served.counted, gone.0);
    exact = exact;
    own = gone.1;
    shown = λ h. ground (arith, priq_empty-size c exact, served.counted, gone.0);
    limited = l;
    idle = d;
  }

  plain-IsBalanced :
      IsBalanced (on_entry e.id (retopped c) (plain (on_entry e.id (contains c) g) e))
  plain-IsBalanced =
      if_elim Done e.paused
        (λ p.
          store-IsBalanced g (finish (on_entry i unqueued g0)) i
            (λ x. retopped c (unqueued (contains c x))) e found
            (modify_at-modify_at i unqueued (retopped c) g0.entry
              ∙ modify_at-modify_at i (contains c) (λ x. retopped c (unqueued x)) g.entry)
            (removed-IsServed e.npendings_eff (λ r q. absurd (cc (sym p ∙ q))) served.idle)
            (ground arith) (ground arith) b)
        (λ p.
          if_elim Done (loses e)
            (λ l.
              store-IsBalanced g (finish (core_fewer (fewer g0 e) e)) i
                (λ x. retopped c (eff_lost (unqueued (contains c x)))) e found
                (modify_at-modify_at i eff_lost (retopped c) (modify_at i unqueued g0.entry)
                  ∙ modify_at-modify_at i unqueued (λ x. retopped c (eff_lost x)) g0.entry
                  ∙ modify_at-modify_at i (contains c) (λ x. retopped c (eff_lost (unqueued x)))
                      g.entry)
                (removed-IsServed (eff_lost (unqueued (contains c e))).npendings_eff
                  (λ r q. ground (arith, served.limited r p)) (λ r q. absurd (cc (sym p ∙ q))))
                (ground (arith, some_pending, enough g e found b))
                (ground (arith, some_pending, enough g e found b)) b)
            (λ l.
              store-IsBalanced g (finish (fewer g0 e)) i (λ x. retopped c (unqueued (contains c x)))
                e found
                (modify_at-modify_at i unqueued (retopped c) g0.entry
                  ∙ modify_at-modify_at i (contains c) (λ x. retopped c (unqueued x)) g.entry)
                (removed-IsServed e.npendings_eff (λ r q. ground (arith, served.limited r p))
                  (λ r q. absurd (cc (sym p ∙ q))))
                (ground (arith, some_pending, enough g e found b)) (ground arith) b))
    where
      i : ℕ
      i = e.id

      g0 : Gp
      g0 = on_entry i (contains c) g

      finish : Gp → Gp
      finish = on_entry i (retopped c)

      Done : Gp → Type 0
      Done x = IsBalanced (finish x)

      some_pending : 1 ≤ e.npendings
      some_pending = omega (arith, served.counted, gone.0)

-- A task that is taken back is no longer counted.
pub removel-IsBalanced :
    (bypool unreferenced : Bool) (g : Gp) (e : Entry) (t : Task)
    → get_elem? g.entry e.id ≡ some e
    → holds t.id (get_or e.c.priq t.priq []) ≡ true
    → t.priq < e.c.priq_num
    → IsBalanced g
    → IsBalanced (removel bypool unreferenced g e t).1
unfolding removel
removel-IsBalanced p u g e t found held placed b =
    Kin-IsBalanced (on_entry e.id (retopped c) (plain g0 e))
      (on_entry e.id (retopped c) (uncount x e))
      (on_entry-Kin e.id (retopped c) (plain g0 e) (uncount x e) (λ y. refl)
        (uncount-Kin g0 x e (removed_to-Kin p u g0 e t)))
      (plain-IsBalanced g e c found (erased e.id e.c t held placed s.exact s.own)
        (priq_erase-IsContainer e.c t placed s.exact) b)
  where
    s : IsServed e.id e
    s = b.served e.id e found

    c : Container
    c = priq_erase e.c t

    g0 : Gp
    g0 = on_entry e.id (contains c) g

    x : Gp
    x = (removed_to p u g0 e t).1
