-- ===== src/Gp/Queueing.antt =====
-- The counters of pool/gp where a task joins its group: pool/gp/cpool_gp_internal.h.
use libstpool.Base.{
  ℕ, ◌+◌, ◌≤◌, ◌≡◌, refl, sym, ◌∙◌, subst, List, Option, none, some, Bool, true, false, not, ◌&&◌,
  ◌==◌, arith, if◌then◌else◌, if_elim, OnSome, get_elem?, max,
}
use libstpool.Task.{Task}
use libstpool.Priq.Defs.{Container, priq_insert}
use libstpool.Priq.Ready.{IsContainer}
use libstpool.Priq.Serve.{priq_insert-IsContainer}
use libstpool.Priq.Size.{IsNice, HasGrown, priq_insert-HasGrown}
use libstpool.Core.Pool.{Pool, need_ensure_servicesl}
use libstpool.Rt.Pending.{SamePending, ensure_servicesl-pending}
use libstpool.Gp.Defs.{Entry, Gp, on_entry, activel}
use libstpool.Gp.Sched.{
  numbered, queued, pri_queuel, counts_more, eff_raised, ensured, pending_raised, raise_pending,
  consumer_notifyl,
}
use libstpool.Gp.Ops.{deliver}
use libstpool.Gp.Balance.{
  weight, IsLimited, IsServed, IsBalanced, sum-le, get_elem?-modify_at, modify_at-modify_at,
  store-IsBalanced, Kin-IsBalanced,
}
use libstpool.Gp.Places.{activel-Kin}

-- The task belongs to the group, and the queue of the group finds a place for it.
abbrev pub IsOf : ℕ → Task → Type 0
IsOf i t = (t.gid ≡ i) × IsNice t

pub ensured-pending : (p : Pool) (made : List (Option ℕ)) → SamePending p (ensured p made)
ensured-pending p made =
    if_elim (SamePending p) (need_ensure_servicesl p && not p.paused)
      (λ _. ensure_servicesl-pending p none made) (λ _. refl)

-- The group with one task more, and some number of effective tasks.
abbrev with_eff : ℕ → Entry → Entry
with_eff n e = record e { npendings_eff = n }

queued-IsServed :
    (i : ℕ) (e : Entry) (t : Task) (c : Container) (n : ℕ)
    → IsServed i e
    → t.gid ≡ i
    → HasGrown (λ t. t.gid ≡ i) t e.c c
    → IsContainer c
    → (e.receive_benifits ≡ false → e.paused ≡ false → IsLimited (with_eff n (queued c e)))
    → (e.receive_benifits ≡ false → e.paused ≡ true → n ≡ 0)
    → IsServed i (with_eff n (queued c e))
queued-IsServed i e t c n s g h k l d = record {
  named = s.named;
  counted = omega (arith, s.counted, h.0);
  exact = k;
  own = h.1 s.own g;
  shown = λ _. refl;
  limited = l;
  idle = d;
}

raised-IsLimited :
    (i : ℕ) (g : Gp) (e : Entry) (c : Container)
    → IsServed i e
    → e.npendings ≤ g.npendings
    → counts_more (record g { npendings = g.npendings + 1 }) (queued c e) ≡ true
    → e.receive_benifits ≡ false
    → e.paused ≡ false
    → IsLimited (eff_raised (queued c e))
raised-IsLimited i g e c s w h r p = ground (arith, s.limited r p)

kept-IsLimited :
    (i : ℕ) (g : Gp) (e : Entry) (c : Container)
    → IsServed i e
    → e.npendings ≤ g.npendings
    → counts_more (record g { npendings = g.npendings + 1 }) (queued c e) ≡ false
    → e.receive_benifits ≡ false
    → e.paused ≡ false
    → IsLimited (queued c e)
kept-IsLimited i g e c s w h r p = ground (arith, s.limited r p)

-- The task is linked, and the counters of the pool do not know of it yet.
abbrev linked : Gp → Entry → Container → Gp
linked g e c = record (on_entry e.id (queued c) g) { seq = g.seq + 1 }

module _ (g : Gp) (e : Entry) (t : Task) (c : Container) (found : get_elem? g.entry e.id ≡ some e)
    (mine : t.gid ≡ e.id) (grown : HasGrown (λ u. u.gid ≡ e.id) t e.c c) (exact : IsContainer c)
    (b : IsBalanced g) where
  served : IsServed e.id e
  served = b.served e.id e found

  paused-IsBalanced : e.paused ≡ true → IsBalanced (linked g e c)
  paused-IsBalanced p =
      store-IsBalanced g (linked g e c) e.id (queued c) e found refl
        (queued-IsServed e.id e t c e.npendings_eff served mine grown exact
          (λ r q. absurd (cc (sym p ∙ q))) served.idle)
        (ground arith) (ground arith) b

  enough : e.paused ≡ false → e.npendings ≤ g.npendings
  enough p = ground (arith, b.pending, sum-le weight e.id g.entry e found)

  raise-IsBalanced :
      (made : List (Option ℕ))
      → e.paused ≡ false
      → IsBalanced (raise_pending (linked g e c) (queued c e) made)
  unfolding raise_pending
  raise-IsBalanced made p =
      if_elim IsBalanced (counts_more g1 (queued c e))
        (λ h.
          store-IsBalanced g
            (record (on_entry e.id eff_raised g1) { core = ensured (pending_raised g1.core) made })
            e.id (λ x. eff_raised (queued c x)) e found
            (modify_at-modify_at e.id (queued c) eff_raised g.entry)
            (queued-IsServed e.id e t c _ served mine grown exact
              (raised-IsLimited e.id g e c served (enough p) h) (λ r q. absurd (cc (sym p ∙ q))))
            (ground arith) (ground (arith, ensured-pending (pending_raised g.core) made)) b)
        (λ h.
          store-IsBalanced g g1 e.id (queued c) e found refl
            (queued-IsServed e.id e t c e.npendings_eff served mine grown exact
              (kept-IsLimited e.id g e c served (enough p) h) (λ r q. absurd (cc (sym p ∙ q))))
            (ground arith) (ground arith) b)
    where
      g1 : Gp
      g1 = record (linked g e c) { npendings = g.npendings + 1 }

  consumer_notifyl-IsBalanced :
      (made : List (Option ℕ))
      → e.paused ≡ false
      → IsBalanced (consumer_notifyl (linked g e c) (queued c e) made)
  unfolding consumer_notifyl
  consumer_notifyl-IsBalanced made p =
      if_elim (λ (x : Gp). IsBalanced (record x { ntasks_peak = max x.ntasks_peak x.npendings }))
        ((queued c e).npendings == 1)
        (λ _. peaked (activel raised (queued c e)) (
          Kin-IsBalanced raised (activel raised (queued c e)) (activel-Kin raised (queued c e))
            (raise-IsBalanced made p)))
        (λ _. peaked raised (raise-IsBalanced made p))
    where
      raised : Gp
      raised = raise_pending (linked g e c) (queued c e) made

      peaked :
          (x : Gp)
          → IsBalanced x
          → IsBalanced (record x { ntasks_peak = max x.ntasks_peak x.npendings })
      peaked x b = record { pending = b.pending; counted = b.counted; served = b.served }

-- A task that joins its group is counted.
pub deliver-IsBalanced :
    (ndebug : Bool) (g : Gp) (e : Entry) (t : Task) (made : List (Option ℕ))
    → get_elem? g.entry e.id ≡ some e
    → IsOf e.id t
    → IsBalanced g
    → OnSome IsBalanced (deliver ndebug g e t made)
unfolding deliver pri_queuel
deliver-IsBalanced ndebug g e t made found o b =
    on_insert (priq_insert ndebug e.c (numbered g t))
      (priq_insert-HasGrown (λ u. u.gid ≡ e.id) ndebug e.c (numbered g t) served.exact o.1)
      (priq_insert-IsContainer ndebug e.c (numbered g t) served.exact)
  where
    served : IsServed e.id e
    served = b.served e.id e found

    told : Gp → Option Entry → Option Gp
    told g1 none = none
    told g1 (some e1) = some (if e1.paused then g1 else consumer_notifyl g1 e1 made)

    on_insert :
        (x : Option Container)
        → OnSome (HasGrown (λ u. u.gid ≡ e.id) (numbered g t) e.c) x
        → OnSome IsContainer x
        → OnSome IsBalanced
            (elim (elim x as (λ _. Option Gp) [ none ↦ none | some c ↦ some (linked g e c) ])
              as (λ _. Option Gp) [ none ↦ none | some g1 ↦ told g1 (get_elem? g1.entry e.id) ])
    on_insert none h k = tt
    on_insert (some c) h k =
        subst (λ y. OnSome IsBalanced (told (linked g e c) y))
          (sym (get_elem?-modify_at e.id (queued c) g.entry e found))
          (if_elim IsBalanced e.paused (paused-IsBalanced g e (numbered g t) c found o.0 h k b)
            (consumer_notifyl-IsBalanced g e (numbered g t) c found o.0 h k b made))
