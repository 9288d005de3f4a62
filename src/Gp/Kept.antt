-- ===== src/Gp/Kept.antt =====
-- The window and the marks of pool/gp/cpool_gp_entry.h where a task joins its group, where a thread
-- takes one, and where a group is changed.
use libstpool.Base.{
  ℕ, zero, suc, ◌+◌, ◌<◌, ◌≡◌, ◌≢◌, refl, sym, ap, ◌∙◌, subst, List, [], ◌∷◌, Option, none, some,
  Bool, arith, if◌then◌else◌, if_elim, OnSome, length, get_elem?, modify_at,
}
use libstpool.Task.{Task}
use libstpool.Priq.Defs.{Container, priq_insert}
use libstpool.Gp.Defs.{Entry, Gp, on_entry, flag_at}
use libstpool.Gp.Sched.{numbered, queued, pri_queuel, consumer_notifyl}
use libstpool.Gp.Ops.{deliver}
use libstpool.Gp.Balance.{get_elem?-modify_at}
use libstpool.Gp.Positions.{flag_at-modify_at}
use libstpool.Gp.Window.{actives, is_ready}
use libstpool.Gp.Activate.{IsOpen}
use libstpool.Gp.Status.{readies, IsStatus, keep-IsOpen}
use libstpool.Gp.Sound.{found-lt, found-flag, Opens, consumer_notifyl-Opens}

pub flag_at-other :
    (q : Entry → Bool) (es : List Entry) (i k : ℕ) (f : Entry → Entry)
    → k ≢ i
    → flag_at q (modify_at i f es) k ≡ flag_at q es k
flag_at-other q [] i k f n = refl
flag_at-other q (x ∷ es) zero zero f n = absurd (n refl)
flag_at-other q (x ∷ es) zero (suc k) f n = refl
flag_at-other q (x ∷ es) (suc i) zero f n = refl
flag_at-other q (x ∷ es) (suc i) (suc k) f n = flag_at-other q es i k f (λ h. n (ap suc h))

pub flag_at-here :
    (q : Entry → Bool) (es : List Entry) (i : ℕ) (f : Entry → Entry) (e : Entry)
    → get_elem? es i ≡ some e
    → flag_at q (modify_at i f es) i ≡ q (f e)
flag_at-here q es i f e h = found-flag q (modify_at i f es) i (f e) (get_elem?-modify_at i f es e h)

-- A store to a group whose mark is right afterwards
pub store-IsStatus :
    (es : List Entry) (i : ℕ) (f : Entry → Entry) (e : Entry)
    → get_elem? es i ≡ some e
    → (f e).active ≡ is_ready (f e)
    → IsStatus es
    → IsStatus (modify_at i f es)
store-IsStatus es i f e h r s k = ground (
  arith,
  flag_at-here (λ x. x.active) es i f e h,
  flag_at-here is_ready es i f e h,
  flag_at-other (λ x. x.active) es i k f,
  flag_at-other is_ready es i k f,
  s k,
)

pub found-status :
    (es : List Entry) (i : ℕ) (e : Entry)
    → get_elem? es i ≡ some e
    → IsStatus es
    → e.active ≡ is_ready e
found-status es i e h s =
    sym (found-flag (λ x. x.active) es i e h) ∙ s i ∙ found-flag is_ready es i e h

pub found-in :
    (g : Gp) (i : ℕ) (e : Entry) → get_elem? g.entry i ≡ some e → IsOpen g → i < length g.actentry
found-in g i e h o = omega (arith, found-lt g.entry i e h, o.0.placed.sized)

-- A store that keeps the place, the mark and the pause of a group, and whether it has tasks
pub keep-Opens :
    (g : Gp) (i : ℕ) (f : Entry → Entry)
    → ((e : Entry) → (f e).index ≡ e.index)
    → ((e : Entry) → (f e).active ≡ e.active)
    → ((e : Entry) → (f e).paused ≡ e.paused)
    → ((e : Entry) → (f e).npendings ≡ e.npendings)
    → Opens g
    → Opens (on_entry i f g)
keep-Opens g i f x a s n o = (
  keep-IsOpen g i f x a s o.0,
  λ k.
      flag_at-modify_at (λ e. e.active) g.entry i k f a
      ∙ o.1 k
      ∙ sym (flag_at-modify_at is_ready g.entry i k f (λ e. ground (arith, s e, n e))),
)

pub deliver-Opens :
    (ndebug : Bool) (g : Gp) (e : Entry) (t : Task) (made : List (Option ℕ))
    → get_elem? g.entry e.id ≡ some e
    → Opens g
    → OnSome Opens (deliver ndebug g e t made)
unfolding deliver pri_queuel
deliver-Opens ndebug g e t made found o = on_insert (priq_insert ndebug e.c (numbered g t))
  where
    mark : e.active ≡ is_ready e
    mark = found-status g.entry e.id e found o.1

    told : Gp → Option Entry → Option Gp
    told g1 none = none
    told g1 (some e1) = some (if e1.paused then g1 else consumer_notifyl g1 e1 made)

    linked : Container → Gp
    linked c = record (on_entry e.id (queued c) g) { seq = g.seq + 1 }

    linked-IsOpen : (c : Container) → IsOpen (linked c)
    linked-IsOpen c = keep-IsOpen g e.id (queued c) (λ x. refl) (λ x. refl) (λ x. refl) o.0

    others :
        (c : Container) (k : ℕ) → k ≢ e.id → actives (linked c).entry k ≡ readies (linked c).entry k
    others c k n =
        flag_at-other (λ x. x.active) g.entry e.id k (queued c) n
        ∙ o.1 k
        ∙ sym (flag_at-other is_ready g.entry e.id k (queued c) n)

    on_insert :
        (x : Option Container)
        → OnSome Opens
            (elim (elim x as (λ _. Option Gp) [ none ↦ none | some c ↦ some (linked c) ])
              as (λ _. Option Gp) [ none ↦ none | some g1 ↦ told g1 (get_elem? g1.entry e.id) ])
    on_insert none = tt
    on_insert (some c) =
        let there = get_elem?-modify_at e.id (queued c) g.entry e found in
        subst (λ y. OnSome Opens (told (linked c) y)) (sym there)
          (if_elim Opens e.paused
            (λ p. (
              linked-IsOpen c,
              store-IsStatus g.entry e.id (queued c) e found (ground (arith, mark)) o.1,
            ))
            (λ p.
              consumer_notifyl-Opens (linked c) (queued c e) made (linked-IsOpen c) there
                (found-in g e.id e found o.0) p (omega arith) (ground (arith, mark)) (others c)))
