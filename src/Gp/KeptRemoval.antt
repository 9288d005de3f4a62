-- ===== src/Gp/KeptRemoval.antt =====
-- The window and the marks of pool/gp/cpool_gp_entry.h where a task is taken back.
use libstpool.Base.{
  ℕ, ◌-◌, ◌≤◌, ◌≡◌, ◌≢◌, refl, sym, ◌∙◌, List, some, Bool, true, false, not, ◌&&◌, ◌==◌, arith,
  if◌then◌else◌, if_elim, get_elem?,
}
use libstpool.Task.{Task}
use libstpool.Priq.Defs.{Container, priq_erase}
use libstpool.Gp.Defs.{Entry, Gp, on_entry, inactivel}
use libstpool.Gp.Ops.{untraced}
use libstpool.Gp.Admin.{core_counts}
use libstpool.Gp.Remove.{
  dispatches, removed_to, unqueued, loses, eff_lost, uncount, retopped, contains, removel,
}
use libstpool.Gp.Balance.{get_elem?-modify_at}
use libstpool.Gp.Window.{actives, is_ready}
use libstpool.Gp.Activate.{IsOpen}
use libstpool.Gp.Status.{readies, keep-IsOpen}
use libstpool.Gp.Sound.{found-flag, Opens}
use libstpool.Gp.Kept.{flag_at-other, store-IsStatus, found-status, keep-Opens}
use libstpool.Gp.KeptTask.{leaves-Opens, others_right}

-- A group that has lost a task: it leaves the active ones if that was its last one.
lost-Opens :
    (h : Gp) (e y : Entry)
    → get_elem? h.entry e.id ≡ some y
    → e.paused ≡ false
    → 1 ≤ e.npendings
    → y.active ≡ true
    → y.paused ≡ false
    → y.npendings ≡ e.npendings - 1
    → IsOpen h
    → ((k : ℕ) → k ≢ e.id → actives h.entry k ≡ readies h.entry k)
    → Opens (if e.npendings - 1 == 0 then inactivel h e else h)
lost-Opens h e y found up some_pending busy yp yn o others =
    if_elim Opens (e.npendings - 1 == 0)
      (λ z.
        leaves-Opens h e y o.0 found busy (yp ∙ sym up) (ground arith) (λ k l n q. o.1 k l q)
          others)
      (λ z. (
        o,
        λ k. ground (
          arith,
          found-flag is_ready h.entry e.id y found,
          found-flag (λ x. x.active) h.entry e.id y found,
          others k,
        ),
      ))

uncount-Opens :
    (g : Gp) (e z : Entry)
    → get_elem? g.entry e.id ≡ some z
    → z.paused ≡ e.paused
    → z.npendings ≡ e.npendings
    → 1 ≤ e.npendings
    → Opens g
    → Opens (uncount g e)
unfolding uncount
uncount-Opens g e z found zp zn some_pending o =
    if_elim Opens e.paused
      (λ p. (open1, store-IsStatus g.entry e.id unqueued z found (ground (arith, mark)) o.1))
      (λ p.
        if_elim Done (loses e)
          (λ _.
            lost-Opens g3 e (eff_lost (unqueued z))
              (get_elem?-modify_at e.id eff_lost g1.entry (unqueued z) there) p some_pending
              (ground (arith, mark)) (zp ∙ p) (ground arith)
              (keep-IsOpen g1 e.id eff_lost (λ x. refl) (λ x. refl) (λ x. refl) open1)
              (λ k n.
                flag_at-other (λ x. x.active) g1.entry e.id k eff_lost n
                ∙ others_right g.entry e.id unqueued k o.1 n
                ∙ sym (flag_at-other is_ready g1.entry e.id k eff_lost n)))
          (λ _.
            lost-Opens g2 e (unqueued z) there p some_pending (ground (arith, mark)) (zp ∙ p)
              (ground arith) open1 (λ k n. others_right g.entry e.id unqueued k o.1 n)))
  where
    mark : z.active ≡ is_ready z
    mark = found-status g.entry e.id z found o.1

    g1 : Gp
    g1 = on_entry e.id unqueued g

    g2 : Gp
    g2 = record g1 { npendings = g1.npendings - 1 }

    g3 : Gp
    g3 = core_counts (g2.core.npendings - 1) (on_entry e.id eff_lost g2)

    there : get_elem? g1.entry e.id ≡ some (unqueued z)
    there = get_elem?-modify_at e.id unqueued g.entry z found

    open1 : IsOpen g1
    open1 = keep-IsOpen g e.id unqueued (λ x. refl) (λ x. refl) (λ x. refl) o.0

    Done : Gp → Type 0
    Done h = Opens (if e.npendings - 1 == 0 then inactivel h e else h)

-- Where a removed task goes, the group of it is as before but for its records.
abbrev Moved : Entry → Gp → Gp → Type 0
Moved e g h =
    Opens h
    × ((z : Entry) × (get_elem? h.entry e.id ≡ some z)
        × (z.paused ≡ e.paused)
        × (z.npendings ≡ e.npendings))

removed_to-Moved :
    (p u : Bool) (g : Gp) (e z : Entry) (t : Task)
    → get_elem? g.entry e.id ≡ some z
    → z.paused ≡ e.paused
    → z.npendings ≡ e.npendings
    → Opens g
    → Moved e g (removed_to p u g e t).1
unfolding removed_to
removed_to-Moved p u g e z t found zp zn o =
    if_elim (λ (x : List Task × Gp). Moved e g x.1) (not t.has_err_handler)
      (λ _. if_elim (Moved e g) (t.f_vmflags.cache && u) (λ _. freed) (λ _. freed))
      (λ _. if_elim (λ (x : List Task × Gp). Moved e g x.1) p (λ _. handed) (λ _. handed))
  where
    freed : Moved e g (on_entry e.id untraced g)
    freed = (
      keep-Opens g e.id untraced (λ x. refl) (λ x. refl) (λ x. refl) (λ x. refl) o,
      (untraced z, get_elem?-modify_at e.id untraced g.entry z found, zp, zn),
    )

    handed : Moved e g (on_entry e.id dispatches g)
    handed = (
      keep-Opens g e.id dispatches (λ x. refl) (λ x. refl) (λ x. refl) (λ x. refl) o,
      (dispatches z, get_elem?-modify_at e.id dispatches g.entry z found, zp, zn),
    )

pub removel-Opens :
    (p u : Bool) (g : Gp) (e : Entry) (t : Task)
    → get_elem? g.entry e.id ≡ some e
    → 1 ≤ e.npendings
    → Opens g
    → Opens (removel p u g e t).1
unfolding removel
removel-Opens p u g e t found some_pending o =
    keep-Opens (uncount moved e) e.id (retopped c) (λ x. refl) (λ x. refl) (λ x. refl) (λ x. refl)
      (uncount-Opens moved e m.1.0 m.1.1 m.1.2 m.1.3 some_pending m.0)
  where
    c : Container
    c = priq_erase e.c t

    moved : Gp
    moved = (removed_to p u (on_entry e.id (contains c) g) e t).1

    m : Moved e (on_entry e.id (contains c) g) moved
    m =
        removed_to-Moved p u (on_entry e.id (contains c) g) e (contains c e) t
          (get_elem?-modify_at e.id (contains c) g.entry e found) refl refl
          (keep-Opens g e.id (contains c) (λ x. refl) (λ x. refl) (λ x. refl) (λ x. refl) o)
