-- ===== src/Gp/Tasks.antt =====
-- cpool_gp_task_queue of pool/gp/cpool_gp_method.c keeps a group pool sound.
use libstpool.Base.{
  ℕ, ◌+◌, ◌≡◌, refl, sym, ap, ◌∙◌, List, Option, none, some, Bool, true, ◌||◌, ltb, if_elim, OnSome,
  OnSome-zip, length, get_elem?,
}
use libstpool.Task.{Task, no_stat, is_zero_stat}
use libstpool.Priq.Defs.{Container, nice_preprocess}
use libstpool.Priq.Size.{IsNice}
use libstpool.Gp.Defs.{Entry, Gp, on_entry}
use libstpool.Gp.Ops.{
  QueueResult, accepted, refusal, group_refusal, traced, deliver, unflagged, queue_counted,
  queue_group, task_queue,
}
use libstpool.Gp.Balance.{IsServed, IsBalanced, get_elem?-modify_at, store-IsBalanced}
use libstpool.Gp.Queueing.{IsOf, deliver-IsBalanced}
use libstpool.Gp.Ruling.{recount}
use libstpool.Gp.Sound.{IsSound, Opens}
use libstpool.Gp.Kept.{keep-Opens, deliver-Opens}
use libstpool.Gp.Pending.{sound}

pub found-named :
    (g : Gp) (i : ℕ) (e : Entry)
    → IsSound g
    → get_elem? g.entry i ≡ some e
    → (e.id ≡ i) × (get_elem? g.entry e.id ≡ some e)
found-named g i e s h = let n = (s.balanced.served i e h).named in (n, ap (get_elem? g.entry) n ∙ h)

pub deliver-IsSound :
    (ndebug : Bool) (g : Gp) (e : Entry) (t : Task) (made : List (Option ℕ))
    → get_elem? g.entry e.id ≡ some e
    → IsOf e.id t
    → IsSound g
    → OnSome IsSound (deliver ndebug g e t made)
deliver-IsSound ndebug g e t made found o s =
    OnSome-zip IsBalanced Opens IsSound (deliver ndebug g e t made) sound
      (deliver-IsBalanced ndebug g e t made found o s.balanced)
      (deliver-Opens ndebug g e t made found (s.window, s.status))

-- A record of the task is made.
traced-IsSound :
    (g : Gp) (e : Entry)
    → get_elem? g.entry e.id ≡ some e
    → IsSound g
    → IsSound (record (on_entry e.id traced g) { n_qtraces = g.n_qtraces + 1 })
traced-IsSound g e found s =
    sound (record (on_entry e.id traced g) { n_qtraces = g.n_qtraces + 1 })
      (store-IsBalanced g (record (on_entry e.id traced g) { n_qtraces = g.n_qtraces + 1 }) e.id
        traced e found refl (recount e.id e (traced e) v refl refl refl refl v.limited v.idle) refl
        refl s.balanced)
      (keep-Opens g e.id traced (λ x. refl) (λ x. refl) (λ x. refl) (λ x. refl)
        (s.window, s.status))
  where
    v : IsServed e.id e
    v = s.balanced.served e.id e found

abbrev QueueEnds : Option (QueueResult × Task × Gp) → Type 0
QueueEnds = OnSome (λ x. IsSound x.2)

queue_counted-IsSound :
    (ndebug : Bool) (g : Gp) (e : Entry) (t : Task) (made : List (Option ℕ))
    → get_elem? g.entry e.id ≡ some e
    → IsOf e.id t
    → IsSound g
    → QueueEnds (queue_counted ndebug g e t made)
unfolding queue_counted
queue_counted-IsSound ndebug g e t made found o s =
    if_elim QueueEnds (is_zero_stat t.f_stat)
      (λ _. joined (deliver ndebug g1 (traced e) t made) (
        deliver-IsSound ndebug g1 (traced e) t made
          (get_elem?-modify_at e.id traced g.entry e found) o (traced-IsSound g e found s)))
      (λ _. s)
  where
    g1 : Gp
    g1 = record (on_entry e.id traced g) { n_qtraces = g.n_qtraces + 1 }

    joined :
        (o : Option Gp)
        → OnSome IsSound o
        → QueueEnds (elim o as (λ _. Option (QueueResult × Task × Gp)) [
          | none ↦ none
          | some g' ↦ some (accepted, record t { f_stat = record no_stat { waiting = true } }, g')
        ])
    joined none h = tt
    joined (some g') h = h

preprocess-IsOf : (i : ℕ) (c : Container) (t : Task) → IsOf i t → IsOf i (nice_preprocess c t)
unfolding nice_preprocess
preprocess-IsOf i c t o = if_elim (IsOf i) t.f_vmflags.adjpri (λ _. o) (λ _. o)

queue_group-IsSound :
    (ndebug : Bool) (g : Gp) (t : Task) (made : List (Option ℕ))
    → IsNice t
    → IsSound g
    → (o : Option Entry) → get_elem? g.entry t.gid ≡ o
    → QueueEnds (queue_group ndebug g o t made)
unfolding queue_group
queue_group-IsSound ndebug g t made n s none h = tt
queue_group-IsSound ndebug g t made n s (some e) h = on_refusal (group_refusal e)
  where
    named : (e.id ≡ t.gid) × (get_elem? g.entry e.id ≡ some e)
    named = found-named g t.gid e s h

    t1 : Task
    t1 = nice_preprocess e.c t

    on_refusal :
        (r : QueueResult)
        → QueueEnds (elim r as (λ _. Option (QueueResult × Task × Gp)) [
          | accepted ↦ queue_counted ndebug g e t1 made
          | err ↦ some (err, t1, g)
        ])
    on_refusal accepted =
        queue_counted-IsSound ndebug g e t1 made named.1
          (preprocess-IsOf e.id e.c t (sym named.0, n)) s
    on_refusal QueueResult.err_destroying = s
    on_refusal QueueResult.err_group_not_found = s
    on_refusal QueueResult.err_disable_queue = s
    on_refusal QueueResult.err_throttle = s
    on_refusal QueueResult.err_group_throttle = s

pub task_queue-IsSound :
    (ndebug : Bool) (g : Gp) (t : Task) (made : List (Option ℕ))
    → IsNice t
    → IsSound g
    → QueueEnds (task_queue ndebug g t made)
unfolding task_queue
task_queue-IsSound ndebug g t made n s =
    if_elim QueueEnds g.core.destroying (λ _. s)
      (λ _.
        if_elim QueueEnds (ltb (length g.entry) t.gid) (λ _. s)
          (λ _.
            if_elim QueueEnds (t.f_stat.waiting || t.f_stat.wpending) (λ _. s)
              (λ _. on_refusal (refusal g (unflagged t)))))
  where
    on_refusal :
        (r : QueueResult)
        → QueueEnds (elim r as (λ _. Option (QueueResult × Task × Gp)) [
          | accepted ↦ queue_group ndebug g (get_elem? g.entry t.gid) (unflagged t) made
          | err ↦ some (err, unflagged t, g)
        ])
    on_refusal accepted =
        queue_group-IsSound ndebug g (unflagged t) made n s (get_elem? g.entry t.gid) refl
    on_refusal QueueResult.err_destroying = s
    on_refusal QueueResult.err_group_not_found = s
    on_refusal QueueResult.err_disable_queue = s
    on_refusal QueueResult.err_throttle = s
    on_refusal QueueResult.err_group_throttle = s
