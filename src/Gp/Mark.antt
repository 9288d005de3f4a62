-- ===== src/Gp/Mark.antt =====
-- Marking and detaching a task: cpool_gp_task_mark and cpool_gp_task_detach of
-- pool/gp/cpool_gp_method.c.
use libstpool.Base.{
  ℕ, ◌-◌, List, [], Option, none, some, Bool, true, false, not, ◌&&◌, ◌||◌, if◌then◌else◌,
  get_elem?,
}
use libstpool.Task.{Task, VmFlags, no_stat, task_mark, nice_adjust}
use libstpool.Rt.Remove.{no_user_flags, removes}
use libstpool.Gp.Defs.{Entry, Gp, on_entry}
use libstpool.Gp.Ops.{was_dispatched, untraced, settle, completes, released}
use libstpool.Gp.Admin.{serve_if_needed}
use libstpool.Gp.Remove.{removel, task_remove}

abbrev with_removal : VmFlags → Task → Task
with_removal f t = record t {
  f_vmflags = record t.f_vmflags {
    remove = t.f_vmflags.remove || f.remove;
    remove_bypool = t.f_vmflags.remove_bypool || f.remove_bypool;
  };
}

-- A waiting task is taken from its group and marked.
unfoldable pub take_back :
    Bool
    → Bool
    → List (Option ℕ)
    → Gp
    → Task
    → VmFlags
    → Option Entry
    → Option (Task × List Task × Gp)
unfolding removel task_mark
take_back bypool unreferenced made g t f none = none
take_back bypool unreferenced made g t f (some e) =
    let (rmq, g1) = removel bypool unreferenced g e t in
    let gone =
      if t.has_err_handler
      then record t { f_stat = record no_stat { dispatching = true } }
      else released unreferenced t in
    some
      ((task_mark (with_removal f gone) f).0, rmq, (if bypool then serve_if_needed made g1 else g1))

abbrev of_removal : Option (Bool × Task × List Task × Gp) → Option (Task × List Task × Gp)
of_removal none = none
of_removal (some (ok, t, rmq, g)) = some (t, rmq, g)

-- cpool_gp_task_mark, up to the dispatching
unfoldable pub gp_task_mark :
    Gp → Task → VmFlags → Bool → List (Option ℕ) → Option (Task × List Task × Gp)
unfolding take_back task_remove
gp_task_mark g t f unreferenced made =
    let bypool = f.remove_bypool && t.has_err_handler in
    let only = of_removal (task_remove g t f.remove_bypool unreferenced made) in
    let unmarked = record t { f_stat = record t.f_stat { wpending = false } } in
    let taken = take_back bypool unreferenced made g t f (get_elem? g.entry t.gid) in
    if no_user_flags f
    then some (t, [], g)
    else if not (f.enable_queue || f.disable_queue)
    then only
    else if removes f && t.f_stat.wpending
    then some ((task_mark unmarked f).0, [], g)
    else if removes f && t.f_stat.waiting
    then taken
    else some ((task_mark t f).0, [], g)

-- The record of the task is given up.
abbrev pub given_up : Gp → Entry → Gp
given_up g e = record (on_entry e.id untraced g) { n_qtraces = g.n_qtraces - 1 }

abbrev pub handled : Gp → Entry → Gp
handled g e = record (on_entry e.id was_dispatched g) { ndispatchings = g.ndispatchings - 1 }

-- The counters, by the thread that serves the task, if there is one
unfoldable pub detached_from : Gp → Entry → Option ℕ → Bool → List (Option ℕ) → Gp
unfolding settle
detached_from g e none last made = handled g e
detached_from g e (some self) last made =
    let g1 = settle g self e in if last then completes g1 self made else g1

-- cpool_gp_task_detach, up to the wait for those that wait for the task. A task with the flag CACHE
-- is left alone, so that no object goes to the cache here.
unfoldable pub task_detach :
    Bool → Gp → Task → Option ℕ → Bool → List (Option ℕ) → Option (Task × Gp)
unfolding detached_from
task_detach ndebug g t self last made =
    let detached = elim (get_elem? g.entry t.gid) as (λ _. Option (Task × Gp)) [
      | none ↦ none
      | some e ↦ some (
        record (nice_adjust t) { f_stat = no_stat },
        detached_from (given_up g e) (untraced e) self last made,
      )
    ] in
    if not (t.f_stat.dispatching || t.f_stat.scheduling)
    then (if ndebug then some (t, g) else none)
    else if t.f_vmflags.cache
    then some (t, g)
    else detached
