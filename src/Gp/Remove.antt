-- ===== src/Gp/Remove.antt =====
-- Taking a task back: __cpool_gp_task_removel of pool/gp/cpool_gp_internal.h and
-- cpool_gp_task_remove of pool/gp/cpool_gp_method.c.
use libstpool.Base.{
  ℕ, ◌+◌, ◌-◌, List, [], ◌∷◌, ◌++◌, Option, none, some, Bool, true, false, not, ◌&&◌, ◌||◌, ltb,
  ◌==◌, if◌then◌else◌, get_elem?,
}
use libstpool.Task.{Task, no_stat, is_zero_stat}
use libstpool.Priq.Defs.{Container, priq_erase}
use libstpool.Gp.Defs.{Entry, Gp, on_entry, inactivel}
use libstpool.Priq.Top.{priq_top, priq_empty}
use libstpool.Gp.Ops.{forget, released}
use libstpool.Gp.Admin.{core_counts, serve_if_needed}

abbrev pub dispatches : Entry → Entry
dispatches e = record e { ndispatchings = e.ndispatchings + 1 }

-- Where a removed task goes: it is released, the pool dispatches it, or the caller does.
unfoldable pub removed_to : Bool → Bool → Gp → Entry → Task → List Task × Gp
removed_to bypool unreferenced g e t =
    let out = record t { f_stat = record no_stat { dispatching = true } } in
    let g1 = on_entry e.id dispatches g in
    if not t.has_err_handler
    then ([], forget unreferenced g e t)
    else if bypool
    then (
      [],
      record g1 {
        core = record g1.core { n_qdispatchs = g1.core.n_qdispatchs + 1 };
        dispatch_q = g1.dispatch_q ++ out ∷ [];
      },
    )
    else (out ∷ [], record g1 { ndispatchings = g1.ndispatchings + 1 })

-- The group has one pending task less.
abbrev pub unqueued : Entry → Entry
unqueued e = record e { npendings = e.npendings - 1 }

abbrev pub loses : Entry → Bool
loses e = e.receive_benifits || ltb (e.npendings - 1) e.npendings_eff

abbrev pub eff_lost : Entry → Entry
eff_lost e = record e {
  npendings_eff = if e.receive_benifits then e.npendings_eff else e.npendings_eff - 1;
}

-- The counters of the pending tasks, on the group as it is before the task is taken from it
unfoldable pub uncount : Gp → Entry → Gp
uncount g e =
    let g1 = on_entry e.id unqueued g in
    let g2 = record g1 { npendings = g1.npendings - 1 } in
    let g3 = core_counts (g2.core.npendings - 1) (on_entry e.id eff_lost g2) in
    let g4 = if loses e then g3 else g2 in
    if e.paused then g1 else if e.npendings - 1 == 0 then inactivel g4 e else g4

abbrev pub retopped : Container → Entry → Entry
retopped c e = record e { top = if priq_empty c then e.top else priq_top c }

abbrev pub contains : Container → Entry → Entry
contains c e = record e { c = c }

-- __cpool_gp_task_removel: the tasks that the caller is to dispatch, and the pool.
unfoldable pub removel : Bool → Bool → Gp → Entry → Task → List Task × Gp
unfolding removed_to uncount
removel bypool unreferenced g e t =
    let c = priq_erase e.c t in
    let (rmq, g1) = removed_to bypool unreferenced (on_entry e.id (contains c) g) e t in
    (rmq, on_entry e.id (retopped c) (uncount g1 e))

-- cpool_gp_task_remove, up to the dispatching: its result, the task, the tasks that the caller is
-- to dispatch, and the pool.
unfoldable pub task_remove :
    Gp → Task → Bool → Bool → List (Option ℕ) → Option (Bool × Task × List Task × Gp)
unfolding removel
task_remove g t dispatched_by_pool unreferenced made =
    let bypool = dispatched_by_pool && t.has_err_handler in
    let unmarked = record t { f_stat = record t.f_stat { wpending = false } } in
    let removed = elim (get_elem? g.entry t.gid) as (λ _. Option (Bool × Task × List Task × Gp)) [
      | none ↦ none
      | some e ↦
          let (rmq, g1) = removel bypool unreferenced g e t in
          let gone =
            if t.has_err_handler
            then record t { f_stat = record no_stat { dispatching = true } }
            else released unreferenced t in
          some (
            true,
            record gone {
              f_vmflags =
                  if dispatched_by_pool
                  then record gone.f_vmflags { remove_bypool = true }
                  else record gone.f_vmflags { remove = true };
            },
            rmq,
            (if bypool then serve_if_needed made g1 else g1),
          )
    ] in
    if is_zero_stat t.f_stat
    then some (false, t, [], g)
    else if t.f_stat.dispatching || t.f_stat.scheduling
    then some (true, t, [], g)
    else if t.f_stat.wpending
    then some (false, unmarked, [], g)
    else if t.f_stat.waiting
    then removed
    else some (false, t, [], g)
