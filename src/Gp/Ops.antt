-- ===== src/Gp/Ops.antt =====
-- The operations of a group pool on its tasks: pool/gp/cpool_gp_method.c and
-- pool/gp/cpool_gp_core_method.c.
use libstpool.Base.{
  ℕ, ◌+◌, ◌-◌, List, Option, none, some, Bool, true, false, not, ◌&&◌, ◌||◌, ltb, leb, ◌==◌,
  if◌then◌else◌, take, drop, length, get_elem?,
}
use libstpool.Cache.Defs.{smcache_addl_dir}
use libstpool.Task.{Task, no_stat, is_zero_stat, nice_adjust}
use libstpool.Priq.Defs.{nice_preprocess}
use libstpool.Core.Threads.{Thread, run, complete, TaskType, normal, dispatched, find}
use libstpool.Core.Pool.{Pool, Event}
use libstpool.Core.Status.{store, status_changel}
use libstpool.Rt.Defs.{Got, got_none, got_task, got_dispatched}
use libstpool.Gp.Defs.{Entry, Gp, is_gone, on_entry}
use libstpool.Gp.Sched.{pri_queuel, consumer_notifyl, get_pending_task}

-- Of the events that cpool_gp_core_notifyl handles, status_changel sends none.
abbrev pub ignores : Event → Pool → Pool
ignores event p = p

-- The results of cpool_gp_task_queue
pub data QueueResult : Type 0 where
  accepted err_destroying err_group_not_found err_disable_queue err_throttle err_group_throttle :
      QueueResult

-- The tests of cpool_gp_task_queue on the task and the pool, and those on the group
abbrev pub refusal : Gp → Task → QueueResult
refusal g t =
    if t.f_vmflags.disable_queue
    then err_disable_queue
    else if g.throttle_on
    then err_throttle
    else accepted

abbrev pub group_refusal : Entry → QueueResult
group_refusal e =
    if is_gone e then err_group_not_found else if e.throttle then err_group_throttle else accepted

abbrev pub traced : Entry → Entry
traced e = record e { n_qtraces = e.n_qtraces + 1 }

-- The task is queued and, where the group is not paused, the Core hears of it.
unfoldable pub deliver : Bool → Gp → Entry → Task → List (Option ℕ) → Option Gp
unfolding pri_queuel consumer_notifyl
deliver ndebug g e t made = elim (pri_queuel ndebug g e t) [
  | none ↦ none
  | some g1 ↦ elim (get_elem? g1.entry e.id) [
    | none ↦ none
    | some e1 ↦ some (if e1.paused then g1 else consumer_notifyl g1 e1 made)
  ]
]

abbrev pub unflagged : Task → Task
unflagged t = record t { f_vmflags = record t.f_vmflags { remove = false; remove_bypool = false } }

-- A task that is not in progress joins the group; another one is to be queued again.
unfoldable pub queue_counted :
    Bool → Gp → Entry → Task → List (Option ℕ) → Option (QueueResult × Task × Gp)
unfolding deliver
queue_counted ndebug g e t made =
    let counted = record (on_entry e.id traced g) { n_qtraces = g.n_qtraces + 1 } in
    let again = record t { f_stat = record t.f_stat { wpending = true } } in
    let joined =
      elim (deliver ndebug counted (traced e) t made) as (λ _. Option (QueueResult × Task × Gp)) [
        | none ↦ none
        | some g' ↦ some (accepted, record t { f_stat = record no_stat { waiting = true } }, g')
      ] in
    if is_zero_stat t.f_stat then joined else some (accepted, again, g)

-- The part of cpool_gp_task_queue behind the tests of the pool
unfoldable pub queue_group :
    Bool → Gp → Option Entry → Task → List (Option ℕ) → Option (QueueResult × Task × Gp)
unfolding queue_counted
queue_group ndebug g none t made = none
queue_group ndebug g (some e) t made =
    let t1 = nice_preprocess e.c t in
    elim (group_refusal e) [ accepted ↦ queue_counted ndebug g e t1 made | err ↦ some (err, t1, g) ]

-- cpool_gp_task_queue; `none` stands for an assertion that fails, or for the read of a group
-- behind the array, which the test `gid > gpool->num` does not keep out.
unfoldable pub task_queue : Bool → Gp → Task → List (Option ℕ) → Option (QueueResult × Task × Gp)
unfolding queue_group
task_queue ndebug g t0 made =
    let t = unflagged t0 in
    let tested = elim (refusal g t) as (λ _. Option (QueueResult × Task × Gp)) [
      | accepted ↦ queue_group ndebug g (get_elem? g.entry t.gid) t made
      | err ↦ some (err, t, g)
    ] in
    if g.core.destroying
    then some (err_destroying, t, g)
    else if ltb (length g.entry) t.gid
    then some (err_group_not_found, t, g)
    else if t.f_stat.waiting || t.f_stat.wpending
    then some (accepted, t, g)
    else tested

-- __cpool_com_get_dispatch_taskl3: the tasks, and their number as it is returned.
unfoldable pub get_dispatch_taskl3 : Gp → ℕ → List Task × ℕ × Gp
get_dispatch_taskl3 g n =
    let nq = g.core.n_qdispatchs in
    if leb nq n
    then (g.dispatch_q, nq, record g { core = record g.core { n_qdispatchs = 0 } })
    else (
      take n g.dispatch_q,
      n,
      record g { core = record g.core { n_qdispatchs = nq - n }; dispatch_q = drop n g.dispatch_q },
    )

abbrev pub typed : TaskType → ℕ → Gp → Gp
typed k self g = record g {
  core = record g.core { env = store self (λ t. record t { task_type = k }) g.core.env };
}

unfoldable pub starts : Gp → ℕ → List (Option ℕ) → Gp
unfolding status_changel
starts g self made = record g { core = status_changel ignores g.core self run made }

abbrev pub running_raised : Entry → Entry
running_raised e = record e { nrunnings = e.nrunnings + 1 }

-- cpool_gp_core_gettask; `none` also stands for the store through NULL where the pool has counted
-- a task that no group may give.
unfoldable pub gettask : ℕ → Bool → Gp → ℕ → List (Option ℕ) → Option (Got × Gp)
unfolding get_dispatch_taskl3 starts get_pending_task
gettask fuel ndebug g0 self made =
    let g = typed normal self g0 in
    let (tasks, k, g1) = get_dispatch_taskl3 g g.n in
    let taken = starts (record g1 { ndispatchings = g1.ndispatchings + k }) self made in
    let got = elim (get_pending_task fuel ndebug g) as (λ _. Option (Got × Gp)) [
      | none ↦ none
      | some (none, g') ↦ none
      | some (some t, g') ↦ some (
        got_task (record t { f_stat = record no_stat { scheduling = true } }),
        starts (on_entry t.gid running_raised g') self made,
      )
    ] in
    if not (g.core.n_qdispatchs == 0)
    then some (got_dispatched tasks, typed dispatched self taken)
    else if g.core.paused || g.core.npendings == 0
    then some (got_none, g)
    else got

abbrev pub is_normal : Option Thread → Bool
is_normal none = false
is_normal (some t) = elim t.task_type [ normal ↦ true | _ ↦ false ]

-- The counters of a group where one of its tasks has run
abbrev pub ran : Entry → Entry
ran e = record e { nrunnings = e.nrunnings - 1 }

abbrev pub gains : Entry → Bool
gains e =
    not e.receive_benifits
    && (not e.paused
        && (ltb (e.npendings_eff + e.nrunnings) e.limit_tasks && ltb e.npendings_eff e.npendings))

abbrev pub eff_gained : Entry → Entry
eff_gained e = record e { npendings_eff = e.npendings_eff + 1 }

unfoldable pub after_run : Gp → Entry → Gp
after_run g e =
    let g1 = on_entry e.id ran g in
    if gains (ran e)
    then record (on_entry e.id eff_gained g1) {
      core = record g1.core { npendings = g1.core.npendings + 1 };
    }
    else g1

abbrev pub was_dispatched : Entry → Entry
was_dispatched e = record e { ndispatchings = e.ndispatchings - 1 }

abbrev pub untraced : Entry → Entry
untraced e = record e { n_qtraces = e.n_qtraces - 1; ntasks_processed = e.ntasks_processed + 1 }

-- The record of the task is given up; `unreferenced` says that nobody holds the task object.
abbrev pub forget : Bool → Gp → Entry → Task → Gp
forget unreferenced g e t =
    let g1 = record (on_entry e.id untraced g) { n_qtraces = g.n_qtraces - 1 } in
    if t.f_vmflags.cache && unreferenced
    then record g1 {
      core = record g1.core { cache_task = smcache_addl_dir g1.core.cache_task t.id };
    }
    else g1

abbrev pub completes : Gp → ℕ → List (Option ℕ) → Gp
completes g self made = record g { core = status_changel ignores g.core self complete made }

-- What cpool_gp_core_finished does to the counters, by the kind of the task
unfoldable pub settle : Gp → ℕ → Entry → Gp
unfolding after_run
settle g self e =
    if is_normal (find self g.core.env.ths)
    then after_run g e
    else record (on_entry e.id was_dispatched g) { ndispatchings = g.ndispatchings - 1 }

-- The task object as cpool_gp_core_finished leaves it
abbrev pub released : Bool → Task → Task
released unreferenced t =
    if t.f_vmflags.cache && unreferenced then t else record t { f_stat = no_stat }

-- Its last part, where the task is to be queued again
unfoldable pub requeue : Bool → Gp → Option Entry → Task → List (Option ℕ) → Option (Task × Gp)
unfolding deliver
requeue ndebug g none t made = none
requeue ndebug g (some e) t made = elim (deliver ndebug g e t made) [
  | none ↦ none
  | some g' ↦ some (record t { f_stat = record no_stat { waiting = true } }, g')
]

-- cpool_gp_core_finished, where the task was not detached; `last` says that the dispatch queue of
-- the thread is empty.
unfoldable pub finished : Bool → Gp → ℕ → Task → Bool → Bool → List (Option ℕ) → Option (Task × Gp)
unfolding settle requeue
finished ndebug g self t0 unreferenced last made =
    let t = nice_adjust t0 in
    elim (get_elem? g.entry t.gid) [
      | none ↦ none
      | some e ↦
          let g1 = settle g self e in
          let g2 = if t.f_stat.wpending then g1 else forget unreferenced g1 e t in
          let g3 = if last then completes g2 self made else g2 in
          let queued = requeue ndebug g3 (get_elem? g3.entry t.gid) t made in
          if t.f_stat.wpending then queued else some (released unreferenced t, g3)
    ]
