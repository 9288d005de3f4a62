-- ===== src/Rt/Defs.antt =====
-- Queueing and getting tasks: pool/rt/cpool_rt_struct.h, pool/rt/cpool_rt_method.c,
-- pool/rt/cpool_rt_core_method.c, and the dispatching of pool/com/cpool_com_internal.h.
use libstpool.Base.{
  ℕ, ◌+◌, ◌-◌, List, [], ◌∷◌, ◌++◌, Option, none, some, Bool, true, false, not, ◌&&◌, ◌||◌, ◌==◌,
  leb, if◌then◌else◌, take, drop, pos, length,
}
use libstpool.Task.{Task, no_stat, is_zero_stat}
use libstpool.Priq.Defs.{Container, priq_insert, priq_pop, nice_preprocess}
use libstpool.Core.Threads.{run, TaskType, normal, dispatched}
use libstpool.Core.Wakeup.{wakeup_n_sleeping_threadsl}
use libstpool.Core.Pool.{Pool, Event, event_thread, event_core_resume, need_ensure_servicesl}
use libstpool.Core.Services.{ensure_servicesl}
use libstpool.Core.Status.{store, status_changel}

-- struct cpool_rt. `priority` is eFUNC_F_PRIORITY of `lflags`, and eFUNC_F_DYNAMIC_THREADS is the
-- flag `dynamic` of the Core; `dispatch_q` is the queue of the Core.
pub record Rt : Type 0 where
  pub core : Pool
  pub priority : Bool
  pub throttle_on : Bool
  pub c : Container
  pub ready_q : List Task
  pub n : ℕ
  pub dispatch_q : List Task

-- The result of cpool_rt_task_queue
pub data QueueResult : Type 0 where
  accepted err_destroying err_disable_queue err_throttle : QueueResult

-- What a thread gets: nothing, a task to run, or tasks of which to run the error handlers.
pub data Got : Type 0 where
  got_none : Got
  got_task : Task → Got
  got_dispatched : List Task → Got

-- What cpool_rt_core_notifyl does to the Core. The events of a pool that is idle, is destroyed or
-- is shut down concern its waiters and its queues.
unfoldable pub core_notifyl : Event → Pool → Pool
core_notifyl event_thread p = if p.dynamic then p else record p { minthreads = p.maxthreads }
core_notifyl event_core_resume p =
    if not p.dynamic && not (p.npendings == 0)
    then record p { env = wakeup_n_sleeping_threadsl p.env (pos p.npendings) }
    else p
core_notifyl _ p = p

-- The assertion that __cpool_rt_task_queue_preprocess starts with
abbrev pub may_preprocess : Task → Bool
may_preprocess t = t.f_vmflags.cache && (is_zero_stat t.f_stat || t.f_stat.scheduling)

-- What __cpool_rt_task_queue_preprocess does where its assertions hold.
unfoldable pub preprocessed : Rt → Task → QueueResult × Task
preprocessed r t =
    let t' = record t {
      f_vmflags = record t.f_vmflags { remove = false; remove_bypool = false };
    } in
    let marked = record t' {
      f_stat =
          if is_zero_stat t'.f_stat
          then record no_stat { waiting = true }
          else record t'.f_stat { wpending = true };
    } in
    if r.core.destroying
    then (err_destroying, t')
    else if t'.f_vmflags.disable_queue
    then (err_disable_queue, t')
    else if r.throttle_on
    then (err_throttle, t')
    else (accepted, if r.c.priq_num == 0 then marked else nice_preprocess r.c marked)

abbrev pub is_accepted : QueueResult → Bool
is_accepted accepted = true
is_accepted _ = false

-- __cpool_rt_task_queue_preprocess. Its second assertion, that a pool with classes of priorities
-- has the flag for priorities, is reached where the task is accepted.
unfoldable pub queue_preprocess : Bool → Rt → Task → Option (QueueResult × Task)
unfolding preprocessed
queue_preprocess ndebug r t =
    let (e, t') = preprocessed r t in
    let classes = not (is_accepted e) || (r.c.priq_num == 0 || r.priority) in
    if ndebug || (may_preprocess t && classes) then some (e, t') else none

-- The task is linked; `none` stands for an assertion that fails.
unfoldable pub link_task : Bool → Rt → Task → Option Rt
link_task ndebug r t =
    let core = record r.core { npendings = r.core.npendings + 1 } in
    if r.priority
    then elim (priq_insert ndebug r.c t) [
      | none ↦ none
      | some c ↦ some (record r { core = core; c = c })
    ]
    else some (record r { core = core; ready_q = r.ready_q ++ t ∷ [] })

-- The Core is told that there is a task.
unfoldable pub notify_core : Rt → List (Option ℕ) → Rt
unfolding need_ensure_servicesl
notify_core r made =
    let p = r.core in
    if p.dynamic
    then (if need_ensure_servicesl p && not p.paused
        then record r { core = ensure_servicesl p none made }
        else r)
    else if not (p.env.n_qths_wait == 0) && not p.paused
    then record r { core = record p { env = wakeup_n_sleeping_threadsl p.env (pos 1) } }
    else r

-- The critical section of cpool_rt_task_queue, for a task that is not in progress
unfoldable pub queue_linked : Bool → Rt → Task → List (Option ℕ) → Option (QueueResult × Task × Rt)
unfolding link_task notify_core
queue_linked ndebug r t made = elim (link_task ndebug r t) [
  | none ↦ none
  | some r' ↦ some (accepted, t, notify_core r' made)
]

-- The assertion that cpool_rt_task_queue starts with
abbrev pub may_queue : Task → Bool
may_queue t =
    t.f_vmflags.cache && (is_zero_stat t.f_stat || (t.f_stat.waiting || t.f_stat.scheduling))

-- cpool_rt_task_queue: the result, the task and the pool.
unfoldable pub task_queue : Bool → Rt → Task → List (Option ℕ) → Option (QueueResult × Task × Rt)
unfolding queue_preprocess queue_linked
task_queue ndebug r t made =
    let progress = not (is_zero_stat t.f_stat) in
    if not (ndebug || may_queue t)
    then none
    else if progress && (t.f_stat.waiting || t.f_stat.wpending)
    then some (accepted, t, r)
    else elim (queue_preprocess ndebug r t) [
      | none ↦ none
      | some (e, t') ↦
          if not (is_accepted e)
          then some (e, record t' { f_stat = t.f_stat }, r)
          else if progress
          then some (accepted, t', r)
          else queue_linked ndebug r t' made
    ]

-- __cpool_com_get_dispatch_taskl. Where all tasks are taken, __list_splice leaves the head of the
-- queue as it was.
unfoldable pub get_dispatch_taskl : Rt → List Task × Rt
get_dispatch_taskl r =
    let nq = r.core.n_qdispatchs in
    if leb nq r.n then (r.dispatch_q, record r { core = record r.core { n_qdispatchs = 0 } }) else (
      take r.n r.dispatch_q,
      record r {
        core = record r.core { n_qdispatchs = nq - r.n };
        dispatch_q = drop r.n r.dispatch_q;
      },
    )

-- How __cpool_rt_task_dispatch and cpool_rt_core_notifyl give removed tasks to the threads:
-- list_splice puts them before what the head of the queue points to.
abbrev pub splice_removed : List Task → Rt → Rt
splice_removed rmq r = record r {
  core = record r.core { n_qdispatchs = r.core.n_qdispatchs + length rmq };
  dispatch_q = rmq ++ r.dispatch_q;
}

-- Where the threads are dynamic, the Core hears that the thread is to run.
unfoldable pub starts : Rt → ℕ → List (Option ℕ) → Rt
unfolding status_changel
starts r self made =
    if r.core.dynamic
    then record r { core = status_changel core_notifyl r.core self run made }
    else r

-- The type of the task is stored in the thread.
unfoldable pub sets_type : TaskType → ℕ → Rt → Rt
sets_type k self r = record r {
  core = record r.core { env = store self (λ t. record t { task_type = k }) r.core.env };
}

unfoldable pub pop_task : Bool → Rt → Option (Task × Rt)
pop_task ndebug r =
    let core = record r.core { npendings = r.core.npendings - 1 } in
    if r.priority
    then elim (priq_pop ndebug r.c) [
      | none ↦ none
      | some (t, c) ↦ some (t, record r { core = core; c = c })
    ]
    else elim r.ready_q [
      | [] ↦ none
      | t ∷ rest ↦ some (t, record r { core = core; ready_q = rest })
    ]

-- cpool_rt_core_gettask and cpool_rt_core_pri_gettask, and the two for dynamic threads.
unfoldable pub gettask : Bool → Rt → ℕ → List (Option ℕ) → Option (Got × Rt)
unfolding get_dispatch_taskl starts sets_type pop_task
gettask ndebug r self made =
    let (tasks, r') = get_dispatch_taskl r in
    if not (r.core.n_qdispatchs == 0)
    then some (got_dispatched tasks, sets_type dispatched self (starts r' self made))
    else if r.core.paused || r.core.npendings == 0
    then some (got_none, r)
    else elim (pop_task ndebug r) [
      | none ↦ none
      | some (t, s) ↦ some (
        got_task (record t { f_stat = record no_stat { scheduling = true } }),
        sets_type normal self (starts s self made),
      )
    ]
