-- ===== src/Rt/Finish.antt =====
-- A task has run: cpool_rt_core_finished of pool/rt/cpool_rt_core_method.c and its three variants, and
-- __cpool_rt_task_queue of pool/rt/cpool_rt_internal.h.
use libstpool.Base.{ℕ, List, Option, none, some, Bool, true, not, ◌&&◌, if◌then◌else◌}
use libstpool.Task.{Task, no_stat, nice_adjust}
use libstpool.Priq.Defs.{nice_preprocess}
use libstpool.Core.Threads.{complete}
use libstpool.Core.Pool.{need_ensure_servicesl}
use libstpool.Core.Services.{ensure_servicesl}
use libstpool.Core.Status.{status_changel}
use libstpool.Rt.Defs.{Rt, core_notifyl, link_task}

-- More threads are created or waked up for the task.
unfoldable pub ensures : Rt → List (Option ℕ) → Rt
ensures r made =
    if need_ensure_servicesl r.core && not r.core.paused
    then record r { core = ensure_servicesl r.core none made }
    else r

-- __cpool_rt_task_queue and __cpool_rt_pri_task_queue
unfoldable pub queue_again : Bool → Rt → Task → List (Option ℕ) → Option (Task × Rt)
unfolding link_task ensures
queue_again ndebug r t0 made =
    let t1 = record t0 { f_stat = record no_stat { waiting = true } } in
    let t = if r.priority then nice_preprocess r.c t1 else t1 in
    elim (link_task ndebug r t) [ none ↦ none | some r' ↦ some (t, ensures r' made) ]

-- Where the threads are dynamic, the Core hears that the thread has done its last task.
unfoldable pub completed : Rt → ℕ → Bool → List (Option ℕ) → Rt
unfolding status_changel
completed r self last made =
    if r.core.dynamic && last
    then record r { core = status_changel core_notifyl r.core self complete made }
    else r

-- cpool_rt_core_finished, cpool_rt_core_pri_finished, and the two for dynamic threads. `last` says
-- that the dispatch queue of the thread is empty; a task that is not queued again goes to the cache
-- of the thread.
unfoldable pub finished :
    Bool → Rt → ℕ → Task → Bool → List (Option ℕ) → List (Option ℕ) → Option (Task × Rt)
unfolding queue_again completed
finished ndebug r self t last made more =
    let r' = completed r self last made in
    let again = queue_again ndebug r' (if r.priority then nice_adjust t else t) more in
    if not t.f_stat.wpending then some (t, r') else again
