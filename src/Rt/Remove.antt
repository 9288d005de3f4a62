-- ===== src/Rt/Remove.antt =====
-- All pending tasks are taken back at once: pool/rt/cpool_rt_internal.h and cpool_rt_mark_all of
-- pool/rt/cpool_rt_method.c.
use libstpool.Base.{
  ℕ, ◌+◌, List, [], ◌∷◌, ◌++◌, Bool, not, ◌||◌, ◌==◌, if◌then◌else◌, get_or, set, map,
}
use libstpool.Task.{Task, VmFlags, task_mark}
use libstpool.Priq.Defs.{Container}
use libstpool.Rt.Defs.{Rt}

-- The loop of __cpool_rt_priq_remove_all: each queue goes to the front of the list.
unfoldable pub remove_each : List ℕ → Container → List Task → List Task × Container
remove_each [] c rmq = (rmq, record c { ready_q = [] })
remove_each (i ∷ is) c rmq =
    remove_each is (record c { priq = set c.priq i [] }) (get_or c.priq i [] ++ rmq)

-- __cpool_rt_priq_remove_all on the container
unfoldable pub priq_remove_all : Container → List Task × Container
unfolding remove_each
priq_remove_all c = remove_each c.ready_q c []

-- __cpool_rt_remove_all and __cpool_rt_priq_remove_all: the removed tasks and the pool.
unfoldable pub remove_all : Rt → List Task × Rt
unfolding priq_remove_all
remove_all r =
    let core = record r.core { npendings = 0 } in
    if r.priority
    then ((priq_remove_all r.c).0, record r { core = core; c = (priq_remove_all r.c).1 })
    else (r.ready_q, record r { core = core; ready_q = [] })

-- The flags that a user may set: lflags & eTASK_VM_F_USER_FLAGS
abbrev pub no_user_flags : VmFlags → Bool
no_user_flags f = not (f.remove || (f.remove_bypool || (f.enable_queue || f.disable_queue)))

abbrev pub removes : VmFlags → Bool
removes f = f.remove || f.remove_bypool

-- __cpool_com_task_mark of each task: the tasks, and how many were changed.
unfoldable pub mark_each : VmFlags → List Task → List Task × ℕ
mark_each f [] = ([], 0)
mark_each f (t ∷ q) =
    let (rest, n) = mark_each f q in
    ((task_mark t f).0 ∷ rest, if (task_mark t f).1 then n + 1 else n)

unfoldable pub mark_queues : VmFlags → List ℕ → Container → Container × ℕ
unfolding mark_each
mark_queues f [] c = (c, 0)
mark_queues f (i ∷ is) c =
    let (q, n) = mark_each f (get_or c.priq i []) in
    let (c', m) = mark_queues f is (record c { priq = set c.priq i q }) in (c', n + m)

unfoldable pub mark_pending : Rt → VmFlags → Rt × ℕ
unfolding mark_queues
mark_pending r f =
    let (c, n) = mark_queues f r.c.ready_q r.c in
    let (q, m) = mark_each f r.ready_q in
    if r.priority then (record r { c = c }, n) else (record r { ready_q = q }, m)

-- The marks of a removed task
abbrev pub removed_mark : VmFlags → Task → Task
removed_mark f t =
    let out = record t {
      f_vmflags = record t.f_vmflags {
        remove = t.f_vmflags.remove || f.remove;
        remove_bypool = t.f_vmflags.remove_bypool || f.remove_bypool;
      };
    } in
    if f.enable_queue || f.disable_queue then (task_mark out f).0 else out

-- cpool_rt_mark_all up to the dispatching: its result, the removed tasks and the pool.
unfoldable pub mark_all : Rt → VmFlags → ℕ × List Task × Rt
unfolding remove_all mark_pending
mark_all r f =
    let (rmq, r') = remove_all r in
    let (marked, n) = mark_pending r f in
    if no_user_flags f || r.core.npendings == 0
    then (0, [], r)
    else if removes f
    then (r.core.npendings, map (removed_mark f) rmq, r')
    else (n, [], marked)
