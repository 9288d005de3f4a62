-- ===== src/Gp/Examples.antt =====
-- Concrete runs of a group pool (pool/gp/cpool_gp_method.c, pool/gp/cpool_gp_internal.h,
-- pool/gp/cpool_gp_advance_method.c): one group, which runs two tasks and has one pending.
use libstpool.Base.{
  ℕ, zero, suc, ◌≤◌, ◌<◌, ◌≡◌, ◌≢◌, refl, subst, inr, [], ◌∷◌, Option, none, some, true, false, not,
  arith, negsuc, pos, get_or, get_elem?, is_empty,
}
use libstpool.Cache.Defs.{empty_q, never, stack_lock}
use libstpool.Task.{Task, back, no_flags, no_stat}
use libstpool.Priq.Defs.{Container, nice_preprocess, priq_insert}
use libstpool.Priq.Ready.{IsContainer, has}
use libstpool.Core.Threads.{Env, init_thread}
use libstpool.Core.Pool.{Pool}
use libstpool.Gp.Defs.{Entry, Gp, inactivel}
use libstpool.Gp.Sched.{get_pending_task}
use libstpool.Gp.Ops.{QueueResult, accepted, task_queue}
use libstpool.Gp.Admin.{GroupResult, ok, entry_suspend, set_attrl}
use libstpool.Gp.Balance.{IsServed, some_inj}
use libstpool.Gp.Positions.{index_at}
use libstpool.Gp.Window.{actives, sleeps}
use libstpool.Gp.Status.{readies}
use libstpool.Gp.Sound.{IsSound}
use libstpool.Gp.Pending.{IsGiven, get_pending_task-IsGiven}
use libstpool.Gp.Steps.{here, next, suspends, queues, GpRun-IsSound}
use libstpool.Gp.Stuck.{limited_to, set_attrl-stuck}

abbrev env : Env
env = record {
  ths = init_thread 1 ∷ init_thread 2 ∷ [];
  ths_waitq = [];
  n_qths = 2;
  n_qths_waked = 0;
  n_qths_wait = 0;
  nthreads_running = 2;
  nthreads_dying = 0;
  nthreads_dying_run = 0;
  nthreads_real_sleeping = 0;
  nthreads_real_pool = 2;
  nthreads_real_free = 0;
  nthreads_peak = 2;
  signalled = [];
  ref = 3;
  crttime = 0;
  now = 9;
}

abbrev core : Pool
core = record {
  env = env;
  maxthreads = 2;
  minthreads = 1;
  created = true;
  destroying = false;
  dynamic = false;
  paused = false;
  npendings = 1;
  n_qdispatchs = 0;
  limit_threads_create_per_time = 1;
  gc_thread = none;
  event_free_notified = false;
  cache_task = record {
    xq = empty_q;
    nlimit_cache = negsuc 0;
    need_destroy = never;
    lock = stack_lock;
  };
  events = [];
  ths_broadcasts = 0;
}

abbrev task : ℕ → Task
task id = record {
  id = id;
  has_err_handler = true;
  f_stat = no_stat;
  f_vmflags = no_flags;
  pri = 50;
  pri_policy = back;
  gid = 0;
  seq = id;
  priq = 0;
}

abbrev container : Container
container = record { priq_num = 1; priq = (task 1 ∷ []) ∷ []; avg_pri = 100; ready_q = 0 ∷ [] }

abbrev group : Entry
group = record {
  id = 0;
  index = 0;
  free = false;
  destroying = false;
  throttle = false;
  active = true;
  paused = false;
  receive_benifits = true;
  limit_paralle_tasks = pos 2;
  limit_tasks = 2;
  c = container;
  top = some (task 1);
  npendings = 1;
  npendings_eff = 1;
  nrunnings = 2;
  ndispatchings = 0;
  n_qtraces = 3;
  ntasks_processed = 0;
}

abbrev pool : Gp
pool = record {
  core = core;
  throttle_on = false;
  entry = group ∷ [];
  actentry = 0 ∷ [];
  active_idx = 1;
  nactives_ok = 1;
  seq = 1;
  n = 5;
  npendings = 1;
  ndispatchings = 0;
  n_qtraces = 3;
  ntasks_peak = 1;
  dispatch_q = [];
}

container-IsContainer : IsContainer container
container-IsContainer = record { sized = refl; falling = (tt, tt); exact = exact_at }
  where
    exact_at : (i : ℕ) → has i (0 ∷ []) ≡ not (is_empty (get_or container.priq i []))
    exact_at zero = refl
    exact_at (suc i) = ground arith

group-IsServed : IsServed 0 group
group-IsServed = record {
  named = refl;
  counted = refl;
  exact = container-IsContainer;
  own = ((refl, tt), tt);
  shown = λ _. refl;
  limited = λ h. cc;
  idle = λ h. cc;
}

pool-IsSound : IsSound pool
pool-IsSound = record {
  balanced = record { pending = refl; counted = refl; served = served };
  window = (
    record {
      placed = record {
        sized = refl;
        inside = λ p h. at_zero (λ q. get_or (0 ∷ []) q 0 < 1) p h (omega arith);
        back = λ p h. at_zero (λ q. index_at (group ∷ []) (get_or (0 ∷ []) q 0) ≡ q) p h refl;
        indexed = λ k h. at_zero (λ q. index_at (group ∷ []) q < 1) k h (omega arith);
        there = λ k h. at_zero (λ q. get_or (0 ∷ []) (index_at (group ∷ []) q) 0 ≡ q) k h refl;
      };
      small = omega arith;
      within = λ k h _. at_zero (λ q. index_at (group ∷ []) q < 1) k h (omega arith);
      counted = refl;
    },
    awake,
  );
  status = status;
}
  where
    at_zero : (P : ℕ → Type 0) (k : ℕ) → k < 1 → P 0 → P k
    at_zero P zero h p = p
    at_zero P (suc k) h p = absurd (omega (arith, h))

    served : (i : ℕ) (e : Entry) → get_elem? (group ∷ []) i ≡ some e → IsServed i e
    served zero e h = subst (IsServed 0) (some_inj h) group-IsServed
    served (suc i) e h = cc

    awake : (k : ℕ) → k < 1 → sleeps (group ∷ []) k ≡ true → 1 ≤ index_at (group ∷ []) k
    awake zero h e = cc
    awake (suc k) h e = absurd (omega (arith, h))

    status : (k : ℕ) → actives (group ∷ []) k ≡ readies (group ∷ []) k
    status zero = refl
    status (suc k) = refl

others_idle :
    (i : ℕ) (x : Entry)
    → get_elem? (group ∷ []) i ≡ some x
    → i ≢ 0
    → x.paused ≡ false
    → x.npendings ≡ 0
others_idle zero x h n u = absurd (n refl)
others_idle (suc i) x h n u = cc

-- The limit of the group goes down to the one that receives no benefits.
set_attrl-stuck_example :
    get_pending_task 9 true (set_attrl pool group (some (limited_to 1))) ≡ none
set_attrl-stuck_example =
    set_attrl-stuck pool group 1 pool-IsSound refl refl (omega arith) (omega arith) (omega arith)
      (omega arith) others_idle 9

get_pending_task-IsGiven_example :
    (t : Task) × ((g : Gp) × (get_pending_task 2 true pool ≡ some (some t, g)) × IsGiven pool t g)
get_pending_task-IsGiven_example = get_pending_task-IsGiven 0 pool pool-IsSound (omega arith)

abbrev state_of : Option (GroupResult × Gp) → Gp
state_of none = pool
state_of (some x) = x.1

abbrev queued_of : Option (QueueResult × Task × Gp) → Gp
queued_of none = pool
queued_of (some x) = x.2

abbrev suspended : Gp
suspended = state_of (entry_suspend pool 0)

abbrev queued_too : Gp
queued_too = queued_of (task_queue true suspended (task 2) [])

group_is_suspended : entry_suspend pool 0 ≡ some (ok, suspended)
unfolding entry_suspend
group_is_suspended = refl

task_is_queued :
    task_queue true suspended (task 2) []
    ≡ some (accepted, record (task 2) { f_stat = record no_stat { waiting = true } }, queued_too)
unfolding entry_suspend task_queue inactivel nice_preprocess priq_insert
task_is_queued = refl

-- The group is suspended, and a task is queued to it.
GpRun-IsSound_example : IsSound queued_too
GpRun-IsSound_example = GpRun-IsSound true pool queued_too pool-IsSound (
    next (next here (suspends 0 _ group_is_suspended))
      (queues (task 2) _ [] accepted (inr refl) task_is_queued))
