-- ===== src/Rt/Examples.antt =====
-- Tests and concrete runs of the runtime pool (pool/rt/cpool_rt_method.c,
-- pool/rt/cpool_rt_core_method.c).
use libstpool.Base.{
  List, Option, ℕ, zero, suc, not, is_empty, get_or, ◌≡◌, refl, [], ◌∷◌, none, some, true, false,
  arith, OnSome, map, negsuc,
}
use libstpool.Cache.Defs.{empty_q, never, stack_lock}
use libstpool.Task.{Task, back, no_flags, no_stat}
use libstpool.Core.Threads.{Thread, Env, run, init_thread}
use libstpool.Core.Census.{IsCensus}
use libstpool.Core.Pool.{Pool}
use libstpool.Core.Services.{adjust_abs_l}
use libstpool.Rt.Defs.{Rt, core_notifyl, get_dispatch_taskl, splice_removed, task_queue, gettask}
use libstpool.Rt.Fifo.{Returns}
use libstpool.Rt.Service.{queues, gets, finishes, marks, rt_run, IsFifo, rt_run-IsFifo, RtOp}
use libstpool.Rt.Dispatch.{IsTaken, get_dispatch_taskl-IsTaken, get_dispatch_taskl-again}
use libstpool.Rt.Refusal.{IsRefusal, task_queue-IsRefusal}
use libstpool.Priq.Defs.{Container}
use libstpool.Priq.Ready.{IsContainer, has}
use libstpool.Rt.Removal.{Serves, pop_all, pop_all-IsServing}
use libstpool.Rt.Finish.{finished}
use libstpool.Rt.Remove.{mark_all}
use libstpool.Rt.Notify.{adjust-static}

abbrev worker : Thread
worker = record (init_thread 1) { status = run }

abbrev env : Env
env = record {
  ths = worker ∷ [];
  ths_waitq = [];
  n_qths = 1;
  n_qths_waked = 0;
  n_qths_wait = 0;
  nthreads_running = 1;
  nthreads_dying = 0;
  nthreads_dying_run = 0;
  nthreads_real_sleeping = 0;
  nthreads_real_pool = 1;
  nthreads_real_free = 0;
  nthreads_peak = 1;
  signalled = [];
  ref = 2;
  crttime = 0;
  now = 9;
}

abbrev core : Pool
core = record {
  env = env;
  maxthreads = 1;
  minthreads = 1;
  created = true;
  destroying = false;
  dynamic = false;
  paused = false;
  npendings = 0;
  n_qdispatchs = 0;
  limit_threads_create_per_time = 1;
  gc_thread = none;
  event_free_notified = false;
  cache_task = record {
    xq = empty_q;
    nlimit_cache = negsuc 0;
    need_destroy = never;
    lock = stack_lock;
  };
  events = [];
  ths_broadcasts = 0;
}

abbrev rt : Rt
rt = record {
  core = core;
  priority = false;
  throttle_on = false;
  c = record { priq_num = 0; priq = []; avg_pri = 0; ready_q = [] };
  ready_q = [];
  n = 5;
  dispatch_q = [];
}

abbrev task : ℕ → Task
task id = record {
  id = id;
  has_err_handler = true;
  f_stat = no_stat;
  f_vmflags = record no_flags { cache = true };
  pri = 0;
  pri_policy = back;
  gid = 0;
  seq = 0;
  priq = 0;
}

env-IsCensus : IsCensus 0 0 env
unfolding init_thread
env-IsCensus = record {
  tally = record {
    live = refl;
    dying = refl;
    running = refl;
    dying_run = refl;
    sleeping = refl;
    free = refl;
    waiting = refl;
    waked = refl;
  };
  size = refl;
  queued = λ i. ground arith;
  unique = λ i. ground arith;
  marks = (refl, tt);
}

-- Two tasks are queued, a thread gets the first and gives it back to be queued again, and then all
-- are removed.
abbrev calls : List RtOp
calls =
    queues (task 7) []
    ∷ queues (task 8) []
    ∷ gets 1 []
    ∷ finishes 1
        (record (task 7) { f_stat = record no_stat { scheduling = true; wpending = true } }) true []
        []
    ∷ marks (record no_flags { remove = true })
    ∷ []

abbrev out_of : Option (List ℕ × List ℕ × Rt) → List ℕ × List ℕ
out_of none = ([], [])
out_of (some x) = (x.0, x.1)

rt_run_test : out_of (rt_run true rt calls) ≡ (7 ∷ 8 ∷ 7 ∷ [], 7 ∷ 8 ∷ 7 ∷ [])
unfolding rt_run task_queue gettask finished mark_all
rt_run_test = refl

rt_run-IsFifo_example : Returns (IsFifo rt) (rt_run true rt calls)
rt_run-IsFifo_example = rt_run-IsFifo rt calls (record { plain = refl; pending = refl })

-- Six removed tasks, of which a thread takes five.
abbrev removing : Rt
removing = record rt {
  core = record core { n_qdispatchs = 6 };
  dispatch_q = task 1 ∷ task 2 ∷ task 3 ∷ task 4 ∷ task 5 ∷ task 6 ∷ [];
}

get_dispatch_taskl-IsTaken_example : IsTaken removing (get_dispatch_taskl removing)
get_dispatch_taskl-IsTaken_example = get_dispatch_taskl-IsTaken removing refl

abbrev one_removed : Rt
one_removed = record rt { core = record core { n_qdispatchs = 1 }; dispatch_q = task 1 ∷ [] }

-- The error handler of task 1 is given out a second time.
get_dispatch_taskl-again_example :
    (get_dispatch_taskl (splice_removed (task 2 ∷ []) (get_dispatch_taskl one_removed).1)).0
    ≡ task 2 ∷ task 1 ∷ []
unfolding get_dispatch_taskl
get_dispatch_taskl-again_example =
    get_dispatch_taskl-again one_removed (task 2 ∷ []) (omega arith) (omega arith)

task_queue-IsRefusal_example :
    OnSome
      (IsRefusal (record rt { throttle_on = true }) (task 3))
      (task_queue false (record rt { throttle_on = true }) (task 3) [])
task_queue-IsRefusal_example =
    task_queue-IsRefusal false (record rt { throttle_on = true }) (task 3) []

adjust-static_example :
    (adjust_abs_l core_notifyl core 3 0 (map some (7 ∷ 8 ∷ 9 ∷ []))).env.nthreads_real_pool ≡ 3
unfolding init_thread
adjust-static_example =
    adjust-static core 3 0 (7 ∷ 8 ∷ 9 ∷ []) refl refl refl (omega arith) (omega arith) (omega arith)
      (λ i. ground arith) env-IsCensus

abbrev two_classes : Container
two_classes = record {
  priq_num = 2;
  priq = (task 1 ∷ []) ∷ (record (task 2) { pri = 60; priq = 1 } ∷ []) ∷ [];
  avg_pri = 50;
  ready_q = 1 ∷ 0 ∷ [];
}

two_classes-IsContainer : IsContainer two_classes
two_classes-IsContainer = record {
  sized = refl;
  falling = (omega arith, (tt, tt));
  exact = exact_at;
}
  where
    exact_at : (i : ℕ) → has i (1 ∷ 0 ∷ []) ≡ not (is_empty (get_or two_classes.priq i []))
    exact_at zero = refl
    exact_at (suc zero) = refl
    exact_at (suc (suc i)) = ground arith

pop_all-IsServing_example : Serves two_classes (pop_all 2 two_classes)
pop_all-IsServing_example = pop_all-IsServing 2 two_classes (omega arith) two_classes-IsContainer
