-- ===== src/Core/Examples.antt =====
-- Tests and concrete runs of the Core (pool/core/cpool_core.c, pool/core/cpool_core.h,
-- pool/core/cpool_core_thread_status.h): a pool of three threads, of which one runs a task, one
-- sleeps and one is free.
use libstpool.Base.{
  ◌+◌, min, ◌≡◌, refl, inl, [], ◌∷◌, none, some, true, false, arith, negsuc, pos, map,
}
use libstpool.Cache.Defs.{empty_q, never, stack_lock}
use libstpool.Core.Threads.{Thread, Env, run, wait, free, init_thread}
use libstpool.Core.Wakeup.{wakeup_n_sleeping_threadsl}
use libstpool.Core.Sleepers.{IsWoken, wakeup_n-IsWoken, wakeup_n-IsCensus}
use libstpool.Core.Grow.{add_threadsl, dec_threadsl}
use libstpool.Core.Census.{IsCensus, verify, IsCensus-verify}
use libstpool.Core.Create.{add_threadsl-IsCensus}
use libstpool.Core.Shrink.{dec_threadsl-IsCensus}
use libstpool.Core.Served.{IsServed, ensure_servicesl-serves}
use libstpool.Core.Grown.{IsGrown, add_threadsl-IsGrown}
use libstpool.Core.Limits.{IsAdjusted, adjust_abs_l-IsAdjusted}
use libstpool.Core.Pool.{Pool, Event}
use libstpool.Core.Services.{ensure_servicesl, adjust_abs_l}
use libstpool.Core.Status.{status_changel}
use libstpool.Core.Awake.{free-spurious}
use libstpool.Core.Com.{com_flush, com_flush-min}
use libstpool.Core.Rest.{Timing, get_restto, Rests, get_restto-Rests}
use libstpool.Core.Lifecycle.{wakes_some, stay, go, status_changel-IsCensus, CoreRun-verify}

abbrev worker : Thread
worker = record (init_thread 1) { status = run }

abbrev sleeper : Thread
sleeper = record (init_thread 2) { status = wait; b_waked = false }

abbrev spare : Thread
spare = record (init_thread 3) { status = free }

abbrev three : Env
three = record {
  ths = worker ∷ sleeper ∷ spare ∷ [];
  ths_waitq = 2 ∷ [];
  n_qths = 3;
  n_qths_waked = 0;
  n_qths_wait = 1;
  nthreads_running = 1;
  nthreads_dying = 0;
  nthreads_dying_run = 0;
  nthreads_real_sleeping = 1;
  nthreads_real_pool = 3;
  nthreads_real_free = 1;
  nthreads_peak = 3;
  signalled = [];
  ref = 4;
  crttime = 0;
  now = 9;
}

abbrev pool : Pool
pool = record {
  env = three;
  maxthreads = 4;
  minthreads = 1;
  created = true;
  destroying = false;
  dynamic = true;
  paused = false;
  npendings = 2;
  n_qdispatchs = 0;
  limit_threads_create_per_time = 1;
  gc_thread = none;
  event_free_notified = false;
  cache_task = record {
    xq = empty_q;
    nlimit_cache = negsuc 0;
    need_destroy = never;
    lock = stack_lock;
  };
  events = [];
  ths_broadcasts = 0;
}

-- An underlying pool that only takes note of the events.
abbrev notes : Event → Pool → Pool
notes ev p = record p { events = ev ∷ p.events }

three-IsCensus : IsCensus 0 0 three
unfolding init_thread
three-IsCensus = record {
  tally = record {
    live = refl;
    dying = refl;
    running = refl;
    dying_run = refl;
    sleeping = refl;
    free = refl;
    waiting = refl;
    waked = refl;
  };
  size = refl;
  queued = λ i. ground arith;
  unique = λ i. ground arith;
  marks = (refl, (refl, (refl, tt)));
}

-- The free thread takes a task, and the sleeping one is waked up on its behalf.
status_changel-IsCensus_example : IsCensus 0 0 (status_changel notes pool 3 run []).env
unfolding init_thread
status_changel-IsCensus_example =
    status_changel-IsCensus notes pool 3 run [] spare (λ q. refl) refl
      ((refl, refl), inl refl, (λ i. ground arith)) three-IsCensus

abbrev after_wakeup : Pool
after_wakeup = record pool { env = wakeup_n_sleeping_threadsl three (pos 1) }

-- The sleeping thread is waked up.
CoreRun-verify_example : verify after_wakeup.env (some (record sleeper { b_waked = true })) ≡ true
unfolding wakeup_n_sleeping_threadsl init_thread
CoreRun-verify_example =
    CoreRun-verify notes pool after_wakeup 2 (record sleeper { b_waked = true }) (λ q. refl)
      (go pool after_wakeup after_wakeup (wakes_some pool (pos 1)) (stay after_wakeup))
      three-IsCensus refl

-- A pool whose only thread runs a task, with two tasks pending.
abbrev busy_env : Env
busy_env = record three {
  ths = worker ∷ [];
  ths_waitq = [];
  n_qths = 1;
  n_qths_wait = 0;
  nthreads_real_sleeping = 0;
  nthreads_real_pool = 1;
  nthreads_real_free = 0;
}

abbrev busy_pool : Pool
busy_pool = record pool { env = busy_env }

ensure_servicesl-serves_example :
    IsServed busy_pool (ensure_servicesl busy_pool (some 1) (map some (7 ∷ [])))
ensure_servicesl-serves_example =
    ensure_servicesl-serves busy_pool (some 1) (7 ∷ []) refl (omega arith) (omega arith)

adjust_abs_l-IsAdjusted_example :
    IsAdjusted 2 1 (adjust_abs_l notes pool 2 1 (map some (7 ∷ 8 ∷ [])))
unfolding init_thread
adjust_abs_l-IsAdjusted_example =
    adjust_abs_l-IsAdjusted notes pool 2 1 (7 ∷ 8 ∷ [])
      (λ q. record { env = refl; most = refl; least = λ h. omega arith; limits = λ h. h }) refl refl
      (omega arith) (omega arith) (λ i. ground arith) three-IsCensus

add_threadsl-IsCensus_example : IsCensus 0 0 (add_threadsl three (some 1) 1 (some 7 ∷ [])).1
unfolding init_thread
add_threadsl-IsCensus_example =
    add_threadsl-IsCensus 0 0 three (some 1) 1 (some 7 ∷ []) (λ i. ground arith) three-IsCensus

-- One thread was told to leave: it is taken back, and one is new.
abbrev shrunk : Env
shrunk = (dec_threadsl three 1).1

add_threadsl-IsGrown_example :
    IsGrown 2 (7 ∷ 8 ∷ []) shrunk (add_threadsl shrunk none 2 (map some (7 ∷ 8 ∷ [])))
add_threadsl-IsGrown_example =
    add_threadsl-IsGrown 0 0 shrunk none 2 (7 ∷ 8 ∷ []) (omega arith)
      (dec_threadsl-IsCensus 0 1 three three-IsCensus)

new_thread_test : (add_threadsl shrunk none 2 (map some (7 ∷ 8 ∷ []))).0 ≡ 1
unfolding add_threadsl dec_threadsl init_thread
new_thread_test = refl

wakeup_n-IsWoken_example : IsWoken 1 three (wakeup_n_sleeping_threadsl three (pos 2))
wakeup_n-IsWoken_example = wakeup_n-IsWoken three (pos 2)

wakeup_n-IsCensus_example : IsCensus 0 0 (wakeup_n_sleeping_threadsl three (negsuc 0))
wakeup_n-IsCensus_example = wakeup_n-IsCensus 0 0 three (negsuc 0) three-IsCensus

IsCensus-verify_example : verify three (some worker) ≡ true
unfolding init_thread
IsCensus-verify_example = IsCensus-verify three (some worker) three-IsCensus refl

free-spurious_example : ¬ IsCensus 0 0 (status_changel notes pool 2 free []).env
unfolding init_thread
free-spurious_example =
    free-spurious notes pool 2 [] sleeper refl refl refl (inl refl) three-IsCensus

-- Three live threads and a lower limit of 1.
com_flush-min_example :
    let (n, p') = com_flush pool in
    (p'.env.nthreads_real_pool ≡ min 3 1) × (p'.env.nthreads_real_pool + n ≡ 3)
com_flush-min_example = com_flush-min pool three-IsCensus

-- A thread was made one second ago, and one sleeps: the time grows from 1005 to 3705.
abbrev timing : Timing
timing = record {
  acttimeo = 1000;
  randtimeo = 10;
  release_cleaning = false;
  rest_timeo = 2;
  us_gc_left_timeo = 0;
  us_last_gcclock = 0;
  us_now = 100;
}

abbrev after_growth : Pool
after_growth = record pool { env = record three { crttime = 8 } }

get_restto_test :
    get_restto 5 after_growth timing worker 12345 ≡ some (pos 3705, after_growth, timing)
unfolding get_restto init_thread
get_restto_test = refl

get_restto-Rests_example :
    Rests after_growth timing worker 12345 (get_restto 6 after_growth timing worker 12345)
get_restto-Rests_example =
    get_restto-Rests after_growth timing worker 12345 1 (omega arith) (omega arith)
