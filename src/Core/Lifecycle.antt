-- ===== src/Core/Lifecycle.antt =====
-- The life of a thread (pool/core/cpool_core_thread_status.h) and of the pool around it: all
-- transitions together, and sequences of steps of the Core.
use libstpool.Base.{ℕ, ◌≡◌, ◌⊎◌, refl, sym, subst, List, Option, some, true, false, arith, ℤ}
use libstpool.Core.Threads.{
  Thread, ThreadStat, initial, join, wait, run, complete, timedout, free, force_quit, leave,
  is_wait, is_run, Env, find,
}
use libstpool.Core.Wakeup.{wakeup_n_sleeping_threadsl}
use libstpool.Core.Sleepers.{wakeup_n-IsCensus}
use libstpool.Core.Grow.{add_threadsl, dec_threadsl}
use libstpool.Core.Create.{IsFresh, add_threadsl-IsCensus}
use libstpool.Core.Shrink.{dec_threadsl-IsCensus}
use libstpool.Core.Census.{IsMarked, IsCensus, verify, IsCensus-verify}
use libstpool.Core.Pool.{Pool, Event}
use libstpool.Core.Services.{ensure_servicesl}
use libstpool.Core.Served.{ensure_servicesl-IsCensus}
use libstpool.Core.Status.{store, enter, status_changel}
use libstpool.Core.Moves.{IsMove, IsMove-IsCensus, All-found}
use libstpool.Core.Transitions.{enters, changed, complete-IsCensus, force_quit-IsCensus}
use libstpool.Core.Sleep.{IsQuiet, wait-IsCensus}
use libstpool.Core.Awake.{free-IsCensus}
use libstpool.Core.Timeout.{timedout-IsCensus}
use libstpool.Core.Run.{run-IsCensus}
use libstpool.Core.Leave.{leave-IsCensus}

-- The thread neither waits nor runs a task.
abbrev pub IsIdle : Thread → Type 0
IsIdle t = (is_wait t.status ≡ false) × (is_run t.status ≡ false)

-- The thread is to stay, or no task is pending.
abbrev pub IsCalm : Pool → Thread → Type 0
IsCalm p t = (t.rm ≡ false) ⊎ (p.npendings ≡ 0)

-- When a thread may take a new status; `made` are the threads that the system gives then.
abbrev pub IsLegal : Pool → List (Option ℕ) → Thread → ThreadStat → Type 0
IsLegal p made t initial = ⊥
IsLegal p made t join = IsIdle t
IsLegal p made t wait = IsIdle t
IsLegal p made t timedout = (t.status ≡ wait) × IsCalm p t
IsLegal p made t force_quit = IsIdle t
IsLegal p made t run = IsIdle t × IsCalm p t × IsFresh made p.env.ths
IsLegal p made t complete = (t.status ≡ run) × (t.gc ≡ false)
IsLegal p made t free = (t.status ≡ wait) × (t.b_waked ≡ true) × IsCalm p t
IsLegal p made t leave = IsIdle t × (t.rm ≡ true)

join-IsMove :
    (i : ℕ) (e : Env) (t : Thread)
    → find i e.ths ≡ some t
    → IsIdle t
    → IsCensus 0 0 e
    → IsMove 0 0 0 0 e (store i (enters join) e) t (enters join t)
join-IsMove i e t h d c = record {
  live = refl;
  dying = refl;
  running = ground arith;
  dying_run = ground arith;
  sleeping = ground arith;
  free = ground arith;
  waiting = ground arith;
  waked = ground arith;
  size = refl;
  name = refl;
  queue = λ j. ground arith;
  mark = All-found IsMarked i e.ths t h c.marks;
}

module _ (notifyl : Event → Pool → Pool) where
  join-IsCensus :
      (p : Pool) (i : ℕ) (made : List (Option ℕ)) (t : Thread)
      → find i p.env.ths ≡ some t
      → IsIdle t
      → IsCensus 0 0 p.env
      → IsCensus 0 0 (status_changel notifyl p i join made).env
  unfolding enter
  join-IsCensus p i made t h d c =
      subst (IsCensus 0 0) (sym (changed notifyl p i join made t t h h d.0)) (
        IsMove-IsCensus 0 0 0 0 i p.env (store i (enters join) p.env) t (enters join) h refl
          (λ t. refl) (join-IsMove i p.env t h d c) c)

  -- cpool_core_thread_status_changel keeps every counter equal to the number of the threads of
  -- its kind, and the wait queue equal to the threads that wait and are not waked up. This is so
  -- for each transition that IsLegal allows: a thread that is told to leave goes on from its wait
  -- or takes a task only where no task is pending, a thread that does the GC does not complete a
  -- task, and one that ends its wait as FREE was waked up. The underlying pool leaves the threads
  -- alone when it hears that the pool is idle.
  pub status_changel-IsCensus :
      (p : Pool) (i : ℕ) (s : ThreadStat) (made : List (Option ℕ)) (t : Thread)
      → IsQuiet notifyl
      → find i p.env.ths ≡ some t
      → IsLegal p made t s
      → IsCensus 0 0 p.env
      → IsCensus 0 0 (status_changel notifyl p i s made).env
  status_changel-IsCensus p i initial made t q h l c = absurd l
  status_changel-IsCensus p i join made t q h l c = join-IsCensus p i made t h l c
  status_changel-IsCensus p i wait made t q h l c = wait-IsCensus notifyl p i made t q h l.0 l.1 c
  status_changel-IsCensus p i timedout made t q h l c =
      timedout-IsCensus notifyl p i made t h l.0 l.1 c
  status_changel-IsCensus p i force_quit made t q h l c =
      force_quit-IsCensus notifyl p i made t h l.0 l.1 c
  status_changel-IsCensus p i run made t q h l c =
      run-IsCensus notifyl p i made t h l.1 l.0.0 l.0.1 l.2 c
  status_changel-IsCensus p i complete made t q h l c =
      complete-IsCensus notifyl p i made t h l.0 l.1 c
  status_changel-IsCensus p i free made t q h l c = free-IsCensus notifyl p i made t h l.0 l.1 l.2 c
  status_changel-IsCensus p i leave made t q h l c =
      leave-IsCensus notifyl p i made t q h l.1 l.0.0 l.0.1 c

  -- One critical section of the Core. The tasks, the limits and the flags of the pool change as
  -- the pools above the Core want, which leaves the threads alone.
  pub data CoreStep : Pool → Pool → Type 0 where
    changes :
        (p : Pool) (i : ℕ) (s : ThreadStat) (made : List (Option ℕ)) (t : Thread)
        → find i p.env.ths ≡ some t
        → IsLegal p made t s
        → CoreStep p (status_changel notifyl p i s made)
    ensures :
        (p : Pool) (self : Option ℕ) (made : List (Option ℕ))
        → IsFresh made p.env.ths
        → CoreStep p (ensure_servicesl p self made)
    adds :
        (p : Pool) (self : Option ℕ) (n : ℕ) (made : List (Option ℕ))
        → IsFresh made p.env.ths
        → CoreStep p (record p { env = (add_threadsl p.env self n made).1 })
    decs : (p : Pool) (n : ℕ) → CoreStep p (record p { env = (dec_threadsl p.env n).1 })
    wakes_some :
        (p : Pool) (nwake : ℤ)
        → CoreStep p (record p { env = wakeup_n_sleeping_threadsl p.env nwake })
    works : (p p' : Pool) → p'.env ≡ p.env → CoreStep p p'

  pub data CoreRun : Pool → Pool → Type 0 where
    stay : (p : Pool) → CoreRun p p
    go : (p p' p'' : Pool) → CoreStep p p' → CoreRun p' p'' → CoreRun p p''

  CoreStep-IsCensus :
      (p p' : Pool) → IsQuiet notifyl → CoreStep p p' → IsCensus 0 0 p.env → IsCensus 0 0 p'.env
  CoreStep-IsCensus p _ q (changes _ i s made t h l) c =
      status_changel-IsCensus p i s made t q h l c
  CoreStep-IsCensus p _ q (ensures _ self made f) c = ensure_servicesl-IsCensus 0 0 p self made f c
  CoreStep-IsCensus p _ q (adds _ self n made f) c = add_threadsl-IsCensus 0 0 p.env self n made f c
  CoreStep-IsCensus p _ q (decs _ n) c = dec_threadsl-IsCensus 0 n p.env c
  CoreStep-IsCensus p _ q (wakes_some _ nwake) c = wakeup_n-IsCensus 0 0 p.env nwake c
  CoreStep-IsCensus p p' q (works _ _ e) c = subst (IsCensus 0 0) (sym e) c

  CoreRun-IsCensus :
      (p p' : Pool) → IsQuiet notifyl → CoreRun p p' → IsCensus 0 0 p.env → IsCensus 0 0 p'.env
  CoreRun-IsCensus p _ q (stay _) c = c
  CoreRun-IsCensus p p'' q (go _ p' _ s r) c =
      CoreRun-IsCensus p' p'' q r (CoreStep-IsCensus p p' q s c)

  -- Start from a pool whose counters agree with its threads, and let it make any sequence of
  -- steps: transitions of a thread that IsLegal allows, calls of cpool_core_ensure_servicesl,
  -- cpool_core_add_threadsl, cpool_core_dec_threadsl and cpool_core_wakeup_n_sleeping_threadsl,
  -- new threads with numbers of their own, and changes of the rest of the pool. If the underlying
  -- pool leaves the threads alone when it hears that the pool is idle, the assertions of VERIFY
  -- hold after these steps for any thread of the pool.
  pub CoreRun-verify :
      (p p' : Pool) (i : ℕ) (t : Thread)
      → IsQuiet notifyl
      → CoreRun p p'
      → IsCensus 0 0 p.env
      → find i p'.env.ths ≡ some t
      → verify p'.env (some t) ≡ true
  CoreRun-verify p p' i t q r c h =
      let c' = CoreRun-IsCensus p p' q r c in
      IsCensus-verify p'.env (some t) c' (All-found IsMarked i p'.env.ths t h c'.marks)
