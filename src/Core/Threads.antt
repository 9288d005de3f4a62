-- ===== src/Core/Threads.antt =====
-- pool/core/cpool_core_struct.h: the thread object and the part of the pool object that counts
-- threads, and the list operations that reach a thread through its address.
use libstpool.Base.{ℕ, List, [], ◌∷◌, Option, none, some, Bool, true, false, ◌==◌, if◌then◌else◌}
use libstpool.Cache.Defs.{SmQueue, empty_q}

-- THREAD_STAT_xx
pub data ThreadStat : Type 0 where
  initial join wait run complete timedout free force_quit leave : ThreadStat

abbrev pub is_wait : ThreadStat → Bool
is_wait wait = true
is_wait _ = false

abbrev pub is_run : ThreadStat → Bool
is_run run = true
is_run _ = false

-- TASK_TYPE_xx
pub data TaskType : Type 0 where
  normal dispatched gc_task : TaskType

-- struct cpool_thread. `rm`, `gc` and `flush` are the bits of `flags`; `thq` holds the threads that
-- this one is to launch; `qcache` is the local cache of task objects.
pub record Thread : Type 0 where
  pub tid : ℕ
  pub status : ThreadStat
  pub rm : Bool
  pub gc : Bool
  pub flush : Bool
  pub run : Bool
  pub b_waked : Bool
  pub thq : List ℕ
  pub qcache : SmQueue ℕ
  pub task_type : TaskType

-- INIT_thread_structure of pool/core/cache_creater.h
unfoldable pub init_thread : ℕ → Thread
unfolding empty_q
init_thread tid = record {
  tid = tid;
  status = initial;
  rm = false;
  gc = false;
  flush = false;
  run = true;
  b_waked = true;
  thq = [];
  qcache = empty_q;
  task_type = normal;
}

-- The members of struct cpool_core that count threads, the queues `ths` and `ths_waitq`, and the
-- threads whose condition variable was signalled, the last first; `ref` counts the references and
-- `now` is what `time` gives.
pub record Env : Type 0 where
  pub ths : List Thread
  pub ths_waitq : List ℕ
  pub n_qths : ℕ
  pub n_qths_waked : ℕ
  pub n_qths_wait : ℕ
  pub nthreads_running : ℕ
  pub nthreads_dying : ℕ
  pub nthreads_dying_run : ℕ
  pub nthreads_real_sleeping : ℕ
  pub nthreads_real_pool : ℕ
  pub nthreads_real_free : ℕ
  pub nthreads_peak : ℕ
  pub signalled : List ℕ
  pub ref : ℕ
  pub crttime : ℕ
  pub now : ℕ

-- A store through the address of a thread.
abbrev pub modify : ℕ → (Thread → Thread) → List Thread → List Thread
modify i f [] = []
modify i f (t ∷ ts) = if t.tid == i then f t ∷ ts else t ∷ modify i f ts

abbrev pub find : ℕ → List Thread → Option Thread
find i [] = none
find i (t ∷ ts) = if t.tid == i then some t else find i ts

-- list_del of a thread's link
abbrev pub remove : ℕ → List Thread → List Thread
remove i [] = []
remove i (t ∷ ts) = if t.tid == i then ts else t ∷ remove i ts

-- list_del of a thread's link in the wait queue
abbrev pub unqueue : ℕ → List ℕ → List ℕ
unqueue i [] = []
unqueue i (j ∷ js) = if j == i then js else j ∷ unqueue i js
