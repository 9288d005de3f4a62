-- ===== src/Core/Tally.antt =====
-- How the counters of struct cpool_core (pool/core/cpool_core_struct.h) stand to the threads of a
-- list, over a base for the threads that are not in the list.
use libstpool.Base.{
  ℕ, ◌+◌, ◌≡◌, sym, subst, List, [], ◌∷◌, some, Bool, not, ◌&&◌, ◌==◌, arith, if◌then◌else◌,
  Bool-cases, inl, inr,
}
use libstpool.Core.Threads.{Thread, is_wait, is_run, Env, modify, find}

abbrev pub cnt : (Thread → Bool) → List Thread → ℕ
cnt p [] = 0
cnt p (t ∷ ts) = (if p t then 1 else 0) + cnt p ts

-- The kinds of threads that the counters count.
abbrev pub is_live : Thread → Bool
is_live t = not t.rm

abbrev pub is_dying : Thread → Bool
is_dying t = t.rm

abbrev pub is_running : Thread → Bool
is_running t = is_run t.status

abbrev pub is_dying_run : Thread → Bool
is_dying_run t = is_run t.status && t.rm

abbrev pub is_sleeping : Thread → Bool
is_sleeping t = is_wait t.status && not t.rm

abbrev pub is_free : Thread → Bool
is_free t = not t.rm && (not (is_wait t.status) && not (is_run t.status))

abbrev pub is_waiting : Thread → Bool
is_waiting t = is_wait t.status && not t.b_waked

abbrev pub is_waked : Thread → Bool
is_waked t = is_wait t.status && t.b_waked

-- The counts of the threads that are not in the list. `owed` threads are counted as running and
-- not as free before their status says so, and `owed_waked` are waked up and counted no longer.
pub record Counts : Type 0 where
  pub live : ℕ
  pub dying : ℕ
  pub running : ℕ
  pub dying_run : ℕ
  pub sleeping : ℕ
  pub free : ℕ
  pub waiting : ℕ
  pub waked : ℕ
  pub owed : ℕ
  pub owed_waked : ℕ

abbrev pub nothing : ℕ → ℕ → Counts
nothing r w = record {
  live = 0;
  dying = 0;
  running = 0;
  dying_run = 0;
  sleeping = 0;
  free = 0;
  waiting = 0;
  waked = 0;
  owed = r;
  owed_waked = w;
}

abbrev pub counting : Counts → Thread → Counts
counting b t = record {
  live = b.live + cnt is_live (t ∷ []);
  dying = b.dying + cnt is_dying (t ∷ []);
  running = b.running + cnt is_running (t ∷ []);
  dying_run = b.dying_run + cnt is_dying_run (t ∷ []);
  sleeping = b.sleeping + cnt is_sleeping (t ∷ []);
  free = b.free + cnt is_free (t ∷ []);
  waiting = b.waiting + cnt is_waiting (t ∷ []);
  waked = b.waked + cnt is_waked (t ∷ []);
  owed = b.owed;
  owed_waked = b.owed_waked;
}

pub record Tally (b : Counts) (e : Env) (ts : List Thread) : Type 0 where
  pub live : e.nthreads_real_pool ≡ b.live + cnt is_live ts
  pub dying : e.nthreads_dying ≡ b.dying + cnt is_dying ts
  pub running : e.nthreads_running ≡ b.running + cnt is_running ts + b.owed
  pub dying_run : e.nthreads_dying_run ≡ b.dying_run + cnt is_dying_run ts
  pub sleeping : e.nthreads_real_sleeping ≡ b.sleeping + cnt is_sleeping ts
  pub free : e.nthreads_real_free + b.owed ≡ b.free + cnt is_free ts
  pub waiting : e.n_qths_wait ≡ b.waiting + cnt is_waiting ts
  pub waked : e.n_qths_waked + b.owed_waked ≡ b.waked + cnt is_waked ts

pub shift :
    (b : Counts) (e : Env) (t : Thread) (ts : List Thread)
    → Tally b e (t ∷ ts)
    → Tally (counting b t) e ts
shift b e t ts h = record {
  live = omega (arith, h.live);
  dying = omega (arith, h.dying);
  running = omega (arith, h.running);
  dying_run = omega (arith, h.dying_run);
  sleeping = omega (arith, h.sleeping);
  free = omega (arith, h.free);
  waiting = omega (arith, h.waiting);
  waked = omega (arith, h.waked);
}

pub unshift :
    (b : Counts) (e : Env) (t : Thread) (ts : List Thread)
    → Tally (counting b t) e ts
    → Tally b e (t ∷ ts)
unshift b e t ts h = record {
  live = omega (arith, h.live);
  dying = omega (arith, h.dying);
  running = omega (arith, h.running);
  dying_run = omega (arith, h.dying_run);
  sleeping = omega (arith, h.sleeping);
  free = omega (arith, h.free);
  waiting = omega (arith, h.waiting);
  waked = omega (arith, h.waked);
}

pub some_inj : {t u : Thread} → some t ≡ some u → t ≡ u
some_inj h = cc

-- What holds of a store to one thread in front of a list holds of it anywhere in a list.
pub modify-Tally :
    (i : ℕ) (f : Thread → Thread) (e e' : Env) (t : Thread)
    → ((b : Counts) (ts : List Thread) → Tally b e (t ∷ ts) → Tally b e' (f t ∷ ts))
    → (b : Counts) (ts : List Thread) → find i ts ≡ some t
    → Tally b e ts
    → Tally b e' (modify i f ts)
modify-Tally i f e e' t one b [] m h = cc
modify-Tally i f e e' t one b (x ∷ ts) m h = elim (Bool-cases (x.tid == i)) [
  | inl same ↦
      let found : x ≡ t = some_inj (rw same at m) in
      rw same (
        subst (λ y. Tally b e' (f y ∷ ts)) (sym found)
          (one b ts (subst (λ y. Tally b e (y ∷ ts)) found h)))
  | inr other ↦ rw other (
      unshift b e' x (modify i f ts)
        (modify-Tally i f e e' t one (counting b x) ts (rw other at m) (shift b e x ts h)))
]

-- The tally does not read the queues, the number of threads and the peak.
pub refit :
    (b : Counts) (e : Env) (ts us : List Thread) (q : List ℕ) (n p : ℕ) (s : List ℕ)
    → Tally b e ts
    → Tally b
        (record e { ths = us; ths_waitq = q; n_qths = n; nthreads_peak = p; signalled = s })
        ts
refit b e ts us q n p s h = record {
  live = h.live;
  dying = h.dying;
  running = h.running;
  dying_run = h.dying_run;
  sleeping = h.sleeping;
  free = h.free;
  waiting = h.waiting;
  waked = h.waked;
}
