-- ===== src/Core/Run.antt =====
-- The census through cpool_core_thread_status_changel, pool/core/cpool_core_thread_status.h: a
-- thread begins to run a task, and may call for other threads first.
use libstpool.Base.{
  ℕ, ◌≡◌, ◌⊎◌, refl, sym, ap, ◌∙◌, subst, List, Option, none, some, true, false, not, ◌&&◌, ◌==◌,
  arith, inl, inr, if_elim, Bool-cases,
}
use libstpool.Core.Threads.{Thread, run, is_wait, is_run, Env, modify, find}
use libstpool.Core.Tally.{is_free}
use libstpool.Core.Census.{IsMarked, IsCensus}
use libstpool.Core.Create.{IsFresh}
use libstpool.Core.Pool.{Pool, Event}
use libstpool.Core.Served.{ensure_servicesl-IsCensus}
use libstpool.Core.Status.{store, enter, status_changel, count_run, ensure_if_needed}
use libstpool.Core.Moves.{IsMove, IsMove-IsCensus, All-found, cnt-found}
use libstpool.Core.Transitions.{enters, changed}
use libstpool.Core.Awake.{ensure_if_needed-none}
use libstpool.Core.Kept.{IsKept, ensure_if_needed-Keeps}

pub ensure_if_needed-IsCensus :
    (r w : ℕ) (p : Pool) (i : ℕ) (made : List (Option ℕ))
    → IsFresh made p.env.ths
    → IsCensus r w p.env
    → IsCensus r w (ensure_if_needed p i made).env
unfolding ensure_if_needed
ensure_if_needed-IsCensus r w p i made f c =
    if_elim (λ (x : Pool). IsCensus r w x.env)
      (p.env.nthreads_real_free == 0 && (p.env.n_qths_waked == 0 && not (p.npendings == 0)))
      (λ _. ensure_servicesl-IsCensus r w p (some i) made f c) (λ _. c)

-- The thread is counted as running before its status says so.
count_run-IsCensus :
    (i : ℕ) (e : Env) (t : Thread)
    → find i e.ths ≡ some t
    → t.rm ≡ false
    → is_wait t.status ≡ false
    → is_run t.status ≡ false
    → IsCensus 0 0 e
    → IsCensus 1 0 (count_run t e)
unfolding count_run
count_run-IsCensus i e t h m w s c =
    rw (count_run, m)
      (record {
        tally = record {
          live = c.tally.live;
          dying = c.tally.dying;
          running = omega (arith, c.tally.running);
          dying_run = c.tally.dying_run;
          sleeping = c.tally.sleeping;
          free = ground (arith, c.tally.free, cnt-found is_free i e.ths t h);
          waiting = c.tally.waiting;
          waked = c.tally.waked;
        };
        size = c.size;
        queued = c.queued;
        unique = c.unique;
        marks = c.marks;
      })

count_run-ths : (t : Thread) (e : Env) → (count_run t e).ths ≡ e.ths
unfolding count_run
count_run-ths t e = ground arith

running-IsMove :
    (i : ℕ) (e : Env) (u : Thread)
    → find i e.ths ≡ some u
    → u.rm ≡ false
    → is_wait u.status ≡ false
    → is_run u.status ≡ false
    → IsCensus 1 0 e
    → IsMove 1 0 0 0 e (store i (enters run) e) u (enters run u)
running-IsMove i e u h m w s c = record {
  live = refl;
  dying = refl;
  running = ground arith;
  dying_run = ground arith;
  sleeping = ground arith;
  free = ground arith;
  waiting = ground arith;
  waked = ground arith;
  size = refl;
  name = refl;
  queue = λ j. ground arith;
  mark = All-found IsMarked i e.ths u h c.marks;
}

dying_run-IsMove :
    (i : ℕ) (e : Env) (t : Thread)
    → find i e.ths ≡ some t
    → t.rm ≡ true
    → is_wait t.status ≡ false
    → is_run t.status ≡ false
    → IsCensus 0 0 e
    → IsMove 0 0 0 0 e (store i (enters run) (count_run t e)) t (enters run t)
unfolding count_run
dying_run-IsMove i e t h m w s c = record {
  live = ground arith;
  dying = ground arith;
  running = ground arith;
  dying_run = ground arith;
  sleeping = ground arith;
  free = ground arith;
  waiting = ground arith;
  waked = ground arith;
  size = ground arith;
  name = refl;
  queue = λ j. ground arith;
  mark = All-found IsMarked i e.ths t h c.marks;
}

module _ (notifyl : Event → Pool → Pool) where
  live_run-IsCensus :
      (p : Pool) (i : ℕ) (made : List (Option ℕ)) (t : Thread)
      → find i p.env.ths ≡ some t
      → t.rm ≡ false
      → is_wait t.status ≡ false
      → is_run t.status ≡ false
      → IsFresh made p.env.ths
      → IsCensus 0 0 p.env
      → IsCensus 0 0 (status_changel notifyl p i run made).env
  unfolding enter
  live_run-IsCensus p i made t h m w s f c = on_found (find i after.env.ths) refl
    where
      counted : Pool
      counted = record p { env = count_run t p.env }

      after : Pool
      after = ensure_if_needed counted t.tid made

      census : IsCensus 1 0 after.env
      census =
          ensure_if_needed-IsCensus 1 0 counted t.tid made
            (subst (IsFresh made) (sym (count_run-ths t p.env)) f)
            (count_run-IsCensus i p.env t h m w s c)

      kept : IsKept t.status (find i after.env.ths)
      kept =
          ensure_if_needed-Keeps i t.tid counted made t.status
            (subst (IsKept t.status) (sym (ap (find i) (count_run-ths t p.env) ∙ h)) (refl, m))

      on_found :
          (o : Option Thread)
          → find i after.env.ths ≡ o
          → IsCensus 0 0 (status_changel notifyl p i run made).env
      on_found none g = absurd (subst (IsKept t.status) g kept)
      on_found (some u) g =
          let same = subst (IsKept t.status) g kept in
          subst (IsCensus 0 0) (sym (changed notifyl p i run made t u h g (rw same.0 w))) (
            IsMove-IsCensus 1 0 0 0 i after.env (store i (enters run) after.env) u (enters run) g
              refl (λ t. refl)
              (running-IsMove i after.env u g same.1 (rw same.0 w) (rw same.0 s) census) census)

  dying_run-IsCensus :
      (p : Pool) (i : ℕ) (made : List (Option ℕ)) (t : Thread)
      → find i p.env.ths ≡ some t
      → t.rm ≡ true
      → p.npendings ≡ 0
      → is_wait t.status ≡ false
      → is_run t.status ≡ false
      → IsCensus 0 0 p.env
      → IsCensus 0 0 (status_changel notifyl p i run made).env
  unfolding enter
  dying_run-IsCensus p i made t h m n w s c =
      subst (IsCensus 0 0)
        (sym (
          changed notifyl p i run made t t h
            (ap (λ (q : Pool). find i q.env.ths) none_called ∙ ap (find i) ths ∙ h) w
          ∙ ap (λ (q : Pool). store i (enters run) q.env) none_called))
        (IsMove-IsCensus 0 0 0 0 i p.env (store i (enters run) (count_run t p.env)) t (enters run) h
          (ap (modify i (enters run)) ths) (λ t. refl) (dying_run-IsMove i p.env t h m w s c) c)
    where
      ths : (count_run t p.env).ths ≡ p.env.ths
      ths = count_run-ths t p.env

      none_called :
          ensure_if_needed (record p { env = count_run t p.env }) t.tid made
          ≡ record p { env = count_run t p.env }
      none_called = ensure_if_needed-none (record p { env = count_run t p.env }) t.tid made n

  -- A thread that is to leave may take a task where no other task is pending.
  pub run-IsCensus :
      (p : Pool) (i : ℕ) (made : List (Option ℕ)) (t : Thread)
      → find i p.env.ths ≡ some t
      → (t.rm ≡ false) ⊎ (p.npendings ≡ 0)
      → is_wait t.status ≡ false
      → is_run t.status ≡ false
      → IsFresh made p.env.ths
      → IsCensus 0 0 p.env
      → IsCensus 0 0 (status_changel notifyl p i run made).env
  run-IsCensus p i made t h (inl m) w s f c = live_run-IsCensus p i made t h m w s f c
  run-IsCensus p i made t h (inr n) w s f c = elim (Bool-cases t.rm) [
    | inl m ↦ dying_run-IsCensus p i made t h m n w s c
    | inr m ↦ live_run-IsCensus p i made t h m w s f c
  ]
