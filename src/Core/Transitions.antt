-- ===== src/Core/Transitions.antt =====
-- The census through cpool_core_thread_status_changel, pool/core/cpool_core_thread_status.h: the
-- transitions of a thread that has not waited.
use libstpool.Base.{
  ℕ, ◌≡◌, refl, sym, ap, ◌∙◌, subst, List, [], ◌∷◌, Option, some, Bool, true, false, arith,
  if◌then◌else◌, Bool-cases, inl, inr,
}
use libstpool.Core.Threads.{
  Thread, ThreadStat, run, complete, force_quit, is_wait, is_run, Env, modify, find,
}
use libstpool.Core.Tally.{is_live, is_running, is_dying_run, is_free}
use libstpool.Core.Census.{IsMarked, IsCensus}
use libstpool.Core.Pool.{Pool, Event}
use libstpool.Core.Status.{store, enter, leave_wait, status_changel, count_complete, force_out}
use libstpool.Core.Moves.{
  IsMove, IsMove-IsCensus, All-found, cnt-found, modify-modify, find-modify, found-tid,
}

abbrev pub enters : ThreadStat → Thread → Thread
enters s t = record t { status = s }

leave_wait-skip :
    (p : Pool) (i : ℕ) (made : List (Option ℕ)) (t : Thread)
    → find i p.env.ths ≡ some t
    → is_wait t.status ≡ false
    → leave_wait p i made ≡ p
unfolding leave_wait
leave_wait-skip p i made t h k = rw (leave_wait, h) (rw k refl)

-- What the whole call comes to where the thread has not waited.
pub changed :
    (notifyl : Event → Pool → Pool) (p : Pool) (i : ℕ) (s : ThreadStat) (made : List (Option ℕ))
    (t u : Thread)
    → find i p.env.ths ≡ some t
    → find i (enter notifyl p t s made).env.ths ≡ some u
    → is_wait u.status ≡ false
    → (status_changel notifyl p i s made).env ≡ store i (enters s) (enter notifyl p t s made).env
unfolding status_changel
changed notifyl p i s made t u h k l =
    rw (status_changel, h)
      (ap (λ (q : Pool). store i (enters s) q.env)
        (leave_wait-skip (enter notifyl p t s made) i made u k l))

complete-ths : (t : Thread) (e : Env) → (count_complete t e).ths ≡ e.ths
unfolding count_complete
complete-ths t e = ground arith

complete-IsMove :
    (i : ℕ) (e : Env) (t : Thread)
    → find i e.ths ≡ some t
    → t.status ≡ run
    → t.gc ≡ false
    → IsCensus 0 0 e
    → IsMove 0 0 0 0 e (store i (enters complete) (count_complete t e)) t (enters complete t)
unfolding count_complete
complete-IsMove i e t h s g c = record {
  live = ground arith;
  dying = ground arith;
  running = ground (arith, c.tally.running, cnt-found is_running i e.ths t h);
  dying_run = ground (arith, c.tally.dying_run, cnt-found is_dying_run i e.ths t h);
  sleeping = ground arith;
  free = ground arith;
  waiting = ground arith;
  waked = ground arith;
  size = ground arith;
  name = refl;
  queue = λ j. ground arith;
  mark = All-found IsMarked i e.ths t h c.marks;
}

pub complete-IsCensus :
    (notifyl : Event → Pool → Pool) (p : Pool) (i : ℕ) (made : List (Option ℕ)) (t : Thread)
    → find i p.env.ths ≡ some t
    → t.status ≡ run
    → t.gc ≡ false
    → IsCensus 0 0 p.env
    → IsCensus 0 0 (status_changel notifyl p i complete made).env
unfolding enter
complete-IsCensus notifyl p i made t h s g c =
    subst (IsCensus 0 0)
      (sym (
        changed notifyl p i complete made t t h (ap (find i) (complete-ths t p.env) ∙ h)
          (rw s refl)))
      (IsMove-IsCensus 0 0 0 0 i p.env (store i (enters complete) (count_complete t p.env)) t
        (enters complete) h (ap (modify i (enters complete)) (complete-ths t p.env)) (λ t. refl)
        (complete-IsMove i p.env t h s g c) c)

-- The store of FORCE_QUIT to a thread.
abbrev quits : Bool → Thread → Thread
quits marked t = if marked then t else record t { run = false; rm = true }

force_quit-ths : (t : Thread) (e : Env) → (force_out t e).ths ≡ modify t.tid (quits t.rm) e.ths
unfolding force_out
force_quit-ths t e = elim (Bool-cases t.rm) [
  | inl m ↦ rw (force_out, m) (sym (modify_same t.tid e.ths))
  | inr m ↦ rw (force_out, m) refl
]
  where
    modify_same : (i : ℕ) (ts : List Thread) → modify i (λ t. t) ts ≡ ts
    modify_same i [] = refl
    modify_same i (x ∷ ts) = ground (arith, modify_same i ts)

quits_name : (b : Bool) (t : Thread) → (quits b t).tid ≡ t.tid
quits_name b t = ground arith

quits_status : (b : Bool) (t : Thread) → (quits b t).status ≡ t.status
quits_status b t = ground arith

force_quit-IsMove :
    (i : ℕ) (e : Env) (t : Thread)
    → find i e.ths ≡ some t
    → is_wait t.status ≡ false
    → is_run t.status ≡ false
    → IsCensus 0 0 e
    → IsMove 0 0 0 0 e
        (store i (enters force_quit) (force_out t e))
        t
        (enters force_quit (quits t.rm t))
unfolding force_out
force_quit-IsMove i e t h w s c = record {
  live = ground (arith, c.tally.live, cnt-found is_live i e.ths t h);
  dying = ground arith;
  running = ground arith;
  dying_run = ground arith;
  sleeping = ground arith;
  free = ground (arith, c.tally.free, cnt-found is_free i e.ths t h);
  waiting = ground arith;
  waked = ground arith;
  size = ground arith;
  name = quits_name t.rm t;
  queue = λ j. ground arith;
  mark = ground (arith, All-found IsMarked i e.ths t h c.marks);
}

pub force_quit-IsCensus :
    (notifyl : Event → Pool → Pool) (p : Pool) (i : ℕ) (made : List (Option ℕ)) (t : Thread)
    → find i p.env.ths ≡ some t
    → is_wait t.status ≡ false
    → is_run t.status ≡ false
    → IsCensus 0 0 p.env
    → IsCensus 0 0 (status_changel notifyl p i force_quit made).env
unfolding enter
force_quit-IsCensus notifyl p i made t h w s c =
    subst (IsCensus 0 0)
      (sym (
        changed notifyl p i force_quit made t (quits t.rm t) h
          (ap (find i) ths ∙ find-modify i (quits t.rm) p.env.ths t (quits_name t.rm) h)
          (ap is_wait (quits_status t.rm t) ∙ w)))
      (IsMove-IsCensus 0 0 0 0 i p.env (store i (enters force_quit) (force_out t p.env)) t
        (λ x. enters force_quit (quits t.rm x)) h
        (ap (modify i (enters force_quit)) ths
          ∙ modify-modify i (quits t.rm) (enters force_quit) p.env.ths (quits_name t.rm))
        (quits_name t.rm) (force_quit-IsMove i p.env t h w s c) c)
  where
    ths : (force_out t p.env).ths ≡ modify i (quits t.rm) p.env.ths
    ths =
        force_quit-ths t p.env
        ∙ ap (λ k. modify k (quits t.rm) p.env.ths) (found-tid i p.env.ths t h)
