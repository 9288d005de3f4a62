-- ===== src/Core/Awake.antt =====
-- The census through cpool_core_thread_status_changel, pool/core/cpool_core_thread_status.h: a
-- thread that has waited goes on.
use libstpool.Base.{
  ℕ, ◌≡◌, ◌⊎◌, refl, sym, ap, subst, List, Option, some, Bool, true, false, not, ◌&&◌, arith,
  if◌then◌else◌, inl, inr,
}
use libstpool.Core.Threads.{Thread, wait, free, Env, modify, find}
use libstpool.Core.Tally.{is_waked, is_sleeping, is_waiting, cnt}
use libstpool.Core.Census.{IsMarked, IsCensus}
use libstpool.Core.Pool.{Pool, Event}
use libstpool.Core.Status.{
  store, enter, status_changel, leave_wait, after_wait, count_awake, rejoin, ensure_if_needed,
}
use libstpool.Core.Moves.{IsMove, IsMove-IsCensus, All-found, cnt-found, one, cnt-modify_at}
use libstpool.Core.Transitions.{enters}

-- What follows the switch where no threads are needed.
abbrev pub goes_on : Thread → Env → Env
goes_on t e = if t.rm && not t.run then count_awake t e else rejoin t (count_awake t e)

pub ensure_if_needed-none :
    (p : Pool) (i : ℕ) (made : List (Option ℕ)) → p.npendings ≡ 0 → ensure_if_needed p i made ≡ p
unfolding ensure_if_needed
ensure_if_needed-none p i made h = ground arith

pub leave_wait-env :
    (p : Pool) (i : ℕ) (made : List (Option ℕ)) (t : Thread)
    → find i p.env.ths ≡ some t
    → t.status ≡ wait
    → ((t.rm && not t.run) ≡ false) ⊎ (p.npendings ≡ 0)
    → (leave_wait p i made).env ≡ goes_on t p.env
unfolding leave_wait after_wait
leave_wait-env p i made t h w k = rw (leave_wait, h) (rw w (by_mark (t.rm && not t.run) refl))
  where
    by_mark :
        (b : Bool)
        → (t.rm && not t.run) ≡ b
        → (if b
            then ensure_if_needed (record p { env = count_awake t p.env }) t.tid made
            else record p { env = rejoin t (count_awake t p.env) }).env
          ≡ (if b then count_awake t p.env else rejoin t (count_awake t p.env))
    by_mark true e =
        ap (λ (q : Pool). q.env)
          (ensure_if_needed-none (record p { env = count_awake t p.env }) t.tid made (ground arith))
    by_mark false e = refl

pub goes_on-ths : (t : Thread) (e : Env) → IsMarked t → (goes_on t e).ths ≡ e.ths
unfolding count_awake rejoin
goes_on-ths t e m = ground arith

same_count : (t : Thread) (e : Env) → (goes_on t e).n_qths_wait ≡ e.n_qths_wait
unfolding count_awake rejoin
same_count t e = ground arith

awake-IsMove :
    (i : ℕ) (e : Env) (t : Thread)
    → find i e.ths ≡ some t
    → t.status ≡ wait
    → t.b_waked ≡ true
    → IsCensus 0 0 e
    → IsMove 0 0 0 0 e (store i (enters free) (goes_on t e)) t (enters free t)
unfolding count_awake rejoin
awake-IsMove i e t h w b c = record {
  live = ground arith;
  dying = ground arith;
  running = ground arith;
  dying_run = ground arith;
  sleeping = ground (arith, marked, c.tally.sleeping, cnt-found is_sleeping i e.ths t h);
  free = ground (arith, marked);
  waiting = ground arith;
  waked = ground (arith, c.tally.waked, cnt-found is_waked i e.ths t h);
  size = ground arith;
  name = refl;
  queue = λ j. ground arith;
  mark = marked;
}
  where
    marked : IsMarked t
    marked = All-found IsMarked i e.ths t h c.marks

module _ (notifyl : Event → Pool → Pool) where
  free-env :
      (p : Pool) (i : ℕ) (made : List (Option ℕ)) (t : Thread)
      → find i p.env.ths ≡ some t
      → t.status ≡ wait
      → (t.rm ≡ false) ⊎ (p.npendings ≡ 0)
      → (status_changel notifyl p i free made).env ≡ store i (enters free) (goes_on t p.env)
  unfolding status_changel enter
  free-env p i made t h w k =
      rw (status_changel, h)
        (ap (store i (enters free)) (leave_wait-env p i made t h w (not_leaving k)))
    where
      not_leaving :
          (t.rm ≡ false) ⊎ (p.npendings ≡ 0) → ((t.rm && not t.run) ≡ false) ⊎ (p.npendings ≡ 0)
      not_leaving (inl e) = inl (rw e refl)
      not_leaving (inr e) = inr e

  pub free-IsCensus :
      (p : Pool) (i : ℕ) (made : List (Option ℕ)) (t : Thread)
      → find i p.env.ths ≡ some t
      → t.status ≡ wait
      → t.b_waked ≡ true
      → (t.rm ≡ false) ⊎ (p.npendings ≡ 0)
      → IsCensus 0 0 p.env
      → IsCensus 0 0 (status_changel notifyl p i free made).env
  free-IsCensus p i made t h w b k c = subst (IsCensus 0 0) (sym (free-env p i made t h w k)) (
      IsMove-IsCensus 0 0 0 0 i p.env (store i (enters free) (goes_on t p.env)) t (enters free) h
        (ap (modify i (enters free))
          (goes_on-ths t p.env (All-found IsMarked i p.env.ths t h c.marks)))
        (λ t. refl) (awake-IsMove i p.env t h w b c) c)

  -- Where the counters agree with the threads, a thread that ends its wait as FREE though it was
  -- not waked up, as after a spurious wakeup, and that is to stay or finds no task pending,
  -- leaves the counters in disagreement with the threads.
  pub free-spurious :
      (p : Pool) (i : ℕ) (made : List (Option ℕ)) (t : Thread)
      → find i p.env.ths ≡ some t
      → t.status ≡ wait
      → t.b_waked ≡ false
      → (t.rm ≡ false) ⊎ (p.npendings ≡ 0)
      → IsCensus 0 0 p.env
      → ¬ IsCensus 0 0 (status_changel notifyl p i free made).env
  free-spurious p i made t h w b k c bad = omega (
    arith,
    same_count t p.env,
    after.tally.waiting,
    c.tally.waiting,
    cnt-modify_at is_waiting i (enters free) p.env.ths t h,
    ap (λ ts. cnt is_waiting (modify i (enters free) ts))
        (goes_on-ths t p.env (All-found IsMarked i p.env.ths t h c.marks)),
    was_waiting,
  )
    where
      after : IsCensus 0 0 (store i (enters free) (goes_on t p.env))
      after = subst (IsCensus 0 0) (free-env p i made t h w k) bad

      was_waiting : one is_waiting t ≡ 1
      was_waiting = ground arith
