-- ===== src/Core/Timeout.antt =====
-- The census through cpool_core_thread_status_changel, pool/core/cpool_core_thread_status.h: a
-- thread that has waited for long enough.
use libstpool.Base.{
  ℕ, ◌+◌, ◌≡◌, ◌⊎◌, refl, sym, ap, ◌∙◌, subst, List, [], ◌∷◌, Option, some, Bool, true, false, not,
  ◌&&◌, ◌==◌, arith, if◌then◌else◌, inl, inr,
}
use libstpool.Core.Threads.{Thread, wait, timedout, Env, modify, find, unqueue}
use libstpool.Core.Tally.{is_live, is_waked, is_sleeping, is_waiting}
use libstpool.Core.Census.{occ, waits_as, IsMarked, IsCensus}
use libstpool.Core.Pool.{Pool, Event}
use libstpool.Core.Status.{
  store, enter, status_changel, count_awake, rejoin, unlink_wait, may_retire, retire,
}
use libstpool.Core.Moves.{
  IsMove, IsMove-IsCensus, All-found, cnt-found, modify-modify, find-modify, found-tid,
}
use libstpool.Core.Revive.{occ-unqueue}
use libstpool.Core.Awake.{goes_on, goes_on-ths, leave_wait-env}
use libstpool.Core.Transitions.{enters}

abbrev leaves : Bool → Thread → Thread
leaves r t = if r then record t { rm = true } else t

-- The store of TIMEDOUT to a thread, without its status.
abbrev gone : Bool → Thread → Thread
gone r t = if r then record t { run = false; rm = true } else t

abbrev timed : Bool → Thread → Env → Env
timed r t e = goes_on (leaves r t) (if r then retire t (unlink_wait t e) else unlink_wait t e)

count_awake-ths : (t : Thread) (e : Env) → (count_awake t e).ths ≡ e.ths
unfolding count_awake
count_awake-ths t e = ground arith

unlink_wait-ths : (t : Thread) (e : Env) → (unlink_wait t e).ths ≡ e.ths
unfolding unlink_wait
unlink_wait-ths t e = ground arith

abbrev retired : Thread → Thread
retired t = record t { rm = true }

retired-goes_on :
    (t : Thread) (e : Env)
    → t.run ≡ true
    → goes_on (retired t) e ≡ rejoin (retired t) (count_awake (retired t) e)
retired-goes_on t e h = rw h refl

retired-ths :
    (t : Thread) (e : Env) → t.run ≡ true → (timed true t e).ths ≡ modify t.tid (gone true) e.ths
unfolding rejoin retire
retired-ths t e h =
    ap (λ (x : Env). x.ths) (retired-goes_on t (retire t (unlink_wait t e)) h)
    ∙ ap (modify t.tid (λ u. record u { run = false })) (
        count_awake-ths (retired t) (retire t (unlink_wait t e))
        ∙ ap (modify t.tid retired) (unlink_wait-ths t e))
    ∙ modify-modify t.tid retired (λ u. record u { run = false }) e.ths (λ t. refl)

modify_same : (i : ℕ) (ts : List Thread) → modify i (λ t. t) ts ≡ ts
modify_same i [] = refl
modify_same i (x ∷ ts) = ground (arith, modify_same i ts)

timed-ths :
    (r : Bool) (t : Thread) (e : Env)
    → IsMarked t
    → (r ≡ true → t.rm ≡ false)
    → (timed r t e).ths ≡ modify t.tid (gone r) e.ths
timed-ths true t e m k = retired-ths t e (m ∙ ap not (k refl))
timed-ths false t e m k =
    goes_on-ths t (unlink_wait t e) m ∙ unlink_wait-ths t e ∙ sym (modify_same t.tid e.ths)

unqueue_found :
    (i j : ℕ) (e : Env) (t : Thread)
    → find i e.ths ≡ some t
    → is_waiting t ≡ true
    → IsCensus 0 0 e
    → occ j (unqueue i e.ths_waitq) + (if i == j then 1 else 0) ≡ occ j e.ths_waitq
unqueue_found i j e t h w c = ground (
  arith,
  occ-unqueue j i e.ths_waitq,
  c.queued i,
  cnt-found (waits_as i) i e.ths t h,
  found-tid i e.ths t h,
)

retire-IsMove :
    (i : ℕ) (e : Env) (t : Thread)
    → find i e.ths ≡ some t
    → t.status ≡ wait
    → t.rm ≡ false
    → IsCensus 0 0 e
    → IsMove 0 0 0 0 e
        (store i (enters timedout) (timed true t e))
        t
        (enters timedout (gone true t))
unfolding count_awake rejoin retire unlink_wait
retire-IsMove i e t h w m c = rw (retired-goes_on t (retire t (unlink_wait t e)) run) (record {
  live = ground (arith, c.tally.live, cnt-found is_live i e.ths t h);
  dying = ground arith;
  running = ground arith;
  dying_run = ground arith;
  sleeping = ground (arith, c.tally.sleeping, cnt-found is_sleeping i e.ths t h);
  free = ground arith;
  waiting = ground (arith, c.tally.waiting, cnt-found is_waiting i e.ths t h);
  waked = ground (arith, c.tally.waked, cnt-found is_waked i e.ths t h);
  size = ground arith;
  name = refl;
  queue = λ j. ground (arith, unqueue_found i j e t h, found-tid i e.ths t h);
  mark = refl;
})
  where
    run : t.run ≡ true
    run = All-found IsMarked i e.ths t h c.marks ∙ ap not m

stay-IsMove :
    (i : ℕ) (e : Env) (t : Thread)
    → find i e.ths ≡ some t
    → t.status ≡ wait
    → IsCensus 0 0 e
    → IsMove 0 0 0 0 e (store i (enters timedout) (timed false t e)) t (enters timedout t)
unfolding count_awake rejoin unlink_wait
stay-IsMove i e t h w c = record {
  live = ground arith;
  dying = ground arith;
  running = ground arith;
  dying_run = ground arith;
  sleeping = ground (arith, marked, c.tally.sleeping, cnt-found is_sleeping i e.ths t h);
  free = ground (arith, marked);
  waiting = ground (arith, c.tally.waiting, cnt-found is_waiting i e.ths t h);
  waked = ground (arith, c.tally.waked, cnt-found is_waked i e.ths t h);
  size = ground arith;
  name = refl;
  queue = λ j. ground (arith, unqueue_found i j e t h, found-tid i e.ths t h);
  mark = marked;
}
  where
    marked : IsMarked t
    marked = All-found IsMarked i e.ths t h c.marks

timed-IsMove :
    (r : Bool) (i : ℕ) (e : Env) (t : Thread)
    → find i e.ths ≡ some t
    → t.status ≡ wait
    → (r ≡ true → t.rm ≡ false)
    → IsCensus 0 0 e
    → IsMove 0 0 0 0 e (store i (enters timedout) (timed r t e)) t (enters timedout (gone r t))
timed-IsMove true i e t h w m c = retire-IsMove i e t h w (m refl) c
timed-IsMove false i e t h w m c = stay-IsMove i e t h w c

timed-IsCensus :
    (r : Bool) (i : ℕ) (e : Env) (t : Thread)
    → find i e.ths ≡ some t
    → t.status ≡ wait
    → (r ≡ true → t.rm ≡ false)
    → IsCensus 0 0 e
    → IsCensus 0 0 (store i (enters timedout) (timed r t e))
timed-IsCensus r i e t h w m c =
    IsMove-IsCensus 0 0 0 0 i e (store i (enters timedout) (timed r t e)) t
      (λ x. enters timedout (gone r x)) h
      (ap (modify i (enters timedout)) ths
        ∙ modify-modify i (gone r) (enters timedout) e.ths gone_name)
      gone_name (timed-IsMove r i e t h w m c) c
  where
    gone_name : (t : Thread) → (gone r t).tid ≡ t.tid
    gone_name t = ground arith

    ths : (timed r t e).ths ≡ modify i (gone r) e.ths
    ths =
        timed-ths r t e (All-found IsMarked i e.ths t h c.marks) m
        ∙ ap (λ k. modify k (gone r) e.ths) (found-tid i e.ths t h)

unfoldable entered : Bool → Thread → Env → Env
entered r t e = if r then retire t (unlink_wait t e) else unlink_wait t e

entered-find :
    (r : Bool) (i : ℕ) (e : Env) (t : Thread)
    → find i e.ths ≡ some t
    → find i (entered r t e).ths ≡ some (leaves r t)
unfolding entered retire
entered-find true i e t h =
    ap (λ ts. find i (modify t.tid retired ts)) (unlink_wait-ths t e)
    ∙ ap (λ k. find i (modify k retired e.ths)) (found-tid i e.ths t h)
    ∙ find-modify i retired e.ths t (λ t. refl) h
entered-find false i e t h = ap (find i) (unlink_wait-ths t e) ∙ h

module _ (notifyl : Event → Pool → Pool) where
  timedout-env :
      (p : Pool) (i : ℕ) (made : List (Option ℕ)) (t : Thread) (r : Bool)
      → may_retire p t ≡ r
      → (r ≡ true → t.rm ≡ false)
      → IsMarked t
      → find i p.env.ths ≡ some t
      → t.status ≡ wait
      → (t.rm ≡ false) ⊎ (p.npendings ≡ 0)
      → (status_changel notifyl p i timedout made).env ≡ store i (enters timedout) (timed r t p.env)
  unfolding status_changel enter entered
  timedout-env p i made t r e m k h w n =
      rw (status_changel, h)
        (ap (store i (enters timedout)) (
          rw e (
            leave_wait-env (record p { env = entered r t p.env }) i made (leaves r t)
              (entered-find r i p.env t h) (kept r) (served r m n))))
    where
      kept : (r : Bool) → (leaves r t).status ≡ wait
      kept true = w
      kept false = w

      served :
          (r : Bool)
          → (r ≡ true → t.rm ≡ false)
          → (t.rm ≡ false) ⊎ (p.npendings ≡ 0)
          → (((leaves r t).rm && not (leaves r t).run) ≡ false) ⊎ (p.npendings ≡ 0)
      served true m n = inl (rw (k, m refl) refl)
      served false m (inl x) = inl (rw x refl)
      served false m (inr x) = inr x

  pub timedout-IsCensus :
      (p : Pool) (i : ℕ) (made : List (Option ℕ)) (t : Thread)
      → find i p.env.ths ≡ some t
      → t.status ≡ wait
      → (t.rm ≡ false) ⊎ (p.npendings ≡ 0)
      → IsCensus 0 0 p.env
      → IsCensus 0 0 (status_changel notifyl p i timedout made).env
  unfolding may_retire
  timedout-IsCensus p i made t h w n c =
      subst (IsCensus 0 0)
        (sym (
          timedout-env p i made t (may_retire p t) refl fresh
            (All-found IsMarked i p.env.ths t h c.marks) h w n))
        (timed-IsCensus (may_retire p t) i p.env t h w fresh c)
    where
      fresh : may_retire p t ≡ true → t.rm ≡ false
      fresh e = ground arith
