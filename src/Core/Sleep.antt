-- ===== src/Core/Sleep.antt =====
-- The census through cpool_core_thread_status_changel, pool/core/cpool_core_thread_status.h: a
-- thread goes to sleep.
use libstpool.Base.{
  ℕ, ◌≡◌, refl, sym, ap, ◌∙◌, subst, List, Option, some, Bool, true, false, not, ◌&&◌, arith,
  if_elim,
}
use libstpool.Cache.Defs.{is_own}
use libstpool.Core.Threads.{Thread, wait, is_wait, is_run, Env, modify, find}
use libstpool.Core.Tally.{is_free}
use libstpool.Core.Census.{IsMarked, IsCensus}
use libstpool.Core.Pool.{Pool, Event, event_free, all_donel, event_free_try_notifyl}
use libstpool.Core.Status.{
  store, enter, status_changel, count_wait, link_wait, local_flushl, flushed,
}
use libstpool.Core.Moves.{
  IsMove, IsMove-IsCensus, All-found, cnt-found, modify-modify, find-modify, found-tid,
}
use libstpool.Core.Transitions.{enters, changed}

-- The underlying pool leaves the threads alone when it hears that the pool is idle.
abbrev pub IsQuiet : (Event → Pool → Pool) → Type 0
IsQuiet notifyl = (q : Pool) → (notifyl event_free q).env ≡ q.env

all_donel-env : (p : Pool) → (all_donel p).1.env ≡ p.env
unfolding all_donel
all_donel-env p = refl

pub try_notifyl-env :
    (notifyl : Event → Pool → Pool) (p : Pool)
    → IsQuiet notifyl
    → (event_free_try_notifyl notifyl p).env ≡ p.env
unfolding event_free_try_notifyl all_donel
try_notifyl-env notifyl p q =
    if_elim (λ (x : Pool). x.env ≡ p.env)
      ((all_donel p).0 && not (all_donel p).1.event_free_notified)
      (λ _. q (record (all_donel p).1 { event_free_notified = true })) (λ _. all_donel-env p)

-- The store of WAIT to a thread, without its status.
abbrev rests : Bool → Thread → Thread
rests own t = record (flushed own t) { b_waked = false }

rests_name : (own : Bool) (t : Thread) → (rests own t).tid ≡ t.tid
unfolding flushed
rests_name own t = refl

abbrev asleep : Bool → Thread → Env → Env
asleep own t e = link_wait t.tid (store t.tid (flushed own) (count_wait t e))

count_wait-ths : (t : Thread) (e : Env) → (count_wait t e).ths ≡ e.ths
unfolding count_wait
count_wait-ths t e = ground arith

asleep-ths :
    (own : Bool) (t : Thread) (e : Env) → (asleep own t e).ths ≡ modify t.tid (rests own) e.ths
unfolding link_wait flushed
asleep-ths own t e =
    ap (λ ts. modify t.tid (λ u. record u { b_waked = false }) (modify t.tid (flushed own) ts))
      (count_wait-ths t e)
    ∙ modify-modify t.tid (flushed own) (λ u. record u { b_waked = false }) e.ths (λ t. refl)

asleep-IsMove :
    (own : Bool) (i : ℕ) (e : Env) (t : Thread)
    → find i e.ths ≡ some t
    → is_wait t.status ≡ false
    → is_run t.status ≡ false
    → IsCensus 0 0 e
    → IsMove 0 0 0 0 e (store i (enters wait) (asleep own t e)) t (enters wait (rests own t))
unfolding link_wait count_wait flushed
asleep-IsMove own i e t h w s c = record {
  live = ground arith;
  dying = ground arith;
  running = ground arith;
  dying_run = ground arith;
  sleeping = ground arith;
  free = ground (arith, c.tally.free, cnt-found is_free i e.ths t h);
  waiting = ground arith;
  waked = ground arith;
  size = ground arith;
  name = refl;
  queue = λ j. ground arith;
  mark = ground (arith, All-found IsMarked i e.ths t h c.marks);
}

pub wait-IsCensus :
    (notifyl : Event → Pool → Pool) (p : Pool) (i : ℕ) (made : List (Option ℕ)) (t : Thread)
    → IsQuiet notifyl
    → find i p.env.ths ≡ some t
    → is_wait t.status ≡ false
    → is_run t.status ≡ false
    → IsCensus 0 0 p.env
    → IsCensus 0 0 (status_changel notifyl p i wait made).env
unfolding enter local_flushl
wait-IsCensus notifyl p i made t q h w s c =
    subst (IsCensus 0 0)
      (sym (
        changed notifyl p i wait made t (rests own t) h
          (ap (λ (e : Env). find i e.ths) quiet
            ∙ (ap (find i) ths ∙ find-modify i (rests own) p.env.ths t (rests_name own) h))
          w
        ∙ ap (store i (enters wait)) quiet))
      (IsMove-IsCensus 0 0 0 0 i p.env (store i (enters wait) (asleep own t p.env)) t
        (λ x. enters wait (rests own x)) h
        (ap (modify i (enters wait)) ths
          ∙ modify-modify i (rests own) (enters wait) p.env.ths (rests_name own))
        (rests_name own) (asleep-IsMove own i p.env t h w s c) c)
  where
    own : Bool
    own = is_own p.cache_task.lock

    rested : Pool
    rested = local_flushl t (record p { env = count_wait t p.env })

    quiet : (enter notifyl p t wait made).env ≡ asleep own t p.env
    quiet = try_notifyl-env notifyl (record rested { env = link_wait t.tid rested.env }) q

    ths : (asleep own t p.env).ths ≡ modify i (rests own) p.env.ths
    ths =
        asleep-ths own t p.env
        ∙ ap (λ k. modify k (rests own) p.env.ths) (found-tid i p.env.ths t h)
