-- ===== src/Core/Leave.antt =====
-- The census through cpool_core_thread_status_changel, pool/core/cpool_core_thread_status.h: a
-- thread that was told to leave does so.
use libstpool.Base.{
  ℕ, ◌+◌, ◌≡◌, refl, sym, ap, ◌∙◌, subst, List, [], ◌∷◌, Option, none, some, Bool, true, false,
  ◌==◌, arith, if◌then◌else◌, inl, inr, if_elim, Bool-cases, length, All,
}
use libstpool.Cache.Defs.{is_own}
use libstpool.Core.Threads.{Thread, leave, is_wait, is_run, Env, modify, find, remove}
use libstpool.Core.Tally.{
  cnt, is_live, is_dying, is_running, is_dying_run, is_sleeping, is_free, is_waiting, is_waked,
  some_inj,
}
use libstpool.Core.Census.{named, waits_as, IsMarked, IsCensus}
use libstpool.Core.Pool.{Pool, Event}
use libstpool.Core.Status.{
  store, enter, status_changel, unlink_leave, leave_wait, local_flushl, flushed, last_left,
}
use libstpool.Core.Moves.{one, found-tid}
use libstpool.Core.Transitions.{enters}
use libstpool.Core.Sleep.{IsQuiet, try_notifyl-env}

cnt-remove :
    (p : Thread → Bool) (i : ℕ) (ts : List Thread) (t : Thread)
    → find i ts ≡ some t
    → cnt p (remove i ts) + one p t ≡ cnt p ts
cnt-remove p i [] t h = cc
cnt-remove p i (x ∷ ts) t h = elim (Bool-cases (x.tid == i)) [
  | inl same ↦ let e : x ≡ t = some_inj (rw same at h) in rw same (rw (sym e) (omega arith))
  | inr other ↦ rw other (omega (arith, cnt-remove p i ts t (rw other at h)))
]

length-remove :
    (i : ℕ) (ts : List Thread) (t : Thread)
    → find i ts ≡ some t
    → length (remove i ts) + 1 ≡ length ts
length-remove i [] t h = cc
length-remove i (x ∷ ts) t h = elim (Bool-cases (x.tid == i)) [
  | inl same ↦ rw same (omega arith)
  | inr other ↦ rw other (omega (arith, length-remove i ts t (rw other at h)))
]

All-remove {ℓ} : (P : Thread → Type ℓ) (i : ℕ) (ts : List Thread) → All P ts → All P (remove i ts)
All-remove P i [] a = tt
All-remove P i (x ∷ ts) a =
    if_elim (All P) (x.tid == i) (λ _. a.1) (λ _. (a.0, All-remove P i ts a.1))

-- No thread of this number is there.
absent-modify :
    (i : ℕ) (f : Thread → Thread) (ts : List Thread) → cnt (named i) ts ≡ 0 → modify i f ts ≡ ts
absent-modify i f [] h = refl
absent-modify i f (x ∷ ts) h = ground (arith, absent-modify i f ts)

absent-find : (i : ℕ) (ts : List Thread) → cnt (named i) ts ≡ 0 → find i ts ≡ none
absent-find i [] h = refl
absent-find i (x ∷ ts) h = ground (arith, absent-find i ts)

gone-absent :
    (i : ℕ) (e : Env) (t : Thread)
    → find i e.ths ≡ some t
    → IsCensus 0 0 e
    → cnt (named i) (remove i e.ths) ≡ 0
gone-absent i e t h c =
    ground (arith, c.unique i, cnt-remove (named i) i e.ths t h, found-tid i e.ths t h)

unlink_leave-IsCensus :
    (i : ℕ) (e : Env) (t : Thread)
    → find i e.ths ≡ some t
    → t.rm ≡ true
    → is_wait t.status ≡ false
    → is_run t.status ≡ false
    → IsCensus 0 0 e
    → IsCensus 0 0 (unlink_leave t e)
unfolding unlink_leave
unlink_leave-IsCensus i e t h m w s c = rw (found-tid i e.ths t h) (record {
  tally = record {
    live = ground (arith, c.tally.live, cnt-remove is_live i e.ths t h);
    dying = ground (arith, c.tally.dying, cnt-remove is_dying i e.ths t h);
    running = ground (arith, c.tally.running, cnt-remove is_running i e.ths t h);
    dying_run = ground (arith, c.tally.dying_run, cnt-remove is_dying_run i e.ths t h);
    sleeping = ground (arith, c.tally.sleeping, cnt-remove is_sleeping i e.ths t h);
    free = ground (arith, c.tally.free, cnt-remove is_free i e.ths t h);
    waiting = ground (arith, c.tally.waiting, cnt-remove is_waiting i e.ths t h);
    waked = ground (arith, c.tally.waked, cnt-remove is_waked i e.ths t h);
  };
  size = omega (arith, c.size, length-remove i e.ths t h);
  queued = λ j. ground (arith, c.queued j, cnt-remove (waits_as j) i e.ths t h);
  unique = λ j. omega (arith, c.unique j, cnt-remove (named j) i e.ths t h);
  marks = All-remove IsMarked i e.ths c.marks;
})

store-absent : (i : ℕ) (f : Thread → Thread) (e : Env) → cnt (named i) e.ths ≡ 0 → store i f e ≡ e
store-absent i f e h = ap (λ ts. record e { ths = ts }) (absent-modify i f e.ths h)

unlink_leave-absent :
    (i : ℕ) (e : Env) (t : Thread)
    → find i e.ths ≡ some t
    → IsCensus 0 0 e
    → cnt (named i) (unlink_leave t e).ths ≡ 0
unfolding unlink_leave
unlink_leave-absent i e t h c = rw (found-tid i e.ths t h) (gone-absent i e t h c)

leave_wait-none :
    (p : Pool) (i : ℕ) (made : List (Option ℕ)) → find i p.env.ths ≡ none → leave_wait p i made ≡ p
unfolding leave_wait
leave_wait-none p i made h = rw (leave_wait, h) refl

module _ (notifyl : Event → Pool → Pool) where
  -- The stores to the structure of the thread that has left do not reach a thread of the list.
  leave-env :
      (p : Pool) (i : ℕ) (made : List (Option ℕ)) (t : Thread)
      → IsQuiet notifyl
      → find i p.env.ths ≡ some t
      → IsCensus 0 0 p.env
      → (status_changel notifyl p i leave made).env ≡ unlink_leave t p.env
  unfolding enter local_flushl status_changel
  leave-env p i made t q h c =
      rw (status_changel, h)
        (ap (λ (x : Pool). store i (enters leave) x.env) (leave_wait-none entered i made nobody)
          ∙ ap (store i (enters leave)) entered-env
          ∙ store-absent i (enters leave) (unlink_leave t p.env) absent)
    where
      absent : cnt (named i) (unlink_leave t p.env).ths ≡ 0
      absent = unlink_leave-absent i p.env t h c

      entered : Pool
      entered = enter notifyl p t leave made

      left : Pool
      left = record p {
        env = unlink_leave t p.env;
        ths_broadcasts = p.ths_broadcasts + (if last_left t (unlink_leave t p.env) then 1 else 0);
        gc_thread = if t.gc then none else p.gc_thread;
      }

      entered-env : entered.env ≡ unlink_leave t p.env
      entered-env =
          try_notifyl-env notifyl (local_flushl t left) q
          ∙ ap (λ k. store k (flushed (is_own p.cache_task.lock)) (unlink_leave t p.env))
              (found-tid i p.env.ths t h)
          ∙ store-absent i (flushed (is_own p.cache_task.lock)) (unlink_leave t p.env) absent

      nobody : find i entered.env.ths ≡ none
      nobody =
          ap (λ (e : Env). find i e.ths) entered-env
          ∙ absent-find i (unlink_leave t p.env).ths absent

  pub leave-IsCensus :
      (p : Pool) (i : ℕ) (made : List (Option ℕ)) (t : Thread)
      → IsQuiet notifyl
      → find i p.env.ths ≡ some t
      → t.rm ≡ true
      → is_wait t.status ≡ false
      → is_run t.status ≡ false
      → IsCensus 0 0 p.env
      → IsCensus 0 0 (status_changel notifyl p i leave made).env
  leave-IsCensus p i made t q h m w s c =
      subst (IsCensus 0 0) (sym (leave-env p i made t q h c))
        (unlink_leave-IsCensus i p.env t h m w s c)
