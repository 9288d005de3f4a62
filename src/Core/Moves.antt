-- ===== src/Core/Moves.antt =====
-- The store to one thread and the counters that change with it (pool/core/cpool_core_struct.h).
use libstpool.Base.{
  ℕ, ◌+◌, ◌≤◌, ◌≡◌, refl, sym, ap, subst, List, [], ◌∷◌, some, Bool, true, ◌==◌, arith,
  if◌then◌else◌, Bool-cases, inl, inr, length, All, if_elim,
}
use libstpool.Core.Threads.{Thread, Env, modify, find}
use libstpool.Core.Tally.{
  cnt, is_live, is_dying, is_running, is_dying_run, is_sleeping, is_free, is_waiting, is_waked,
  nothing, Tally, some_inj,
}
use libstpool.Core.Census.{occ, named, waits_as, IsMarked, IsCensus}
use libstpool.Core.Create.{cnt-modify, length-modify}

abbrev pub one : (Thread → Bool) → Thread → ℕ
one p t = if p t then 1 else 0

pub found-tid : (i : ℕ) (ts : List Thread) (t : Thread) → find i ts ≡ some t → t.tid ≡ i
found-tid i [] t h = cc
found-tid i (x ∷ ts) t h = elim (Bool-cases (x.tid == i)) [
  | inl same ↦
      let e : x ≡ t = some_inj (rw same at h) in ground (arith, ap (λ (y : Thread). y.tid) e)
  | inr other ↦ found-tid i ts t (rw other at h)
]

pub modify-modify :
    (i : ℕ) (f g : Thread → Thread) (ts : List Thread)
    → ((t : Thread) → (f t).tid ≡ t.tid)
    → modify i g (modify i f ts) ≡ modify i (λ t. g (f t)) ts
modify-modify i f g [] h = refl
modify-modify i f g (t ∷ ts) h = elim (Bool-cases (t.tid == i)) [
  | inl same ↦ let same' : ((f t).tid == i) ≡ true = ground (arith, h t) in rw same (rw same' refl)
  | inr other ↦ rw other (rw other (ap (λ us. t ∷ us) (modify-modify i f g ts h)))
]

pub find-modify :
    (i : ℕ) (f : Thread → Thread) (ts : List Thread) (t : Thread)
    → ((t : Thread) → (f t).tid ≡ t.tid)
    → find i ts ≡ some t
    → find i (modify i f ts) ≡ some (f t)
find-modify i f [] t h k = cc
find-modify i f (x ∷ ts) t h k = elim (Bool-cases (x.tid == i)) [
  | inl same ↦
      let same' : ((f x).tid == i) ≡ true = ground (arith, h x) in
      let e : x ≡ t = some_inj (rw same at k) in rw same (rw same' (ap (λ y. some (f y)) e))
  | inr other ↦ rw other (rw other (find-modify i f ts t h (rw other at k)))
]

-- The count of a kind changes by what the thread counts for before and after.
pub cnt-modify_at :
    (p : Thread → Bool) (i : ℕ) (f : Thread → Thread) (ts : List Thread) (t : Thread)
    → find i ts ≡ some t
    → cnt p (modify i f ts) + one p t ≡ cnt p ts + one p (f t)
cnt-modify_at p i f [] t h = cc
cnt-modify_at p i f (x ∷ ts) t h = elim (Bool-cases (x.tid == i)) [
  | inl same ↦ let e : x ≡ t = some_inj (rw same at h) in rw same (rw (sym e) (omega arith))
  | inr other ↦ rw other (omega (arith, cnt-modify_at p i f ts t (rw other at h)))
]

All-modify_at {ℓ} :
    (P : Thread → Type ℓ) (i : ℕ) (f : Thread → Thread) (ts : List Thread) (t : Thread)
    → find i ts ≡ some t
    → P (f t)
    → All P ts
    → All P (modify i f ts)
All-modify_at P i f [] t h k a = tt
All-modify_at P i f (x ∷ ts) t h k a =
    if_elim (All P) (x.tid == i)
      (λ same. let e : x ≡ t = some_inj (rw same at h) in (subst (λ y. P (f y)) (sym e) k, a.1))
      (λ other. (a.0, All-modify_at P i f ts t (rw other at h) k a.1))

-- The thread `t` of the threads `ts` becomes `u`, and the counters change with it.
pub record IsMove (r w r' w' : ℕ) (e e' : Env) (t u : Thread) : Type 0 where
  pub live : e'.nthreads_real_pool + one is_live t ≡ e.nthreads_real_pool + one is_live u
  pub dying : e'.nthreads_dying + one is_dying t ≡ e.nthreads_dying + one is_dying u
  pub running :
      e'.nthreads_running + one is_running t + r ≡ e.nthreads_running + one is_running u + r'
  pub dying_run :
      e'.nthreads_dying_run + one is_dying_run t ≡ e.nthreads_dying_run + one is_dying_run u
  pub sleeping :
      e'.nthreads_real_sleeping + one is_sleeping t ≡ e.nthreads_real_sleeping + one is_sleeping u
  pub free : e'.nthreads_real_free + r' + one is_free t ≡ e.nthreads_real_free + r + one is_free u
  pub waiting : e'.n_qths_wait + one is_waiting t ≡ e.n_qths_wait + one is_waiting u
  pub waked : e'.n_qths_waked + w' + one is_waked t ≡ e.n_qths_waked + w + one is_waked u
  pub size : e'.n_qths ≡ e.n_qths
  pub name : u.tid ≡ t.tid
  pub queue :
      (j : ℕ) → occ j e'.ths_waitq + one (waits_as j) t ≡ occ j e.ths_waitq + one (waits_as j) u
  pub mark : IsMarked u

pub IsMove-IsCensus :
    (r w r' w' i : ℕ) (e e' : Env) (t : Thread) (f : Thread → Thread)
    → find i e.ths ≡ some t
    → e'.ths ≡ modify i f e.ths
    → ((t : Thread) → (f t).tid ≡ t.tid)
    → IsMove r w r' w' e e' t (f t)
    → IsCensus r w e
    → IsCensus r' w' e'
IsMove-IsCensus r w r' w' i e e' t f h s n m c = record {
  tally = subst (Tally (nothing r' w') e') (sym s) (record {
    live = omega (arith, c.tally.live, m.live, at is_live);
    dying = omega (arith, c.tally.dying, m.dying, at is_dying);
    running = omega (arith, c.tally.running, m.running, at is_running);
    dying_run = omega (arith, c.tally.dying_run, m.dying_run, at is_dying_run);
    sleeping = omega (arith, c.tally.sleeping, m.sleeping, at is_sleeping);
    free = omega (arith, c.tally.free, m.free, at is_free);
    waiting = omega (arith, c.tally.waiting, m.waiting, at is_waiting);
    waked = omega (arith, c.tally.waked, m.waked, at is_waked);
  });
  size = omega (arith, c.size, m.size, length-modify i f e.ths, ap length s);
  queued = λ j. omega (arith, c.queued j, m.queue j, at (waits_as j), ap (cnt (waits_as j)) s);
  unique = λ j. omega (
    arith,
    c.unique j,
    cnt-modify (named j) i f e.ths (λ x. ap (λ k. k == j) (n x)),
    ap (cnt (named j)) s,
  );
  marks = subst (All IsMarked) (sym s) (All-modify_at IsMarked i f e.ths t h m.mark c.marks);
}
  where
    at : (p : Thread → Bool) → cnt p (modify i f e.ths) + one p t ≡ cnt p e.ths + one p (f t)
    at p = cnt-modify_at p i f e.ths t h

pub All-found {ℓ} :
    (P : Thread → Type ℓ) (i : ℕ) (ts : List Thread) (t : Thread)
    → find i ts ≡ some t
    → All P ts
    → P t
All-found P i [] t h a = cc
All-found P i (x ∷ ts) t h a = elim (Bool-cases (x.tid == i)) [
  | inl same ↦ let e : x ≡ t = some_inj (rw same at h) in subst P e a.0
  | inr other ↦ All-found P i ts t (rw other at h) a.1
]

pub cnt-found :
    (p : Thread → Bool) (i : ℕ) (ts : List Thread) (t : Thread)
    → find i ts ≡ some t
    → one p t ≤ cnt p ts
cnt-found p i [] t h = cc
cnt-found p i (x ∷ ts) t h = elim (Bool-cases (x.tid == i)) [
  | inl same ↦ let e : x ≡ t = some_inj (rw same at h) in rw (sym e) (omega arith)
  | inr other ↦ omega (arith, cnt-found p i ts t (rw other at h))
]
