-- ===== src/Core/Grown.antt =====
-- cpool_core_add_threadsl of pool/core/cpool_core.c: which threads are taken back and which are new.
use mathlib.Core.List.{append-nil, append_assoc}
use libstpool.Base.{
  ℕ, zero, suc, ◌+◌, ◌-◌, ◌≤◌, ◌≡◌, refl, sym, ap, ◌∙◌, List, [], ◌∷◌, ◌++◌, Option, none, some,
  not, ◌||◌, ◌==◌, arith, if_elim, length, map, take,
}
use libstpool.Core.Threads.{Thread, Env, init_thread, modify}
use libstpool.Core.Grow.{
  count_revived, revive_loop, revive, link_new, create_loop, create, add_threadsl,
}
use libstpool.Core.Tally.{cnt, is_dying}
use libstpool.Core.Census.{IsCensus}
use libstpool.Core.Create.{queues, create_loop-cnt}
use libstpool.Core.Served.{create_loop-all, add_threadsl-all}

abbrev pub names : List Thread → List ℕ
names = map (λ (t : Thread). t.tid)

-- `n` threads that were told to leave are taken back, or all of them; `left` more are wanted.
record IsRevived (n : ℕ) (ts : List Thread) (e : Env) (x : List Thread × ℕ × Env) : Type 0 where
  left : x.1 ≡ n - cnt is_dying ts
  dying : x.2.nthreads_dying ≡ e.nthreads_dying - n
  marked : cnt is_dying x.0 ≡ cnt is_dying ts - n
  same : names x.0 ≡ names ts

one_less : (e : Env) (t : Thread) → (count_revived e t).nthreads_dying ≡ e.nthreads_dying - 1
unfolding count_revived
one_less e t = ground arith

revive_loop-IsRevived :
    (ts : List Thread) (n : ℕ) (e : Env)
    → 1 ≤ n
    → e.nthreads_dying ≡ cnt is_dying ts
    → IsRevived n ts e (revive_loop ts n e)
unfolding revive_loop
revive_loop-IsRevived [] n e l h = record {
  left = omega arith;
  dying = omega (arith, h);
  marked = omega arith;
  same = refl;
}
revive_loop-IsRevived (t ∷ ts) n e l h =
    if_elim (IsRevived n (t ∷ ts) e) (not t.rm)
      (λ live.
        let r = revive_loop-IsRevived ts n e l (ground (arith, h, live)) in
        record {
          left = ground (arith, r.left, live);
          dying = r.dying;
          marked = ground (arith, r.marked, live);
          same = ap (λ is. t.tid ∷ is) r.same;
        })
      (λ dies.
        let one = one_less e t in
        if_elim (IsRevived n (t ∷ ts) e) (n - 1 == 0 || (count_revived e t).nthreads_dying == 0)
          (λ stop. record {
            left = ground (arith, one, h, l, dies, stop);
            dying = ground (arith, one, h, l, dies, stop);
            marked = ground (arith, one, h, l, dies, stop);
            same = refl;
          })
          (λ on.
            let r =
              revive_loop-IsRevived ts (n - 1) (count_revived e t) (ground (arith, on))
                (ground (arith, one, h, dies)) in
            record {
              left = ground (arith, r.left, dies, l);
              dying = omega (arith, r.dying, one);
              marked = ground (arith, r.marked, dies, l);
              same = ap (λ is. t.tid ∷ is) r.same;
            }))

revive-IsRevived :
    (n : ℕ) (e : Env)
    → e.nthreads_dying ≡ cnt is_dying e.ths
    → IsRevived n e.ths e ((revive n e).1.ths, (revive n e).0, (revive n e).1)
unfolding revive
revive-IsRevived n e h =
    if_elim (λ (x : ℕ × Env). IsRevived n e.ths e (x.1.ths, x.0, x.1))
      (e.nthreads_dying == 0 || n == 0)
      (λ k. record {
        left = ground (arith, h, k);
        dying = ground (arith, h, k);
        marked = ground (arith, h, k);
        same = refl;
      })
      (λ k.
        let r = revive_loop-IsRevived e.ths n e (ground (arith, k)) h in
        record { left = r.left; dying = r.dying; marked = r.marked; same = r.same })

names-append : (ts : List Thread) (t : Thread) → names (ts ++ t ∷ []) ≡ names ts ++ t.tid ∷ []
names-append [] t = refl
names-append (u ∷ ts) t = ap (λ is. u.tid ∷ is) (names-append ts t)

names-modify : (s i : ℕ) (ts : List Thread) → names (modify s (queues i) ts) ≡ names ts
names-modify s i [] = refl
names-modify s i (t ∷ ts) =
    if_elim (λ (us : List Thread). names us ≡ names (t ∷ ts)) (t.tid == s) (λ _. refl)
      (λ _. ap (λ is. t.tid ∷ is) (names-modify s i ts))

names-link_new :
    (self : Option ℕ) (i : ℕ) (ts : List Thread) → names (link_new self i ts) ≡ names ts ++ i ∷ []
unfolding link_new init_thread
names-link_new none i ts = names-append ts (init_thread i)
names-link_new (some s) i ts =
    names-append (modify s (queues i) ts) (init_thread i)
    ∙ ap (λ is. is ++ i ∷ []) (names-modify s i ts)

names-create_loop :
    (self : Option ℕ) (n : ℕ) (is : List ℕ) (ts : List Thread)
    → names (create_loop self n (map some is) ts).1 ≡ names ts ++ take n is
unfolding create_loop
names-create_loop self zero is ts = sym (append-nil (names ts))
names-create_loop self (suc n) [] ts = sym (append-nil (names ts))
names-create_loop self (suc n) (i ∷ is) ts =
    names-create_loop self n is (link_new self i ts)
    ∙ ap (λ js. js ++ take n is) (names-link_new self i ts)
    ∙ append_assoc (names ts) (i ∷ []) (take n is)

fresh_live : (i : ℕ) → cnt is_dying (init_thread i ∷ []) ≡ 0
unfolding init_thread
fresh_live i = refl

-- What a call does: `n` threads are added, of which as many as possible are those that were told to
-- leave, and `new` ones are the next that the system gives.
pub record IsGrown (n : ℕ) (is : List ℕ) (e : Env) (x : ℕ × Env) : Type 0 where
  pub live : x.1.nthreads_real_pool ≡ e.nthreads_real_pool + n
  pub created : x.0 ≡ n - cnt is_dying e.ths
  pub threads : names x.1.ths ≡ names e.ths ++ take (n - cnt is_dying e.ths) is
  pub dying : x.1.nthreads_dying ≡ e.nthreads_dying - n
  pub marked : cnt is_dying x.1.ths ≡ cnt is_dying e.ths - n

-- Where the system gives every thread that is asked for and the counters agree with the threads,
-- cpool_core_add_threadsl raises the number of live threads by the number that is asked for. As
-- many of the threads that were told to leave as are needed are taken back, so that fewer are
-- marked to leave by this number and `nthreads_dying` falls by it, and only the rest is created:
-- the new threads are the first that the system gives, they are put behind the others in order,
-- and the result is their number.
pub add_threadsl-IsGrown :
    (r w : ℕ) (e : Env) (self : Option ℕ) (n : ℕ) (is : List ℕ)
    → n ≤ length is
    → IsCensus r w e
    → IsGrown n is e (add_threadsl e self n (map some is))
unfolding add_threadsl create
add_threadsl-IsGrown r w e self n is h c =
    let v = revive-IsRevived n e (omega (arith, c.tally.dying)) in
    record {
      live = add_threadsl-all e self n is h;
      created =
          create_loop-all self (revive n e).0 is (revive n e).1.ths (omega (arith, v.left, h))
          ∙ v.left;
      threads =
          names-create_loop self (revive n e).0 is (revive n e).1.ths
          ∙ ap (λ js. js ++ take (revive n e).0 is) v.same
          ∙ ap (λ k. names e.ths ++ take k is) v.left;
      dying = v.dying;
      marked = omega (
        arith,
        create_loop-cnt is_dying 0 self (revive n e).0 (map some is) (revive n e).1.ths
            (λ i t. refl) fresh_live,
        v.marked,
      );
    }
