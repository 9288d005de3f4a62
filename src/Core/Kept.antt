-- ===== src/Core/Kept.antt =====
-- What calls for threads (pool/core/cpool_core.c, pool/core/cpool_core.h) do to a thread that is to
-- stay and does not wait.
use libstpool.Base.{
  ℕ, zero, suc, ◌-◌, ◌≡◌, refl, List, [], ◌∷◌, ◌++◌, Option, none, some, false, not, ◌&&◌, ◌||◌,
  ◌==◌, arith, if◌then◌else◌, if_elim, ltb, ℤ, pos, min,
}
use libstpool.Core.Threads.{Thread, ThreadStat, Env, modify, find}
use libstpool.Core.Wakeup.{
  decrement, is_one, waked, wake_first, wake_loop, wakeup_n_sleeping_threadsl,
}
use libstpool.Core.Grow.{
  count_revived, revive_loop, revive, link_new, create_loop, create, add_threadsl,
}
use libstpool.Core.Pool.{Pool}
use libstpool.Core.Services.{nthreads_to_create, ensure_servicesl}
use libstpool.Core.Status.{ensure_if_needed}

-- The thread is there, has this status and is to stay.
abbrev pub IsKept : ThreadStat → Option Thread → Type 0
IsKept s none = ⊥
IsKept s (some t) = (t.status ≡ s) × (t.rm ≡ false)

abbrev pub Keeps : ℕ → List Thread → List Thread → Type 0
Keeps i ts us = (s : ThreadStat) → IsKept s (find i ts) → IsKept s (find i us)

modify-Keeps :
    (i j : ℕ) (f : Thread → Thread) (ts : List Thread)
    → ((t : Thread) → (f t).tid ≡ t.tid)
    → ((t : Thread) → (f t).status ≡ t.status)
    → ((t : Thread) → (f t).rm ≡ t.rm)
    → Keeps i ts (modify j f ts)
modify-Keeps i j f [] n a b s k = k
modify-Keeps i j f (t ∷ ts) n a b s k = ground (arith, n t, a t, b t, modify-Keeps i j f ts n a b s)

append-Keeps : (i : ℕ) (ts us : List Thread) → Keeps i ts (ts ++ us)
append-Keeps i [] us s k = absurd k
append-Keeps i (t ∷ ts) us s k = ground (arith, append-Keeps i ts us s)

revive_loop-Keeps : (i : ℕ) (ts : List Thread) (n : ℕ) (e : Env) → Keeps i ts (revive_loop ts n e).0
unfolding revive_loop
revive_loop-Keeps i [] n e s k = k
revive_loop-Keeps i (t ∷ ts) n e s k =
    ground
      (arith, revive_loop-Keeps i ts n e s, revive_loop-Keeps i ts (n - 1) (count_revived e t) s)

revive-Keeps : (i n : ℕ) (e : Env) → Keeps i e.ths (revive n e).1.ths
unfolding revive
revive-Keeps i n e =
    if_elim (λ (x : ℕ × Env). Keeps i e.ths x.1.ths) (e.nthreads_dying == 0 || n == 0) (λ _ s k. k)
      (λ _. revive_loop-Keeps i e.ths n e)

link_new-Keeps :
    (i : ℕ) (self : Option ℕ) (j : ℕ) (ts : List Thread) → Keeps i ts (link_new self j ts)
unfolding link_new
link_new-Keeps i none j ts s k = append-Keeps i ts _ s k
link_new-Keeps i (some l) j ts s k =
    append-Keeps i (modify l _ ts) _ s
      (modify-Keeps i l _ ts (λ t. refl) (λ t. refl) (λ t. refl) s k)

create_loop-Keeps :
    (i : ℕ) (self : Option ℕ) (n : ℕ) (made : List (Option ℕ)) (ts : List Thread)
    → Keeps i ts (create_loop self n made ts).1
unfolding create_loop
create_loop-Keeps i self zero made ts s k = k
create_loop-Keeps i self (suc n) [] ts s k = k
create_loop-Keeps i self (suc n) (none ∷ made) ts s k = k
create_loop-Keeps i self (suc n) (some j ∷ made) ts s k =
    create_loop-Keeps i self n made (link_new self j ts) s (link_new-Keeps i self j ts s k)

add_threadsl-Keeps :
    (i : ℕ) (e : Env) (self : Option ℕ) (n : ℕ) (made : List (Option ℕ))
    → Keeps i e.ths (add_threadsl e self n made).1.ths
unfolding add_threadsl create
add_threadsl-Keeps i e self n made s k =
    create_loop-Keeps i self (revive n e).0 made (revive n e).1.ths s (revive-Keeps i n e s k)

wake_loop-Keeps :
    (i : ℕ) (q : List ℕ) (nwake : ℤ) (e : Env) → Keeps i e.ths (wake_loop q nwake e).ths
unfolding wake_loop wake_first
wake_loop-Keeps i [] nwake e s k = k
wake_loop-Keeps i (j ∷ rest) nwake e s k =
    if_elim (λ (x : Env). IsKept s (find i x.ths)) (is_one nwake) (λ _. one_waked)
      (λ _. wake_loop-Keeps i rest (decrement nwake) (wake_first e j rest) s one_waked)
  where
    one_waked : IsKept s (find i (modify j waked e.ths))
    one_waked = modify-Keeps i j waked e.ths (λ t. refl) (λ t. refl) (λ t. refl) s k

ensure_servicesl-Keeps :
    (i : ℕ) (p : Pool) (self : Option ℕ) (made : List (Option ℕ))
    → Keeps i p.env.ths (ensure_servicesl p self made).env.ths
unfolding ensure_servicesl wakeup_n_sleeping_threadsl
ensure_servicesl-Keeps i p self made =
    if_elim (λ (x : Pool). Keeps i p.env.ths x.env.ths)
      (not (p.env.n_qths_waked == 0)
        || (not (p.env.nthreads_real_free == 0)
            || (p.n_qdispatchs == 0 && (if p.paused then 0 else p.npendings) == 0)))
      (λ _ s k. k) (λ _. on_queue p.env.ths_waitq)
  where
    on_queue :
        (q : List ℕ)
        → Keeps i p.env.ths
            (elim q as (λ _. Pool) [
              | [] ↦
                  if ltb p.env.nthreads_real_pool p.maxthreads
                  then record p {
                    env =
                        (add_threadsl p.env self
                          (nthreads_to_create p (if p.paused then 0 else p.npendings))
                          made).1;
                  }
                  else p
              | j ∷ rest ↦ record p {
                env =
                    wakeup_n_sleeping_threadsl p.env (pos (min 2 p.limit_threads_create_per_time));
              }
            ]).env.ths
    on_queue [] =
        if_elim (λ (x : Pool). Keeps i p.env.ths x.env.ths)
          (ltb p.env.nthreads_real_pool p.maxthreads) (λ _. add_threadsl-Keeps i p.env self _ made)
          (λ _ s k. k)
    on_queue (j ∷ rest) = wake_loop-Keeps i p.env.ths_waitq _ p.env

pub ensure_if_needed-Keeps :
    (i j : ℕ) (p : Pool) (made : List (Option ℕ))
    → Keeps i p.env.ths (ensure_if_needed p j made).env.ths
unfolding ensure_if_needed
ensure_if_needed-Keeps i j p made =
    if_elim (λ (x : Pool). Keeps i p.env.ths x.env.ths)
      (p.env.nthreads_real_free == 0 && (p.env.n_qths_waked == 0 && not (p.npendings == 0)))
      (λ _. ensure_servicesl-Keeps i p (some j) made) (λ _ s k. k)
