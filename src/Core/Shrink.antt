-- ===== src/Core/Shrink.antt =====
-- cpool_core_dec_threadsl of pool/core/cpool_core.c: how many threads it marks, and what it keeps.
use libstpool.Base.{
  ℕ, ◌+◌, ◌-◌, ◌≤◌, ◌<◌, ◌≡◌, refl, sym, ◌∙◌, List, [], ◌∷◌, Bool, not, ◌&&◌, ◌||◌, ◌==◌, arith,
  if◌then◌else◌, Bool-cases, inl, inr, ltb, if_elim, min,
}
use libstpool.Core.Threads.{Thread, is_run, Env}
use libstpool.Core.Grow.{count_marked, mark_loop, dec_threadsl}
use libstpool.Core.Tally.{cnt, is_live, is_running, is_dying_run, nothing, refit}
use libstpool.Core.Census.{IsCensus}
use libstpool.Core.Mark.{mark_loop-Tally, mark_loop-Queued, mark_loop-Same}

-- The live threads that run, and those that do not.
abbrev busy : Thread → Bool
busy t = is_run t.status && not t.rm

abbrev idle : Thread → Bool
idle t = not (is_run t.status) && not t.rm

-- With no running thread to mark, `n` idle ones are marked if there are as many.
few_enough :
    (ts : List Thread) (n : ℕ) (e : Env) → 1 ≤ n → n ≤ cnt idle ts → (mark_loop ts n 0 e).1 ≡ n
unfolding mark_loop
few_enough [] n e h k = absurd (omega arith)
few_enough (t ∷ ts) n e h k =
    ground (arith, few_enough ts n e h, few_enough ts (n - 1) (count_marked e t))

-- With more to mark than are idle, all idle threads and `k` running ones are marked.
all_idle :
    (ts : List Thread) (n k : ℕ) (e : Env)
    → cnt idle ts < n
    → k ≤ cnt busy ts
    → (mark_loop ts n k e).1 ≡ cnt idle ts + k
unfolding mark_loop
all_idle [] n k e h l = omega arith
all_idle (t ∷ ts) n k e h l = ground (
  arith,
  all_idle ts n k e,
  all_idle ts (n - 1) k (count_marked e t),
  all_idle ts n (k - 1) (count_marked e t),
  all_idle ts n (k - 1) e,
)

busy-idle :
    (ts : List Thread)
    → (cnt is_live ts ≡ cnt idle ts + cnt busy ts)
      × (cnt is_running ts ≡ cnt busy ts + cnt is_dying_run ts)
busy-idle [] = omega arith
busy-idle (t ∷ ts) = ground (arith, busy-idle ts)

-- The least number of running threads that the call computes.
abbrev running_to_mark : Env → ℕ → ℕ
running_to_mark e n =
    let others = e.nthreads_real_pool - (e.nthreads_running - e.nthreads_dying_run) in
    if ltb others n then n - others else 0

running_to_mark_lem : (e : Env) (n : ℕ) → IsCensus 0 0 e → running_to_mark e n ≡ n - cnt idle e.ths
running_to_mark_lem e n c =
    ground (arith, busy-idle e.ths, c.tally.live, c.tally.running, c.tally.dying_run)

mark_loop-count :
    (e : Env) (n : ℕ)
    → IsCensus 0 0 e
    → 1 ≤ n
    → n ≤ e.nthreads_real_pool
    → (mark_loop e.ths n (running_to_mark e n) e).1 ≡ n
mark_loop-count e n c h l =
    rw (running_to_mark_lem e n c) (elim (Bool-cases (ltb (cnt idle e.ths) n)) [
      | inl more ↦
          all_idle e.ths n (n - cnt idle e.ths) e (ground arith)
            (omega (arith, busy-idle e.ths, c.tally.live))
          ∙ ground arith
      | inr few ↦
          let none_busy : n - cnt idle e.ths ≡ 0 = ground arith in
          rw none_busy (few_enough e.ths n e h (ground arith))
    ])

pub dec_threadsl-count :
    (e : Env) (n : ℕ) → IsCensus 0 0 e → (dec_threadsl e n).0 ≡ min e.nthreads_real_pool n
unfolding dec_threadsl
dec_threadsl-count e n c =
    if_elim (λ (x : ℕ × Env). x.0 ≡ min e.nthreads_real_pool n)
      (n == 0 || e.nthreads_real_pool == 0) (λ z. ground arith)
      (λ z. mark_loop-count e (min e.nthreads_real_pool n) c (ground arith) (omega arith))

pub dec_threadsl-IsCensus : (w n : ℕ) (e : Env) → IsCensus 0 w e → IsCensus 0 w (dec_threadsl e n).1
unfolding dec_threadsl
dec_threadsl-IsCensus w n e c =
    if_elim (λ (x : ℕ × Env). IsCensus 0 w x.1) (n == 0 || e.nthreads_real_pool == 0) (λ _. c)
      (λ _.
        let m = min e.nthreads_real_pool n in
        let k = running_to_mark e m in
        let s = mark_loop-Same e.ths m k e in
        record {
          tally =
              refit (nothing 0 w) _ _ _ _ _ _ _
                (mark_loop-Tally (nothing 0 w) e.ths m k e refl c.tally);
          size = s.n_qths ∙ c.size ∙ sym s.size;
          queued = λ i. omega (arith, mark_loop-Queued i 0 e.ths m k e (omega (arith, c.queued i)));
          unique = λ i. omega (arith, s.names i, c.unique i);
          marks = s.marks c.marks;
        })

-- The threads that are left.
pub dec_threadsl-left :
    (e : Env) (n : ℕ)
    → IsCensus 0 0 e
    → (dec_threadsl e n).1.nthreads_real_pool ≡ e.nthreads_real_pool - n
unfolding dec_threadsl
dec_threadsl-left e n c = omega (arith, balance, dec_threadsl-count e n c)
  where
    balance : (dec_threadsl e n).1.nthreads_real_pool + (dec_threadsl e n).0 ≡ e.nthreads_real_pool
    balance =
        if_elim (λ (x : ℕ × Env). x.1.nthreads_real_pool + x.0 ≡ e.nthreads_real_pool)
          (n == 0 || e.nthreads_real_pool == 0) (λ z. omega arith)
          (λ z.
            let m = min e.nthreads_real_pool n in
            let k = running_to_mark e m in
            omega (
              arith,
              c.tally.live,
              (mark_loop-Same e.ths m k e).fewer,
              (mark_loop-Tally (nothing 0 0) e.ths m k e refl c.tally).live,
            ))
