-- ===== src/Core/Revive.antt =====
-- cpool_core_add_threadsl of pool/core/cpool_core.c: the threads that it takes back.
use libstpool.Base.{
  ℕ, suc, ◌+◌, ◌-◌, ◌≡◌, refl, sym, ap, ◌∙◌, List, [], ◌∷◌, true, not, ◌||◌, ◌==◌, arith,
  if◌then◌else◌, length, All, if_elim,
}
use libstpool.Core.Threads.{Thread, Env, unqueue}
use libstpool.Core.Grow.{revived, count_revived, revive_loop, revive}
use libstpool.Core.Tally.{cnt, Counts, nothing, counting, Tally, shift, unshift, refit}
use libstpool.Core.Census.{occ, named, waits_as, IsMarked, IsCensus}

count_revived-Tally :
    (b : Counts) (e : Env) (t : Thread) (ts : List Thread)
    → t.rm ≡ true
    → Tally b e (t ∷ ts)
    → Tally b (count_revived e t) (revived t ∷ ts)
unfolding count_revived
count_revived-Tally b e t ts m h = ground arith

abbrev Kept : Counts → List Thread × ℕ × Env → Type 0
Kept b r = Tally b r.2 r.0

revive_loop-Tally :
    (b : Counts) (ts : List Thread) (n : ℕ) (e : Env) → Tally b e ts → Kept b (revive_loop ts n e)
unfolding revive_loop
revive_loop-Tally b [] n e h = h
revive_loop-Tally b (t ∷ ts) n e h =
    let e' = count_revived e t in
    if_elim (Kept b) (not t.rm)
      (λ _. unshift b _ t _ (revive_loop-Tally (counting b t) ts n e (shift b e t ts h)))
      (λ m.
        let now = count_revived-Tally b e t ts (ground arith) h in
        if_elim (Kept b) (n - 1 == 0 || e'.nthreads_dying == 0) (λ _. now)
          (λ _. unshift b _ (revived t) _ (
            revive_loop-Tally (counting b (revived t)) ts (n - 1) e'
              (shift b e' (revived t) ts now))))

pub occ-unqueue : (i j : ℕ) (q : List ℕ) → occ i (unqueue j q) ≡ occ i q - (if j == i then 1 else 0)
occ-unqueue i j [] = omega arith
occ-unqueue i j (h ∷ q) = ground (arith, occ-unqueue i j q)

abbrev Queued : ℕ → ℕ → List Thread × ℕ × Env → Type 0
Queued i k r = occ i r.2.ths_waitq ≡ k + cnt (waits_as i) r.0

count_revived-Queued :
    (i k : ℕ) (e : Env) (t : Thread) (ts : List Thread) (n : ℕ)
    → t.rm ≡ true
    → Queued i k (t ∷ ts, n, e)
    → Queued i k (revived t ∷ ts, n, count_revived e t)
unfolding count_revived
count_revived-Queued i k e t ts n m h = ground (arith, occ-unqueue i t.tid e.ths_waitq)

revive_loop-Queued :
    (i k : ℕ) (ts : List Thread) (n : ℕ) (e : Env)
    → Queued i k (ts, n, e)
    → Queued i k (revive_loop ts n e)
unfolding revive_loop
revive_loop-Queued i k [] n e h = h
revive_loop-Queued i k (t ∷ ts) n e h =
    let e' = count_revived e t in
    if_elim (Queued i k) (not t.rm)
      (λ _.
        omega (arith, revive_loop-Queued i (k + cnt (waits_as i) (t ∷ [])) ts n e (omega arith)))
      (λ m.
        let now = count_revived-Queued i k e t ts n (ground arith) h in
        if_elim (Queued i k) (n - 1 == 0 || e'.nthreads_dying == 0) (λ _. now)
          (λ _. omega (
            arith,
            revive_loop-Queued i (k + cnt (waits_as i) (revived t ∷ [])) ts (n - 1) e'
                (omega (arith, now)),
          )))

-- The same threads in the same order, and what the loop does not touch.
record Same (ts : List Thread) (e : Env) (r : List Thread × ℕ × Env) : Type 0 where
  names : (i : ℕ) → cnt (named i) r.0 ≡ cnt (named i) ts
  size : length r.0 ≡ length ts
  n_qths : r.2.n_qths ≡ e.n_qths
  marks : All IsMarked ts → All IsMarked r.0

count_revived-n_qths : (e : Env) (t : Thread) → (count_revived e t).n_qths ≡ e.n_qths
unfolding count_revived
count_revived-n_qths e t = ground arith

revive_loop-Same : (ts : List Thread) (n : ℕ) (e : Env) → Same ts e (revive_loop ts n e)
unfolding revive_loop
revive_loop-Same [] n e = record { names = λ i. refl; size = refl; n_qths = refl; marks = λ m. m }
revive_loop-Same (t ∷ ts) n e =
    let e' = count_revived e t in
    let same = count_revived-n_qths e t in
    if_elim (Same (t ∷ ts) e) (not t.rm)
      (λ _.
        let s = revive_loop-Same ts n e in
        record {
          names = λ i. omega (arith, s.names i);
          size = ap suc s.size;
          n_qths = s.n_qths;
          marks = λ m. (m.0, s.marks m.1);
        })
      (λ _.
        if_elim (Same (t ∷ ts) e) (n - 1 == 0 || e'.nthreads_dying == 0)
          (λ _. record { names = λ i. refl; size = refl; n_qths = same; marks = λ m. (refl, m.1) })
          (λ _.
            let s = revive_loop-Same ts (n - 1) e' in
            record {
              names = λ i. omega (arith, s.names i);
              size = ap suc s.size;
              n_qths = s.n_qths ∙ same;
              marks = λ m. (refl, s.marks m.1);
            }))

pub revive-IsCensus : (r w n : ℕ) (e : Env) → IsCensus r w e → IsCensus r w (revive n e).1
unfolding revive
revive-IsCensus r w n e c =
    if_elim (λ (x : ℕ × Env). IsCensus r w x.1) (e.nthreads_dying == 0 || n == 0) (λ _. c)
      (λ _.
        let s = revive_loop-Same e.ths n e in
        record {
          tally =
              refit (nothing r w) _ _ _ _ _ _ _ (revive_loop-Tally (nothing r w) e.ths n e c.tally);
          size = s.n_qths ∙ c.size ∙ sym s.size;
          queued = λ i. omega (arith, revive_loop-Queued i 0 e.ths n e (omega (arith, c.queued i)));
          unique = λ i. omega (arith, s.names i, c.unique i);
          marks = s.marks c.marks;
        })

pub revive-names : (i n : ℕ) (e : Env) → cnt (named i) (revive n e).1.ths ≡ cnt (named i) e.ths
unfolding revive
revive-names i n e =
    if_elim (λ (x : ℕ × Env). cnt (named i) x.1.ths ≡ cnt (named i) e.ths)
      (e.nthreads_dying == 0 || n == 0) (λ _. refl) (λ _. (revive_loop-Same e.ths n e).names i)
