-- ===== src/Core/Mark.antt =====
-- The loop of cpool_core_dec_threadsl, pool/core/cpool_core.c, and the counters.
use libstpool.Base.{
  ℕ, suc, ◌+◌, ◌-◌, ◌≡◌, refl, ap, ◌∙◌, List, [], ◌∷◌, Bool, true, false, not, ◌&&◌, ◌||◌, ◌==◌,
  arith, if◌then◌else◌, length, All, if_elim,
}
use libstpool.Core.Threads.{Thread, is_run, Env}
use libstpool.Core.Grow.{marked, count_marked, mark_loop}
use libstpool.Core.Tally.{cnt, is_live, Counts, counting, Tally, shift, unshift}
use libstpool.Core.Census.{occ, named, waits_as, IsMarked}
use libstpool.Core.Revive.{occ-unqueue}

count_marked-Tally :
    (b : Counts) (e : Env) (t : Thread) (ts : List Thread)
    → t.rm ≡ false
    → b.owed ≡ 0
    → Tally b e (t ∷ ts)
    → Tally b (count_marked e t) (marked t ∷ ts)
unfolding count_marked
count_marked-Tally b e t ts m o h = ground arith

-- The counters and the thread after a round.
abbrev round_env : Bool → Env → Thread → Env
round_env takes e t = if takes then count_marked e t else e

abbrev round_thread : Bool → Thread → Thread
round_thread takes t = if takes then marked t else t

round-Tally :
    (b : Counts) (takes : Bool) (e : Env) (t : Thread) (ts : List Thread)
    → t.rm ≡ false
    → b.owed ≡ 0
    → Tally b e (t ∷ ts)
    → Tally b (round_env takes e t) (round_thread takes t ∷ ts)
round-Tally b true e t ts m o h = count_marked-Tally b e t ts m o h
round-Tally b false e t ts m o h = h

abbrev pub Kept : Counts → List Thread × ℕ × Env → Type 0
Kept b r = Tally b r.2 r.0

pub mark_loop-Tally :
    (b : Counts) (ts : List Thread) (n k : ℕ) (e : Env)
    → b.owed ≡ 0
    → Tally b e ts
    → Kept b (mark_loop ts n k e)
unfolding mark_loop
mark_loop-Tally b [] n k e o h = h
mark_loop-Tally b (t ∷ ts) n k e o h =
    let busy = is_run t.status in
    let takes = not busy || not (k == 0) in
    let n' = if busy then n else n - 1 in
    let k' = if busy then k - 1 else k in
    let e' = round_env takes e t in
    let t' = round_thread takes t in
    if_elim (Kept b) t.rm
      (λ _. unshift b _ t _ (mark_loop-Tally (counting b t) ts n k e o (shift b e t ts h)))
      (λ m.
        let now = round-Tally b takes e t ts m o h in
        if_elim (Kept b) (n' == 0 && k' == 0) (λ _. now)
          (λ _.
            unshift b _ t' _
              (mark_loop-Tally (counting b t') ts n' k' e' o (shift b e' t' ts now))))

abbrev pub Queued : ℕ → ℕ → List Thread × ℕ × Env → Type 0
Queued i k r = occ i r.2.ths_waitq ≡ k + cnt (waits_as i) r.0

round-Queued :
    (i b : ℕ) (takes : Bool) (e : Env) (t : Thread) (ts : List Thread)
    → occ i e.ths_waitq ≡ b + cnt (waits_as i) (t ∷ ts)
    → occ i (round_env takes e t).ths_waitq ≡ b + cnt (waits_as i) (round_thread takes t ∷ ts)
unfolding count_marked
round-Queued i b true e t ts h = ground (arith, occ-unqueue i t.tid e.ths_waitq)
round-Queued i b false e t ts h = h

pub mark_loop-Queued :
    (i b : ℕ) (ts : List Thread) (n k : ℕ) (e : Env)
    → occ i e.ths_waitq ≡ b + cnt (waits_as i) ts
    → Queued i b (mark_loop ts n k e)
unfolding mark_loop
mark_loop-Queued i b [] n k e h = h
mark_loop-Queued i b (t ∷ ts) n k e h =
    let busy = is_run t.status in
    let takes = not busy || not (k == 0) in
    let n' = if busy then n else n - 1 in
    let k' = if busy then k - 1 else k in
    let e' = round_env takes e t in
    let t' = round_thread takes t in
    let now = round-Queued i b takes e t ts h in
    if_elim (Queued i b) t.rm
      (λ _.
        omega
          (arith, mark_loop-Queued i (b + cnt (waits_as i) (t ∷ [])) ts n k e (omega (arith, h))))
      (λ m.
        if_elim (Queued i b) (n' == 0 && k' == 0) (λ _. now)
          (λ _. omega (
            arith,
            mark_loop-Queued i (b + cnt (waits_as i) (t' ∷ [])) ts n' k' e' (omega (arith, now)),
          )))

-- The same threads in the same order; each that is counted as marked is live no longer.
pub record Same (ts : List Thread) (e : Env) (r : List Thread × ℕ × Env) : Type 0 where
  pub names : (i : ℕ) → cnt (named i) r.0 ≡ cnt (named i) ts
  pub size : length r.0 ≡ length ts
  pub n_qths : r.2.n_qths ≡ e.n_qths
  pub marks : All IsMarked ts → All IsMarked r.0
  pub fewer : cnt is_live r.0 + r.1 ≡ cnt is_live ts

round-Same :
    (takes : Bool) (e : Env) (t : Thread) (ts : List Thread)
    → t.rm ≡ false
    → Same (t ∷ ts) e (round_thread takes t ∷ ts, (if takes then 1 else 0), round_env takes e t)
unfolding count_marked
round-Same true e t ts m = record {
  names = λ i. refl;
  size = refl;
  n_qths = ground arith;
  marks = λ a. (refl, a.1);
  fewer = ground arith;
}
round-Same false e t ts m = record {
  names = λ i. refl;
  size = refl;
  n_qths = refl;
  marks = λ a. a;
  fewer = omega arith;
}

-- A thread in front.
cons-Same :
    (t u : Thread) (d : ℕ) (ts : List Thread) (e e' : Env) (r : List Thread × ℕ × Env)
    → Same (t ∷ ts) e (u ∷ ts, d, e')
    → Same ts e' r
    → Same (t ∷ ts) e (u ∷ r.0, d + r.1, r.2)
cons-Same t u d ts e e' r s q = record {
  names = λ i. omega (arith, s.names i, q.names i);
  size = ap suc q.size;
  n_qths = q.n_qths ∙ s.n_qths;
  marks = λ a. ((s.marks a).0, q.marks a.1);
  fewer = omega (arith, s.fewer, q.fewer);
}

refl-Same : (ts : List Thread) (e : Env) → Same ts e (ts, 0, e)
refl-Same ts e = record {
  names = λ i. refl;
  size = refl;
  n_qths = refl;
  marks = λ a. a;
  fewer = omega arith;
}

pub mark_loop-Same : (ts : List Thread) (n k : ℕ) (e : Env) → Same ts e (mark_loop ts n k e)
unfolding mark_loop
mark_loop-Same [] n k e = refl-Same [] e
mark_loop-Same (t ∷ ts) n k e =
    let busy = is_run t.status in
    let takes = not busy || not (k == 0) in
    let n' = if busy then n else n - 1 in
    let k' = if busy then k - 1 else k in
    let e' = round_env takes e t in
    let t' = round_thread takes t in
    if_elim (Same (t ∷ ts) e) t.rm
      (λ _.
        let s = mark_loop-Same ts n k e in
        record {
          names = λ i. omega (arith, s.names i);
          size = ap suc s.size;
          n_qths = s.n_qths;
          marks = λ a. (a.0, s.marks a.1);
          fewer = omega (arith, s.fewer);
        })
      (λ m.
        let now = round-Same takes e t ts m in
        if_elim (Same (t ∷ ts) e) (n' == 0 && k' == 0) (λ _. now)
          (λ _. cons-Same t t' _ ts e e' _ now (mark_loop-Same ts n' k' e')))
