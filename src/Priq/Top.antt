-- ===== src/Priq/Top.antt =====
-- __cpool_com_priq_top and __cpool_com_priq_empty of pool/com/cpool_com_priq.h, on a container whose
-- ready queue is exact.
use libstpool.Base.{
  ℕ, zero, suc, ◌≤◌, ◌≡◌, refl, ap, ◌∙◌, List, [], ◌∷◌, Option, none, some, Bool, true, false, ◌==◌,
  arith, if◌then◌else◌, get_or, set, is_empty,
}
use libstpool.Task.{Task}
use libstpool.Priq.Defs.{Container, priq_pop, pop_ready, pop_from}
use libstpool.Priq.Ready.{IsContainer, has}
use libstpool.Priq.Serve.{IsPopped, priq_pop-IsPopped}
use libstpool.Priq.Size.{total, size}

abbrev pub first_of : List Task → Option Task
first_of [] = none
first_of (t ∷ rest) = some t

-- __cpool_com_priq_top; the code reads it only where the container is not empty.
abbrev pub priq_top : Container → Option Task
priq_top c = elim c.ready_q [ [] ↦ none | i ∷ is ↦ first_of (get_or c.priq i []) ]

-- __cpool_com_priq_empty
abbrev pub priq_empty : Container → Bool
priq_empty c = elim c.ready_q [ [] ↦ true | i ∷ is ↦ false ]

total_of_empty :
    (qs : List (List Task)) → ((i : ℕ) → is_empty (get_or qs i []) ≡ true) → total qs ≡ 0
total_of_empty [] h = refl
total_of_empty ([] ∷ qs) h = omega (arith, total_of_empty qs (λ i. h (suc i)))
total_of_empty ((t ∷ q) ∷ qs) h = absurd (cc (h 0))

total_pos : (qs : List (List Task)) (i : ℕ) → is_empty (get_or qs i []) ≡ false → 1 ≤ total qs
total_pos [] i h = cc
total_pos ([] ∷ qs) zero h = cc
total_pos ((t ∷ q) ∷ qs) zero h = omega arith
total_pos (q ∷ qs) (suc i) h = omega (arith, total_pos qs i h)

-- An exact ready queue is empty where the container has no task.
pub priq_empty-size : (c : Container) → IsContainer c → priq_empty c ≡ (size c == 0)
priq_empty-size c v = on_ready c.ready_q refl
  where
    on_ready :
        (r : List ℕ)
        → c.ready_q ≡ r
        → (elim r as (λ _. Bool) [ [] ↦ true | i ∷ is ↦ false ]) ≡ (size c == 0)
    on_ready [] e =
        ground (arith, total_of_empty c.priq (λ i. ground (arith, v.exact i, ap (has i) e)))
    on_ready (i ∷ is) e =
        ground (arith, total_pos c.priq i (ground (arith, v.exact i, ap (has i) e)))

-- A pop of a container with tasks takes the one that __cpool_com_priq_top shows.
pub record IsTop (c : Container) : Type 0 where
  pub task : Task
  pub rest : Container
  pub shown : priq_top c ≡ some task
  pub pops : priq_pop true c ≡ some (task, rest)
  pub popped : IsPopped c task rest
  pub class : ℕ
  pub others : List ℕ
  pub queue : List Task
  pub ready : c.ready_q ≡ class ∷ others
  pub front : get_or c.priq class [] ≡ task ∷ queue
  pub left : rest ≡ record c {
    priq = set c.priq class queue;
    ready_q = if is_empty queue then others else c.ready_q;
  }

-- With NDEBUG the assertion on the task that follows is left out.
pop_from_first :
    (c : Container) (i : ℕ) (is : List ℕ) (t : Task) (rest : List Task)
    → pop_from true c i is (t ∷ rest)
      ≡ some (
        t,
        record c { priq = set c.priq i rest; ready_q = if is_empty rest then is else c.ready_q },
      )
unfolding pop_from
pop_from_first c i is t [] = refl
pop_from_first c i is t (n ∷ rest) = refl

pub priq_pop-IsTop : (c : Container) → IsContainer c → 1 ≤ size c → IsTop c
unfolding priq_pop pop_from
priq_pop-IsTop c v h = on_ready c.ready_q refl
  where
    on_queue :
        (i : ℕ) (is : List ℕ) (q : List Task)
        → c.ready_q ≡ i ∷ is
        → get_or c.priq i [] ≡ q
        → IsTop c
    on_queue i is [] e f = absurd (ground (arith, v.exact i, ap (has i) e, ap is_empty f))
    on_queue i is (t ∷ rest) e f = record {
      task = t;
      rest = record c {
        priq = set c.priq i rest;
        ready_q = if is_empty rest then is else c.ready_q;
      };
      shown = rw (e, f) refl;
      pops = pops;
      popped = priq_pop-IsPopped true c v pops;
      class = i;
      others = is;
      queue = rest;
      ready = e;
      front = f;
      left = refl;
    }
      where
        pops :
            priq_pop true c
            ≡ some (
              t,
              record c {
                priq = set c.priq i rest;
                ready_q = if is_empty rest then is else c.ready_q;
              },
            )
        pops = ap (pop_ready true c) e ∙ ap (pop_from true c i is) f ∙ pop_from_first c i is t rest

    on_ready : (r : List ℕ) → c.ready_q ≡ r → IsTop c
    on_ready [] e =
        absurd (omega (arith, total_of_empty c.priq (λ i. ground (arith, v.exact i, ap (has i) e))))
    on_ready (i ∷ is) e = on_queue i is (get_or c.priq i []) e refl
