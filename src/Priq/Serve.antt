-- ===== src/Priq/Serve.antt =====
-- The operations of pool/com/cpool_com_priq.h on the ready queue and the task queues together.
use libstpool.Base.{
  ℕ, zero, suc, ◌≤◌, ◌<◌, ◌≡◌, inl, inr, refl, subst, ap, ◌∙◌, List, [], ◌∷◌, Option, none, some,
  Bool, true, false, not, arith, OnSome, if◌then◌else◌, ltb, ◌==◌, length, get_or, set, is_empty,
  get_or-set_self, get_or-set_ne, length-set, Bool-cases, replicate,
}
use libstpool.Task.{Task}
use libstpool.Priq.Defs.{
  Container, active, insert0, priq_init, priq_insert, priq_pop, pop_from, pop_ready, in_order,
  unlink, unlink_ready, priq_erase, scan,
}
use libstpool.Priq.Ready.{
  IsFalling, has, IsContainer, All-lt_trans, active-IsFalling, active-has, has-same,
  unlink_ready-IsFalling, above-has, unlink_ready-has,
}

-- An insertion leaves a task in the queue.
insert0-filled :
    (ndebug : Bool) (q : List Task) (t : Task)
    → OnSome (λ q'. is_empty q' ≡ false) (insert0 ndebug q t)
unfolding insert0 scan
insert0-filled ndebug [] t = refl
insert0-filled ndebug (x ∷ q) t = ground arith

-- One queue changes, and the ready queue with it.
replace-IsContainer :
    (c : Container) (q : ℕ) (tasks : List Task) (ready : List ℕ)
    → q < c.priq_num
    → IsFalling ready
    → ((j : ℕ) → has j ready ≡ (if j == q then not (is_empty tasks) else has j c.ready_q))
    → IsContainer c
    → IsContainer (record c { priq = set c.priq q tasks; ready_q = ready })
replace-IsContainer c q tasks ready h f e v = record {
  sized = length-set c.priq q tasks ∙ v.sized;
  falling = f;
  exact = λ i. ground (
    arith,
    e i,
    v.exact i,
    v.sized,
    get_or-set_self c.priq q tasks [],
    get_or-set_ne c.priq q i tasks [],
  );
}

ready_after :
    (c : Container) (t : Task) (tasks : List Task)
    → is_empty tasks ≡ false
    → IsContainer c
    → let ready =
        if is_empty (get_or c.priq t.priq []) then active t.priq c.ready_q else c.ready_q in
      IsFalling ready
      × ((j : ℕ) → has j ready ≡ (if j == t.priq then not (is_empty tasks) else has j c.ready_q))
ready_after c t tasks e v = elim (Bool-cases (is_empty (get_or c.priq t.priq []))) [
  | inl new ↦ rw new (
    active-IsFalling t.priq c.ready_q (ground (arith, v.exact t.priq)) v.falling,
    λ j. ground (arith, active-has j t.priq c.ready_q, v.exact t.priq),
  )
  | inr old ↦ rw old (v.falling, λ j. ground (arith, v.exact t.priq, has-same j t.priq c.ready_q))
]

-- An insertion that is not stopped by an assertion keeps the ready queue exact: it falls and
-- holds a class exactly if the class has a task.
pub priq_insert-IsContainer :
    (ndebug : Bool) (c : Container) (t : Task)
    → IsContainer c
    → OnSome IsContainer (priq_insert ndebug c t)
unfolding priq_insert
priq_insert-IsContainer ndebug c t v = elim (Bool-cases (ltb t.priq c.priq_num)) [
  | inl h ↦ rw h (
      linked (ground arith) (insert0 ndebug (get_or c.priq t.priq []) t)
        (insert0-filled ndebug (get_or c.priq t.priq []) t))
  | inr h ↦ rw h tt
]
  where
    ready : List ℕ
    ready = if is_empty (get_or c.priq t.priq []) then active t.priq c.ready_q else c.ready_q

    linked :
        t.priq < c.priq_num
        → (o : Option (List Task)) → OnSome (λ q'. is_empty q' ≡ false) o
        → OnSome IsContainer (elim o [
          | none ↦ none
          | some q' ↦ some (record c { priq = set c.priq t.priq q'; ready_q = ready })
        ])
    linked h none f = tt
    linked h (some q') f =
        let (falls, holds) = ready_after c t q' f v in
        replace-IsContainer c t.priq q' ready h falls holds v

-- One queue loses tasks.
shrink-IsContainer :
    (c : Container) (q : ℕ) (tasks : List Task)
    → q < c.priq_num
    → (is_empty (get_or c.priq q []) ≡ true → is_empty tasks ≡ true)
    → IsContainer c
    → IsContainer (record c {
      priq = set c.priq q tasks;
      ready_q = if is_empty tasks then unlink_ready q c.ready_q else c.ready_q;
    })
shrink-IsContainer c q tasks h k v = elim (Bool-cases (is_empty tasks)) [
  | inl e ↦ rw e (
      replace-IsContainer c q tasks (unlink_ready q c.ready_q) h
        (unlink_ready-IsFalling q c.ready_q v.falling)
        (λ j. ground (arith, unlink_ready-has j q c.ready_q v.falling)) v)
  | inr e ↦ rw e (
      replace-IsContainer c q tasks c.ready_q h v.falling
        (λ j. ground (arith, v.exact q, has-same j q c.ready_q)) v)
]

unlink-empty : (id : ℕ) (q : List Task) → is_empty q ≡ true → is_empty (unlink id q) ≡ true
unfolding unlink
unlink-empty id [] e = refl
unlink-empty id (t ∷ q) e = cc

-- Erasing a task whose class is one of the queues keeps the ready queue exact.
pub priq_erase-IsContainer :
    (c : Container) (t : Task) → t.priq < c.priq_num → IsContainer c → IsContainer (priq_erase c t)
unfolding priq_erase
priq_erase-IsContainer c t h v =
    shrink-IsContainer c t.priq (unlink t.id (get_or c.priq t.priq [])) h
      (unlink-empty t.id (get_or c.priq t.priq [])) v

init_none : (num i : ℕ) → is_empty (get_or (replicate {A = List Task} num []) i []) ≡ true
init_none zero i = refl
init_none (suc num) zero = refl
init_none (suc num) (suc i) = init_none num i

init_size : (num : ℕ) → length (replicate {A = List Task} num []) ≡ num
init_size zero = refl
init_size (suc num) = ap suc (init_size num)

-- __cpool_com_priq_init makes a container whose queues are all empty.
pub priq_init-IsContainer : (num : ℕ) → 1 ≤ num → IsContainer (priq_init num)
unfolding priq_init
priq_init-IsContainer num h = record {
  sized = omega (arith, init_size num);
  falling = tt;
  exact = λ i. rw (init_none num i);
}

get_or-in : (xs : List (List Task)) (i : ℕ) → is_empty (get_or xs i []) ≡ false → i < length xs
get_or-in [] i e = cc
get_or-in (x ∷ xs) zero e = omega arith
get_or-in (x ∷ xs) (suc i) e = omega (arith, get_or-in xs i e)

-- What a pop takes: the first task of the highest class that has one; the container stays one.
pub record IsPopped (c : Container) (t : Task) (c' : Container) : Type 0 where
  pub class : ℕ
  pub rest : List Task
  pub first : get_or c.priq class [] ≡ t ∷ rest
  pub highest : (j : ℕ) → class < j → is_empty (get_or c.priq j []) ≡ true
  pub taken : c'.priq ≡ set c.priq class rest
  pub kept : IsContainer c'

above_first :
    (c : Container) (i : ℕ) (is : List ℕ) (j : ℕ)
    → IsContainer c
    → c.ready_q ≡ i ∷ is
    → i < j
    → is_empty (get_or c.priq j []) ≡ true
above_first c i is j v e h = ground (arith, v.exact j, absent, ap (has j) e)
  where
    falls : IsFalling (i ∷ is)
    falls = subst IsFalling e v.falling

    absent : has j (i ∷ is) ≡ false
    absent = above-has j (i ∷ is) (h, All-lt_trans i j is (omega arith) falls.0)

first-IsPopped :
    (c : Container) (i : ℕ) (is : List ℕ) (t : Task) (rest : List Task)
    → IsContainer c
    → c.ready_q ≡ i ∷ is
    → get_or c.priq i [] ≡ t ∷ rest
    → IsPopped c t
        (record c { priq = set c.priq i rest; ready_q = if is_empty rest then is else c.ready_q })
unfolding unlink_ready
first-IsPopped c i is t rest v e f = record {
  class = i;
  rest = rest;
  first = f;
  highest = λ j h. above_first c i is j v e h;
  taken = refl;
  kept =
      subst
        (λ r.
          IsContainer (record c {
            priq = set c.priq i rest;
            ready_q = if is_empty rest then r else c.ready_q;
          }))
        unlinked (shrink-IsContainer c i rest in_range (λ k. ground (arith, f)) v);
}
  where
    in_range : i < c.priq_num
    in_range = omega (arith, v.sized, get_or-in c.priq i (rw f refl))

    unlinked : unlink_ready i c.ready_q ≡ is
    unlinked = rw e (ground arith)

popped_inj :
    {t u : Task} {c d : Container}
    → ◌≡◌ {A = Option (Task × Container)} (some (t, c)) (some (u, d))
    → ◌≡◌ {A = Task × Container} (t, c) (u, d)
popped_inj h = cc

-- Where a pop of a container with an exact ready queue returns, it takes the first task of a
-- class that has one while no higher class has a task, removes this task and no other, and leaves
-- the ready queue exact.
pub priq_pop-IsPopped :
    (ndebug : Bool) (c : Container) {t : Task} {c' : Container}
    → IsContainer c
    → priq_pop ndebug c ≡ some (t, c')
    → IsPopped c t c'
unfolding priq_pop pop_from
priq_pop-IsPopped ndebug c {t} {c'} v h = on_ready c.ready_q refl h
  where
    on_tasks :
        (i : ℕ) (is : List ℕ) (tasks : List Task)
        → c.ready_q ≡ i ∷ is
        → get_or c.priq i [] ≡ tasks
        → pop_from ndebug c i is tasks ≡ some (t, c')
        → IsPopped c t c'
    on_tasks i is [] e f k = cc
    on_tasks i is (x ∷ rest) e f k = elim (Bool-cases (in_order ndebug x rest)) [
      | inl o ↦
          subst (λ p. IsPopped c p.0 p.1) (popped_inj (rw o at k))
            (first-IsPopped c i is x rest v e f)
      | inr o ↦ cc (rw o at k)
    ]

    on_ready :
        (is : List ℕ) → c.ready_q ≡ is → pop_ready ndebug c is ≡ some (t, c') → IsPopped c t c'
    on_ready [] e k = cc
    on_ready (i ∷ is) e k = on_tasks i is (get_or c.priq i []) e refl k
