-- ===== src/Priq/Size.antt =====
-- The number of the tasks of a container, and what holds of each of them, through the operations of
-- pool/com/cpool_com_priq.h.
use libstpool.Base.{
  ℕ, zero, suc, ◌+◌, ◌<◌, ◌≡◌, ◌⊎◌, sym, ap, subst, List, [], ◌∷◌, ◌++◌, Option, none, some, Bool,
  true, false, ltb, arith, if◌then◌else◌, if_elim, length, All, OnSome, get_or, set, is_empty,
  length-append, All-append,
}
use libstpool.Task.{Task, is_unset}
use libstpool.Priq.Defs.{Container, overtakes, scan, insert0, active, priq_insert}
use libstpool.Priq.Ready.{IsContainer}
use libstpool.Priq.Serve.{IsPopped}

-- A task that __cpool_com_priq_insert0 finds a place for.
abbrev pub IsNice : Task → Type 0
IsNice t = (t.f_vmflags.push ≡ true) ⊎ (is_unset t.pri_policy ≡ false)

abbrev pub total : List (List Task) → ℕ
total [] = 0
total (q ∷ qs) = length q + total qs

abbrev pub size : Container → ℕ
size c = total c.priq

abbrev pub AllTasks : (Task → Type 0) → Container → Type 0
AllTasks P c = All (All P) c.priq

pub total-set :
    (qs : List (List Task)) (i : ℕ) (q : List Task)
    → i < length qs
    → total (set qs i q) + length (get_or qs i []) ≡ total qs + length q
total-set [] i q h = absurd (omega arith)
total-set (x ∷ qs) zero q h = omega arith
total-set (x ∷ qs) (suc i) q h = omega (arith, total-set qs i q (omega arith))

pub All-set :
    (P : Task → Type 0) (qs : List (List Task)) (i : ℕ) (q : List Task)
    → All P q
    → All (All P) qs
    → All (All P) (set qs i q)
All-set P [] i q h a = tt
All-set P (x ∷ qs) zero q h a = (h, a.1)
All-set P (x ∷ qs) (suc i) q h a = (a.0, All-set P qs i q h a.1)

pub All-get_or :
    (P : Task → Type 0) (qs : List (List Task)) (i : ℕ) → All (All P) qs → All P (get_or qs i [])
All-get_or P [] i a = tt
All-get_or P (x ∷ qs) zero a = a.0
All-get_or P (x ∷ qs) (suc i) a = All-get_or P qs i a.1

-- The queue has one task more, and what holds of all its tasks and of the new one still does.
abbrev Grows : (Task → Type 0) → Task → List Task → List Task → Type 0
Grows P t q q' = (length q' ≡ length q + 1) × (All P q → P t → All P q')

append-Grows : (P : Task → Type 0) (t : Task) (q : List Task) → Grows P t q (q ++ t ∷ [])
append-Grows P t q =
    (omega (arith, length-append q (t ∷ [])), λ a p. All-append P q (t ∷ []) a (p, tt))

scan-Grows : (P : Task → Type 0) (t : Task) (q : List Task) → OnSome (Grows P t q) (scan t q)
unfolding scan
scan-Grows P t [] = tt
scan-Grows P t (x ∷ q) = after_first (scan t q) (scan-Grows P t q)
  where
    after_first :
        (o : Option (List Task))
        → OnSome (Grows P t q) o
        → OnSome (Grows P t (x ∷ q)) (
            if overtakes t x
            then some (t ∷ x ∷ q)
            else elim o [ none ↦ none | some q' ↦ some (x ∷ q') ])
    after_first none h =
        if_elim (OnSome (Grows P t (x ∷ q))) (overtakes t x) (λ _. (omega arith, λ a p. (p, a)))
          (λ _. tt)
    after_first (some q') h =
        if_elim (OnSome (Grows P t (x ∷ q))) (overtakes t x) (λ _. (omega arith, λ a p. (p, a)))
          (λ _. (omega (arith, h.0), λ a p. (a.0, h.1 a.1 p)))

insert0-Grows :
    (P : Task → Type 0) (ndebug : Bool) (q : List Task) (t : Task)
    → IsNice t
    → OnSome (Grows P t q) (insert0 ndebug q t)
unfolding insert0 scan
insert0-Grows P ndebug [] t n = (omega arith, λ a p. (p, tt))
insert0-Grows P ndebug (x ∷ q) t n =
    ground (arith, append-Grows P t (x ∷ q), scan-Grows P t (x ∷ q), front, second)
  where
    front : Grows P t (x ∷ q) (t ∷ x ∷ q)
    front = (omega arith, λ a p. (p, a))

    second : Grows P t (x ∷ q) (x ∷ t ∷ q)
    second = (omega arith, λ a p. (a.0, (p, a.1)))

-- The container has the task more.
abbrev pub HasGrown : (Task → Type 0) → Task → Container → Container → Type 0
HasGrown P t c c' = (size c' ≡ size c + 1) × (AllTasks P c → P t → AllTasks P c')

pub priq_insert-HasGrown :
    (P : Task → Type 0) (ndebug : Bool) (c : Container) (t : Task)
    → IsContainer c
    → IsNice t
    → OnSome (HasGrown P t c) (priq_insert ndebug c t)
unfolding priq_insert
priq_insert-HasGrown P ndebug c t k n =
    if_elim (OnSome (HasGrown P t c)) (ltb t.priq c.priq_num)
      (λ h.
        linked (insert0 ndebug q t) (insert0-Grows P ndebug q t n)
          (omega (arith, k.sized, ltb_lt h)))
      (λ _. tt)
  where
    q : List Task
    q = get_or c.priq t.priq []

    ltb_lt : ltb t.priq c.priq_num ≡ true → t.priq < c.priq_num
    ltb_lt h = ground arith

    linked :
        (o : Option (List Task))
        → OnSome (Grows P t q) o
        → t.priq < length c.priq
        → OnSome (HasGrown P t c) (elim o as (λ _. Option Container) [
          | none ↦ none
          | some q' ↦ some (record c {
            priq = set c.priq t.priq q';
            ready_q = if is_empty q then active t.priq c.ready_q else c.ready_q;
          })
        ])
    linked none g h = tt
    linked (some q') g h = (
      omega (arith, total-set c.priq t.priq q' h, g.0),
      λ a p. All-set P c.priq t.priq q' (g.1 (All-get_or P c.priq t.priq a) p) a,
    )

get_or-lt :
    (qs : List (List Task)) (i : ℕ) (t : Task) (rest : List Task)
    → get_or qs i [] ≡ t ∷ rest
    → i < length qs
get_or-lt [] i t rest h = cc
get_or-lt (x ∷ qs) zero t rest h = omega arith
get_or-lt (x ∷ qs) (suc i) t rest h = omega (arith, get_or-lt qs i t rest h)

-- The container has the task less.
pub record HasShrunk (P : Task → Type 0) (c : Container) (t : Task) (c' : Container) : Type 0 where
  pub less : size c ≡ size c' + 1
  pub kept : AllTasks P c → AllTasks P c'
  pub taken : AllTasks P c → P t

pub IsPopped-HasShrunk :
    (P : Task → Type 0) (c : Container) (t : Task) (c' : Container)
    → IsPopped c t c'
    → HasShrunk P c t c'
IsPopped-HasShrunk P c t c' p = record {
  less = omega (arith, total-set c.priq p.class p.rest inside, ap length p.first, ap total p.taken);
  kept = λ a. subst (All (All P)) (sym p.taken) (All-set P c.priq p.class p.rest (both a).1 a);
  taken = λ a. (both a).0;
}
  where
    inside : p.class < length c.priq
    inside = get_or-lt c.priq p.class t p.rest p.first

    both : AllTasks P c → All P (t ∷ p.rest)
    both a = subst (All P) p.first (All-get_or P c.priq p.class a)
