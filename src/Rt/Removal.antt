-- ===== src/Rt/Removal.antt =====
-- Removing all tasks (pool/rt/cpool_rt_internal.h) against serving them one by one
-- (pool/com/cpool_com_priq.h).
use mathlib.Core.List.{Perm, perm_middle, append-nil, append_assoc}
use mathlib.Core.List.Perm
use libstpool.Base.{
  ℕ, zero, suc, ◌≤◌, ◌≡◌, refl, sym, ap, ◌∙◌, subst, List, [], ◌∷◌, ◌++◌, Option, none, some, true,
  arith, if◌then◌else◌, if_elim, get_or, set, is_empty,
}
use libstpool.Task.{Task}
use libstpool.Priq.Defs.{Container, priq_pop}
use libstpool.Priq.Ready.{IsContainer}
use libstpool.Priq.Size.{size, IsPopped-HasShrunk}
use libstpool.Priq.Top.{priq_empty, priq_empty-size, IsTop, priq_pop-IsTop}
use libstpool.Rt.Remove.{remove_each, priq_remove_all}

-- The tasks that calls of __cpool_com_priq_pop serve until the container is empty, with NDEBUG
unfoldable pub pop_all : ℕ → Container → Option (List Task × Container)
pop_all zero c = if priq_empty c then some ([], c) else none
pop_all (suc n) c =
    let popped = elim (priq_pop true c) as (λ _. Option (List Task × Container)) [
      | none ↦ none
      | some (t, c') ↦ elim (pop_all n c') [ none ↦ none | some (ts, d) ↦ some (t ∷ ts, d) ]
    ] in
    if priq_empty c then some ([], c) else popped

remove_each-acc :
    (is : List ℕ) (c : Container) (rmq : List Task)
    → (remove_each is c rmq).0 ≡ (remove_each is c []).0 ++ rmq
unfolding remove_each
remove_each-acc [] c rmq = refl
remove_each-acc (i ∷ is) c rmq =
    remove_each-acc is (record c { priq = set c.priq i [] }) (get_or c.priq i [] ++ rmq)
    ∙ sym (
        append_assoc (remove_each is (record c { priq = set c.priq i [] }) []).0
          (get_or c.priq i []) rmq)
    ∙ ap (λ x. x ++ rmq)
        (ap (λ y. (remove_each is (record c { priq = set c.priq i [] }) []).0 ++ y)
            (sym (append-nil (get_or c.priq i [])))
          ∙ sym
              (remove_each-acc is (record c { priq = set c.priq i [] }) (get_or c.priq i [] ++ [])))

remove_each-rest :
    (is : List ℕ) (c : Container) (rmq : List Task)
    → (remove_each is c rmq).1 ≡ (remove_each is c []).1
unfolding remove_each
remove_each-rest [] c rmq = refl
remove_each-rest (i ∷ is) c rmq =
    remove_each-rest is (record c { priq = set c.priq i [] }) (get_or c.priq i [] ++ rmq)
    ∙ sym (remove_each-rest is (record c { priq = set c.priq i [] }) (get_or c.priq i [] ++ []))

set-set : (qs : List (List Task)) (i : ℕ) (a b : List Task) → set (set qs i a) i b ≡ set qs i b
set-set [] i a b = refl
set-set (x ∷ qs) zero a b = refl
set-set (x ∷ qs) (suc i) a b = ap (◌∷◌ x) (set-set qs i a b)

-- The ready queue of the container does not matter.
remove_each-ready :
    (is r : List ℕ) (c : Container) (rmq : List Task)
    → remove_each is (record c { ready_q = r }) rmq ≡ remove_each is c rmq
unfolding remove_each
remove_each-ready [] r c rmq = refl
remove_each-ready (i ∷ is) r c rmq =
    remove_each-ready is r (record c { priq = set c.priq i [] }) (get_or c.priq i [] ++ rmq)

-- The first queue is removed, and then the others.
first_removed :
    (c : Container) (i : ℕ) (is : List ℕ) (q : List Task)
    → get_or c.priq i [] ≡ q
    → remove_each (i ∷ is) c [] ≡ remove_each is (record c { priq = set c.priq i [] }) (q ++ [])
unfolding remove_each
first_removed c i is q h =
    ap (λ x. remove_each is (record c { priq = set c.priq i [] }) (x ++ [])) h

get_or-set_in :
    (qs : List (List Task)) (i : ℕ) (q : List Task) (t : Task) (r : List Task)
    → get_or qs i [] ≡ t ∷ r
    → get_or (set qs i q) i [] ≡ q
get_or-set_in [] i q t r h = absurd (cc h)
get_or-set_in (x ∷ qs) zero q t r h = refl
get_or-set_in (x ∷ qs) (suc i) q t r h = get_or-set_in qs i q t r h

-- What is removed after a pop that leaves this queue
left_removed :
    (c : Container) (i : ℕ) (is : List ℕ) (t : Task) (q : List Task)
    → c.ready_q ≡ i ∷ is
    → get_or c.priq i [] ≡ t ∷ q
    → priq_remove_all
        (record c { priq = set c.priq i q; ready_q = if is_empty q then is else c.ready_q })
      ≡ remove_each is (record c { priq = set c.priq i [] }) (q ++ [])
unfolding priq_remove_all
left_removed c i is t [] e f = remove_each-ready is is (record c { priq = set c.priq i [] }) []
left_removed c i is t (x ∷ q) e f =
    let c1 : Container = record c { priq = set c.priq i (x ∷ q) } in
    ap (λ r. remove_each r c1 []) e
    ∙ first_removed c1 i is (x ∷ q) (get_or-set_in c.priq i (x ∷ q) t (x ∷ q) f)
    ∙ ap (λ qs. remove_each is (record c { priq = qs }) ((x ∷ q) ++ []))
        (set-set c.priq i (x ∷ q) [])

-- The same tasks, in some order, and the same container afterwards
pub record IsServing (c : Container) (x : List Task × Container) : Type 0 where
  pub order : Perm x.0 (priq_remove_all c).0
  pub rest : x.1 ≡ (priq_remove_all c).1

abbrev pub Serves : Container → Option (List Task × Container) → Type 0
Serves c none = ⊥
Serves c (some x) = IsServing c x

popped-IsServing :
    (c : Container) (top : IsTop c) (ts : List Task) (d : Container)
    → IsServing top.rest (ts, d)
    → IsServing c (top.task ∷ ts, d)
unfolding priq_remove_all
popped-IsServing c top ts d s = record {
  order =
      subst (Perm (top.task ∷ ts))
        (sym
          (ap (λ (x : List Task × Container). x.0) whole ∙ listed ((top.task ∷ top.queue) ++ [])))
        (Perm.trans
          (Perm.cons top.task (
            subst (Perm ts)
              (ap (λ (x : List Task × Container). x.0) after ∙ listed (top.queue ++ [])) s.order))
          (Perm.symm (perm_middle lower (top.queue ++ []))));
  rest =
      s.rest
      ∙ ap (λ (x : List Task × Container). x.1) after
      ∙ remove_each-rest top.others empty (top.queue ++ [])
      ∙ sym (remove_each-rest top.others empty ((top.task ∷ top.queue) ++ []))
      ∙ sym (ap (λ (x : List Task × Container). x.1) whole);
}
  where
    empty : Container
    empty = record c { priq = set c.priq top.class [] }

    lower : List Task
    lower = (remove_each top.others empty []).0

    listed : (q : List Task) → (remove_each top.others empty q).0 ≡ lower ++ q
    listed = remove_each-acc top.others empty

    after : priq_remove_all top.rest ≡ remove_each top.others empty (top.queue ++ [])
    after =
        ap priq_remove_all top.left
        ∙ left_removed c top.class top.others top.task top.queue top.ready top.front

    whole : priq_remove_all c ≡ remove_each top.others empty ((top.task ∷ top.queue) ++ [])
    whole =
        ap (λ r. remove_each r c []) top.ready
        ∙ first_removed c top.class top.others (top.task ∷ top.queue) top.front

-- A container without tasks
empty-IsServing : (c : Container) → IsContainer c → size c ≡ 0 → IsServing c ([], c)
unfolding priq_remove_all remove_each
empty-IsServing c v z = on_ready c.ready_q refl
  where
    on_ready : (r : List ℕ) → c.ready_q ≡ r → IsServing c ([], c)
    on_ready [] e = record {
      order = subst (λ r. Perm [] (remove_each r c []).0) (sym e) (Perm.refl []);
      rest = ap (λ r. record c { ready_q = r }) e ∙ ap (λ r. (remove_each r c []).1) (sym e);
    }
    on_ready (i ∷ is) e = absurd (ground (arith, priq_empty-size c v, e))

-- With NDEBUG, calls of __cpool_com_priq_pop on a container with an exact ready queue serve all
-- its tasks, and __cpool_rt_priq_remove_all takes the same tasks, in some order, and leaves the
-- same container.
pub pop_all-IsServing :
    (n : ℕ) (c : Container) → size c ≤ n → IsContainer c → Serves c (pop_all n c)
unfolding pop_all
pop_all-IsServing zero c l v =
    if_elim (Serves c) (priq_empty c) (λ _. empty-IsServing c v (omega (arith, l)))
      (λ h. absurd (ground (arith, priq_empty-size c v)))
pop_all-IsServing (suc n) c l v =
    if_elim (Serves c) (priq_empty c)
      (λ h. empty-IsServing c v (ground (arith, priq_empty-size c v)))
      (λ h.
        let top = priq_pop-IsTop c v (ground (arith, priq_empty-size c v)) in
        let less = (IsPopped-HasShrunk (λ t. Unit {0}) c top.task top.rest top.popped).less in
        subst (λ o. Serves c (served o)) (sym top.pops)
          (told top (pop_all n top.rest)
            (pop_all-IsServing n top.rest (omega (arith, l, less)) top.popped.kept)))
  where
    told_of : Task → Option (List Task × Container) → Option (List Task × Container)
    told_of t none = none
    told_of t (some (ts, d)) = some (t ∷ ts, d)

    served : Option (Task × Container) → Option (List Task × Container)
    served none = none
    served (some (t, c')) = told_of t (pop_all n c')

    told :
        (top : IsTop c) (o : Option (List Task × Container))
        → Serves top.rest o
        → Serves c (told_of top.task o)
    told top none h = absurd h
    told top (some (ts, d)) h = popped-IsServing c top ts d h
