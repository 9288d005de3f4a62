-- ===== src/Priq/Examples.antt =====
-- Tests and concrete runs of the priority queues (pool/com/cpool_com_priq.h).
use libstpool.Base.{
  pos, ℕ, ◌*◌, ◌/◌, ◌≤◌, ◌<◌, ◌≡◌, ◌↔◌, refl, inr, List, [], ◌∷◌, none, some, true, false, arith,
  OnSome, is_empty, get_or, not, zero, suc,
}
use mathlib.Core.List.{Perm}
use libstpool.Task.{SchAttr, setschattr, nice_adjust, Task, back, top, no_flags, no_stat}
use libstpool.Priq.Defs.{
  Container, priq_init, locate, priq_insert, priq_pop, priq_erase, insert0, nice_preprocess,
  pop_from,
}
use libstpool.Priq.Nice.{IsNice, nice_adjust-setschattr-IsNice}
use libstpool.Priq.Locate.{locate_in_range, insert_out_of_range}
use libstpool.Priq.Order.{IsHeadMax, IsSorted, insert0-IsHeadMax, insert0-IsSorted, insert0-top}
use libstpool.Priq.Ready.{IsContainer, has}
use libstpool.Priq.Serve.{
  IsPopped, priq_init-IsContainer, priq_insert-IsContainer, priq_erase-IsContainer,
  priq_pop-IsPopped,
}
use libstpool.Priq.Inversion.{insert_pop_twice, insert-inverts}
use libstpool.Priq.Conserve.{insert0-perm}

-- A task with a priority and the class of it.
abbrev task : ℕ → ℕ → ℕ → Task
task id pri class = record {
  id = id;
  has_err_handler = true;
  f_stat = no_stat;
  f_vmflags = no_flags;
  pri = pri;
  pri_policy = back;
  gid = 0;
  seq = 0;
  priq = class;
}

abbrev two_tasks : List Task
two_tasks = task 1 9 0 ∷ task 2 5 0 ∷ []

abbrev container : Container
container = record { priq_num = 2; priq = two_tasks ∷ [] ∷ []; avg_pri = 50; ready_q = 0 ∷ [] }

container-IsContainer : IsContainer container
container-IsContainer = record { sized = refl; falling = (tt, tt); exact = exact_at }
  where
    exact_at : (i : ℕ) → has i (0 ∷ []) ≡ not (is_empty (get_or container.priq i []))
    exact_at zero = refl
    exact_at (suc zero) = refl
    exact_at (suc (suc i)) = ground arith

-- A task that is not pushed goes before the first one.
insert0-IsHeadMax_example : OnSome IsHeadMax (insert0 false two_tasks (task 3 10 0))
insert0-IsHeadMax_example =
    insert0-IsHeadMax false two_tasks (task 3 10 0) (λ e. cc) (omega arith, tt)

insert0-IsSorted_example : OnSome IsSorted (insert0 false two_tasks (task 3 7 0))
insert0-IsSorted_example =
    insert0-IsSorted false two_tasks (task 3 7 0) (λ e. cc) (inr (inr (omega arith, tt)))
      ((omega arith, tt), (tt, tt))

abbrev top_task : Task
top_task = record (task 3 9 0) { pri_policy = top }

-- A build without NDEBUG stops.
insert0-top_example : insert0 false two_tasks top_task ≡ none
insert0-top_example = insert0-top false (task 1 9 0) (task 2 5 0 ∷ []) top_task refl refl refl

insert0-perm_example : OnSome (Perm (task 3 7 0 ∷ two_tasks)) (insert0 false two_tasks (task 3 7 0))
insert0-perm_example = insert0-perm false two_tasks (task 3 7 0) (inr refl)

-- The task of priority 1 is served before the one of priority 5.
insert-inverts_example :
    insert_pop_twice true container (task 3 1 0) ≡ some (task 1 9 0, task 3 1 0)
insert-inverts_example =
    insert-inverts true container (task 1 9 0) (task 2 5 0) [] [] (task 3 1 0) refl refl
      (omega arith) (omega arith) refl (omega arith) (omega arith)

priq_init-IsContainer_example : IsContainer (priq_init 3)
priq_init-IsContainer_example = priq_init-IsContainer 3 (omega arith)

priq_insert-IsContainer_example : OnSome IsContainer (priq_insert false container (task 3 60 1))
priq_insert-IsContainer_example =
    priq_insert-IsContainer false container (task 3 60 1) container-IsContainer

priq_erase-IsContainer_example : IsContainer (priq_erase container (task 1 9 0))
priq_erase-IsContainer_example =
    priq_erase-IsContainer container (task 1 9 0) (omega arith) container-IsContainer

abbrev one_left : Container
one_left = record container { priq = (task 2 5 0 ∷ []) ∷ [] ∷ [] }

priq_pop-IsPopped_example : IsPopped container (task 1 9 0) one_left
unfolding priq_pop pop_from
priq_pop-IsPopped_example = priq_pop-IsPopped false container container-IsContainer refl

-- With 3 queues, priority 98 is of the last class and 99 is of none.
locate_in_range_example : (locate (priq_init 3) 98 < 3) ↔ (98 < 3 * (100 / 3))
locate_in_range_example = locate_in_range 3 98 (omega arith) (omega arith)

abbrev adjusted_task : Task
adjusted_task = record (task 1 99 0) { f_vmflags = record no_flags { adjpri = true } }

insert_out_of_range_example :
    (3 ≤ (nice_preprocess (priq_init 3) adjusted_task).priq)
    × (priq_insert false (priq_init 3) (nice_preprocess (priq_init 3) adjusted_task) ≡ none)
unfolding priq_init
insert_out_of_range_example =
    insert_out_of_range false 3 adjusted_task (priq_init 3) (omega arith) (omega arith) refl refl
      refl (omega arith)

abbrev attributes : SchAttr
attributes = record { sche_pri = pos 250; sche_pri_policy = pos 1; permanent = false }

abbrev nice_task : Task
nice_task = setschattr (task 1 0 0) attributes

nice_adjust-setschattr-IsNice_example :
    IsNice nice_task
    × IsNice (nice_preprocess container nice_task)
    × IsNice (nice_adjust (nice_preprocess container nice_task))
nice_adjust-setschattr-IsNice_example =
    nice_adjust-setschattr-IsNice container (task 1 0 0) attributes (inr refl)
