-- ===== src/Priq/Defs.antt =====
-- pool/com/cpool_com_priq.h: the operations.
use libstpool.Base.{
  ℕ, ◌/◌, List, [], ◌∷◌, ◌++◌, Option, none, some, Bool, true, false, ◌&&◌, ◌||◌, ltb, leb, ◌==◌,
  if◌then◌else◌, max, get_or, set, is_empty, replicate,
}
use libstpool.Task.{Task, is_top, is_back}

-- struct cpriq_container: the member `priq` is the array of the task queues.
pub record Container : Type 0 where
  pub priq_num : ℕ
  pub priq : List (List Task)
  pub avg_pri : ℕ
  pub ready_q : List ℕ

-- The task goes before a task of this priority.
abbrev pub overtakes : Task → Task → Bool
overtakes t peek = ltb peek.pri t.pri || (t.pri == peek.pri && is_top t.pri_policy)

-- list_for_each_entry from the head; `none` at the end of the queue.
unfoldable pub scan : Task → List Task → Option (List Task)
scan t [] = none
scan t (peek ∷ next) =
    let rest = scan t next in
    if overtakes t peek
    then some (t ∷ peek ∷ next)
    else elim rest [ none ↦ none | some q ↦ some (peek ∷ q) ]

-- The `assert (0)` behind the loop; with NDEBUG the function returns and the task is not linked.
abbrev pub or_lost : Bool → List Task → Option (List Task) → Option (List Task)
or_lost ndebug q (some q') = some q'
or_lost true q none = some q
or_lost false q none = none

-- __cpool_com_priq_insert0. Where `peek` is the first entry, the loop of
-- list_for_each_entry_continue_reverse starts at the head and makes no round, so that the
-- assertion behind it is reached; with NDEBUG the code goes on to the scan.
unfoldable pub insert0 : Bool → List Task → Task → Option (List Task)
unfolding scan
insert0 ndebug [] t = some (t ∷ [])
insert0 ndebug (peek ∷ next) t =
    let q = peek ∷ next in
    if t.f_vmflags.push
    then some (q ++ t ∷ [])
    else if leb t.pri peek.pri
    then (if ltb t.pri peek.pri || is_back t.pri_policy
        then some (peek ∷ t ∷ next)
        else if ndebug
        then or_lost ndebug q (scan t q)
        else none)
    else or_lost ndebug q (scan t q)

abbrev pub last_of : ℕ → List ℕ → ℕ
last_of d [] = d
last_of d (i ∷ is) = last_of i is

-- The loop of __cpool_com_priq_active; at the end of the queue it links nothing.
unfoldable pub link_before : ℕ → List ℕ → List ℕ
link_before q [] = []
link_before q (i ∷ is) = let rest = link_before q is in if ltb i q then q ∷ i ∷ is else i ∷ rest

-- __cpool_com_priq_active, on the ready queue
unfoldable pub active : ℕ → List ℕ → List ℕ
unfolding link_before
active q [] = q ∷ []
active q (i ∷ is) = if ltb q (last_of i is) then (i ∷ is) ++ q ∷ [] else link_before q (i ∷ is)

-- __cpool_com_priq_init
unfoldable pub priq_init : ℕ → Container
priq_init num = record {
  priq_num = max 1 num;
  priq = replicate num [];
  avg_pri = 100 / num;
  ready_q = [];
}

-- __cpool_com_priq_locate
unfoldable pub locate : Container → ℕ → ℕ
locate c priority = if ltb priority c.avg_pri then 0 else priority / c.avg_pri

-- __cpool_com_priq_insert. No result stands for an assertion that fails and, in a build with
-- NDEBUG, for the access to the array of queues behind its end.
unfoldable pub priq_insert : Bool → Container → Task → Option Container
unfolding insert0 active
priq_insert ndebug c t =
    let q = get_or c.priq t.priq [] in
    let ready = if is_empty q then active t.priq c.ready_q else c.ready_q in
    if ltb t.priq c.priq_num
    then elim (insert0 ndebug q t) [
      | none ↦ none
      | some q' ↦ some (record c { priq = set c.priq t.priq q'; ready_q = ready })
    ]
    else none

-- The assertion of __cpool_com_priq_pop on the task that is first from then on.
abbrev pub in_order : Bool → Task → List Task → Bool
in_order ndebug t [] = true
in_order ndebug t (n ∷ rest) = ndebug || leb n.pri t.pri

unfoldable pub pop_from : Bool → Container → ℕ → List ℕ → List Task → Option (Task × Container)
pop_from ndebug c i is [] = none
pop_from ndebug c i is (t ∷ rest) =
    if in_order ndebug t rest
    then some (
      t,
      record c { priq = set c.priq i rest; ready_q = if is_empty rest then is else c.ready_q },
    )
    else none

abbrev pub pop_ready : Bool → Container → List ℕ → Option (Task × Container)
unfolding pop_from
pop_ready ndebug c [] = none
pop_ready ndebug c (i ∷ is) = pop_from ndebug c i is (get_or c.priq i [])

-- __cpool_com_priq_pop
unfoldable pub priq_pop : Bool → Container → Option (Task × Container)
unfolding pop_ready
priq_pop ndebug c = pop_ready ndebug c c.ready_q

-- list_del of the task at this address, and of an index of the ready queue
unfoldable pub unlink : ℕ → List Task → List Task
unlink id [] = []
unlink id (t ∷ next) = let rest = unlink id next in if t.id == id then next else t ∷ rest

unfoldable pub unlink_ready : ℕ → List ℕ → List ℕ
unlink_ready q [] = []
unlink_ready q (i ∷ is) = let rest = unlink_ready q is in if i == q then is else i ∷ rest

-- __cpool_com_priq_erase
unfoldable pub priq_erase : Container → Task → Container
unfolding unlink unlink_ready
priq_erase c t =
    let q = unlink t.id (get_or c.priq t.priq []) in
    record c {
      priq = set c.priq t.priq q;
      ready_q = if is_empty q then unlink_ready t.priq c.ready_q else c.ready_q;
    }

-- __cpool_com_task_nice_preprocess
unfoldable pub nice_preprocess : Container → Task → Task
unfolding locate
nice_preprocess c t =
    if t.f_vmflags.adjpri
    then record t { f_vmflags = record t.f_vmflags { adjpri = false }; priq = locate c t.pri }
    else t
