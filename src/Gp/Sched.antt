-- ===== src/Gp/Sched.antt =====
-- pool/gp/cpool_gp_internal.h: a task joins the queue of its group, the Core hears of it, a thread
-- chooses the next task among the groups, and a task is taken back.
use libstpool.Base.{
  ℕ, zero, suc, ◌+◌, ◌-◌, List, [], ◌∷◌, Option, none, some, Bool, true, false, not, ◌&&◌, ◌||◌,
  ltb, ◌==◌, if◌then◌else◌, max, length, take, get_elem?,
}
use libstpool.Task.{Task, no_stat, is_top, is_back}
use libstpool.Priq.Defs.{Container, priq_insert, priq_pop}
use libstpool.Priq.Top.{priq_top, priq_empty}
use libstpool.Core.Pool.{Pool, need_ensure_servicesl}
use libstpool.Core.Services.{ensure_servicesl}
use libstpool.Gp.Defs.{Entry, Gp, on_entry, activel, inactivel}

-- __cpool_gp_task_pri_queuel: the task as it is queued.
abbrev pub numbered : Gp → Task → Task
numbered g t = record t { seq = g.seq + 1; f_stat = record no_stat { waiting = true } }

-- The stores to the group.
abbrev pub queued : Container → Entry → Entry
queued c e = record e { c = c; top = priq_top c; npendings = e.npendings + 1 }

-- __cpool_gp_task_pri_queuel; `none` stands for an assertion that fails.
unfoldable pub pri_queuel : Bool → Gp → Entry → Task → Option Gp
pri_queuel ndebug g e t = elim (priq_insert ndebug e.c (numbered g t)) [
  | none ↦ none
  | some c ↦ some (record (on_entry e.id (queued c) g) { seq = g.seq + 1 })
]

-- The effective number of tasks is to be raised; the code reads the counter of the pool here.
abbrev pub counts_more : Gp → Entry → Bool
counts_more g e =
    e.receive_benifits
    || (ltb (e.nrunnings + e.npendings_eff) e.limit_tasks && ltb e.npendings_eff g.npendings)

abbrev pub eff_raised : Entry → Entry
eff_raised e = record e {
  npendings_eff = if e.receive_benifits then e.npendings_eff else e.npendings_eff + 1;
}

abbrev pub ensured : Pool → List (Option ℕ) → Pool
ensured p made = if need_ensure_servicesl p && not p.paused then ensure_servicesl p none made else p

abbrev pub pending_raised : Pool → Pool
pending_raised p = record p { npendings = p.npendings + 1 }

-- The first part of __cpool_gp_entry_consumer_notifyl
unfoldable pub raise_pending : Gp → Entry → List (Option ℕ) → Gp
raise_pending g e made =
    let g1 = record g { npendings = g.npendings + 1 } in
    if counts_more g1 e
    then record (on_entry e.id eff_raised g1) { core = ensured (pending_raised g1.core) made }
    else g1

-- __cpool_gp_entry_consumer_notifyl, on the group as it is after the task was queued
unfoldable pub consumer_notifyl : Gp → Entry → List (Option ℕ) → Gp
unfolding raise_pending
consumer_notifyl g e made =
    let g1 = raise_pending g e made in
    let g2 = if e.npendings == 1 then activel g1 e else g1 in
    record g2 { ntasks_peak = max g2.ntasks_peak g2.npendings }

-- The group may give a task to a thread.
abbrev pub may_serve : Bool → Entry → Bool
may_serve benifits e =
    not (e.npendings == 0) && (ltb e.nrunnings e.limit_tasks || (benifits && e.receive_benifits))

-- The task `top` of the next group is taken instead of `t`.
abbrev pub goes_before : Task → Task → Bool
goes_before top t =
    if top.pri == t.pri
    then (if ltb t.seq top.seq then is_top top.pri_policy else is_back t.pri_policy)
    else ltb t.pri top.pri

abbrev pub preferred : Option Task → Option Task → Option Task
preferred none top = top
preferred (some t) none = some t
preferred (some t) (some top) = if goes_before top t then some top else some t

abbrev pub choose : Bool → Option Entry → Option Task → Option Task
choose benifits none best = best
choose benifits (some e) best = if may_serve benifits e then preferred best e.top else best

-- The loop of __cpool_gp_get_pending_task over the first groups of `actentry`
unfoldable pub scan_actives : Bool → List Entry → List ℕ → Option Task → Option Task
scan_actives benifits es [] best = best
scan_actives benifits es (i ∷ is) best =
    scan_actives benifits es is (choose benifits (get_elem? es i) best)

-- The rounds of `goto reget`. `none` stands for the assertion that fails in the second round, and
-- with NDEBUG for a number of rounds that is not enough.
unfoldable pub select : ℕ → Bool → Bool → Gp → Option (Option Task)
unfolding scan_actives
select zero ndebug benifits g = none
select (suc fuel) ndebug benifits g =
    let again = select fuel ndebug true g in
    elim (scan_actives benifits g.entry (take g.active_idx g.actentry) none) [
      | some t ↦ some (some t)
      | none ↦
          if g.core.npendings == 0
          then some none
          else if benifits && not ndebug
          then none
          else again
    ]

-- The last task of the group is taken.
abbrev pub emptied : Container → Entry → Entry
emptied c e = record e {
  c = c;
  npendings = 0;
  npendings_eff = if e.receive_benifits then e.npendings_eff else 0;
}

abbrev pub lowered : Container → Entry → Entry
lowered c e = record e {
  c = c;
  top = priq_top c;
  npendings = e.npendings - 1;
  npendings_eff = if e.receive_benifits then e.npendings_eff else e.npendings_eff - 1;
}

abbrev pub pending_lowered : Gp → Gp
pending_lowered g = record g {
  core = record g.core { npendings = g.core.npendings - 1 };
  npendings = g.npendings - 1;
}

-- What __cpool_gp_get_pending_task does where it has chosen a task of the group
unfoldable pub take_task : Bool → Gp → Entry → Option Gp
unfolding priq_pop
take_task ndebug g e = elim (priq_pop ndebug e.c) [
  | none ↦ none
  | some (t, c) ↦
      if priq_empty c
      then some (inactivel (pending_lowered (on_entry e.id (emptied c) g)) (emptied c e))
      else some (pending_lowered (on_entry e.id (lowered c) g))
]

-- The assertion on `active_idx` at the head of __cpool_gp_get_pending_task
abbrev pub in_array : Bool → Gp → Bool
in_array ndebug g = ndebug || ltb g.active_idx (length g.entry)

abbrev pub with_task : Task → Option Gp → Option (Option Task × Gp)
with_task t none = none
with_task t (some g) = some (some t, g)

-- The part behind the loop, on the group of the chosen task
abbrev pub from_group : Bool → Gp → Task → Option Entry → Option (Option Task × Gp)
from_group ndebug g t none = none
from_group ndebug g t (some e) = with_task t (take_task ndebug g e)

abbrev pub picked : Bool → Gp → Option (Option Task) → Option (Option Task × Gp)
picked ndebug g none = none
picked ndebug g (some none) = some (none, g)
picked ndebug g (some (some t)) = from_group ndebug g t (get_elem? g.entry t.gid)

-- __cpool_gp_get_pending_task
unfoldable pub get_pending_task : ℕ → Bool → Gp → Option (Option Task × Gp)
unfolding select take_task
get_pending_task fuel ndebug g =
    let taken = picked ndebug g (select fuel ndebug false g) in
    if in_array ndebug g then taken else none
