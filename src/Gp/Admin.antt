-- ===== src/Gp/Admin.antt =====
-- Ruling the groups: pool/gp/cpool_gp_entry.h and pool/gp/cpool_gp_advance_method.c.
use libstpool.Base.{
  ℕ, ◌+◌, ◌-◌, List, [], ◌∷◌, Option, none, some, Bool, true, false, not, ◌&&◌, ◌||◌, ltb, ◌==◌,
  if◌then◌else◌, ℤ, pos, below, magnitude, min, max, length, get_elem?,
}
use libstpool.Core.Pool.{need_ensure_servicesl}
use libstpool.Core.Services.{ensure_servicesl}
use libstpool.Gp.Defs.{Entry, Gp, is_gone, on_entry, activel, inactivel, shrink}

-- struct scheduler_attr
pub record Attr : Type 0 where
  pub limit_paralle_tasks : ℤ
  pub receive_benifits : Bool

-- The number that a group without benefits may run, from the attribute and the threads of the pool
unfoldable pub limit_of : ℤ → ℕ → ℕ
limit_of limit maxthreads = if below limit maxthreads then magnitude limit else maxthreads

abbrev pub given : Option Attr → ℕ → Attr
given none maxthreads = record { limit_paralle_tasks = pos maxthreads; receive_benifits = true }
given (some attr) maxthreads = attr

-- The stores of __cpool_gp_entry_set_attrl to the group, less `npendings_eff`
unfoldable pub attributed : Attr → ℕ → Entry → Entry
unfolding limit_of
attributed attr maxthreads e = record e {
  limit_paralle_tasks = attr.limit_paralle_tasks;
  limit_tasks = limit_of attr.limit_paralle_tasks maxthreads;
  receive_benifits = attr.receive_benifits || limit_of attr.limit_paralle_tasks maxthreads == 0;
}

-- The number of tasks of the group that the Core counts
abbrev pub effective : Entry → ℕ
effective e = if e.receive_benifits then e.npendings else e.npendings_eff

abbrev pub eff_limited : Entry → Entry
eff_limited e = record e {
  npendings_eff = if e.receive_benifits then e.npendings_eff else min e.limit_tasks e.npendings;
}

abbrev pub core_counts : ℕ → Gp → Gp
core_counts n g = record g { core = record g.core { npendings = n } }

-- __cpool_gp_entry_set_attrl
unfoldable pub set_attrl : Gp → Entry → Option Attr → Gp
unfolding attributed
set_attrl g e attr =
    let f = attributed (given attr g.core.maxthreads) g.core.maxthreads in
    let g1 = on_entry e.id f g in
    let n = (g.core.npendings - effective e) + effective (eff_limited (f e)) in
    if e.paused || e.npendings == 0 then g1 else core_counts n (on_entry e.id eff_limited g1)

-- __cpool_gp_entry_get_attrl
unfoldable pub get_attrl : Entry → Attr
get_attrl e = record {
  limit_paralle_tasks = e.limit_paralle_tasks;
  receive_benifits = e.receive_benifits;
}

-- __cpool_gp_entry_update_all_envl, over the groups from `entry` on
unfoldable pub update_each : List Entry → Gp → Gp
unfolding set_attrl get_attrl
update_each [] g = g
update_each (e ∷ es) g = update_each es (if e.free then g else set_attrl g e (some (get_attrl e)))

unfoldable pub update_all_envl : Gp → Gp
unfolding update_each
update_all_envl g = update_each g.entry g

-- The result of a function on a group
pub data GroupResult : Type 0 where
  ok err_group_not_found err_destroying : GroupResult

-- cpool_gp_entry_setattr
unfoldable pub entry_setattr : Gp → ℕ → Option Attr → GroupResult × Gp
unfolding set_attrl
entry_setattr g id attr = elim (get_elem? g.entry id) [
  | none ↦ (err_group_not_found, g)
  | some e ↦ if is_gone e then (err_group_not_found, g) else (ok, set_attrl g e attr)
]

-- cpool_gp_entry_getattr: its result, as the code returns it, and the attributes that it stores.
unfoldable pub entry_getattr : Gp → ℕ → GroupResult × Option Attr
unfolding get_attrl
entry_getattr g id = elim (get_elem? g.entry id) [
  | none ↦ (ok, none)
  | some e ↦ if is_gone e then (ok, none) else (err_group_not_found, some (get_attrl e))
]

abbrev pub paused_as : Bool → Entry → Entry
paused_as b e = record e { paused = b }

abbrev pub eff_reset : Entry → Entry
eff_reset e = record e { npendings_eff = if e.receive_benifits then e.npendings_eff else 0 }

-- The state that cpool_gp_entry_suspend leaves for a group that is not paused; the groups of
-- cpool_gp_entry_suspend_all go through the same.
unfoldable pub suspended : Gp → Entry → Gp
suspended g e =
    let g1 = on_entry e.id (paused_as true) g in
    let g2 = inactivel (record g1 { npendings = g1.npendings - e.npendings }) (paused_as true e) in
    let g3 = core_counts (g2.core.npendings - effective e) (on_entry e.id eff_reset g2) in
    if e.npendings == 0 then shrink g1 else g3

-- cpool_gp_entry_suspend, up to the wait for the tasks that run; `none` stands for the read behind
-- the array that the test `id > gpool->num` lets pass.
unfoldable pub entry_suspend : Gp → ℕ → Option (GroupResult × Gp)
unfolding suspended
entry_suspend g id =
    if ltb (length g.entry) id then some (err_group_not_found, g) else elim (get_elem? g.entry id) [
      | none ↦ none
      | some e ↦
          if is_gone e
          then some (err_group_not_found, g)
          else if not g.core.created
          then some (err_destroying, g)
          else some (ok, if e.paused then g else suspended g e)
    ]

-- What cpool_gp_entry_resume does for a paused group, less the call of the Core;
-- cpool_gp_entry_resume_all does it for each.
unfoldable pub resumed : Gp → Entry → Gp
resumed g e =
    let g1 = on_entry e.id (paused_as false) g in
    let g2 = record (on_entry e.id eff_limited g1) { npendings = g1.npendings + e.npendings } in
    let g3 = core_counts (g2.core.npendings + effective (eff_limited e)) g2 in
    if e.npendings == 0 then g1 else activel g3 e

abbrev pub peaked : Gp → Gp
peaked g = record g { ntasks_peak = max g.ntasks_peak g.npendings }

abbrev pub serve_if_needed : List (Option ℕ) → Gp → Gp
serve_if_needed made g = record g {
  core = if need_ensure_servicesl g.core then ensure_servicesl g.core none made else g.core;
}

-- cpool_gp_entry_resume
unfoldable pub entry_resume : Gp → ℕ → List (Option ℕ) → Option Gp
unfolding resumed
entry_resume g id made = if ltb (length g.entry) id then some g else elim (get_elem? g.entry id) [
  | none ↦ none
  | some e ↦
      if not (is_gone e) && (g.core.created && e.paused)
      then some
          (if e.npendings == 0 then resumed g e else peaked (serve_if_needed made (resumed g e)))
      else some g
]
