-- ===== src/Gp/Defs.antt =====
-- pool/gp/cpool_gp_struct.h and pool/gp/cpool_gp_entry.h: the groups of a pool and the array of the
-- groups that have tasks to run.
use libstpool.Base.{
  ℕ, zero, suc, ◌+◌, ◌-◌, List, Option, none, some, Bool, true, false, ◌||◌, ltb, leb, ◌==◌,
  if◌then◌else◌, ℤ, get_or, get_elem?, modify_at, set,
}
use libstpool.Task.{Task}
use libstpool.Priq.Defs.{Container}
use libstpool.Core.Pool.{Pool}

-- struct ctask_entry. `free`, `destroying`, `throttle` and `active` are the bits of `lflags`, and
-- `top` is the pointer to the first task, which is read only while a task is pending.
pub record Entry : Type 0 where
  pub id : ℕ
  pub index : ℕ
  pub free : Bool
  pub destroying : Bool
  pub throttle : Bool
  pub active : Bool
  pub paused : Bool
  pub receive_benifits : Bool
  pub limit_paralle_tasks : ℤ
  pub limit_tasks : ℕ
  pub c : Container
  pub top : Option Task
  pub npendings : ℕ
  pub npendings_eff : ℕ
  pub nrunnings : ℕ
  pub ndispatchings : ℕ
  pub n_qtraces : ℕ
  pub ntasks_processed : ℕ

-- struct cpool_gp. `actentry` holds the positions of the groups in `entry`, `dispatch_q` is the
-- queue of the Core.
pub record Gp : Type 0 where
  pub core : Pool
  pub throttle_on : Bool
  pub entry : List Entry
  pub actentry : List ℕ
  pub active_idx : ℕ
  pub nactives_ok : ℕ
  pub seq : ℕ
  pub n : ℕ
  pub npendings : ℕ
  pub ndispatchings : ℕ
  pub n_qtraces : ℕ
  pub ntasks_peak : ℕ
  pub dispatch_q : List Task

-- IS_VALID_ENTRY, negated
abbrev pub is_gone : Entry → Bool
is_gone e = e.free || e.destroying

abbrev pub on_entry : ℕ → (Entry → Entry) → Gp → Gp
on_entry i f g = record g { entry = modify_at i f g.entry }

abbrev pub placed_at : ℕ → Entry → Entry
placed_at p e = record e { index = p }

-- __cpool_gp_entry_swapl
unfoldable pub swapl : Gp → ℕ → ℕ → Gp
swapl g idx0 idx1 =
    let i = get_or g.actentry idx0 0 in
    let j = get_or g.actentry idx1 0 in
    record g {
      entry = modify_at j (placed_at idx0) (modify_at i (placed_at idx1) g.entry);
      actentry = set (set g.actentry idx0 j) idx1 i;
    }

abbrev pub marked_active : Bool → Entry → Entry
marked_active b e = record e { active = b }

-- __cpool_gp_entry_activel
unfoldable pub activel : Gp → Entry → Gp
unfolding swapl
activel g e =
    let g1 = record g {
      entry = modify_at e.id (marked_active true) g.entry;
      nactives_ok = g.nactives_ok + 1;
    } in
    let first = if e.index == 0 then g1 else swapl g1 0 e.index in
    let next = swapl g1 g.active_idx e.index in
    if g.nactives_ok + 1 == 1
    then record first { active_idx = 1 }
    else if leb g.active_idx e.index
    then record next { active_idx = g.active_idx + 1 }
    else g1

-- A test of the group at a position; behind the array there is none.
abbrev flag_of : (Entry → Bool) → Option Entry → Bool
flag_of f none = false
flag_of f (some e) = f e

abbrev pub flag_at : (Entry → Bool) → List Entry → ℕ → Bool
flag_at f es i = flag_of f (get_elem? es i)

-- `gpool->actentry[p]->lflags & SLOT_F_ACTIVE`
abbrev pub is_active_at : List Entry → List ℕ → ℕ → Bool
is_active_at es act p = flag_at (λ e. e.active) es (get_or act p 0)

-- The inner loop of __cpool_gp_entry_shrink, over `n` positions from `j` on
unfoldable pub find_active : List Entry → List ℕ → ℕ → ℕ → Option ℕ
find_active es act zero j = none
find_active es act (suc n) j =
    let rest = find_active es act n (suc j) in if is_active_at es act j then some j else rest

unfoldable pub swap_found : Gp → ℕ → Option ℕ → Gp
unfolding swapl
swap_found g i none = g
swap_found g i (some j) = swapl g i j

-- Its outer loop, over `n` positions from `i` on
unfoldable pub shrink_loop : ℕ → ℕ → Gp → Gp
unfolding find_active swap_found
shrink_loop zero i g = g
shrink_loop (suc n) i g =
    let found = find_active g.entry g.actentry (g.active_idx - (i + 1)) (i + 1) in
    let g1 = if is_active_at g.entry g.actentry i then g else swap_found g i found in
    shrink_loop n (suc i) g1

-- __cpool_gp_entry_shrink
unfoldable pub shrink : Gp → Gp
unfolding shrink_loop
shrink g =
    let g1 = shrink_loop g.nactives_ok 0 g in
    if g.active_idx == g.nactives_ok then g else record g1 { active_idx = g.nactives_ok }

-- __cpool_gp_entry_inactivel
unfoldable pub inactivel : Gp → Entry → Gp
unfolding shrink
inactivel g e =
    let g1 = record g {
      entry = modify_at e.id (marked_active false) g.entry;
      nactives_ok = g.nactives_ok - 1;
    } in
    if g1.nactives_ok == 0
    then record g1 { active_idx = 0 }
    else if e.paused || ltb (g1.nactives_ok + 2) g1.active_idx
    then shrink g1
    else g1
