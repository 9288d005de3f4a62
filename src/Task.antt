-- ===== src/Task.antt =====
-- The task object of the factories, ctask_t of pool/cpool_factory.h, with the flags and the
-- scheduling attributes that the pools read, and what stpool.c and pool/com/cpool_com_internal.h
-- do to them. Each flag of `f_vmflags` and `f_stat` is a bit of its own, so a flag word is a record
-- of Booleans; the long that a user passes as a set of flags is such a record too.
use libstpool.Base.{
  zero, suc, ◌-◌, ◌%◌, pos, negsuc, is_zero, ℕ, Bool, true, false, not, ◌&&◌, ◌||◌, ◌==◌,
  if◌then◌else◌, ℤ, is_negative, above, magnitude,
}

-- eTASK_VM_F_xx
pub record VmFlags : Type 0 where
  pub done : Bool
  pub remove_bypool : Bool
  pub remove : Bool
  pub pool_destroying : Bool
  pub enable_queue : Bool
  pub disable_queue : Bool
  pub group_destroying : Bool
  pub cache : Bool
  pub pri : Bool
  pub push : Bool
  pub adjpri : Bool
  pub pri_once : Bool
  pub detached : Bool

-- eTASK_STAT_F_xx
pub record Stat : Type 0 where
  pub waiting : Bool
  pub scheduling : Bool
  pub dispatching : Bool
  pub wpending : Bool

-- The byte `pri_policy`: 0, ep_TOP (1), ep_BACK (2), and any other one
pub data Policy : Type 0 where
  unset top back : Policy
  other : ℕ → Policy

-- ctask_t; `id` stands for its address. `seq` is the member that struct ctask_trace of
-- pool/gp/cpool_gp_struct.h adds, the number that a group pool gives the task.
pub record Task : Type 0 where
  pub id : ℕ
  pub has_err_handler : Bool
  pub f_stat : Stat
  pub f_vmflags : VmFlags
  pub pri : ℕ
  pub pri_policy : Policy
  pub priq : ℕ
  pub gid : ℕ
  pub seq : ℕ

abbrev pub no_flags : VmFlags
no_flags = record {
  done = false;
  remove_bypool = false;
  remove = false;
  pool_destroying = false;
  enable_queue = false;
  disable_queue = false;
  group_destroying = false;
  cache = false;
  pri = false;
  push = false;
  adjpri = false;
  pri_once = false;
  detached = false;
}

abbrev pub no_stat : Stat
no_stat = record { waiting = false; scheduling = false; dispatching = false; wpending = false }

abbrev pub is_zero_stat : Stat → Bool
is_zero_stat s = not (s.waiting || (s.scheduling || (s.dispatching || s.wpending)))

abbrev pub is_top : Policy → Bool
is_top top = true
is_top _ = false

abbrev pub is_back : Policy → Bool
is_back back = true
is_back _ = false

-- Neither of the two
abbrev pub is_unset : Policy → Bool
is_unset top = false
is_unset back = false
is_unset _ = true

abbrev pub policy_of : ℕ → Policy
policy_of zero = unset
policy_of (suc zero) = top
policy_of (suc (suc zero)) = back
policy_of (suc (suc (suc k))) = other (suc (suc (suc k)))

-- An int that is stored to a byte
abbrev pub to_byte : ℤ → ℕ
to_byte (pos k) = k % 256
to_byte (negsuc k) = 255 - k % 256

abbrev pub is_sche_back : ℤ → Bool
is_sche_back (pos k) = k == 2
is_sche_back (negsuc k) = false

-- struct schattr
pub record SchAttr : Type 0 where
  pub sche_pri : ℤ
  pub sche_pri_policy : ℤ
  pub permanent : Bool

abbrev pub clamp_pri : ℤ → ℕ
clamp_pri p = if is_negative p then 0 else if above p 99 then 99 else magnitude p

-- stpool_task_setschattr
unfoldable pub setschattr : Task → SchAttr → Task
setschattr t attr =
    let p = clamp_pri attr.sche_pri in
    let plain = is_zero attr.sche_pri_policy || (p == 0 && is_sche_back attr.sche_pri_policy) in
    let once = record t.f_vmflags { pri_once = not attr.permanent } in
    if plain
    then record t {
      f_vmflags = record once { pri = false; adjpri = false; push = true };
      pri = 0;
      priq = 0;
      pri_policy = policy_of (to_byte attr.sche_pri_policy);
    }
    else record t {
      f_vmflags = record once { pri = true; adjpri = true; push = false };
      pri = p;
      pri_policy = policy_of (to_byte attr.sche_pri_policy);
    }

-- __cpool_com_task_nice_adjust
unfoldable pub nice_adjust : Task → Task
nice_adjust t =
    if t.f_vmflags.pri_once
    then record t {
      f_vmflags = record t.f_vmflags { push = true; pri_once = false };
      priq = 0;
      pri = 0;
      pri_policy = back;
    }
    else t

-- __cpool_com_task_mark: the task, and whether it was changed.
unfoldable pub task_mark : Task → VmFlags → Task × Bool
task_mark t lflags =
    if lflags.enable_queue
    then (if t.f_vmflags.disable_queue
        then (
          record t {
            f_vmflags = record t.f_vmflags { disable_queue = false; enable_queue = true };
          },
          true,
        )
        else (t, false))
    else if lflags.disable_queue && t.f_vmflags.enable_queue
    then (
      record t { f_vmflags = record t.f_vmflags { enable_queue = false; disable_queue = true } },
      true,
    )
    else (t, false)
