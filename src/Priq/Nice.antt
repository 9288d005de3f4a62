-- ===== src/Priq/Nice.antt =====
-- Where the scheduling attributes of a task come from: stpool_task_setschattr of stpool.c,
-- __cpool_com_task_nice_adjust and __cpool_com_task_nice_preprocess of pool/com/cpool_com_priq.h.
use libstpool.Base.{◌≤◌, ◌≡◌, ◌⊎◌, true, false, arith, is_zero}
use libstpool.Task.{Task, SchAttr, is_unset, policy_of, to_byte, setschattr, nice_adjust}
use libstpool.Priq.Defs.{Container, nice_preprocess}

-- What the queues rely on: a pushed task has the lowest priority, and another one has a policy.
pub record IsNice (t : Task) : Type 0 where
  pub pushed : t.f_vmflags.push ≡ true → t.pri ≡ 0
  pub policy : (t.f_vmflags.push ≡ true) ⊎ (is_unset t.pri_policy ≡ false)
  pub range : t.pri ≤ 99

-- The policy is 0, or its lowest byte is one of the two policies.
abbrev pub IsPolicy : SchAttr → Type 0
IsPolicy attr =
    (is_zero attr.sche_pri_policy ≡ true)
    ⊎ (is_unset (policy_of (to_byte attr.sche_pri_policy)) ≡ false)

setschattr-IsNice : (t : Task) (attr : SchAttr) → IsPolicy attr → IsNice (setschattr t attr)
unfolding setschattr
setschattr-IsNice t attr h = record {
  pushed = ground arith;
  policy = ground (arith, h);
  range = ground arith;
}

nice_adjust-IsNice : (t : Task) → IsNice t → IsNice (nice_adjust t)
unfolding nice_adjust
nice_adjust-IsNice t n = record {
  pushed = ground (arith, n.pushed);
  policy = ground (arith, n.policy);
  range = ground (arith, n.range);
}

nice_preprocess-IsNice : (c : Container) (t : Task) → IsNice t → IsNice (nice_preprocess c t)
unfolding nice_preprocess
nice_preprocess-IsNice c t n = record {
  pushed = ground (arith, n.pushed);
  policy = ground (arith, n.policy);
  range = ground (arith, n.range);
}

-- Where the policy that a user passes to stpool_task_setschattr is 0, or its lowest byte is
-- ep_TOP or ep_BACK, the task is pushed or has a policy, a pushed one has priority 0, and no
-- priority is above 99. This holds still after __cpool_com_task_nice_preprocess, and after
-- __cpool_com_task_nice_adjust of its result.
pub nice_adjust-setschattr-IsNice :
    (c : Container) (t : Task) (attr : SchAttr)
    → IsPolicy attr
    → IsNice (setschattr t attr)
      × IsNice (nice_preprocess c (setschattr t attr))
      × IsNice (nice_adjust (nice_preprocess c (setschattr t attr)))
nice_adjust-setschattr-IsNice c t attr h = (
  setschattr-IsNice t attr h,
  nice_preprocess-IsNice c (setschattr t attr) (setschattr-IsNice t attr h),
  nice_adjust-IsNice (nice_preprocess c (setschattr t attr))
      (nice_preprocess-IsNice c (setschattr t attr) (setschattr-IsNice t attr h)),
)
