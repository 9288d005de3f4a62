-- ===== src/Gp/Steps.antt =====
-- The operations of a group pool, pool/gp, as steps in any order.
use libstpool.Base.{ℕ, ◌≡◌, sym, subst, List, Option, some, Bool, true, ℤ, OnSome}
use libstpool.Task.{Task, VmFlags}
use libstpool.Priq.Size.{IsNice}
use libstpool.Rt.Defs.{Got}
use libstpool.Gp.Defs.{Gp}
use libstpool.Gp.Ops.{QueueResult, task_queue, gettask, finished}
use libstpool.Gp.Admin.{Attr, GroupResult, entry_setattr, entry_suspend, entry_resume}
use libstpool.Gp.Remove.{task_remove}
use libstpool.Gp.Attributes.{IsSafe}
use libstpool.Gp.Sound.{IsSound}
use libstpool.Gp.Pending.{gettask-IsSound}
use libstpool.Gp.Tasks.{task_queue-IsSound}
use libstpool.Gp.Done.{IsRunning, finished-IsSound}
use libstpool.Gp.Mark.{gp_task_mark, task_detach}
use libstpool.Gp.Marked.{IsHeld, IsServing, remove-IsSound, mark-IsSound, detach-IsSound}
use libstpool.Gp.Groups.{
  entry_resume_all, entry_throttle_ctl, NoneBusy, entry_resume_all-IsSound,
  entry_throttle_ctl-IsSound,
}
use libstpool.Gp.SuspendAll.{entry_suspend_all, entry_suspend_all-IsSound}
use libstpool.Gp.Run.{OfGroup, IsSettled, setattr-IsSound, suspend-IsSound, resume-IsSound}

-- A call of an operation that returns. A task that is queued or finished is pushed or has a policy;
-- one that is finished or detached is one that its group counts as running, or one that was
-- dispatched; one that waits and is removed or marked is in the queue of its group; and a group that
-- is to receive no benefits is resumed and given attributes only while it runs no task, and given
-- them only where its count of effective tasks is computed anew or is 0.
pub data GpStep (ndebug : Bool) (g g' : Gp) : Type 0 where
  queues :
      (t u : Task) (made : List (Option ℕ)) (e : QueueResult)
      → IsNice t
      → task_queue ndebug g t made ≡ some (e, u, g')
      → GpStep ndebug g g'
  gets :
      (fuel self : ℕ) (made : List (Option ℕ)) (got : Got)
      → gettask fuel ndebug g self made ≡ some (got, g')
      → GpStep ndebug g g'
  finishes :
      (self : ℕ) (t u : Task) (unreferenced last : Bool) (made : List (Option ℕ))
      → IsNice t
      → IsRunning g self t.gid
      → finished ndebug g self t unreferenced last made ≡ some (u, g')
      → GpStep ndebug g g'
  removes :
      (t u : Task) (bypool unreferenced ok : Bool) (rmq : List Task) (made : List (Option ℕ))
      → (t.f_stat.waiting ≡ true → OfGroup (IsHeld t) g t.gid)
      → task_remove g t bypool unreferenced made ≡ some (ok, u, rmq, g')
      → GpStep ndebug g g'
  marks :
      (t u : Task) (f : VmFlags) (unreferenced : Bool) (rmq : List Task) (made : List (Option ℕ))
      → (t.f_stat.waiting ≡ true → OfGroup (IsHeld t) g t.gid)
      → gp_task_mark g t f unreferenced made ≡ some (u, rmq, g')
      → GpStep ndebug g g'
  detaches :
      (t u : Task) (self : Option ℕ) (last : Bool) (made : List (Option ℕ))
      → IsServing g self t.gid
      → task_detach ndebug g t self last made ≡ some (u, g')
      → GpStep ndebug g g'
  suspends : (i : ℕ) (e : GroupResult) → entry_suspend g i ≡ some (e, g') → GpStep ndebug g g'
  resumes :
      (i : ℕ) (made : List (Option ℕ))
      → OfGroup IsSettled g i
      → entry_resume g i made ≡ some g'
      → GpStep ndebug g g'
  sets :
      (i : ℕ) (attr : Option Attr) (e : GroupResult)
      → OfGroup (λ x. IsSafe g x attr) g i
      → entry_setattr g i attr ≡ (e, g')
      → GpStep ndebug g g'
  suspends_all : (ids : List ℤ) → entry_suspend_all ndebug g ids ≡ some g' → GpStep ndebug g g'
  resumes_all :
      (made : List (Option ℕ)) → NoneBusy g → g' ≡ entry_resume_all g made → GpStep ndebug g g'
  throttles : (i : ℕ) (enable : Bool) → g' ≡ entry_throttle_ctl g i enable → GpStep ndebug g g'

pub data GpRun (ndebug : Bool) (g : Gp) : Gp → Type 0 where
  here : GpRun ndebug g g
  next : {h k : Gp} → GpRun ndebug g h → GpStep ndebug h k → GpRun ndebug g k

-- What is known of a call that returns is known of its result.
returned : {A : Type 0} (P : A → Type 0) (o : Option A) (a : A) → o ≡ some a → OnSome P o → P a
returned P o a e p = subst (OnSome P) e p

GpStep-IsSound : (ndebug : Bool) (g g' : Gp) → GpStep ndebug g g' → IsSound g → IsSound g'
GpStep-IsSound d g g' (queues t u made e n h) s =
    returned (λ x. IsSound x.2) (task_queue d g t made) (e, u, g') h
      (task_queue-IsSound d g t made n s)
GpStep-IsSound d g g' (gets fuel self made got h) s =
    returned (λ x. IsSound x.1) (gettask fuel d g self made) (got, g') h
      (gettask-IsSound fuel d g self made s)
GpStep-IsSound d g g' (finishes self t u r l made n k h) s =
    returned (λ x. IsSound x.1) (finished d g self t r l made) (u, g') h
      (finished-IsSound d g self t r l made n k s)
GpStep-IsSound d g g' (removes t u b r ok rmq made k h) s =
    returned (λ x. IsSound x.3) (task_remove g t b r made) (ok, u, rmq, g') h
      (remove-IsSound g t b r made k s)
GpStep-IsSound d g g' (marks t u f r rmq made k h) s =
    returned (λ x. IsSound x.2) (gp_task_mark g t f r made) (u, rmq, g') h
      (mark-IsSound g t f r made k s)
GpStep-IsSound d g g' (detaches t u self l made k h) s =
    returned (λ x. IsSound x.1) (task_detach d g t self l made) (u, g') h
      (detach-IsSound d g t self l made k s)
GpStep-IsSound d g g' (suspends i e h) s =
    returned (λ x. IsSound x.1) (entry_suspend g i) (e, g') h (suspend-IsSound g i s)
GpStep-IsSound d g g' (resumes i made k h) s =
    returned IsSound (entry_resume g i made) g' h (resume-IsSound g i made k s)
GpStep-IsSound d g g' (sets i attr e k h) s =
    subst (λ (x : GroupResult × Gp). IsSound x.1) h (setattr-IsSound g i attr k s)
GpStep-IsSound d g g' (suspends_all ids h) s =
    returned IsSound (entry_suspend_all d g ids) g' h (entry_suspend_all-IsSound d g ids s)
GpStep-IsSound d g g' (resumes_all made b h) s =
    subst IsSound (sym h) (entry_resume_all-IsSound g made b s)
GpStep-IsSound d g g' (throttles i enable h) s =
    subst IsSound (sym h) (entry_throttle_ctl-IsSound g i enable s)

-- Start from a sound group pool: the pending tasks that it and its Core count are those of the
-- groups that are not paused, every group counts the tasks of its queue and knows the first of
-- them, and the active groups are those with tasks that are not paused and stand in front of the
-- array. It is sound after any sequence of calls of cpool_gp_task_queue, cpool_gp_task_remove,
-- cpool_gp_task_mark, cpool_gp_task_detach, cpool_gp_core_gettask, cpool_gp_core_finished,
-- cpool_gp_entry_suspend, cpool_gp_entry_resume, cpool_gp_entry_suspend_all,
-- cpool_gp_entry_resume_all, cpool_gp_entry_throttle_ctl and cpool_gp_entry_setattr that return,
-- with or without NDEBUG. A task that is queued or finished is pushed or has a policy, one that
-- is finished or detached runs in its group or was dispatched, a waiting one that is removed or
-- marked is in the queue of its group, and a group that is to receive no benefits is resumed and
-- given attributes only while it runs no task. Attributes without benefits are given to a group
-- that is paused or has no pending task only where its `npendings_eff` is 0:
-- __cpool_gp_entry_set_attrl does not compute it anew there.
pub GpRun-IsSound : (ndebug : Bool) (g g' : Gp) → IsSound g → GpRun ndebug g g' → IsSound g'
GpRun-IsSound d g g' s here = s
GpRun-IsSound d g g' s (next {h} r st) = GpStep-IsSound d h g' st (GpRun-IsSound d g h s r)
