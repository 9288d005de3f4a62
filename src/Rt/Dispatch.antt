-- ===== src/Rt/Dispatch.antt =====
-- The queue of error handlers (pool/com/cpool_com_internal.h, pool/rt/cpool_rt_core_method.c).
use libstpool.Base.{
  ◌+◌, ◌≤◌, ◌<◌, ◌≡◌, List, ◌++◌, leb, arith, if_elim, length, take-append-drop, length-take,
  length-drop, min,
}
use libstpool.Task.{Task}
use libstpool.Rt.Defs.{Rt, get_dispatch_taskl, splice_removed}

-- What one call takes, and what it leaves where some tasks stay.
pub record IsTaken (r : Rt) (x : List Task × Rt) : Type 0 where
  pub count : length x.0 ≡ min r.n r.core.n_qdispatchs
  pub left : x.1.core.n_qdispatchs + length x.0 ≡ r.core.n_qdispatchs
  pub order : r.n < r.core.n_qdispatchs → x.0 ++ x.1.dispatch_q ≡ r.dispatch_q
  pub exact : r.n < r.core.n_qdispatchs → length x.1.dispatch_q ≡ x.1.core.n_qdispatchs

-- Where the queue of removed tasks is as long as its counter, a thread takes the smaller of the
-- counter and its limit, in number, and the counter falls by it; where some stay, the taken tasks
-- and those that stay are the queue, in order, and the counter stays right.
pub get_dispatch_taskl-IsTaken :
    (r : Rt) → length r.dispatch_q ≡ r.core.n_qdispatchs → IsTaken r (get_dispatch_taskl r)
unfolding get_dispatch_taskl
get_dispatch_taskl-IsTaken r h =
    if_elim (IsTaken r) (leb r.core.n_qdispatchs r.n)
      (λ all. record {
        count = ground arith;
        left = omega (arith, h);
        order = λ l. absurd (ground arith);
        exact = λ l. absurd (ground arith);
      })
      (λ part. record {
        count = ground (arith, length-take r.n r.dispatch_q);
        left = ground (arith, length-take r.n r.dispatch_q);
        order = λ _. take-append-drop r.n r.dispatch_q;
        exact = λ _. ground (arith, length-drop r.n r.dispatch_q);
      })

-- Where a thread takes all removed tasks and further ones are removed afterwards, at most as many
-- as a thread may take, the next thread gets these and the tasks of the first one again: the head
-- of the queue still points to them.
pub get_dispatch_taskl-again :
    (r : Rt) (rmq : List Task)
    → r.core.n_qdispatchs ≤ r.n
    → length rmq ≤ r.n
    → let (tasks, r') = get_dispatch_taskl r in
      (get_dispatch_taskl (splice_removed rmq r')).0 ≡ rmq ++ tasks
unfolding get_dispatch_taskl
get_dispatch_taskl-again r rmq h k = ground arith
