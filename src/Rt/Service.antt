-- ===== src/Rt/Service.antt =====
-- Sequences of calls on a runtime pool without priorities: cpool_rt_task_queue and cpool_rt_mark_all
-- of pool/rt/cpool_rt_method.c, and the functions of pool/rt/cpool_rt_core_method.c by which a thread
-- gets a task and gives it back.
use mathlib.Core.List.{append-nil, append_assoc}
use libstpool.Base.{ℕ, ◌≡◌, sym, ap, ◌∙◌, List, [], ◌∷◌, ◌++◌, Option, none, some, Bool, true}
use libstpool.Task.{Task, VmFlags}
use libstpool.Rt.Defs.{Rt, Got, QueueResult, task_queue, gettask}
use libstpool.Rt.Fifo.{IsPlain, ids, ids_got, Returns, IsGot, gettask-IsGot}
use libstpool.Rt.Queueing.{ids_joined, IsQueued, task_queue-IsQueued}
use libstpool.Rt.Finish.{finished}
use libstpool.Rt.Remove.{mark_all}
use libstpool.Rt.Again.{ids_again, IsAgain, finished-IsAgain, mark_all-IsMarked}

-- A call of one of the functions.
pub data RtOp : Type 0 where
  queues : Task → List (Option ℕ) → RtOp
  gets : ℕ → List (Option ℕ) → RtOp
  finishes : ℕ → Task → Bool → List (Option ℕ) → List (Option ℕ) → RtOp
  marks : VmFlags → RtOp

-- The identities of the tasks that the calls got or removed and of those that joined, and the pool.
unfoldable pub rt_run : Bool → Rt → List RtOp → Option (List ℕ × List ℕ × Rt)
rt_run ndebug r [] = some ([], [], r)
rt_run ndebug r (queues t made ∷ ops) = elim (task_queue ndebug r t made) [
  | none ↦ none
  | some (e, u, r') ↦ elim (rt_run ndebug r' ops) [
    | none ↦ none
    | some (out, ins, s) ↦ some (out, ids_joined r t ++ ins, s)
  ]
]
rt_run ndebug r (gets self made ∷ ops) = elim (gettask ndebug r self made) [
  | none ↦ none
  | some (g, r') ↦ elim (rt_run ndebug r' ops) [
    | none ↦ none
    | some (out, ins, s) ↦ some (ids_got g ++ out, ins, s)
  ]
]
rt_run ndebug r (finishes self t last made more ∷ ops) =
    elim (finished ndebug r self t last made more) [
      | none ↦ none
      | some (u, r') ↦ elim (rt_run ndebug r' ops) [
        | none ↦ none
        | some (out, ins, s) ↦ some (out, ids_again t ++ ins, s)
      ]
    ]
rt_run ndebug r (marks f ∷ ops) = elim (rt_run ndebug (mark_all r f).2 ops) [
  | none ↦ none
  | some (out, ins, s) ↦ some (ids (mark_all r f).1 ++ out, ins, s)
]

pub record IsFifo (r : Rt) (x : List ℕ × List ℕ × Rt) : Type 0 where
  pub order : x.0 ++ ids x.2.ready_q ≡ ids r.ready_q ++ x.1
  pub plain : IsPlain x.2

joined-IsFifo :
    (r r' : Rt) (is : List ℕ) (o : Option (List ℕ × List ℕ × Rt))
    → ids r'.ready_q ≡ ids r.ready_q ++ is
    → Returns (IsFifo r') o
    → Returns (IsFifo r) (elim o as (λ _. Option (List ℕ × List ℕ × Rt)) [
      | none ↦ none
      | some (out, ins, s) ↦ some (out, is ++ ins, s)
    ])
joined-IsFifo r r' is none q f = absurd f
joined-IsFifo r r' is (some (out, ins, s)) q f = record {
  order = f.order ∙ ap (λ js. js ++ ins) q ∙ append_assoc (ids r.ready_q) is ins;
  plain = f.plain;
}

left-IsFifo :
    (r r' : Rt) (is : List ℕ) (o : Option (List ℕ × List ℕ × Rt))
    → ids r.ready_q ≡ is ++ ids r'.ready_q
    → Returns (IsFifo r') o
    → Returns (IsFifo r) (elim o as (λ _. Option (List ℕ × List ℕ × Rt)) [
      | none ↦ none
      | some (out, ins, s) ↦ some (is ++ out, ins, s)
    ])
left-IsFifo r r' is none q f = absurd f
left-IsFifo r r' is (some (out, ins, s)) q f = record {
  order =
      append_assoc is out (ids s.ready_q)
      ∙ ap (λ js. is ++ js) f.order
      ∙ sym (append_assoc is (ids r'.ready_q) ins)
      ∙ ap (λ js. js ++ ins) (sym q);
  plain = f.plain;
}

-- In a build with NDEBUG, a runtime pool without priorities whose counter of pending tasks is the
-- length of its queue refines a queue: any sequence of calls of cpool_rt_task_queue, of the
-- functions by which a thread gets a task and gives it back, and of cpool_rt_mark_all returns.
-- The tasks that were got to run or removed and then those still queued are those queued at first
-- and then those that joined, also to be queued again, in order, and the counter stays right.
pub rt_run-IsFifo : (r : Rt) (ops : List RtOp) → IsPlain r → Returns (IsFifo r) (rt_run true r ops)
unfolding rt_run
rt_run-IsFifo r [] p = record { order = sym (append-nil (ids r.ready_q)); plain = p }
rt_run-IsFifo r (queues t made ∷ ops) p =
    on_queue (task_queue true r t made) (task_queue-IsQueued r t made p)
      (λ r'. rt_run-IsFifo r' ops)
  where
    on_queue :
        (o : Option (QueueResult × Task × Rt))
        → Returns (IsQueued r t) o
        → ((r' : Rt) → IsPlain r' → Returns (IsFifo r') (rt_run true r' ops))
        → Returns (IsFifo r) (elim o as (λ _. Option (List ℕ × List ℕ × Rt)) [
          | none ↦ none
          | some (e, u, r') ↦ elim (rt_run true r' ops) [
            | none ↦ none
            | some (out, ins, s) ↦ some (out, ids_joined r t ++ ins, s)
          ]
        ])
    on_queue none q rec = absurd q
    on_queue (some (e, u, r')) q rec =
        joined-IsFifo r r' (ids_joined r t) (rt_run true r' ops) q.order (rec r' q.plain)
rt_run-IsFifo r (gets self made ∷ ops) p =
    on_got (gettask true r self made) (gettask-IsGot true r self made p)
      (λ r'. rt_run-IsFifo r' ops)
  where
    on_got :
        (o : Option (Got × Rt))
        → Returns (IsGot r) o
        → ((r' : Rt) → IsPlain r' → Returns (IsFifo r') (rt_run true r' ops))
        → Returns (IsFifo r) (elim o as (λ _. Option (List ℕ × List ℕ × Rt)) [
          | none ↦ none
          | some (g, r') ↦ elim (rt_run true r' ops) [
            | none ↦ none
            | some (out, ins, s) ↦ some (ids_got g ++ out, ins, s)
          ]
        ])
    on_got none q rec = absurd q
    on_got (some (g, r')) q rec =
        left-IsFifo r r' (ids_got g) (rt_run true r' ops) q.order (rec r' q.plain)
rt_run-IsFifo r (finishes self t last made more ∷ ops) p =
    on_finished (finished true r self t last made more)
      (finished-IsAgain true r self t last made more p) (λ r'. rt_run-IsFifo r' ops)
  where
    on_finished :
        (o : Option (Task × Rt))
        → Returns (IsAgain r t) o
        → ((r' : Rt) → IsPlain r' → Returns (IsFifo r') (rt_run true r' ops))
        → Returns (IsFifo r) (elim o as (λ _. Option (List ℕ × List ℕ × Rt)) [
          | none ↦ none
          | some (u, r') ↦ elim (rt_run true r' ops) [
            | none ↦ none
            | some (out, ins, s) ↦ some (out, ids_again t ++ ins, s)
          ]
        ])
    on_finished none q rec = absurd q
    on_finished (some (u, r')) q rec =
        joined-IsFifo r r' (ids_again t) (rt_run true r' ops) q.order (rec r' q.plain)
rt_run-IsFifo r (marks f ∷ ops) p =
    let m = mark_all-IsMarked r f p in
    left-IsFifo r (mark_all r f).2 (ids (mark_all r f).1) (rt_run true (mark_all r f).2 ops) m.order
      (rt_run-IsFifo (mark_all r f).2 ops m.plain)
