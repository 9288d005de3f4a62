-- ===== src/Rt/Again.antt =====
-- cpool_rt_core_finished of pool/rt/cpool_rt_core_method.c and cpool_rt_mark_all of
-- pool/rt/cpool_rt_method.c in a pool without priorities.
use mathlib.Core.List.{append-nil}
use libstpool.Base.{
  ℕ, suc, ◌+◌, ◌≡◌, refl, sym, ap, ◌∙◌, subst, List, [], ◌∷◌, ◌++◌, Option, none, some, Bool, true,
  false, not, ◌&&◌, ◌||◌, ◌==◌, arith, if◌then◌else◌, if_elim, length, length-append, map,
}
use libstpool.Task.{Task, VmFlags, no_stat, task_mark, nice_adjust}
use libstpool.Priq.Defs.{nice_preprocess}
use libstpool.Core.Pool.{need_ensure_servicesl}
use libstpool.Rt.Defs.{Rt, core_notifyl, link_task}
use libstpool.Rt.Pending.{complete-pending, ensure_servicesl-pending}
use libstpool.Rt.Fifo.{IsPlain, ids, Returns, Same, Same-IsPlain, not_both}
use libstpool.Rt.Queueing.{ids-append}
use libstpool.Rt.Finish.{ensures, queue_again, completed, finished}
use libstpool.Rt.Remove.{
  no_user_flags, removes, mark_each, mark_pending, removed_mark, remove_all, mark_all,
}

abbrev pub ids_again : Task → List ℕ
ids_again t = if t.f_stat.wpending then t.id ∷ [] else []

-- The pool is as before, with the task at the end if it is to be queued again.
pub record IsAgain (r : Rt) (t : Task) (x : Task × Rt) : Type 0 where
  pub order : ids x.1.ready_q ≡ ids r.ready_q ++ ids_again t
  pub plain : IsPlain x.1

ensures-Same : (r : Rt) (made : List (Option ℕ)) → Same r (ensures r made)
unfolding ensures
ensures-Same r made =
    if_elim (Same r) (need_ensure_servicesl r.core && not r.core.paused)
      (λ _. record {
        priority = refl;
        ready_q = refl;
        pending = ensure_servicesl-pending r.core none made;
      })
      (λ _. record { priority = refl; ready_q = refl; pending = refl })

completed-Same :
    (r : Rt) (self : ℕ) (last : Bool) (made : List (Option ℕ)) → Same r (completed r self last made)
unfolding completed
completed-Same r self last made =
    if_elim (Same r) (r.core.dynamic && last)
      (λ _. record {
        priority = refl;
        ready_q = refl;
        pending = complete-pending core_notifyl r.core self made;
      })
      (λ _. record { priority = refl; ready_q = refl; pending = refl })

abbrev told : ℕ → List (Option ℕ) → Task → Option Rt → Option (Task × Rt)
told id made t none = none
told id made t (some r') = some (t, ensures r' made)

queue_again-IsPlain :
    (ndebug : Bool) (r : Rt) (u : Task) (made : List (Option ℕ))
    → IsPlain r
    → Returns
        (λ x. (ids x.1.ready_q ≡ ids r.ready_q ++ u.id ∷ []) × IsPlain x.1)
        (queue_again ndebug r u made)
unfolding queue_again link_task
queue_again-IsPlain ndebug r u made p =
    if_elim (λ (o : Option Rt). Returns Joined (told 0 made v o)) r.priority
      (λ h. absurd (not_both r.priority h p.plain))
      (λ _. (
        ap ids same.ready_q ∙ ids-append r.ready_q v ∙ ap (λ k. ids r.ready_q ++ k ∷ []) named,
        Same-IsPlain linked (ensures linked made) same (record {
          plain = p.plain;
          pending = omega (arith, p.pending, length-append r.ready_q (v ∷ []));
        }),
      ))
  where
    Joined : Task × Rt → Type 0
    Joined x = (ids x.1.ready_q ≡ ids r.ready_q ++ u.id ∷ []) × IsPlain x.1

    waits : Task
    waits = record u { f_stat = record no_stat { waiting = true } }

    v : Task
    v = if r.priority then nice_preprocess r.c waits else waits

    named : v.id ≡ u.id
    named =
        if_elim (λ (x : Task). x.id ≡ u.id) r.priority (λ h. absurd (not_both r.priority h p.plain))
          (λ _. refl)

    linked : Rt
    linked = record r {
      core = record r.core { npendings = r.core.npendings + 1 };
      ready_q = r.ready_q ++ v ∷ [];
    }

    same : Same linked (ensures linked made)
    same = ensures-Same linked made

pub finished-IsAgain :
    (ndebug : Bool) (r : Rt) (self : ℕ) (t : Task) (last : Bool) (made more : List (Option ℕ))
    → IsPlain r
    → Returns (IsAgain r t) (finished ndebug r self t last made more)
unfolding finished
finished-IsAgain ndebug r self t last made more p =
    if_elim (Returns (IsAgain r t)) (not t.f_stat.wpending)
      (λ h. record {
        order =
            ap ids same.ready_q
            ∙ sym (append-nil (ids r.ready_q))
            ∙ ap after (stays t.f_stat.wpending h);
        plain = plain;
      })
      (λ h.
        on_again (queue_again ndebug r' u more) (queue_again-IsPlain ndebug r' u more plain)
          (again t.f_stat.wpending h))
  where
    stays : (b : Bool) → not b ≡ true → false ≡ b
    stays b h = ground arith

    again : (b : Bool) → not b ≡ false → true ≡ b
    again b h = ground arith

    r' : Rt
    r' = completed r self last made

    same : Same r r'
    same = completed-Same r self last made

    plain : IsPlain r'
    plain = Same-IsPlain r r' same p

    u : Task
    u = if r.priority then nice_adjust t else t

    after : Bool → List ℕ
    after b = ids r.ready_q ++ (if b then t.id ∷ [] else [])

    named : u.id ≡ t.id
    named =
        if_elim (λ (x : Task). x.id ≡ t.id) r.priority (λ h. absurd (not_both r.priority h p.plain))
          (λ _. refl)

    on_again :
        (o : Option (Task × Rt))
        → Returns (λ x. (ids x.1.ready_q ≡ ids r'.ready_q ++ u.id ∷ []) × IsPlain x.1) o
        → true ≡ t.f_stat.wpending
        → Returns (IsAgain r t) o
    on_again none q h = q
    on_again (some (w, s)) q h = record {
      order =
          q.0
          ∙ ap (λ x. ids x ++ u.id ∷ []) same.ready_q
          ∙ ap (λ k. ids r.ready_q ++ k ∷ []) named
          ∙ ap after h;
      plain = q.1;
    }

mark-id : (f : VmFlags) (t : Task) → (task_mark t f).0.id ≡ t.id
unfolding task_mark
mark-id f t = ground arith

removed-id : (f : VmFlags) (t : Task) → (removed_mark f t).id ≡ t.id
unfolding task_mark
removed-id f t = ground arith

removed-ids : (f : VmFlags) (q : List Task) → ids (map (removed_mark f) q) ≡ ids q
removed-ids f [] = refl
removed-ids f (t ∷ q) =
    ap (λ k. k ∷ ids (map (removed_mark f) q)) (removed-id f t)
    ∙ ap (λ is. t.id ∷ is) (removed-ids f q)

marked-ids : (f : VmFlags) (q : List Task) → ids (mark_each f q).0 ≡ ids q
unfolding mark_each
marked-ids f [] = refl
marked-ids f (t ∷ q) =
    ap (λ k. k ∷ ids (mark_each f q).0) (mark-id f t) ∙ ap (λ is. t.id ∷ is) (marked-ids f q)

marked-length : (f : VmFlags) (q : List Task) → length (mark_each f q).0 ≡ length q
unfolding mark_each
marked-length f [] = refl
marked-length f (t ∷ q) = ap suc (marked-length f q)

-- The removed tasks are those that stood in the queue, and marking keeps the tasks.
pub record IsMarked (r : Rt) (x : ℕ × List Task × Rt) : Type 0 where
  pub order : ids r.ready_q ≡ ids x.1 ++ ids x.2.ready_q
  pub plain : IsPlain x.2

abbrev without_tasks : Rt → Rt
without_tasks r = record r { core = record r.core { npendings = 0 }; ready_q = [] }

remove_all-plain : (r : Rt) → r.priority ≡ false → remove_all r ≡ (r.ready_q, without_tasks r)
unfolding remove_all
remove_all-plain r p =
    if_elim (λ x. x ≡ (r.ready_q, without_tasks r)) r.priority
      (λ h. absurd (not_both r.priority h p)) (λ _. refl)

remove_all-IsMarked :
    (r : Rt) (f : VmFlags) (n : ℕ)
    → IsPlain r
    → IsMarked r (n, map (removed_mark f) (remove_all r).0, (remove_all r).1)
remove_all-IsMarked r f n p =
    subst (λ (x : List Task × Rt). IsMarked r (n, map (removed_mark f) x.0, x.1))
      (sym (remove_all-plain r p.plain))
      (record {
        order =
            sym (removed-ids f r.ready_q) ∙ sym (append-nil (ids (map (removed_mark f) r.ready_q)));
        plain = record { plain = p.plain; pending = refl };
      })

mark_pending-IsMarked :
    (r : Rt) (f : VmFlags) (n : ℕ) → IsPlain r → IsMarked r (n, [], (mark_pending r f).0)
unfolding mark_pending
mark_pending-IsMarked r f n p =
    if_elim (λ (x : Rt × ℕ). IsMarked r (n, [], x.0)) r.priority
      (λ h. absurd (not_both r.priority h p.plain))
      (λ _. record {
        order = sym (marked-ids f r.ready_q);
        plain = record { plain = p.plain; pending = p.pending ∙ sym (marked-length f r.ready_q) };
      })

pub mark_all-IsMarked : (r : Rt) (f : VmFlags) → IsPlain r → IsMarked r (mark_all r f)
unfolding mark_all
mark_all-IsMarked r f p =
    if_elim (IsMarked r) (no_user_flags f || r.core.npendings == 0)
      (λ _. record { order = refl; plain = p })
      (λ _.
        if_elim (IsMarked r) (removes f) (λ _. remove_all-IsMarked r f r.core.npendings p)
          (λ _. mark_pending-IsMarked r f (mark_pending r f).1 p))
