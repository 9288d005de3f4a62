-- ===== src/Gp/Marked.antt =====
-- cpool_gp_task_remove, cpool_gp_task_mark and cpool_gp_task_detach of pool/gp/cpool_gp_method.c keep a
-- group pool sound.
use libstpool.Base.{
  ℕ, ◌-◌, ◌≤◌, ◌<◌, ◌≡◌, refl, subst, sym, ap, ◌∙◌, List, [], Option, none, some, Bool, true, not,
  ◌&&◌, ◌||◌, arith, if◌then◌else◌, if_elim, OnSome, get_or, get_elem?,
}
use libstpool.Task.{Task, VmFlags, no_stat, is_zero_stat, nice_adjust}
use libstpool.Rt.Remove.{no_user_flags, removes}
use libstpool.Gp.Defs.{Entry, Gp, on_entry}
use libstpool.Gp.Ops.{was_dispatched, untraced, settle, completes, released}
use libstpool.Gp.Admin.{serve_if_needed}
use libstpool.Gp.Remove.{removel, task_remove}
use libstpool.Gp.Mark.{take_back, gp_task_mark, given_up, detached_from, task_detach}
use libstpool.Gp.Balance.{bare, Kin-IsBalanced, some_inj, map-modify_at, get_elem?-modify_at}
use libstpool.Gp.Finishing.{settle-IsBalanced, completes-IsBalanced}
use libstpool.Gp.Removing.{holds, erased, removel-IsBalanced}
use libstpool.Gp.Sound.{IsSound}
use libstpool.Gp.Kept.{keep-Opens}
use libstpool.Gp.KeptGroup.{settle-Opens}
use libstpool.Gp.KeptRemoval.{removel-Opens}
use libstpool.Gp.Pending.{sound}
use libstpool.Gp.Tasks.{found-named}
use libstpool.Gp.Done.{IsRunning}
use libstpool.Gp.Run.{OfGroup, serve-IsSound}

-- The queue of the group holds the task.
abbrev pub IsHeld : Task → Entry → Type 0
IsHeld t e = (holds t.id (get_or e.c.priq t.priq []) ≡ true) × (t.priq < e.c.priq_num)

taken-IsSound :
    (g : Gp) (e : Entry) (t : Task) (bypool u : Bool) (made : List (Option ℕ))
    → (e.id ≡ t.gid) × (get_elem? g.entry e.id ≡ some e)
    → IsHeld t e
    → IsSound g
    → IsSound (
        if bypool
        then serve_if_needed made (removel bypool u g e t).1
        else (removel bypool u g e t).1)
taken-IsSound g e t bypool u made named k s =
    let v = s.balanced.served e.id e named.1 in
    let r =
      sound (removel bypool u g e t).1
        (removel-IsBalanced bypool u g e t named.1 k.0 k.1 s.balanced)
        (removel-Opens bypool u g e t named.1
          (omega (arith, v.counted, (erased e.id e.c t k.0 k.1 v.exact v.own).0))
          (s.window, s.status)) in
    if_elim IsSound bypool (λ _. serve-IsSound (removel bypool u g e t).1 made r) (λ _. r)

pub remove-IsSound :
    (g : Gp) (t : Task) (bypool unreferenced : Bool) (made : List (Option ℕ))
    → (t.f_stat.waiting ≡ true → OfGroup (IsHeld t) g t.gid)
    → IsSound g
    → OnSome (λ x. IsSound x.3) (task_remove g t bypool unreferenced made)
unfolding task_remove
remove-IsSound g t b u made held s =
    if_elim Ends (is_zero_stat t.f_stat) (λ _. s)
      (λ _.
        if_elim Ends (t.f_stat.dispatching || t.f_stat.scheduling) (λ _. s)
          (λ _.
            if_elim Ends t.f_stat.wpending (λ _. s)
              (λ _.
                if_elim Ends t.f_stat.waiting
                  (λ w. on_found (held w) (get_elem? g.entry t.gid) refl) (λ _. s))))
  where
    Ends : Option (Bool × Task × List Task × Gp) → Type 0
    Ends = OnSome (λ x. IsSound x.3)

    bypool : Bool
    bypool = b && t.has_err_handler

    gone : Task
    gone =
        if t.has_err_handler
        then record t { f_stat = record no_stat { dispatching = true } }
        else released u t

    on_found :
        OfGroup (IsHeld t) g t.gid
        → (o : Option Entry) → get_elem? g.entry t.gid ≡ o
        → Ends (elim o as (λ _. Option (Bool × Task × List Task × Gp)) [
          | none ↦ none
          | some e ↦
              let (rmq, g1) = removel bypool u g e t in
              some (
                true,
                record gone {
                  f_vmflags =
                      if b
                      then record gone.f_vmflags { remove_bypool = true }
                      else record gone.f_vmflags { remove = true };
                },
                rmq,
                (if bypool then serve_if_needed made g1 else g1),
              )
        ])
    on_found k none h = tt
    on_found k (some e) h = taken-IsSound g e t bypool u made (found-named g t.gid e s h) (k e h) s

take_back-IsSound :
    (g : Gp) (t : Task) (f : VmFlags) (bypool u : Bool) (made : List (Option ℕ))
    → OfGroup (IsHeld t) g t.gid
    → IsSound g
    → (o : Option Entry) → get_elem? g.entry t.gid ≡ o
    → OnSome (λ x. IsSound x.2) (take_back bypool u made g t f o)
unfolding take_back
take_back-IsSound g t f bypool u made held s none h = tt
take_back-IsSound g t f bypool u made held s (some e) h =
    taken-IsSound g e t bypool u made (found-named g t.gid e s h) (held e h) s

pub mark-IsSound :
    (g : Gp) (t : Task) (f : VmFlags) (unreferenced : Bool) (made : List (Option ℕ))
    → (t.f_stat.waiting ≡ true → OfGroup (IsHeld t) g t.gid)
    → IsSound g
    → OnSome (λ x. IsSound x.2) (gp_task_mark g t f unreferenced made)
unfolding gp_task_mark
mark-IsSound g t f u made held s =
    if_elim Ends (no_user_flags f) (λ _. s)
      (λ _.
        if_elim Ends (not (f.enable_queue || f.disable_queue))
          (λ _.
            told (task_remove g t f.remove_bypool u made)
              (remove-IsSound g t f.remove_bypool u made held s))
          (λ _.
            if_elim Ends (removes f && t.f_stat.wpending) (λ _. s)
              (λ _.
                if_elim Ends (removes f && t.f_stat.waiting)
                  (λ w.
                    take_back-IsSound g t f (f.remove_bypool && t.has_err_handler) u made
                      (held (ground arith)) s (get_elem? g.entry t.gid) refl)
                  (λ _. s))))
  where
    Ends : Option (Task × List Task × Gp) → Type 0
    Ends = OnSome (λ x. IsSound x.2)

    told :
        (o : Option (Bool × Task × List Task × Gp))
        → OnSome (λ x. IsSound x.3) o
        → Ends (elim o as (λ _. Option (Task × List Task × Gp)) [
          | none ↦ none
          | some (ok, v, rmq, h) ↦ some (v, rmq, h)
        ])
    told none q = tt
    told (some (ok, v, rmq, h)) q = q

-- A store to the counters of a group that the pool does not sum up
store-IsSound :
    (g : Gp) (i n m : ℕ) (f : Entry → Entry)
    → ((e : Entry) → bare (f e) ≡ bare e)
    → ((e : Entry) → (f e).index ≡ e.index)
    → ((e : Entry) → (f e).active ≡ e.active)
    → IsSound g
    → IsSound (record (on_entry i f g) { n_qtraces = n; ndispatchings = m })
store-IsSound g i n m f b x a s =
    let o =
      keep-Opens g i f x a (λ e. ap (λ (y : Entry). y.paused) (b e))
        (λ e. ap (λ (y : Entry). y.npendings) (b e)) (s.window, s.status) in
    let k =
      Kin-IsBalanced g (on_entry i f g)
        (record { entry = map-modify_at i f g.entry b; npendings = refl; core = refl })
        s.balanced in
    record {
      balanced = record { pending = k.pending; counted = k.counted; served = k.served };
      window = o.0;
      status = o.1;
    }

-- The task is one that its group counts as running, or one that was dispatched.
abbrev pub IsServing : Gp → Option ℕ → ℕ → Type 0
IsServing g none i = Unit {0}
IsServing g (some self) i = IsRunning g self i

detached_from-IsSound :
    (g : Gp) (e : Entry) (o : Option ℕ) (last : Bool) (made : List (Option ℕ))
    → get_elem? g.entry e.id ≡ some e
    → IsServing g o e.id
    → IsSound g
    → IsSound (detached_from g e o last made)
unfolding detached_from
detached_from-IsSound g e none last made found r s =
    store-IsSound g e.id g.n_qtraces (g.ndispatchings - 1) was_dispatched (λ x. refl) (λ x. refl)
      (λ x. refl) s
detached_from-IsSound g e (some self) last made found r s =
    if_elim IsSound last
      (λ _.
        sound (completes g1 self made) (completes-IsBalanced g1 self made q.balanced)
          (q.window, q.status))
      (λ _. q)
  where
    g1 : Gp
    g1 = settle g self e

    q : IsSound g1
    q =
        sound g1 (settle-IsBalanced g e found s.balanced self (r e found))
          (settle-Opens g e found (s.window, s.status) self)

pub detach-IsSound :
    (ndebug : Bool) (g : Gp) (t : Task) (self : Option ℕ) (last : Bool) (made : List (Option ℕ))
    → IsServing g self t.gid
    → IsSound g
    → OnSome (λ x. IsSound x.1) (task_detach ndebug g t self last made)
unfolding task_detach
detach-IsSound ndebug g t self last made r s =
    if_elim Ends (not (t.f_stat.dispatching || t.f_stat.scheduling))
      (λ _. if_elim Ends ndebug (λ _. s) (λ _. tt))
      (λ _. if_elim Ends t.f_vmflags.cache (λ _. s) (λ _. on_found (get_elem? g.entry t.gid) refl))
  where
    Ends : Option (Task × Gp) → Type 0
    Ends = OnSome (λ x. IsSound x.1)

    serving :
        (o : Option ℕ) (e : Entry)
        → e.id ≡ t.gid
        → get_elem? g.entry e.id ≡ some e
        → IsServing g o t.gid
        → IsServing (given_up g e) o e.id
    serving none e n found r = tt
    serving (some i) e n found r = λ (x : Entry) k normal.
        subst (λ (y : Entry). 1 ≤ y.nrunnings)
          (some_inj (sym (get_elem?-modify_at e.id untraced g.entry e found) ∙ k))
          (r e (ap (get_elem? g.entry) (sym n) ∙ found) normal)

    on_found :
        (o : Option Entry)
        → get_elem? g.entry t.gid ≡ o
        → Ends (elim o as (λ _. Option (Task × Gp)) [
          | none ↦ none
          | some e ↦ some (
            record (nice_adjust t) { f_stat = no_stat },
            detached_from (given_up g e) (untraced e) self last made,
          )
        ])
    on_found none h = tt
    on_found (some e) h =
        let named = found-named g t.gid e s h in
        detached_from-IsSound (given_up g e) (untraced e) self last made
          (get_elem?-modify_at e.id untraced g.entry e named.1) (serving self e named.0 named.1 r)
          (store-IsSound g e.id (g.n_qtraces - 1) g.ndispatchings untraced (λ x. refl) (λ x. refl)
            (λ x. refl) s)
