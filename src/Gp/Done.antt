-- ===== src/Gp/Done.antt =====
-- cpool_gp_core_finished of pool/gp/cpool_gp_core_method.c keeps a group pool sound.
use libstpool.Base.{
  ℕ, ◌≤◌, ◌≡◌, inl, refl, sym, ap, ◌∙◌, List, Option, none, some, Bool, true, if◌then◌else◌,
  if_elim, OnSome, get_elem?,
}
use libstpool.Task.{Task, no_stat, nice_adjust}
use libstpool.Priq.Size.{IsNice}
use libstpool.Core.Threads.{find}
use libstpool.Gp.Defs.{Entry, Gp}
use libstpool.Gp.Ops.{deliver, is_normal, settle, forget, completes, released, requeue, finished}
use libstpool.Gp.Queueing.{IsOf}
use libstpool.Gp.Finishing.{
  settle-IsBalanced, settle-found, forget-IsBalanced, completes-IsBalanced,
}
use libstpool.Gp.Sound.{IsSound}
use libstpool.Gp.KeptGroup.{settle-Opens, forget-Opens}
use libstpool.Gp.Pending.{sound}
use libstpool.Gp.Tasks.{found-named, deliver-IsSound}

adjust-IsOf : (i : ℕ) (t : Task) → IsOf i t → IsOf i (nice_adjust t)
unfolding nice_adjust
adjust-IsOf i t o = if_elim (IsOf i) t.f_vmflags.pri_once (λ _. (o.0, inl refl)) (λ _. o)

abbrev FinishEnds : Option (Task × Gp) → Type 0
FinishEnds = OnSome (λ x. IsSound x.1)

requeue-IsSound :
    (ndebug : Bool) (g : Gp) (t : Task) (made : List (Option ℕ))
    → IsNice t
    → IsSound g
    → (o : Option Entry) → get_elem? g.entry t.gid ≡ o
    → FinishEnds (requeue ndebug g o t made)
unfolding requeue
requeue-IsSound ndebug g t made n s none h = tt
requeue-IsSound ndebug g t made n s (some e) h =
    told (deliver ndebug g e t made) (deliver-IsSound ndebug g e t made named.1 (sym named.0, n) s)
  where
    named : (e.id ≡ t.gid) × (get_elem? g.entry e.id ≡ some e)
    named = found-named g t.gid e s h

    told :
        (o : Option Gp)
        → OnSome IsSound o
        → FinishEnds (elim o as (λ _. Option (Task × Gp)) [
          | none ↦ none
          | some g' ↦ some (record t { f_stat = record no_stat { waiting = true } }, g')
        ])
    told none h = tt
    told (some g') h = h

-- The task is of a kind that its group counts as running.
abbrev pub IsRunning : Gp → ℕ → ℕ → Type 0
IsRunning g self i =
    (e : Entry)
    → get_elem? g.entry i ≡ some e
    → is_normal (find self g.core.env.ths) ≡ true
    → 1 ≤ e.nrunnings

pub finished-IsSound :
    (ndebug : Bool) (g : Gp) (self : ℕ) (t : Task) (unreferenced last : Bool)
    (made : List (Option ℕ))
    → IsNice t
    → IsRunning g self t.gid
    → IsSound g
    → FinishEnds (finished ndebug g self t unreferenced last made)
unfolding finished
finished-IsSound ndebug g self t0 u last made n r s = on_entry_found (get_elem? g.entry t.gid) refl
  where
    t : Task
    t = nice_adjust t0

    gid : t.gid ≡ t0.gid
    gid = (adjust-IsOf t0.gid t0 (refl, n)).0

    nice : IsNice t
    nice = (adjust-IsOf t0.gid t0 (refl, n)).1

    completed : (h : Gp) → IsSound h → IsSound (if last then completes h self made else h)
    completed h q =
        if_elim IsSound last
          (λ _.
            sound (completes h self made) (completes-IsBalanced h self made q.balanced)
              (q.window, q.status))
          (λ _. q)

    settled : (e : Entry) → get_elem? g.entry t.gid ≡ some e → IsSound (settle g self e)
    settled e h =
        let named = found-named g t.gid e s h in
        sound (settle g self e)
          (settle-IsBalanced g e named.1 s.balanced self
            (r e (ap (get_elem? g.entry) (sym gid) ∙ h)))
          (settle-Opens g e named.1 (s.window, s.status) self)

    forgotten :
        (e : Entry)
        → get_elem? g.entry t.gid ≡ some e
        → IsSound (if t.f_stat.wpending then settle g self e else forget u (settle g self e) e t)
    forgotten e h =
        let named = found-named g t.gid e s h in
        let y = settle-found g self e named.1 in
        let q = settled e h in
        if_elim IsSound t.f_stat.wpending (λ _. q)
          (λ _.
            sound (forget u (settle g self e) e t)
              (forget-IsBalanced (settle g self e) e y.0 u t y.1 q.balanced)
              (forget-Opens (settle g self e) e u t (q.window, q.status)))

    on_entry_found :
        (o : Option Entry)
        → get_elem? g.entry t.gid ≡ o
        → FinishEnds (elim o as (λ _. Option (Task × Gp)) [
          | none ↦ none
          | some e ↦
              let g1 = settle g self e in
              let g2 = if t.f_stat.wpending then g1 else forget u g1 e t in
              let g3 = if last then completes g2 self made else g2 in
              let queued = requeue ndebug g3 (get_elem? g3.entry t.gid) t made in
              if t.f_stat.wpending then queued else some (released u t, g3)
        ])
    on_entry_found none h = tt
    on_entry_found (some e) h =
        let q = completed _ (forgotten e h) in
        if_elim FinishEnds t.f_stat.wpending
          (λ _. requeue-IsSound ndebug _ t made nice q (get_elem? _ t.gid) refl) (λ _. q)
