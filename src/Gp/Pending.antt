-- ===== src/Gp/Pending.antt =====
-- A thread gets a task of a group pool: pool/gp/cpool_gp_internal.h and
-- pool/gp/cpool_gp_core_method.c.
use libstpool.Base.{
  ℕ, suc, ◌+◌, ◌≤◌, ◌≡◌, refl, sym, ap, ◌∙◌, subst, List, Option, none, some, Bool, true, false,
  not, ◌||◌, ◌==◌, arith, if_elim, OnSome, OnSome-zip, get_elem?, leb, ◌-◌, drop,
}
use libstpool.Task.{Task, no_stat}
use libstpool.Priq.Top.{priq_empty, priq_pop-IsTop}
use libstpool.Core.Threads.{run, TaskType, normal, dispatched}
use libstpool.Core.Pool.{Pool}
use libstpool.Core.Status.{status_changel}
use libstpool.Rt.Defs.{Got, got_task}
use libstpool.Rt.Pending.{run-pending}
use libstpool.Gp.Defs.{Entry, Gp, on_entry}
use libstpool.Gp.Sched.{
  select, take_task, in_array, with_task, from_group, picked, get_pending_task,
}
use libstpool.Gp.Ops.{running_raised, get_dispatch_taskl3, starts, typed, gettask, ignores}
use libstpool.Gp.Balance.{IsServed, IsBalanced}
use libstpool.Gp.Taking.{take_task-IsBalanced}
use libstpool.Gp.Sound.{IsSound, Opens}
use libstpool.Gp.KeptTask.{take_task-Opens}
use libstpool.Gp.Next.{IsNext, select-IsNext, select-found}

-- With NDEBUG a task of a group that has one is taken.
take_task-some :
    (g : Gp) (e : Entry)
    → IsServed e.id e
    → 1 ≤ e.npendings
    → (g' : Gp) × (take_task true g e ≡ some g')
unfolding take_task
take_task-some g e s n =
    let top = priq_pop-IsTop e.c s.exact (omega (arith, n, s.counted)) in
    rw (take_task, top.pops)
      (if_elim (λ (x : Option Gp). (g' : Gp) × (x ≡ some g')) (priq_empty top.rest) (λ _. (_, refl))
        (λ _. (_, refl)))

pub sound : (g : Gp) → IsBalanced g → Opens g → IsSound g
sound g b o = record { balanced = b; window = o.0; status = o.1 }

-- The task that is got, and the pool once it runs.
pub record IsGiven (g : Gp) (t : Task) (g' : Gp) : Type 0 where
  pub next : IsNext g t
  pub running : IsSound (on_entry t.gid running_raised g')

taken-IsGiven :
    (ndebug : Bool) (g : Gp) (t : Task)
    → IsSound g
    → (n : IsNext g t) → OnSome (IsGiven g t) (take_task ndebug g n.group)
taken-IsGiven ndebug g t s n =
    OnSome-zip (λ g'. IsBalanced (on_entry n.group.id running_raised g'))
      (λ g'. Opens (on_entry n.group.id running_raised g')) (IsGiven g t)
      (take_task ndebug g n.group)
      (λ g' b o. record {
        next = n;
        running =
            subst (λ i. IsSound (on_entry i running_raised g')) named
              (sound (on_entry n.group.id running_raised g') b o);
      })
      (take_task-IsBalanced ndebug g n.group found n.awake n.pending n.room s.balanced)
      (take_task-Opens ndebug g n.group found n.awake n.pending served (s.window, s.status))
  where
    named : n.group.id ≡ t.gid
    named = (s.balanced.served t.gid n.group n.found).named

    found : get_elem? g.entry n.group.id ≡ some n.group
    found = ap (get_elem? g.entry) named ∙ n.found

    served : IsServed n.group.id n.group
    served = s.balanced.served n.group.id n.group found

-- In a sound group pool whose Core counts a pending task, __cpool_gp_get_pending_task of a build
-- with NDEBUG gives one after at most two rounds. It is the first task of a group that is not
-- paused and is below its limit or receives benefits, no group below its limit has a first task
-- of a higher priority, and the pool is sound once the task is counted as running.
pub get_pending_task-IsGiven :
    (fuel : ℕ) (g : Gp)
    → IsSound g
    → 1 ≤ g.core.npendings
    → (t : Task) × ((g' : Gp) × (get_pending_task (suc (suc fuel)) true g ≡ some (some t, g'))
        × IsGiven g t g')
unfolding get_pending_task
get_pending_task-IsGiven fuel g s h =
    let (t, sel, n) = select-IsNext g s fuel h in
    let sv = s.balanced.served t.gid n.group n.found in
    let (g', took) =
      take_task-some g n.group (subst (λ i. IsServed i n.group) (sym sv.named) sv) n.pending in
    (
      t,
      (
        g',
        ap (picked true g) sel ∙ ap (from_group true g t) n.found ∙ ap (with_task t) took,
        subst (OnSome (IsGiven g t)) took (taken-IsGiven true g t s n),
      ),
    )

-- What a thread may be given: a task that runs from then on, or none.
abbrev pub Grants : Gp → Option Task × Gp → Type 0
Grants g x = elim x.0 as (λ _. Type 0) [ none ↦ IsSound x.1 | some t ↦ IsGiven g t x.1 ]

-- Whatever the number of rounds, a task that is got is the next one.
get_pending_task-Grants :
    (fuel : ℕ) (ndebug : Bool) (g : Gp)
    → IsSound g
    → OnSome (Grants g) (get_pending_task fuel ndebug g)
unfolding get_pending_task
get_pending_task-Grants fuel ndebug g s =
    if_elim (OnSome (Grants g)) (in_array ndebug g)
      (λ _. on_select (select fuel ndebug false g) refl) (λ _. tt)
  where
    on_taken :
        (t : Task) (o : Option Gp) → OnSome (IsGiven g t) o → OnSome (Grants g) (with_task t o)
    on_taken t none h = tt
    on_taken t (some g') h = h

    on_select :
        (o : Option (Option Task))
        → select fuel ndebug false g ≡ o
        → OnSome (Grants g) (picked ndebug g o)
    on_select none e = tt
    on_select (some none) e = s
    on_select (some (some t)) e =
        let n = select-found g s fuel ndebug false t e in
        subst (λ x. OnSome (Grants g) (from_group ndebug g t x)) (sym n.found)
          (on_taken t (take_task ndebug g n.group) (taken-IsGiven ndebug g t s n))

-- A change of the rest of the pool
pub rest-IsSound :
    (g : Gp) (p : Pool) (d : ℕ) (q : List Task)
    → p.npendings ≡ g.core.npendings
    → IsSound g
    → IsSound (record g { core = p; ndispatchings = d; dispatch_q = q })
rest-IsSound g p d q e s = record {
  balanced = record {
    pending = s.balanced.pending;
    counted = e ∙ s.balanced.counted;
    served = s.balanced.served;
  };
  window = s.window;
  status = s.status;
}

starts-IsSound :
    (g : Gp) (self : ℕ) (made : List (Option ℕ)) → IsSound g → IsSound (starts g self made)
unfolding starts
starts-IsSound g self made s =
    rest-IsSound g (status_changel ignores g.core self run made) g.ndispatchings g.dispatch_q
      (run-pending ignores g.core self made) s

typed-IsSound : (k : TaskType) (g : Gp) (self : ℕ) → IsSound g → IsSound (typed k self g)
typed-IsSound k g self s = rest-IsSound g (typed k self g).core g.ndispatchings g.dispatch_q refl s

dispatched-IsSound :
    (g : Gp) (n k : ℕ)
    → IsSound g
    → IsSound (record (get_dispatch_taskl3 g n).2 {
      ndispatchings = (get_dispatch_taskl3 g n).2.ndispatchings + k;
    })
unfolding get_dispatch_taskl3
dispatched-IsSound g n k s =
    if_elim
      (λ (x : List Task × ℕ × Gp). IsSound (record x.2 { ndispatchings = x.2.ndispatchings + k }))
      (leb g.core.n_qdispatchs n)
      (λ _.
        rest-IsSound g (record g.core { n_qdispatchs = 0 }) (g.ndispatchings + k) g.dispatch_q refl
          s)
      (λ _.
        rest-IsSound g (record g.core { n_qdispatchs = g.core.n_qdispatchs - n })
          (g.ndispatchings + k) (drop n g.dispatch_q) refl s)

-- What a thread gets leaves the pool sound.
pub gettask-IsSound :
    (fuel : ℕ) (ndebug : Bool) (g : Gp) (self : ℕ) (made : List (Option ℕ))
    → IsSound g
    → OnSome (λ (x : Got × Gp). IsSound x.1) (gettask fuel ndebug g self made)
unfolding gettask
gettask-IsSound fuel ndebug g0 self made s0 =
    if_elim Ends (not (g.core.n_qdispatchs == 0))
      (λ _.
        let x = dispatched-IsSound g g.n (get_dispatch_taskl3 g g.n).1 s in
        typed-IsSound dispatched (starts _ self made) self (starts-IsSound _ self made x))
      (λ _.
        if_elim Ends (g.core.paused || g.core.npendings == 0) (λ _. s)
          (λ _. granted (get_pending_task fuel ndebug g) (get_pending_task-Grants fuel ndebug g s)))
  where
    Ends : Option (Got × Gp) → Type 0
    Ends = OnSome (λ x. IsSound x.1)

    g : Gp
    g = typed normal self g0

    s : IsSound g
    s = typed-IsSound normal g0 self s0

    granted :
        (o : Option (Option Task × Gp))
        → OnSome (Grants g) o
        → Ends (elim o as (λ _. Option (Got × Gp)) [
          | none ↦ none
          | some (none, g') ↦ none
          | some (some t, g') ↦ some (
            got_task (record t { f_stat = record no_stat { scheduling = true } }),
            starts (on_entry t.gid running_raised g') self made,
          )
        ])
    granted none h = tt
    granted (some (none, g')) h = tt
    granted (some (some t, g')) h =
        starts-IsSound (on_entry t.gid running_raised g') self made h.running
