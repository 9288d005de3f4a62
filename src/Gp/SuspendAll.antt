-- ===== src/Gp/SuspendAll.antt =====
-- Suspending all groups: cpool_gp_entry_suspend_all of pool/gp/cpool_gp_advance_method.c.
use libstpool.Base.{
  ℕ, zero, suc, ◌≡◌, refl, List, Option, none, some, Bool, not, ◌&&◌, ◌||◌, ◌==◌, ltb, leb, set,
  get_or, OnSome, ℤ, pos, negsuc, if◌then◌else◌, if_elim, length, get_elem?,
}
use libstpool.Gp.Defs.{Entry, Gp, is_gone}
use libstpool.Gp.Admin.{suspended, effective}
use libstpool.Gp.Ruling.{suspended-IsBalanced}
use libstpool.Gp.Sound.{IsSound}
use libstpool.Gp.KeptTask.{suspended-Opens}
use libstpool.Gp.Pending.{sound}
use libstpool.Gp.Tasks.{found-named}

abbrev incremented : ℤ → ℤ
incremented (pos k) = pos (suc k)
incremented (negsuc zero) = pos 0
incremented (negsuc (suc k)) = negsuc k

-- The store to `ids[k]`, where ids[0] has been set to k. No result stands for a store outside the
-- array of 100 numbers, and for one to the counter itself, whose order C leaves open.
unfoldable pub store_id : ℤ → List ℤ → ℕ → Option (List ℤ)
store_id (negsuc k) ids id = none
store_id (pos zero) ids id = none
store_id (pos (suc k)) ids id =
    if ltb (suc k) 100 then some (set (set ids 0 (pos (suc k))) (suc k) (pos id)) else none

-- `ids[++ *ids_idx] = entry->id`, where `ids_idx` points to ids[0]
unfoldable pub push_id : List ℤ → ℕ → Option (List ℤ)
unfolding store_id
push_id ids id = store_id (incremented (get_or ids 0 (pos 0))) ids id

-- The assertions in the body of the loop of cpool_gp_entry_suspend_all, for a group that it pauses
abbrev pub suspend_holds : Gp → Entry → Gp → Bool
suspend_holds g e h =
    if e.npendings == 0
    then e.npendings_eff == 0
    else leb (effective e) g.core.npendings && leb h.core.npendings h.npendings

-- The body of the loop, on the group at a position
unfoldable pub suspend_one : Bool → Gp → List ℤ → Option Entry → Option (Gp × List ℤ)
unfolding suspended push_id
suspend_one ndebug g ids none = some (g, ids)
suspend_one ndebug g ids (some e) =
    let h = if e.paused then g else suspended g e in
    let holds = ndebug || (e.paused || suspend_holds g e h) in
    if is_gone e then some (g, ids) else elim (push_id ids e.id) [
      | none ↦ none
      | some ids' ↦ if holds then some (h, ids') else none
    ]

-- The loop, over `n` groups from `i` on
unfoldable pub suspend_each : Bool → ℕ → ℕ → Gp → List ℤ → Option (Gp × List ℤ)
unfolding suspend_one
suspend_each ndebug zero i g ids = some (g, ids)
suspend_each ndebug (suc n) i g ids = elim (suspend_one ndebug g ids (get_elem? g.entry i)) [
  | none ↦ none
  | some (g', ids') ↦ suspend_each ndebug n (suc i) g' ids'
]

-- cpool_gp_entry_suspend_all, up to the wait for the tasks that run. The source does not set the
-- array `ids` of 100 numbers, so that its first contents are an argument.
unfoldable pub entry_suspend_all : Bool → Gp → List ℤ → Option Gp
unfolding suspend_each
entry_suspend_all ndebug g ids =
    if not g.core.created then some g else elim (suspend_each ndebug (length g.entry) 0 g ids) [
      | none ↦ none
      | some (g', ids') ↦ if ndebug || g'.npendings == 0 then some g' else none
    ]

abbrev KeepsSound : Option (Gp × List ℤ) → Type 0
KeepsSound = OnSome (λ x. IsSound x.0)

paused-IsSound :
    (g : Gp) (i : ℕ) (e : Entry)
    → get_elem? g.entry i ≡ some e
    → IsSound g
    → IsSound (if e.paused then g else suspended g e)
paused-IsSound g i e h s =
    if_elim IsSound e.paused (λ _. s)
      (λ up.
        let named = found-named g i e s h in
        sound (suspended g e) (suspended-IsBalanced g e named.1 s.balanced up)
          (suspended-Opens g e named.1 up (s.window, s.status)))

stored-IsSound :
    (h : Gp) (holds : Bool) (o : Option (List ℤ))
    → IsSound h
    → KeepsSound (elim o as (λ _. Option (Gp × List ℤ)) [
      | none ↦ none
      | some ids ↦ if holds then some (h, ids) else none
    ])
stored-IsSound h holds none s = tt
stored-IsSound h holds (some ids) s = if_elim KeepsSound holds (λ _. s) (λ _. tt)

suspend_one-IsSound :
    (ndebug : Bool) (g : Gp) (ids : List ℤ) (i : ℕ) (o : Option Entry)
    → get_elem? g.entry i ≡ o
    → IsSound g
    → KeepsSound (suspend_one ndebug g ids o)
unfolding suspend_one
suspend_one-IsSound ndebug g ids i none h s = s
suspend_one-IsSound ndebug g ids i (some e) h s =
    if_elim KeepsSound (is_gone e) (λ _. s)
      (λ _. stored-IsSound _ _ (push_id ids e.id) (paused-IsSound g i e h s))

suspend_each-IsSound :
    (ndebug : Bool) (n i : ℕ) (g : Gp) (ids : List ℤ)
    → IsSound g
    → KeepsSound (suspend_each ndebug n i g ids)
unfolding suspend_each
suspend_each-IsSound ndebug zero i g ids s = s
suspend_each-IsSound ndebug (suc n) i g ids s =
    on_one (suspend_one ndebug g ids (get_elem? g.entry i))
      (suspend_one-IsSound ndebug g ids i (get_elem? g.entry i) refl s)
      (λ g' ids'. suspend_each-IsSound ndebug n (suc i) g' ids')
  where
    on_one :
        (o : Option (Gp × List ℤ))
        → KeepsSound o
        → ((g' : Gp) (ids' : List ℤ)
            → IsSound g'
            → KeepsSound (suspend_each ndebug n (suc i) g' ids'))
        → KeepsSound (elim o as (λ _. Option (Gp × List ℤ)) [
          | none ↦ none
          | some (g', ids') ↦ suspend_each ndebug n (suc i) g' ids'
        ])
    on_one none q rec = tt
    on_one (some (g', ids')) q rec = rec g' ids' q

pub entry_suspend_all-IsSound :
    (ndebug : Bool) (g : Gp) (ids : List ℤ)
    → IsSound g
    → OnSome IsSound (entry_suspend_all ndebug g ids)
unfolding entry_suspend_all
entry_suspend_all-IsSound ndebug g ids s =
    if_elim (OnSome IsSound) (not g.core.created) (λ _. s)
      (λ _.
        on_all (suspend_each ndebug (length g.entry) 0 g ids)
          (suspend_each-IsSound ndebug (length g.entry) 0 g ids s))
  where
    on_all :
        (o : Option (Gp × List ℤ))
        → KeepsSound o
        → OnSome IsSound (elim o as (λ _. Option Gp) [
          | none ↦ none
          | some (g', ids') ↦ if ndebug || g'.npendings == 0 then some g' else none
        ])
    on_all none q = tt
    on_all (some (g', ids')) q =
        if_elim (OnSome IsSound) (ndebug || g'.npendings == 0) (λ _. q) (λ _. tt)
