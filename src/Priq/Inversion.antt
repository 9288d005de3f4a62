-- ===== src/Priq/Inversion.antt =====
-- Two pops after the insertion of a task into a queue of pool/com/cpool_com_priq.h.
use libstpool.Base.{
  ℕ, ◌≤◌, ◌<◌, ◌≡◌, List, [], ◌∷◌, Option, none, some, Bool, false, arith, if◌then◌else◌, length,
  get_or, set, get_or-set_self, length-set,
}
use libstpool.Task.{Task}
use libstpool.Priq.Defs.{Container, priq_insert, priq_pop, pop_from}
use libstpool.Priq.Order.{insert0-misplaces}

-- The next two tasks that a pool gets.
abbrev pub pop_twice : Bool → Container → Option (Task × Task)
pop_twice ndebug c = elim (priq_pop ndebug c) [
  | none ↦ none
  | some (s, c') ↦ elim (priq_pop ndebug c') [ none ↦ none | some (t, c'') ↦ some (s, t) ]
]

abbrev pub insert_pop_twice : Bool → Container → Task → Option (Task × Task)
insert_pop_twice ndebug c t = elim (priq_insert ndebug c t) [
  | none ↦ none
  | some c' ↦ pop_twice ndebug c'
]

-- Insert a task that is not pushed into the first ready class, whose queue begins with two tasks
-- of which the second has a higher priority than the new one and no higher one than the first. A
-- library built with NDEBUG then serves the first task and the new one, before the second; one
-- built without stops at an assertion.
pub insert-inverts :
    (ndebug : Bool) (c : Container) (x y : Task) (q : List Task) (is : List ℕ) (t : Task)
    → get_or c.priq t.priq [] ≡ x ∷ y ∷ q
    → c.ready_q ≡ t.priq ∷ is
    → t.priq < c.priq_num
    → t.priq < length c.priq
    → t.f_vmflags.push ≡ false
    → t.pri < y.pri
    → y.pri ≤ x.pri
    → insert_pop_twice ndebug c t ≡ (if ndebug then some (x, t) else none)
unfolding priq_insert priq_pop pop_from
insert-inverts ndebug c x y q is t e r m l f g h = ground (
  arith,
  insert0-misplaces ndebug x y q t f g h,
  get_or-set_self c.priq t.priq (x ∷ t ∷ y ∷ q) [] l,
  length-set c.priq t.priq (x ∷ t ∷ y ∷ q),
  get_or-set_self (set c.priq t.priq (x ∷ t ∷ y ∷ q)) t.priq (t ∷ y ∷ q) [],
)
