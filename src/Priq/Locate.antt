-- ===== src/Priq/Locate.antt =====
-- __cpool_com_priq_locate of pool/com/cpool_com_priq.h: which priorities have a queue.
use libstpool.Base.{
  ℕ, ◌*◌, ◌/◌, ◌≤◌, ◌<◌, ◌≡◌, ◌↔◌, none, Bool, true, arith, ltb, inl, inr, Bool-cases,
}
use native.Mathlib.Nat.{div-lt_iff_lt-mul, le-div_iff_mul-le}
use libstpool.Task.{Task}
use libstpool.Priq.Defs.{Container, priq_init, locate, priq_insert, nice_preprocess}

class_size_pos : (num : ℕ) → 1 ≤ num → num ≤ 100 → 0 < 100 / num
class_size_pos num h k = (le-div_iff_mul-le h).1 (omega arith)

small_class : (num p a : ℕ) → 1 ≤ num → p < a → p < num * a
small_class num p a h l = grind arith

-- With 1 to 100 queues, the class of a priority is one of the queues exactly if the priority is
-- below the number of queues times 100 divided by it, rounded down.
pub locate_in_range :
    (num p : ℕ) → 1 ≤ num → num ≤ 100 → (locate (priq_init num) p < num) ↔ (p < num * (100 / num))
unfolding locate priq_init
locate_in_range num p h k = elim (Bool-cases (ltb p (100 / num))) [
  | inl e ↦ rw e ((λ _. small_class num p (100 / num) h (ground arith)), (λ _. h))
  | inr e ↦ rw e (div-lt_iff_lt-mul (class_size_pos num h k))
]

-- With 1 to 100 queues, a task whose new priority is at least the number of queues times the size
-- of a class gets a class that is none of the queues, and its insertion has no result: a build
-- without NDEBUG stops at the assertion on the class, and one with NDEBUG accesses the array of
-- queues behind its end.
pub insert_out_of_range :
    (ndebug : Bool) (num : ℕ) (t : Task) (c : Container)
    → 1 ≤ num
    → num ≤ 100
    → c.priq_num ≡ num
    → c.avg_pri ≡ 100 / num
    → t.f_vmflags.adjpri ≡ true
    → num * (100 / num) ≤ t.pri
    → (num ≤ (nice_preprocess c t).priq) × (priq_insert ndebug c (nice_preprocess c t) ≡ none)
unfolding priq_insert nice_preprocess locate
insert_out_of_range ndebug num t c h k e f g l = (ground (arith, beyond), ground (arith, beyond))
  where
    least : 1 ≤ 100 / num
    least = class_size_pos num h k

    whole : 100 / num ≤ num * (100 / num)
    whole = grind arith

    class : num ≤ t.pri / (100 / num)
    class = (le-div_iff_mul-le least).1 l

    beyond : num ≤ locate c t.pri
    beyond = ground (arith, class, whole)
