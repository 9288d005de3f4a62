-- ===== src/Gp/Places.antt =====
-- The functions of pool/gp/cpool_gp_entry.h that move the groups among the active ones leave the
-- rest of each group and the counters of the tasks alone.
use libstpool.Base.{
  ℕ, zero, suc, ◌+◌, ◌-◌, refl, ◌∙◌, Option, none, some, Bool, true, false, ltb, leb, ◌==◌, ◌||◌,
  if◌then◌else◌, if_elim, get_or, modify_at,
}
use libstpool.Gp.Defs.{
  Entry, Gp, placed_at, swapl, marked_active, activel, is_active_at, find_active, swap_found,
  shrink_loop, shrink, inactivel,
}
use libstpool.Gp.Balance.{Kin, Kin-refl, Kin-trans, map-modify_at}

pub swapl-Kin : (g : Gp) (a b : ℕ) → Kin g (swapl g a b)
unfolding swapl
swapl-Kin g a b = record {
  entry =
      map-modify_at (get_or g.actentry b 0) (placed_at a)
        (modify_at (get_or g.actentry a 0) (placed_at b) g.entry) (λ e. refl)
      ∙ map-modify_at (get_or g.actentry a 0) (placed_at b) g.entry (λ e. refl);
  npendings = refl;
  core = refl;
}

marked-Kin :
    (g : Gp) (e : Entry) (b : Bool) (n k : ℕ)
    → Kin g (record g {
      entry = modify_at e.id (marked_active b) g.entry;
      nactives_ok = n;
      active_idx = k;
    })
marked-Kin g e b n k = record {
  entry = map-modify_at e.id (marked_active b) g.entry (λ e. refl);
  npendings = refl;
  core = refl;
}

idx-Kin : (g h : Gp) (k : ℕ) → Kin g h → Kin g (record h { active_idx = k })
idx-Kin g h k p = record { entry = p.entry; npendings = p.npendings; core = p.core }

pub activel-Kin : (g : Gp) (e : Entry) → Kin g (activel g e)
unfolding activel
activel-Kin g e =
    if_elim (Kin g) (g.nactives_ok + 1 == 1)
      (λ _. idx-Kin g (if e.index == 0 then g1 else swapl g1 0 e.index) 1 (
        if_elim (Kin g) (e.index == 0) (λ _. marked)
          (λ _. Kin-trans g g1 (swapl g1 0 e.index) marked (swapl-Kin g1 0 e.index))))
      (λ _.
        if_elim (Kin g) (leb g.active_idx e.index)
          (λ _. idx-Kin g (swapl g1 g.active_idx e.index) (g.active_idx + 1) (
            Kin-trans g g1 (swapl g1 g.active_idx e.index) marked
              (swapl-Kin g1 g.active_idx e.index)))
          (λ _. marked))
  where
    g1 : Gp
    g1 = record g {
      entry = modify_at e.id (marked_active true) g.entry;
      nactives_ok = g.nactives_ok + 1;
    }

    marked : Kin g g1
    marked = marked-Kin g e true (g.nactives_ok + 1) g.active_idx

swap_found-Kin : (g : Gp) (i : ℕ) (o : Option ℕ) → Kin g (swap_found g i o)
unfolding swap_found
swap_found-Kin g i none = Kin-refl g
swap_found-Kin g i (some j) = swapl-Kin g i j

shrink_loop-Kin : (n i : ℕ) (g : Gp) → Kin g (shrink_loop n i g)
unfolding shrink_loop
shrink_loop-Kin zero i g = Kin-refl g
shrink_loop-Kin (suc n) i g =
    Kin-trans g g1 (shrink_loop n (suc i) g1)
      (if_elim (Kin g) (is_active_at g.entry g.actentry i) (λ _. Kin-refl g)
        (λ _. swap_found-Kin g i found))
      (shrink_loop-Kin n (suc i) g1)
  where
    found : Option ℕ
    found = find_active g.entry g.actentry (g.active_idx - (i + 1)) (i + 1)

    g1 : Gp
    g1 = if is_active_at g.entry g.actentry i then g else swap_found g i found

pub shrink-Kin : (g : Gp) → Kin g (shrink g)
unfolding shrink
shrink-Kin g =
    if_elim (Kin g) (g.active_idx == g.nactives_ok) (λ _. Kin-refl g)
      (λ _.
        idx-Kin g (shrink_loop g.nactives_ok 0 g) g.nactives_ok (shrink_loop-Kin g.nactives_ok 0 g))

pub inactivel-Kin : (g : Gp) (e : Entry) → Kin g (inactivel g e)
unfolding inactivel
inactivel-Kin g e =
    if_elim (Kin g) (g1.nactives_ok == 0) (λ _. idx-Kin g g1 0 marked)
      (λ _.
        if_elim (Kin g) (e.paused || ltb (g1.nactives_ok + 2) g1.active_idx)
          (λ _. Kin-trans g g1 (shrink g1) marked (shrink-Kin g1)) (λ _. marked))
  where
    g1 : Gp
    g1 = record g {
      entry = modify_at e.id (marked_active false) g.entry;
      nactives_ok = g.nactives_ok - 1;
    }

    marked : Kin g g1
    marked = marked-Kin g e false (g.nactives_ok - 1) g.active_idx
