-- ===== src/Gp/Choice.antt =====
-- The loop of __cpool_gp_get_pending_task (pool/gp/cpool_gp_internal.h): which task it chooses.
use libstpool.Base.{
  ℕ, zero, suc, ◌≤◌, ◌<◌, ◌≡◌, ◌⊎◌, refl, sym, ap, ◌∙◌, subst, List, [], ◌∷◌, Option, none, some,
  Bool, true, false, arith, if_elim, inl, inr, length, get_or, get_elem?, Bool-cases,
}
use libstpool.Task.{Task}
use libstpool.Gp.Defs.{Entry}
use libstpool.Gp.Sched.{may_serve, goes_before, preferred, choose, scan_actives}

-- There is a task, of at least this priority.
abbrev Reaches : ℕ → Option Task → Type 0
Reaches n o = (v : Task) × (o ≡ some v) × (n ≤ v.pri)

preferred-left : (u : Task) (o : Option Task) → Reaches u.pri (preferred (some u) o)
preferred-left u none = (u, refl, omega arith)
preferred-left u (some w) =
    if_elim (Reaches u.pri) (goes_before w u) (λ h. (w, refl, ground arith))
      (λ h. (u, refl, omega arith))

preferred-right : (b : Option Task) (u : Task) → Reaches u.pri (preferred b (some u))
preferred-right none u = (u, refl, omega arith)
preferred-right (some w) u =
    if_elim (Reaches u.pri) (goes_before u w) (λ h. (u, refl, omega arith))
      (λ h. (w, refl, ground arith))

preferred-origin :
    (b o : Option Task) (t : Task) → preferred b o ≡ some t → (b ≡ some t) ⊎ (o ≡ some t)
preferred-origin none o t h = inr h
preferred-origin (some u) none t h = inl h
preferred-origin (some u) (some w) t h = elim (Bool-cases (goes_before w u)) [
  | inl e ↦ inr (rw e at h)
  | inr e ↦ inl (rw e at h)
]

-- The task is the first one of a group that may give it.
abbrev pub Gives : Bool → Option Entry → Task → Type 0
Gives b none t = ⊥
Gives b (some e) t = (may_serve b e ≡ true) × (e.top ≡ some t)

choose-origin :
    (b : Bool) (o : Option Entry) (best : Option Task) (t : Task)
    → choose b o best ≡ some t
    → (best ≡ some t) ⊎ Gives b o t
choose-origin b none best t h = inl h
choose-origin b (some e) best t h = elim (Bool-cases (may_serve b e)) [
  | inl m ↦ elim (preferred-origin best e.top t (rw m at h)) [ inl x ↦ inl x | inr y ↦ inr (m, y) ]
  | inr m ↦ inl (rw m at h)
]

choose-best : (b : Bool) (o : Option Entry) (u : Task) → Reaches u.pri (choose b o (some u))
choose-best b none u = (u, refl, omega arith)
choose-best b (some e) u =
    if_elim (Reaches u.pri) (may_serve b e) (λ _. preferred-left u e.top)
      (λ _. (u, refl, omega arith))

choose-Gives :
    (b : Bool) (o : Option Entry) (best : Option Task) (t : Task)
    → Gives b o t
    → Reaches t.pri (choose b o best)
choose-Gives b none best t g = absurd g
choose-Gives b (some e) best t g = rw (g.0, g.1) (preferred-right best t)

-- What the loop finds: the best task so far or one that a group gives, and none that a group gives
-- has a higher priority.
pub record IsChosen (b : Bool) (es : List Entry) (is : List ℕ) (best : Option Task) (t : Task)
    : Type 0 where
  pub origin :
      (best ≡ some t) ⊎ ((p : ℕ) × (p < length is) × Gives b (get_elem? es (get_or is p 0)) t)
  pub over : (u : Task) → best ≡ some u → u.pri ≤ t.pri
  pub highest :
      (p : ℕ) (u : Task) → p < length is → Gives b (get_elem? es (get_or is p 0)) u → u.pri ≤ t.pri

pub task_inj : {a b : Task} → ◌≡◌ {A = Option Task} (some a) (some b) → a ≡ b
task_inj h = cc

pub scan-IsChosen :
    (b : Bool) (es : List Entry) (is : List ℕ) (best : Option Task) (t : Task)
    → scan_actives b es is best ≡ some t
    → IsChosen b es is best t
unfolding scan_actives
scan-IsChosen b es [] best t h = record {
  origin = inl h;
  over = λ u k. omega (arith, ap (λ (x : Task). x.pri) (task_inj (sym k ∙ h)));
  highest = λ p u l g. absurd (omega arith);
}
scan-IsChosen b es (i ∷ is) best t h =
    let next = scan-IsChosen b es is (choose b (get_elem? es i) best) t h in
    record {
      origin = elim next.origin [
        | inl x ↦ elim (choose-origin b (get_elem? es i) best t x) [
          | inl y ↦ inl y
          | inr g ↦ inr (0, omega arith, g)
        ]
        | inr x ↦ inr (suc x.0, omega (arith, x.1), x.2)
      ];
      over = λ u k.
          let r =
            subst (λ x. Reaches u.pri (choose b (get_elem? es i) x)) (sym k)
              (choose-best b (get_elem? es i) u) in
          omega (arith, r.2, next.over r.0 r.1);
      highest = λ p u l g. on_place next p u l g;
    }
  where
    on_place :
        IsChosen b es is (choose b (get_elem? es i) best) t
        → (p : ℕ) (u : Task) → p < length (i ∷ is)
        → Gives b (get_elem? es (get_or (i ∷ is) p 0)) u
        → u.pri ≤ t.pri
    on_place next zero u l g =
        let r = choose-Gives b (get_elem? es i) best u g in omega (arith, r.2, next.over r.0 r.1)
    on_place next (suc p) u l g = next.highest p u (omega arith) g

scan-best :
    (b : Bool) (es : List Entry) (is : List ℕ) (u : Task)
    → (t : Task) × (scan_actives b es is (some u) ≡ some t)
unfolding scan_actives
scan-best b es [] u = (u, refl)
scan-best b es (i ∷ is) u =
    let r = choose-best b (get_elem? es i) u in
    let n = scan-best b es is r.0 in (n.0, ap (scan_actives b es is) r.1 ∙ n.1)

-- Where a group gives a task, the loop finds one.
pub scan-some :
    (b : Bool) (es : List Entry) (is : List ℕ) (best : Option Task) (p : ℕ) (u : Task)
    → p < length is
    → Gives b (get_elem? es (get_or is p 0)) u
    → (t : Task) × (scan_actives b es is best ≡ some t)
unfolding scan_actives
scan-some b es [] best p u l g = absurd (omega arith)
scan-some b es (i ∷ is) best zero u l g =
    let r = choose-Gives b (get_elem? es i) best u g in
    let n = scan-best b es is r.0 in (n.0, ap (scan_actives b es is) r.1 ∙ n.1)
scan-some b es (i ∷ is) best (suc p) u l g =
    scan-some b es is (choose b (get_elem? es i) best) p u (omega arith) g

-- Where no group gives one, it finds none.
pub scan-none :
    (b : Bool) (es : List Entry) (is : List ℕ)
    → ((p : ℕ) (e : Entry)
        → p < length is
        → get_elem? es (get_or is p 0) ≡ some e
        → may_serve b e ≡ false)
    → scan_actives b es is none ≡ none
unfolding scan_actives
scan-none b es [] h = refl
scan-none b es (i ∷ is) h =
    ap (scan_actives b es is) (skipped (get_elem? es i) (λ e. h 0 e (omega arith)))
    ∙ scan-none b es is (λ p e l. h (suc p) e (omega arith))
  where
    skipped :
        (o : Option Entry)
        → ((e : Entry) → o ≡ some e → may_serve b e ≡ false)
        → choose b o none ≡ none
    skipped none k = refl
    skipped (some e) k = rw (k e refl) refl
