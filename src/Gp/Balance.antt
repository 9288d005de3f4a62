-- ===== src/Gp/Balance.antt =====
-- The counters of pool/gp: what each of them counts, and the lemmas on a store to one group.
use libstpool.Base.{
  ℕ, zero, suc, ◌+◌, ◌-◌, ◌≤◌, ◌≡◌, refl, sym, ap, ◌∙◌, subst, List, [], ◌∷◌, map, Option, some,
  true, false, arith, if◌then◌else◌, min, get_elem?, modify_at,
}
use libstpool.Priq.Ready.{IsContainer}
use libstpool.Priq.Size.{size, AllTasks}
use libstpool.Priq.Top.{priq_top}
use libstpool.Gp.Defs.{Entry, Gp}
use libstpool.Gp.Admin.{effective}

abbrev pub sum : (Entry → ℕ) → List Entry → ℕ
sum f [] = 0
sum f (e ∷ es) = f e + sum f es

-- The pending tasks of a group that a thread may see, and those that the Core counts.
abbrev pub weight : Entry → ℕ
weight e = if e.paused then 0 else e.npendings

abbrev pub share : Entry → ℕ
share e = if e.paused then 0 else effective e

-- A group without benefits has as many effective tasks as it may still start.
abbrev pub IsLimited : Entry → Type 0
IsLimited e =
    (e.nrunnings ≤ e.limit_tasks)
    × (e.npendings_eff ≡ min e.npendings (e.limit_tasks - e.nrunnings))

pub record IsServed (i : ℕ) (e : Entry) : Type 0 where
  pub named : e.id ≡ i
  pub counted : e.npendings ≡ size e.c
  pub exact : IsContainer e.c
  pub own : AllTasks (λ t. t.gid ≡ i) e.c
  pub shown : 1 ≤ e.npendings → e.top ≡ priq_top e.c
  pub limited : e.receive_benifits ≡ false → e.paused ≡ false → IsLimited e
  pub idle : e.receive_benifits ≡ false → e.paused ≡ true → e.npendings_eff ≡ 0

pub record IsBalanced (g : Gp) : Type 0 where
  pub pending : g.npendings ≡ sum weight g.entry
  pub counted : g.core.npendings ≡ sum share g.entry
  pub served : (i : ℕ) (e : Entry) → get_elem? g.entry i ≡ some e → IsServed i e

pub some_inj : {a b : Entry} → ◌≡◌ {A = Option Entry} (some a) (some b) → a ≡ b
some_inj h = cc

pub sum-modify_at :
    (w : Entry → ℕ) (i : ℕ) (f : Entry → Entry) (es : List Entry) (e : Entry)
    → get_elem? es i ≡ some e
    → sum w (modify_at i f es) + w e ≡ sum w es + w (f e)
sum-modify_at w i f [] e h = cc
sum-modify_at w zero f (x ∷ es) e h = rw (sym (some_inj h)) (omega arith)
sum-modify_at w (suc i) f (x ∷ es) e h = omega (arith, sum-modify_at w i f es e h)

pub sum-le :
    (w : Entry → ℕ) (i : ℕ) (es : List Entry) (e : Entry) → get_elem? es i ≡ some e → w e ≤ sum w es
sum-le w i [] e h = cc
sum-le w zero (x ∷ es) e h = rw (sym (some_inj h)) (omega arith)
sum-le w (suc i) (x ∷ es) e h = omega (arith, sum-le w i es e h)

pub get_elem?-modify_at :
    (i : ℕ) (f : Entry → Entry) (es : List Entry) (e : Entry)
    → get_elem? es i ≡ some e
    → get_elem? (modify_at i f es) i ≡ some (f e)
get_elem?-modify_at i f [] e h = cc
get_elem?-modify_at zero f (x ∷ es) e h = ap (λ y. some (f y)) (some_inj h)
get_elem?-modify_at (suc i) f (x ∷ es) e h = get_elem?-modify_at i f es e h

pub modify_at-modify_at :
    (i : ℕ) (f h : Entry → Entry) (es : List Entry)
    → modify_at i h (modify_at i f es) ≡ modify_at i (λ e. h (f e)) es
modify_at-modify_at i f h [] = refl
modify_at-modify_at zero f h (x ∷ es) = refl
modify_at-modify_at (suc i) f h (x ∷ es) = ap (◌∷◌ x) (modify_at-modify_at i f h es)

-- What holds of each element with its position holds after a store that keeps it there.
pub modify_at-each :
    (P : ℕ → Entry → Type 0) (i : ℕ) (f : Entry → Entry) (es : List Entry) (e : Entry)
    → get_elem? es i ≡ some e
    → P i (f e)
    → ((j : ℕ) (x : Entry) → get_elem? es j ≡ some x → P j x)
    → (j : ℕ) (x : Entry) → get_elem? (modify_at i f es) j ≡ some x
    → P j x
modify_at-each P i f [] e h p q j x k = cc
modify_at-each P zero f (y ∷ es) e h p q zero x k =
    subst (P 0) (ap f (sym (some_inj h)) ∙ some_inj k) p
modify_at-each P zero f (y ∷ es) e h p q (suc j) x k = q (suc j) x k
modify_at-each P (suc i) f (y ∷ es) e h p q zero x k = q 0 x k
modify_at-each P (suc i) f (y ∷ es) e h p q (suc j) x k =
    modify_at-each (λ n. P (suc n)) i f es e h p (λ n. q (suc n)) j x k

-- A store to one group that moves the counters by as much as the numbers of the group.
pub store-IsBalanced :
    (g g' : Gp) (i : ℕ) (f : Entry → Entry) (e : Entry)
    → get_elem? g.entry i ≡ some e
    → g'.entry ≡ modify_at i f g.entry
    → IsServed i (f e)
    → g'.npendings + weight e ≡ g.npendings + weight (f e)
    → g'.core.npendings + share e ≡ g.core.npendings + share (f e)
    → IsBalanced g
    → IsBalanced g'
store-IsBalanced g g' i f e h k s w c b = record {
  pending = omega (arith, w, b.pending, sum-modify_at weight i f g.entry e h, ap (sum weight) k);
  counted = omega (arith, c, b.counted, sum-modify_at share i f g.entry e h, ap (sum share) k);
  served = λ j x q.
      modify_at-each IsServed i f g.entry e h s b.served j x
        (ap (λ es. get_elem? es j) (sym k) ∙ q);
}

-- A group without its place among the active ones, and without the counters of the tasks that are
-- not pending
abbrev pub bare : Entry → Entry
bare e = record e {
  index = 0;
  active = false;
  ndispatchings = 0;
  n_qtraces = 0;
  ntasks_processed = 0;
}

-- Only the places of the groups and those counters have changed.
pub record Kin (g g' : Gp) : Type 0 where
  pub entry : map bare g'.entry ≡ map bare g.entry
  pub npendings : g'.npendings ≡ g.npendings
  pub core : g'.core.npendings ≡ g.core.npendings

pub sum-bare :
    (w : Entry → ℕ) (es : List Entry)
    → ((e : Entry) → w (bare e) ≡ w e)
    → sum w (map bare es) ≡ sum w es
sum-bare w [] h = refl
sum-bare w (e ∷ es) h = omega (arith, h e, sum-bare w es h)

pub get_elem?-bare :
    (es : List Entry) (i : ℕ) (e : Entry)
    → get_elem? es i ≡ some e
    → get_elem? (map bare es) i ≡ some (bare e)
get_elem?-bare [] i e h = cc
get_elem?-bare (x ∷ es) zero e h = ap (λ y. some (bare y)) (some_inj h)
get_elem?-bare (x ∷ es) (suc i) e h = get_elem?-bare es i e h

pub bare_at :
    (es : List Entry) (i : ℕ) (e : Entry)
    → get_elem? (map bare es) i ≡ some e
    → (x : Entry) × (get_elem? es i ≡ some x) × (bare x ≡ e)
bare_at [] i e h = cc
bare_at (x ∷ es) zero e h = (x, refl, some_inj h)
bare_at (x ∷ es) (suc i) e h = bare_at es i e h

to_bare : (i : ℕ) (e : Entry) → IsServed i e → IsServed i (bare e)
to_bare i e s = record {
  named = s.named;
  counted = s.counted;
  exact = s.exact;
  own = s.own;
  shown = s.shown;
  limited = s.limited;
  idle = s.idle;
}

pub from_bare : (i : ℕ) (e : Entry) → IsServed i (bare e) → IsServed i e
from_bare i e s = record {
  named = s.named;
  counted = s.counted;
  exact = s.exact;
  own = s.own;
  shown = s.shown;
  limited = s.limited;
  idle = s.idle;
}

pub Kin-IsBalanced : (g g' : Gp) → Kin g g' → IsBalanced g → IsBalanced g'
Kin-IsBalanced g g' k b = record {
  pending = k.npendings ∙ b.pending ∙ sums weight (λ e. refl);
  counted = k.core ∙ b.counted ∙ sums share (λ e. refl);
  served = λ i x q.
      let found =
        bare_at g.entry i (bare x)
          (ap (λ es. get_elem? es i) (sym k.entry) ∙ get_elem?-bare g'.entry i x q) in
      from_bare i x (subst (IsServed i) found.2 (to_bare i found.0 (b.served i found.0 found.1)));
}
  where
    sums : (w : Entry → ℕ) → ((e : Entry) → w (bare e) ≡ w e) → sum w g.entry ≡ sum w g'.entry
    sums w h = sym (sum-bare w g.entry h) ∙ ap (sum w) (sym k.entry) ∙ sum-bare w g'.entry h

pub Kin-refl : (g : Gp) → Kin g g
Kin-refl g = record { entry = refl; npendings = refl; core = refl }

pub Kin-trans : (g h k : Gp) → Kin g h → Kin h k → Kin g k
Kin-trans g h k p q = record {
  entry = q.entry ∙ p.entry;
  npendings = q.npendings ∙ p.npendings;
  core = q.core ∙ p.core;
}

-- A store that changes the place of a group only
pub map-modify_at :
    (i : ℕ) (f : Entry → Entry) (es : List Entry)
    → ((e : Entry) → bare (f e) ≡ bare e)
    → map bare (modify_at i f es) ≡ map bare es
map-modify_at i f [] h = refl
map-modify_at zero f (x ∷ es) h = ap (λ y. y ∷ map bare es) (h x)
map-modify_at (suc i) f (x ∷ es) h = ap (◌∷◌ (bare x)) (map-modify_at i f es h)
