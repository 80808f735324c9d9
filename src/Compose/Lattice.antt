-- ===== src/Compose/Lattice.antt =====
-- compose.py: the meet is that of a chain, for texts in the lattice and outside it.
use Prim.Native.Nat.{max}
use mathlib.Core.List.{Perm, Permᴰ}
use mathlib.Core.Logic.{∥∥₁_elim}
use native.Mathlib.Nat.{ℕ_set}
use decision_os_min.Prelude.{
  ℕ, ◌≤◌, ◌≡◌, refl, sym, ◌∙◌, ap, ◌↔◌, String, true, List, [], ◌∷◌, arith, ◌==◌, inl, inr, All,
  Bool-cases, leb,
}
use decision_os_min.Py.{Value}
use decision_os_min.Compose.Defs.{
  allow, deny, limit, contain, defer, is_permitting, rank, normalize_text, normalize, meet, compose,
  fold_meet,
}

-- The chain that the ranks describe, from least to most restrictive.
pub data Level : Type 0 where
  allowed limited contained deferred denied : Level

unfoldable pub name : Level → String
name Level.allowed = allow
name Level.limited = limit
name Level.contained = contain
name Level.deferred = defer
name Level.denied = deny

-- Every verdict text reads as a level, and as the lowest for one outside the lattice.
pub normalize_text-Level : (v : String) → (l : Level) × (normalize_text v ≡ name l)
unfolding normalize_text name
normalize_text-Level v = elim (Bool-cases (v == allow)) [
  | inl a ↦ (Level.allowed, rw a)
  | inr a ↦ elim (Bool-cases (v == limit)) [
    | inl b ↦ (Level.limited, rw (a, b))
    | inr b ↦ elim (Bool-cases (v == contain)) [
      | inl c ↦ (Level.contained, rw (a, b, c))
      | inr c ↦ elim (Bool-cases (v == defer)) [
        | inl d ↦ (Level.deferred, rw (a, b, c, d))
        | inr d ↦ (Level.denied, rw (a, b, c, d))
      ]
    ]
  ]
]

pub normalize-Level : (v : Value) → (l : Level) × (normalize v ≡ name l)
unfolding normalize name
normalize-Level (Value.str v) = normalize_text-Level v
normalize-Level _ = (Level.denied, refl)

normalize-name : (l : Level) → normalize_text (name l) ≡ name l
unfolding normalize_text name
normalize-name Level.allowed = refl
normalize-name _ = refl

rank-name-inj : (l m : Level) → rank (name l) ≡ rank (name m) → name l ≡ name m
unfolding rank name
rank-name-inj Level.allowed Level.allowed h = refl
rank-name-inj Level.limited Level.limited h = refl
rank-name-inj Level.contained Level.contained h = refl
rank-name-inj Level.deferred Level.deferred h = refl
rank-name-inj Level.denied Level.denied h = refl
rank-name-inj _ _ h = absurd (omega arith)

pub normalize-normalize : (v : Value) → normalize (Value.str (normalize v)) ≡ normalize v
unfolding normalize
normalize-normalize v = let (l, e) = normalize-Level v in rw e (normalize-name l)

-- Two canonical verdicts of one rank are one verdict.
pub rank-inj : (a b : Value) → rank (normalize a) ≡ rank (normalize b) → normalize a ≡ normalize b
rank-inj a b h =
    let (l, e) = normalize-Level a in
    let (m, f) = normalize-Level b in
    e ∙ rank-name-inj l m (ap rank (sym e) ∙ h ∙ ap rank f) ∙ sym f

pub normalize-meet : (a b : Value) → normalize (Value.str (meet a b)) ≡ meet a b
unfolding meet
normalize-meet a b = elim (Bool-cases (leb (rank (normalize b)) (rank (normalize a)))) [
  | inl e ↦ rw e (normalize-normalize a)
  | inr e ↦ rw e (normalize-normalize b)
]

pub rank-meet : (a b : Value) → rank (meet a b) ≡ max (rank (normalize a)) (rank (normalize b))
unfolding meet
rank-meet a b = ground arith

-- Equal ranks make equal verdicts, of two results of `meet`.
meet-ext : (a b c d : Value) → rank (meet a b) ≡ rank (meet c d) → meet a b ≡ meet c d
meet-ext a b c d h =
    sym (normalize-meet a b)
    ∙ rank-inj (Value.str (meet a b)) (Value.str (meet c d))
        (ap rank (normalize-meet a b) ∙ h ∙ ap rank (sym (normalize-meet c d)))
    ∙ normalize-meet c d

meet_comm : (a b : Value) → meet a b ≡ meet b a
meet_comm a b = meet-ext a b b a (omega (arith, rank-meet a b, rank-meet b a))

meet_assoc : (a b c : Value) → meet (Value.str (meet a b)) c ≡ meet a (Value.str (meet b c))
meet_assoc a b c = meet-ext (Value.str (meet a b)) c a (Value.str (meet b c)) (
    omega (
      arith,
      rank-meet (Value.str (meet a b)) c,
      rank-meet a (Value.str (meet b c)),
      rank-meet a b,
      rank-meet b c,
      ap rank (normalize-meet a b),
      ap rank (normalize-meet b c),
    ))

rank-name-le : (l : Level) → rank (name l) ≤ 4
unfolding rank name
rank-name-le Level.allowed = omega arith
rank-name-le _ = omega arith

pub rank-normalize-le : (v : Value) → rank (normalize v) ≤ 4
rank-normalize-le v = let (l, e) = normalize-Level v in rw e (rank-name-le l)

-- A meet is the canonical form of the verdict that has its rank.
meet-eq : (a b c : Value) → rank (meet a b) ≡ rank (normalize c) → meet a b ≡ normalize c
meet-eq a b c h =
    sym (normalize-meet a b) ∙ rank-inj (Value.str (meet a b)) c (ap rank (normalize-meet a b) ∙ h)

rank-allow : rank (normalize (Value.str allow)) ≡ 0
unfolding rank normalize normalize_text
rank-allow = refl

rank-deny : rank (normalize (Value.str deny)) ≡ 4
unfolding rank normalize normalize_text
rank-deny = refl

-- What a bounded chain's meet promises.
pub record IsMeet (m : Value → Value → String) : Type 0 where
  pub comm : (a b : Value) → m a b ≡ m b a
  pub assoc : (a b c : Value) → m (Value.str (m a b)) c ≡ m a (Value.str (m b c))
  pub idem : (a : Value) → m a a ≡ normalize a
  pub unit : (a : Value) → m (Value.str allow) a ≡ normalize a
  pub absorb : (a : Value) → m (Value.str deny) a ≡ normalize (Value.str deny)

-- On any two values, in the lattice or not, the meet is commutative, associative and idempotent up
-- to the canonical form, ALLOW is its unit, and DENY absorbs.
pub meet-IsMeet : IsMeet meet
meet-IsMeet = record {
  comm = meet_comm;
  assoc = meet_assoc;
  idem = λ a. meet-eq a a a (omega (arith, rank-meet a a));
  unit =
      λ a. meet-eq (Value.str allow) a a (omega (arith, rank-meet (Value.str allow) a, rank-allow));
  absorb = λ a.
      meet-eq (Value.str deny) a (Value.str deny)
        (omega (arith, rank-meet (Value.str deny) a, rank-deny, rank-normalize-le a));
}

-- The greatest rank among the canonical verdicts of a list: the specification of `compose`.
unfoldable pub worst : List Value → ℕ
worst [] = 0
worst (v ∷ vs) = max (rank (normalize v)) (worst vs)

rank-fold_meet :
    (out : String) (vs : List Value)
    → rank (normalize (Value.str (fold_meet out vs)))
      ≡ max (rank (normalize (Value.str out))) (worst vs)
unfolding fold_meet worst
rank-fold_meet out [] = omega arith
rank-fold_meet out (v ∷ vs) = omega (
  arith,
  rank-fold_meet (meet (Value.str out) v) vs,
  rank-meet (Value.str out) v,
  ap rank (normalize-meet (Value.str out) v),
)

normalize-fold_meet :
    (out : String) (vs : List Value)
    → normalize (Value.str out) ≡ out
    → normalize (Value.str (fold_meet out vs)) ≡ fold_meet out vs
unfolding fold_meet
normalize-fold_meet out [] h = h
normalize-fold_meet out (v ∷ vs) h =
    normalize-fold_meet (meet (Value.str out) v) vs (normalize-meet (Value.str out) v)

pub normalize-compose : (vs : List Value) → normalize (Value.str (compose vs)) ≡ compose vs
unfolding compose
normalize-compose vs = normalize-fold_meet allow vs (unfold normalize normalize_text in refl)

pub rank-compose : (vs : List Value) → rank (compose vs) ≡ worst vs
unfolding compose
rank-compose vs =
    omega
      (arith, rank-fold_meet allow vs, rank-allow, ap rank (unfold compose in normalize-compose vs))

worst-permᴰ : {us vs : List Value} → Permᴰ us vs → worst us ≡ worst vs
unfolding worst
worst-permᴰ Permᴰ.nil = refl
worst-permᴰ (Permᴰ.cons e p) = rw e (omega (arith, worst-permᴰ p))
worst-permᴰ (Permᴰ.swap e f) = rw (e, f) (omega arith)
worst-permᴰ (Permᴰ.trans p q) = worst-permᴰ p ∙ worst-permᴰ q

-- The order of the verdicts carries no meaning.
pub compose-perm : (us vs : List Value) → Perm us vs → compose us ≡ compose vs
compose-perm us vs p =
    sym (normalize-compose us)
    ∙ rank-inj (Value.str (compose us)) (Value.str (compose vs)) (
        omega (
          arith,
          ap rank (normalize-compose us),
          ap rank (normalize-compose vs),
          rank-compose us,
          rank-compose vs,
          ∥∥₁_elim p (ℕ_set _ _) worst-permᴰ,
        ))
    ∙ normalize-compose vs

pub is_permitting-rank : (v : String) → is_permitting v ≡ leb (rank v) 2
unfolding is_permitting rank
is_permitting-rank v = elim (Bool-cases (v == allow)) [
  | inl a ↦ rw a
  | inr a ↦ elim (Bool-cases (v == limit)) [
    | inl b ↦ rw (a, b)
    | inr b ↦ elim (Bool-cases (v == contain)) [
      | inl c ↦ rw (a, b, c)
      | inr c ↦ elim (Bool-cases (v == defer)) [ inl d ↦ rw (a, b, c, d) | inr d ↦ rw (a, b, c, d) ]
    ]
  ]
]

worst-permits :
    (vs : List Value) → (leb (worst vs) 2 ≡ true) ↔ All (λ v. is_permitting (normalize v) ≡ true) vs
unfolding worst
worst-permits [] = (λ h. tt, λ h. refl)
worst-permits (v ∷ vs) = (
  λ h. (is_permitting-rank (normalize v) ∙ ground arith, (worst-permits vs).0 (ground arith)),
  λ (p, ps). ground (arith, (worst-permits vs).1 ps, is_permitting-rank (normalize v), p),
)

-- The composed verdict permits exactly when every verdict that went into it does.
pub is_permitting-compose :
    (vs : List Value)
    → (is_permitting (compose vs) ≡ true) ↔ All (λ v. is_permitting (normalize v) ≡ true) vs
is_permitting-compose vs = (
  λ h. (worst-permits vs).0 (rw (← rank-compose vs, ← is_permitting-rank) h),
  λ ps. rw (is_permitting-rank, rank-compose) ((worst-permits vs).1 ps),
)
