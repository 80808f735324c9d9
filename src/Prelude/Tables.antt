-- ===== src/Prelude/Tables.antt =====
-- A Python dict with text keys whose values the program owns, and lists of texts that stand for
-- sets: only membership is read from these.
use Prim.Native.Nat.{Ordering}
use Prim.Native.String.{String, compare}
use mathlib.Core.Path.{◌≡◌, refl}
use mathlib.Core.Bool.{Bool, true, false, not, ◌&&◌, ◌||◌}
use mathlib.Core.List.{List, [], ◌∷◌}
use mathlib.Core.Logic.{inl, inr}
use mathlib.Core.Option.{Option, none, some}
use native.Mathlib.Omega.{arith}
use text.Mathlib.Text.{◌==◌}
use text.Mathlib.TextEquality.{eq_iff}
use decision_os_min.Prelude.Tests.{Bool-cases, if◌then◌else◌}
use decision_os_min.Prelude.Lists.{contains}

abbrev pub Table {ℓ} : Type ℓ → Type ℓ
Table V = List (String × V)

module _ {ℓ} {V : Type ℓ} where
  -- `t.get(k, v)`
  unfoldable pub find : V → String → Table V → V
  find v k [] = v
  find v k ((j, w) ∷ t) = if j == k then w else find v k t

  -- `t.get(k)`
  unfoldable pub find? : String → Table V → Option V
  find? k [] = none
  find? k ((j, w) ∷ t) = if j == k then some w else find? k t

  -- `t[k] = v`
  unfoldable pub store : String → V → Table V → Table V
  store k v [] = (k, v) ∷ []
  store k v ((j, w) ∷ t) = if j == k then (k, v) ∷ t else (j, w) ∷ store k v t

  pub find-store :
      (v : V) (j k : String) (w : V) (t : Table V)
      → find v j (store k w t) ≡ (if k == j then w else find v j t)
  unfolding find store
  find-store v j k w [] = refl
  find-store v j k w ((i, u) ∷ t) =
      ground (arith, eq_iff i k, eq_iff i j, eq_iff k j, find-store v j k w t)

  pub find?-store :
      (j k : String) (w : V) (t : Table V)
      → find? j (store k w t) ≡ (if k == j then some w else find? j t)
  unfolding find? store
  find?-store j k w [] = refl
  find?-store j k w ((i, u) ∷ t) =
      ground (arith, eq_iff i k, eq_iff i j, eq_iff k j, find?-store j k w t)

-- `xs - {a}`
unfoldable pub discard : String → List String → List String
discard a [] = []
discard a (x ∷ xs) = let rest = discard a xs in if x == a then rest else x ∷ rest

pub contains-discard :
    (b a : String) (xs : List String) → contains b (discard a xs) ≡ (not (a == b) && contains b xs)
unfolding contains discard
contains-discard b a [] = ground arith
contains-discard b a (x ∷ xs) =
    ground (arith, contains-discard b a xs, eq_iff x a, eq_iff b x, eq_iff a b)

-- The members of `xs` that pass a test.
unfoldable pub filter : (String → Bool) → List String → List String
filter p [] = []
filter p (x ∷ xs) = let rest = filter p xs in if p x then x ∷ rest else rest

pub contains-filter :
    (a : String) (p : String → Bool) (xs : List String)
    → contains a (filter p xs) ≡ (contains a xs && p a)
unfolding contains filter
contains-filter a p [] = refl
contains-filter a p (x ∷ xs) = ground (arith, contains-filter a p xs, eq_iff a x)

-- Each member once.
unfoldable pub dedup : List String → List String
dedup [] = []
dedup (x ∷ xs) = let rest = dedup xs in if contains x rest then rest else x ∷ rest

pub contains-dedup : (a : String) (xs : List String) → contains a (dedup xs) ≡ contains a xs
unfolding contains dedup
contains-dedup a [] = refl
contains-dedup a (x ∷ xs) = ground (arith, contains-dedup a xs, eq_iff a x)

abbrev str_le : String → String → Bool
str_le s t = elim (compare s t) [ Ordering.gt ↦ false | _ ↦ true ]

unfoldable pub insert_sorted : String → List String → List String
insert_sorted a [] = a ∷ []
insert_sorted a (x ∷ xs) = if str_le a x then a ∷ x ∷ xs else x ∷ insert_sorted a xs

-- `sorted(xs)`
unfoldable pub sorted : List String → List String
unfolding insert_sorted
sorted [] = []
sorted (x ∷ xs) = insert_sorted x (sorted xs)

contains-insert_sorted :
    (a x : String) (xs : List String) → contains a (insert_sorted x xs) ≡ (a == x || contains a xs)
unfolding contains insert_sorted
contains-insert_sorted a x [] = refl
contains-insert_sorted a x (y ∷ ys) = elim (Bool-cases (str_le x y)) [
  | inl e ↦ rw e
  | inr e ↦ rw e (ground (arith, contains-insert_sorted a x ys))
]

pub contains-sorted : (a : String) (xs : List String) → contains a (sorted xs) ≡ contains a xs
unfolding contains sorted
contains-sorted a [] = refl
contains-sorted a (x ∷ xs) =
    ground (arith, contains-sorted a xs, contains-insert_sorted a x (sorted xs))
