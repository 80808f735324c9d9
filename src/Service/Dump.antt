-- ===== src/Service/Dump.antt =====
-- service.py: what GET /v1/audit shows of the log.
use Prim.Native.Nat.{min}
use decision_os_min.Prelude.{
  ℕ, zero, suc, ◌-◌, ◌≡◌, refl, ap, List, [], ◌∷◌, ◌++◌, arith, length, String, true,
}
use decision_os_min.Py.{Value, ℤ}
use decision_os_min.Py.Exc.{ok}
use decision_os_min.Py.Runtime.{Runtime}
use decision_os_min.Audit.Anchor.{entries}
use decision_os_min.Service.Endpoints.{answered}
use decision_os_min.Service.Queries.{skip, slice_last, get_audit}

unfoldable pub front {ℓ} : {B : Type ℓ} → ℕ → List B → List B
front zero xs = []
front (suc n) [] = []
front (suc n) (x ∷ xs) = x ∷ front n xs

front-skip {ℓ} : {B : Type ℓ} (n : ℕ) (xs : List B) → front n xs ++ skip n xs ≡ xs
unfolding front skip
front-skip zero xs = refl
front-skip (suc n) [] = refl
front-skip (suc n) (x ∷ xs) = ap (λ ys. x ∷ ys) (front-skip n xs)

length-skip {ℓ} : {B : Type ℓ} (n : ℕ) (xs : List B) → length (skip n xs) ≡ length xs - n
unfolding skip
length-skip zero xs = omega arith
length-skip (suc n) [] = omega arith
length-skip (suc n) (x ∷ xs) = omega (arith, length-skip n xs)

-- The entries shown are the last ones of the log, in its order, and as many as the limit allows.
pub record IsTail (rows shown : List Value) (limit : ℕ) : Type 0 where
  pub earlier : List Value
  pub is_last : earlier ++ shown ≡ rows
  pub is_bounded : length shown ≡ min limit (length rows)

-- Where every line of the log reads, and the limit is at least 1, an audit dump that is enabled shows
-- the last entries of the log, in its order, and as many as the limit allows.
pub get_audit-IsTail :
    (R : Runtime) (lines : List String) (rows : List Value) (n : ℕ)
    → entries R lines ≡ ok rows
    → (shown : List Value) × (get_audit R true (ℤ.pos (suc n)) lines ≡ answered shown)
      × IsTail rows shown (suc n)
unfolding get_audit slice_last
get_audit-IsTail R lines rows n h = (
  skip (length rows - suc n) rows,
  rw h refl,
  record {
    earlier = front (length rows - suc n) rows;
    is_last = front-skip (length rows - suc n) rows;
    is_bounded = omega (arith, length-skip {0} (length rows - suc n) rows);
  },
)

-- A limit of 0 shows the whole log.
pub get_audit-zero :
    (R : Runtime) (lines : List String) (rows : List Value)
    → entries R lines ≡ ok rows
    → get_audit R true (ℤ.pos 0) lines ≡ answered rows
unfolding get_audit slice_last
get_audit-zero R lines rows h = rw h refl
