-- ===== src/SpentStore/Protocol.antt =====
-- spentstore.py: the protocol that the executor depends on.
use decision_os_min.Prelude.{String, Bool, true, false, ◌≡◌, ◌≢◌}
use decision_os_min.Py.Exc.{Exc, ok}

-- The protocol: a call answers whether it was the first to record the token, or raises.
pub record SpentStore : Type 1 where
  pub State : Type 0
  pub try_spend : String → State → Exc Bool × State

-- What a store promises, by a view of what counts as spent: the first to spend finds the token
-- unspent and leaves it spent, a spent token is never spent again, and nothing is forgotten,
-- errors included.
pub record IsAtomic (S : SpentStore) : Type 0 where
  pub is_spent : S.State → String → Bool
  pub first :
      (t : String) (s : S.State)
      → (S.try_spend t s).0 ≡ ok true
      → (is_spent s t ≡ false) × (is_spent (S.try_spend t s).1 t ≡ true)
  pub replay : (t : String) (s : S.State) → is_spent s t ≡ true → (S.try_spend t s).0 ≢ ok true
  pub kept :
      (t j : String) (s : S.State) → is_spent s j ≡ true → is_spent (S.try_spend t s).1 j ≡ true
