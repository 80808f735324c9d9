-- ===== src/SpentStore/InMemory.antt =====
-- `InMemorySpentStore`: the set of the tokens of one process.
use decision_os_min.Prelude.{
  String, Bool, true, false, List, ◌∷◌, contains, arith, eq_refl, if◌then◌else◌,
}
use decision_os_min.Py.Exc.{Exc, ok}
use decision_os_min.SpentStore.Protocol.{SpentStore, IsAtomic}

unfoldable pub spend_in_memory : String → List String → Exc Bool × List String
spend_in_memory token spent =
    if contains token spent then (ok false, spent) else (ok true, token ∷ spent)

abbrev pub in_memory_store : SpentStore
in_memory_store = record { State = List String; try_spend = spend_in_memory }

-- The set in memory is atomic, a token being spent when it is in the set.
pub in_memory_store-IsAtomic : IsAtomic in_memory_store
unfolding spend_in_memory contains
in_memory_store-IsAtomic = record {
  is_spent = λ s t. contains t s;
  first = λ t s h. ground (arith, eq_refl t);
  replay = λ t s h. ground arith;
  kept = λ t j s h. ground arith;
}
