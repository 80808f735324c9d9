-- ===== src/Sealed/Inert.antt =====
-- sealed.py: what `seal` leaves in the open can only raise.
use decision_os_min.Prelude.{
  String, ℕ, ◌≡◌, refl, ap, subst, Option, none, some, [], ◌∷◌, Table, store, Bool-cases, inl, inr,
  ◌==◌,
}
use decision_os_min.Py.{Dict}
use decision_os_min.Py.Exc.{ok}
use decision_os_min.Py.Runtime.{Runtime}
use decision_os_min.Py.Plugin.{raised}
use decision_os_min.Sealed.ToolRegistry.{
  Callable, Registry, poison, inert, seal_one, seal_all, poisoned, exports, seal,
}
use decision_os_min.Sealed.Sealing.{not_frozen}

-- A function that can only raise.
abbrev pub IsInert : Callable → Type 0
IsInert fn = (payload : Dict) → (t : String) × (fn.body payload ≡ raised "SealedBreach" t)

-- Every function of a table is such.
unfoldable pub AreInert : Table Callable → Type 0
AreInert [] = Unit {0}
AreInert ((_, fn) ∷ tools) = IsInert fn × AreInert tools

abbrev pub IsSourceInert : Option (Table Callable) → Type 0
IsSourceInert none = Unit {0}
IsSourceInert (some source) = AreInert source

poison-IsInert : (R : Runtime) (n : ℕ) (name : String) → IsInert (poison R n name)
unfolding poison
poison-IsInert R n name payload = (_, refl)

inert-IsInert : (R : Runtime) (n : ℕ) (name : String) → IsInert (inert R n name)
unfolding inert
inert-IsInert R n name payload = (_, refl)

poisoned-AreInert :
    (R : Runtime) (fresh : String → ℕ) (tools : Table Callable) → AreInert (poisoned R fresh tools)
unfolding poisoned AreInert
poisoned-AreInert R fresh [] = tt
poisoned-AreInert R fresh ((m, g) ∷ tools) =
    (poison-IsInert R (fresh m) m, poisoned-AreInert R fresh tools)

exports-AreInert :
    (R : Runtime) (fresh : String → ℕ) (tools : Table Callable) → AreInert (exports R fresh tools)
unfolding exports AreInert
exports-AreInert R fresh [] = tt
exports-AreInert R fresh ((m, g) ∷ tools) =
    (inert-IsInert R (fresh m) m, exports-AreInert R fresh tools)

store-AreInert :
    (n : String) (fn : Callable) (tools : Table Callable)
    → IsInert fn
    → AreInert tools
    → AreInert (store n fn tools)
unfolding store AreInert
store-AreInert n fn [] i h = (i, tt)
store-AreInert n fn ((m, g) ∷ tools) i (j, rest) = elim (Bool-cases (m == n)) [
  | inl e ↦ rw e (i, rest)
  | inr e ↦ rw e (j, store-AreInert n fn tools i rest)
]

slots-AreInert :
    (R : Runtime) (fresh : String → ℕ) (tools : Table Callable) (reg : Registry)
    → AreInert reg.tools
    → AreInert (seal_all R fresh tools reg).tools
unfolding seal_all seal_one
slots-AreInert R fresh [] reg h = h
slots-AreInert R fresh ((m, g) ∷ tools) reg h =
    slots-AreInert R fresh tools (seal_one R fresh m g reg)
      (store-AreInert m (poison R (fresh m) m) reg.tools (poison-IsInert R (fresh m) m) h)

-- After `seal` on a runtime whose public table is inert, no function that stands in the open can do
-- more than raise: not those handed out, not those of the public table, and not those left in the
-- caller's own table.
pub seal-AreInert :
    (R : Runtime) (fresh : String → ℕ) (tools ex : Table Callable) (reg r : Registry)
    → AreInert reg.tools
    → seal R fresh tools reg ≡ ok (ex, r)
    → AreInert ex × AreInert r.tools × IsSourceInert r.source
unfolding seal
seal-AreInert R fresh tools ex reg r h taken =
    let same = not_frozen reg.frozen _ _ (ex, r) taken in
    (
      subst AreInert (ap (λ x. x.0) same) (exports-AreInert R fresh tools),
      subst (λ q. AreInert q.tools) (ap (λ x. x.1) same) (slots-AreInert R fresh tools reg h),
      subst (λ q. IsSourceInert q.source) (ap (λ x. x.1) same) (poisoned-AreInert R fresh tools),
    )
