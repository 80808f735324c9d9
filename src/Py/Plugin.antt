-- ===== src/Py/Plugin.antt =====
-- A call of code that the package does not own: an evaluator, an advisor, a policy, a provider.
use decision_os_min.Prelude.{String, Bool, ◌==◌, ◌≡◌, refl}
use decision_os_min.Py.Runtime.{Runtime}
use decision_os_min.Py.Exc.{Exc, ok, raise, Exn, foreign, base_exception}

-- How the call ends: a value, an `Exception`, another `BaseException` (by class and text),
-- `GeneratorExit`, or no answer within the time allowed, which without a bound is never an answer.
pub data Ran {ℓ} (A : Type ℓ) : Type ℓ where
  returned : A → Ran A
  raised based : String → String → Ran A
  closed silent : Ran A

-- The call with no handler around it.
unfoldable pub unguarded {ℓ} : {A : Type ℓ} → Ran A → Exc A
unguarded (returned a) = ok a
unguarded (raised c t) = raise (foreign c t)
unguarded (based c t) = raise (base_exception c t)
unguarded closed = raise Exn.generator_exit
unguarded silent = raise Exn.hangs

-- The future's `TimeoutError` is the builtin one, so that an error of that class which the code
-- raises itself reads as a timeout too.
abbrev pub is_timeout : String → Bool
is_timeout c = c == "TimeoutError"

-- What follows a call that may end in any way.
abbrev pub after_call {ℓ κ} : {A : Type ℓ} {B : Type κ} → Ran A → (A → Ran B) → Ran B
after_call (returned a) next = next a
after_call (raised c t) next = raised c t
after_call (based c t) next = based c t
after_call closed next = closed
after_call silent next = silent

pub after_call-returned {ℓ κ} :
    {A : Type ℓ} {B : Type κ} (r : Ran A) (next : A → Ran B) (b : B)
    → after_call r next ≡ returned b
    → (a : A) × (r ≡ returned a) × (next a ≡ returned b)
after_call-returned (returned a) next b h = (a, refl, h)
after_call-returned (raised c t) next b h = absurd cc
after_call-returned (based c t) next b h = absurd cc
after_call-returned closed next b h = absurd cc
after_call-returned silent next b h = absurd cc

pub returned-inj {ℓ} : {A : Type ℓ} {a b : A} → ◌≡◌ {A = Ran A} (returned a) (returned b) → a ≡ b
returned-inj h = cc

-- An error of the interpreter's, as the way in which a call ends.
abbrev pub ran_of {ℓ} : {A : Type ℓ} → Runtime → Exc A → Ran A
ran_of R (ok a) = returned a
ran_of R (raise (Exn.foreign c t)) = raised c t
ran_of R (raise _) = raised "TypeError" (R.error_text "TypeError")
