-- ===== src/Py/Exc.antt =====
-- Exceptions as values: the classes that the package raises or catches, and the `do` notation.
use decision_os_min.Prelude.{String, Bool, true, false, ◌≡◌, refl}

pub data Exn : Type 0 where
  execution_refused attenuation_error unfingerprintable : String → Exn
  mutation_unsupported authority_pdp_error spent_store_unavailable : String → Exn
  os_error sealed_breach admission_error receipt_refused : String → Exn
  -- the verdict and the reason; the evidence is in the state
  sealed_refused governance_refused : String → String → Exn
  type_error value_error key_error generator_exit : Exn
  -- an `Exception`, or a `BaseException` that is none, of code outside the package: class, text
  foreign base_exception : String → String → Exn
  -- the call does not return
  hangs : Exn

pub data Exc {ℓ} (A : Type ℓ) : Type ℓ where
  ok : A → Exc A
  raise : Exn → Exc A

-- `if b: raise e`
abbrev pub raise_if : Bool → Exn → Exc (Unit {0})
raise_if false e = ok tt
raise_if true e = raise e

infixl 5 ◌>>=◌ ◌>>◌
-- What follows a call, which an exception skips.
abbrev pub ◌>>=◌ {κ μ} :
    {Before : Type κ} {After : Type μ} → Exc Before → (Before → Exc After) → Exc After
raise x >>= next = raise x
ok result >>= next = next result

abbrev pub ◌>>◌ {κ} : {After : Type κ} → Exc (Unit {0}) → Exc After → Exc After
first >> rest = first >>= λ _. rest

-- A chain that ended well, taken apart by its first call.
pub ok_of_bind {ℓ κ μ} :
    {Before : Type ℓ} {After : Type κ} {Goal : Type μ} (call : Exc Before)
    (next : Before → Exc After) {last : After}
    → (call >>= next) ≡ ok last
    → ((result : Before) → call ≡ ok result → next result ≡ ok last → Goal)
    → Goal
ok_of_bind (raise x) next ended use_parts = absurd (cc)
ok_of_bind (ok result) next ended use_parts = use_parts result refl ended

-- The same as a triple.
pub >>=-eq-ok {κ μ} :
    {Before : Type κ} {After : Type μ} (call : Exc Before) (next : Before → Exc After)
    {last : After} (ended : (call >>= next) ≡ ok last)
    → (result : Before) × (call ≡ ok result) × (next result ≡ ok last)
>>=-eq-ok call next ended = ok_of_bind call next ended (λ result came rest. (result, came, rest))

pub ok_inj {ℓ} : {A : Type ℓ} {a b : A} → ◌≡◌ {A = Exc A} (ok a) (ok b) → a ≡ b
ok_inj h = cc

-- A guard that did not raise, in such a chain.
pub ok_of_raise_if {ℓ κ} :
    {B : Type ℓ} {C : Type κ} (b : Bool) (e : Exn) (rest : Exc B) {c : B}
    → (raise_if b e >> rest) ≡ ok c
    → (b ≡ false → rest ≡ ok c → C)
    → C
ok_of_raise_if true e rest h k = absurd (cc)
ok_of_raise_if false e rest h k = k refl h
