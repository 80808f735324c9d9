-- ===== src/Audit/Anchor.antt =====
-- decision_os_min/audit.py: the head of the log and its comparison with a head that was retained
-- elsewhere, on a file that exists.
use decision_os_min.Prelude.{
  ℕ, zero, suc, String, ◌⧺◌, Bool, true, false, not, Option, none, some, List, [], ◌∷◌, nonempty,
  strip, if◌then◌else◌, prefix_of, nat_eq,
}
use decision_os_min.Py.{Value, ℤ}
use decision_os_min.Py.Exc.{Exc, ok, raise, Exn, ◌>>=◌}
use decision_os_min.Py.Runtime.{Runtime}
use decision_os_min.Execute.{field, value_eq}
use decision_os_min.Audit

-- `n - 1`
abbrev pub before : ℕ → ℤ
before zero = ℤ.negsuc 0
before (suc n) = ℤ.pos n

unfoldable pub head : Audit.HashLog → ℤ × String
head log = (before log.seq, log.last)

abbrev pub loaded : Option Value → Exc Value
loaded none = raise Exn.value_error
loaded (some v) = ok v

-- The entries that the lines read as, those that are blank left out.
unfoldable pub entries : Runtime → List String → Exc (List Value)
entries R [] = ok []
entries R (line ∷ lines) =
    let rest = entries R lines in
    if nonempty (strip line)
    then loaded (R.loads line) >>= (λ v. rest >>= (λ vs. ok (v ∷ vs)))
    else rest

-- The loop of `_current_head_on_disk`, which begins with `None` and so cannot tell it from a `null`.
unfoldable pub last_entry : Runtime → Value → List String → Exc Value
last_entry R found [] = ok found
last_entry R found (line ∷ lines) =
    let skipped = last_entry R found lines in
    if nonempty (strip line) then loaded (R.loads line) >>= (λ v. last_entry R v lines) else skipped

-- `int(v)`, with the reading of texts and of other numbers as an argument
unfoldable pub int_of : (Value → Exc ℤ) → Value → Exc ℤ
int_of other (Value.int z) = ok z
int_of other (Value.boolean false) = ok (ℤ.pos 0)
int_of other (Value.boolean true) = ok (ℤ.pos 1)
int_of other v = other v

unfoldable pub head_of : (Value → Exc ℤ) → Value → Exc (ℤ × Value)
head_of other Value.null = ok (ℤ.negsuc 0, Value.str Audit.genesis)
head_of other (Value.dict d) = do
  seq ← field "seq" d
  n ← int_of other seq
  own ← field "entry_hash" d
  ok (n, own)
head_of other _ = raise Exn.type_error

unfoldable pub current_head_on_disk : Runtime → (Value → Exc ℤ) → Audit.HashLog → Exc (ℤ × Value)
current_head_on_disk R other log = last_entry R Value.null log.lines >>= head_of other

abbrev pub int_eq : ℤ → ℤ → Bool
int_eq (ℤ.pos m) (ℤ.pos n) = nat_eq m n
int_eq (ℤ.negsuc m) (ℤ.negsuc n) = nat_eq m n
int_eq _ _ = false

abbrev pub is_expected : Option ℤ → ℤ → Bool
is_expected none n = true
is_expected (some z) n = int_eq n z

-- `last_hash[:12]`, on what a verified entry can have as its hash
abbrev pub shortened : Value → Exc String
shortened (Value.str s) = ok (prefix_of 12 s)
shortened _ = raise Exn.type_error

unfoldable pub hash_diverges : Value → String → Exc (Bool × String)
hash_diverges own expected_hash = do
  local ← shortened own
  ok (
    false,
    "head hash diverges from anchor (local "
        ⧺ local
        ⧺ "…, anchor "
        ⧺ prefix_of 12 expected_hash
        ⧺ "…) — truncation/rewrite past the anchored point",
  )

abbrev expected_text : Runtime → Option ℤ → String
expected_text R none = "None"
expected_text R (some z) = R.show (Value.int z)

unfoldable pub seq_diverges : Runtime → ℤ → Option ℤ → Bool × String
seq_diverges R n expected_seq = (
  false,
  "head seq diverges from anchor (local "
      ⧺ R.show (Value.int n)
      ⧺ ", anchor "
      ⧺ expected_text R expected_seq
      ⧺ ") — entries dropped/added",
)

-- The comparison of the head on disk with the anchor.
unfoldable pub against : Runtime → String → Option ℤ → ℤ × Value → Exc (Bool × String)
against R expected_hash expected_seq (n, own) =
    if not (value_eq R own (Value.str expected_hash))
    then hash_diverges own expected_hash
    else if not (is_expected expected_seq n)
    then ok (seq_diverges R n expected_seq)
    else ok (true, "ok")

unfoldable pub verify_against_anchor :
    Runtime → (Value → Exc ℤ) → String → Option ℤ → Audit.HashLog → Exc (Bool × String)
verify_against_anchor R other expected_hash expected_seq log = do
  verified ← Audit.verify R log
  if not verified
      then ok (false, "chain does not verify (edit/insert/reorder/head-delete)")
      else current_head_on_disk R other log >>= against R expected_hash expected_seq
