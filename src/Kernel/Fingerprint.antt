-- ===== src/Kernel/Fingerprint.antt =====
-- What the kernel commits to: the strict encoding of a payload, the action's fingerprint, and the
-- check of a signed decision.
use decision_os_min.Prelude.{
  ℕ, ◌+◌, String, ◌⧺◌, Bool, true, false, not, ◌&&◌, Option, none, some, List, [], ◌∷◌, ◌==◌,
  sorted, if◌then◌else◌,
}
use decision_os_min.Py.{Value, Items, Dict, ℤ, get, get_default, get_or_else, without, of_texts}
use decision_os_min.Py.Exc.{Exc, ok, raise, Exn, ◌>>=◌}
use decision_os_min.Py.Runtime.{Runtime}
use decision_os_min.Compose.{text, type_name, action_ref_of}
use decision_os_min.AuthorityPdp.Builtin.{capability_of}

abbrev pub kernel_identity : String
kernel_identity = "decision-os-min-kernel"

-- Whether `_canonical` of a dict gives a text; it raises `TypeError` where it does not.
unfoldable pub signable : Runtime → Dict → Bool
signable R obj = R.prints (Value.dict (without "signature" obj))

-- The text of `_canonical`, where it gives one.
unfoldable pub canonical : Runtime → Dict → String
canonical R obj = R.dumps (Value.dict (without "signature" obj))

abbrev at_index : Runtime → String → ℕ → String
at_index R path i = path ⧺ "[" ⧺ text R (Value.int (ℤ.pos i)) ⧺ "]"

abbrev no_primitive : Runtime → String → Value → String
no_primitive R path v =
    path
    ⧺ ": value of type "
    ⧺ type_name R v
    ⧺ " is not a JSON primitive; payloads bound by a decision must be plain JSON data (str/int/float/bool/None/list/dict) — refusing to str()-coerce it"

abbrev odd_key : Runtime → String → String → String
odd_key R path k =
    path ⧺ ": non-string dict key " ⧺ k ⧺ " of type " ⧺ R.class_name (Value.object true k)

-- `_strict_encode`: a tuple becomes a list, and what is no plain JSON raises.
unfoldable mutual
  pub strict_encode : Runtime → String → Value → Exc Value
  strict_encode R path Value.null = ok Value.null
  strict_encode R path (Value.boolean b) = ok (Value.boolean b)
  strict_encode R path (Value.int n) = ok (Value.int n)
  strict_encode R path (Value.float n) = ok (Value.float n)
  strict_encode R path (Value.str s) = ok (Value.str s)
  strict_encode R path (Value.list xs) = do ys ← strict_items R path 0 xs; ok (Value.list ys)
  strict_encode R path (Value.tuple xs) = do ys ← strict_items R path 0 xs; ok (Value.list ys)
  strict_encode R path (Value.dict d) = do e ← strict_dict R path d; ok (Value.dict e)
  strict_encode R path (Value.object b s) =
      raise (Exn.unfingerprintable (no_primitive R path (Value.object b s)))

  pub strict_items : Runtime → String → ℕ → Items → Exc Items
  strict_items R path i Items.nil = ok Items.nil
  strict_items R path i (Items.cons x xs) = do
    y ← strict_encode R (at_index R path i) x
    ys ← strict_items R path (i + 1) xs
    ok (Items.cons y ys)

  pub strict_dict : Runtime → String → Dict → Exc Dict
  strict_dict R path Dict.end = ok Dict.end
  strict_dict R path (Dict.entry k v d) = do
    w ← strict_encode R (path ⧺ "." ⧺ k) v
    e ← strict_dict R path d
    ok (Dict.entry k w e)
  strict_dict R path (Dict.odd_entry k v d) = raise (Exn.unfingerprintable (odd_key R path k))

-- the texts of a list that holds nothing else
unfoldable pub texts_of : Items → Option (List String)
texts_of Items.nil = some []
texts_of (Items.cons (Value.str s) xs) = elim (texts_of xs) [
  | none ↦ none
  | some ss ↦ some (s ∷ ss)
]
texts_of (Items.cons _ _) = none

abbrev or_type_error {ℓ} : {A : Type ℓ} → Option A → Exc A
or_type_error none = raise Exn.type_error
or_type_error (some a) = ok a

unfoldable pub sorted_items : Runtime → Value → Option (List String) → Exc Value
sorted_items R v none = or_type_error (R.sorted_other v)
sorted_items R v (some ss) = ok (Value.list (of_texts (sorted ss)))

-- `sorted(v)`
unfoldable pub sorted_labels : Runtime → Value → Exc Value
sorted_labels R (Value.list xs) = sorted_items R (Value.list xs) (texts_of xs)
sorted_labels R (Value.tuple xs) = sorted_items R (Value.tuple xs) (texts_of xs)
sorted_labels R v = or_type_error (R.sorted_other v)

-- The dict that the fingerprint is taken of.
abbrev pub normalized : Runtime → Dict → Value → Value → Value
normalized R action labels payload = Value.dict (
    Dict.entry "actor" (get_default "actor" (Value.str "") action) (
      Dict.entry "capability" (capability_of R action) (
        Dict.entry "action_purpose" (get_default "action_purpose" (Value.str "") action) (
          Dict.entry "data_labels" labels (
            Dict.entry "action_ref" (action_ref_of action)
              (Dict.entry "payload" payload Dict.end))))))

unfoldable pub action_fingerprint : Runtime → Dict → Exc String
action_fingerprint R action = do
  labels ← sorted_labels R (get_or_else "data_labels" (Value.list Items.nil) action)
  payload ← strict_encode R "payload" (get_or_else "payload" (Value.dict Dict.end) action)
  dumped ← or_type_error (R.dumps_strict (normalized R action labels payload))
  ok (R.sha256 dumped)

abbrev issuer_is_kernel : Option Value → Bool
issuer_is_kernel (some (Value.str s)) = s == kernel_identity
issuer_is_kernel _ = false

-- Whether `verify` raises `TypeError`: the text that it would check cannot be printed.
unfoldable pub verify_raises : Runtime → Dict → Bool
verify_raises R obj = issuer_is_kernel (get "issued_by" obj) && not (signable R obj)

-- `verify`, where it does not raise
unfoldable pub verify : Runtime → Dict → String → String → Bool
verify R obj signature public_key =
    if issuer_is_kernel (get "issued_by" obj)
    then R.verify_signature public_key signature (canonical R obj)
    else false
