-- ===== src/Receipt.antt =====
-- decision_os_min/interop_receipt.py: the check of a foreign receipt against the action that it names.
pub mod Consistent
use decision_os_min.Prelude.{
  String, ◌⧺◌, Bool, true, false, not, Option, none, some, List, [], ◌∷◌, ◌==◌, nonempty,
  if◌then◌else◌,
}
use decision_os_min.Py.{Value, Dict, get, get_default, has_key, of_texts}
use decision_os_min.Py.Exc.{Exc, ok, raise, Exn, ◌>>=◌, ◌>>◌, raise_if}
use decision_os_min.Py.Runtime.{Runtime}
use decision_os_min.Kernel.{action_fingerprint}
use decision_os_min.Execute.{is_text}

-- `_PREIMAGE_FIELDS`
abbrev pub preimage_fields : List String
preimage_fields =
    "artifact_hash" ∷ "artifact_type" ∷ "policy_version" ∷ "verdict" ∷ "source_class"
    ∷ "vantage_limitation" ∷ []

-- The names that a dict lacks.
unfoldable pub missing_in : Dict → List String → List String
missing_in proof [] = []
missing_in proof (k ∷ ks) =
    let rest = missing_in proof ks in if has_key k proof then rest else k ∷ rest

-- `{k: proof[k] for k in ks}`
unfoldable pub cited : Dict → List String → Dict
cited proof [] = Dict.end
cited proof (k ∷ ks) = Dict.entry k (get_default k Value.null proof) (cited proof ks)

abbrev or_missing : Runtime → Dict → List String → Exc Dict
or_missing R proof [] = ok (cited proof preimage_fields)
or_missing R proof (k ∷ ks) =
    raise (
      Exn.receipt_refused
        ("proof missing cited fields: " ⧺ R.repr (Value.list (of_texts (k ∷ ks)))))

unfoldable pub cited_preimage : Runtime → Dict → Exc Dict
cited_preimage R proof = or_missing R proof (missing_in proof preimage_fields)

abbrev or_type_error : Runtime → Option String → Exc String
or_type_error R none = raise (Exn.foreign "TypeError" (R.error_text "TypeError"))
or_type_error R (some t) = ok t

unfoldable pub recompute_decision_ref : Runtime → Dict → Exc String
recompute_decision_ref R proof = do
  preimage ← cited_preimage R proof
  printed ← or_type_error R (R.dumps_strict (Value.dict preimage))
  ok (R.sha256 printed)

abbrev missing_ref : Exc String
missing_ref = raise (Exn.receipt_refused "decision_ref missing")

abbrev pub claimed_ref : Option Value → Exc String
claimed_ref (some (Value.str s)) = if nonempty s then ok s else missing_ref
claimed_ref _ = missing_ref

unfoldable pub check_receipt_as_grant_input : Runtime → Dict → Dict → Exc (Unit {0})
check_receipt_as_grant_input R proof action = do
  claimed ← claimed_ref (get "decision_ref" proof)
  recomputed ← recompute_decision_ref R proof
  raise_if (not (claimed == recomputed))
      (Exn.receipt_refused "decision_ref does not recompute from cited fields")
  live ← action_fingerprint R action
  raise_if (not (is_text (get "artifact_hash" proof) live))
      (Exn.receipt_refused "artifact_hash does not match the effect being minted")
