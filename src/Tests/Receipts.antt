-- ===== src/Tests/Receipts.antt =====
-- A receipt that passes its check, and one that names another action.
use decision_os_min.Prelude.{sorted, dedup, ◌≡◌, refl, String, ◌↔◌}
use decision_os_min.Py.{get_or_else, truthy, without, Value, Dict, get, put, of_texts}
use decision_os_min.AuthorityPdp.Builtin.{capability_of}
use decision_os_min.Compose.{action_ref_of, normalize, normalize_text, text}
use decision_os_min.Py.Exc.{Exc, ok}
use decision_os_min.Kernel.{
  canonical, action_fingerprint, sorted_labels, sorted_items, texts_of, strict_encode, strict_items,
  strict_dict,
}
use decision_os_min.Receipt.{
  recompute_decision_ref, check_receipt_as_grant_input, missing_in, cited, cited_preimage,
}
use decision_os_min.Receipt.Consistent.{IsConsistent, check_receipt_as_grant_input-IsConsistent}
use decision_os_min.Tests.Fixtures.{plain, search_action, shown, shown_dict}

abbrev or_blank : Exc String → String
or_blank (ok s) = s
or_blank _ = ""

abbrev cited_fields : Dict
cited_fields = put "artifact_hash" (Value.str (or_blank (action_fingerprint plain search_action))) (
    Dict.entry "artifact_type" (Value.str "action") (
      Dict.entry "policy_version" (Value.str "3") (
        Dict.entry "verdict" (Value.str "ALLOW") (
          Dict.entry "source_class" (Value.str "issuer")
            (Dict.entry "vantage_limitation" Value.null Dict.end)))))

abbrev receipt : Dict
receipt =
    Dict.entry "decision_ref" (Value.str (or_blank (recompute_decision_ref plain cited_fields)))
      cited_fields

-- The receipt passes its check.
receipt_passes : check_receipt_as_grant_input plain receipt search_action ≡ ok tt
unfolding check_receipt_as_grant_input missing_in cited cited_preimage recompute_decision_ref
    action_fingerprint sorted_labels sorted_items texts_of strict_encode strict_items strict_dict
    canonical capability_of action_ref_of normalize normalize_text text get put get_or_else truthy
    without of_texts sorted dedup shown shown_dict
receipt_passes = refl

check_receipt_as_grant_input-IsConsistent_example :
    (check_receipt_as_grant_input plain receipt search_action ≡ ok tt)
    ↔ IsConsistent plain receipt search_action
check_receipt_as_grant_input-IsConsistent_example =
    check_receipt_as_grant_input-IsConsistent plain receipt search_action
