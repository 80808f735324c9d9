-- ===== src/Tests/Advice.antt =====
-- Advice and enrichment at concrete actions.
use decision_os_min.Prelude.{
  ◌≡◌, ◌≢◌, ◌≤◌, refl, true, [], ◌∷◌, prefix_of, find, contains, remove_prefix, after_prefix,
  sorted, dedup, find?, none, some, String, Option, List, arith, eq_iff,
}
use decision_os_min.Py.{Value, Items, Dict, get, get_or_else, truthy, put, without, of_texts}
use decision_os_min.Py.Exc.{Exc, ok, raise}
use decision_os_min.Py.Plugin.{returned}
use decision_os_min.Compose.{
  text, normalize, normalize_text, more_restrictive, rank, verdict_of, as_decision, sanitize,
  keep_contributable, plain_reason, is_permitting, action_ref_of, deny, contain,
}
use decision_os_min.Attenuation.{held_by_any}
use decision_os_min.AuthorityPdp.{
  AuthorityPdp, CanonicalAuthorityResult, Output, evaluate_authority, identity_field, plain_bounded,
  ruled, canonicalize_authority_output, raw_verdict, raw_reason, marked,
}
use decision_os_min.AuthorityPdp.Builtin
use decision_os_min.AuthorityPdp.Builtin.{
  Builtin, provider, objection, ambiguous, grant_objection, holds_value, holds_some, capability_of,
  purpose_objection, iterate, labels_objection, label_objection,
}
use decision_os_min.Kernel.{
  signable, verify_raises, Kernel, Provider, Request, Ruling, decide, advised, evaluate,
  after_shape, shape_objection, pdp_of, init, after_authority, host_decision, to_dict, redact, hits,
  local_decision, obliged, fold_evaluators, settled, fold_in, output_digests, output_axioms,
  action_fingerprint, sorted_labels, sorted_items, texts_of, strict_encode, strict_items,
  strict_dict, concluded, bind_legitimacy, sealed, granted, token_view, signed, canonical,
}
use decision_os_min.Kernel.Advised.{Signed, unadvised, decide-tightens}
use decision_os_min.Kernel.Contained.{IsBareLimit, decide-contains}
use decision_os_min.Plugins
use decision_os_min.Plugins.{
  Enrichment, ContextPlugin, apply_context, enriched_by, added, update, hashed, texts?,
}
use decision_os_min.Plugins.Additive.{missing}
use decision_os_min.Plugins.Permitted.{evaluate-enriched}
use decision_os_min.Tests.Fixtures.{
  plain, search_policy, moment, request, search_action, shown, shown_dict,
}

-- the built-in authority of the example's kernel
abbrev search_authority : Builtin
search_authority = record {
  grants = search_policy.grants;
  bindings = ("public", "support" ∷ []) ∷ [];
  graph = record { root_key = "root"; macaroons = []; root_grants = search_policy.grants };
  default_deny = true;
  revision_counter = 0;
}

-- a kernel that lets public data serve support, and an action for that
abbrev support_kernel : Kernel
support_kernel =
    init (record search_policy { purpose_bindings = ("public", "support" ∷ []) ∷ [] }) "key" "root"
      none none none

abbrev support_action : Dict
support_action = Dict.entry "action_purpose" (Value.str "support") search_action

-- a request in which the caller names a threat
abbrev warned : Request
warned = record request { threat_class = some "malicious" }

abbrev no_ruling : Ruling
no_ruling = record { decision = Dict.end; signature = ""; token = none }

abbrev or_no_ruling : Exc Ruling → Ruling
or_no_ruling (ok r) = r
or_no_ruling (raise e) = no_ruling

abbrev loud_ruling : Ruling
loud_ruling = or_no_ruling (decide plain support_kernel moment warned support_action)

-- a plugin that labels an action and adds to its context
abbrev labelling : ContextPlugin
labelling action =
    returned (record { data_labels = "public" ∷ []; metadata = ("source", Value.str "crm") ∷ [] })

abbrev or_same : Dict → Exc Dict → Dict
or_same d (ok e) = e
or_same d (raise e) = d

abbrev unsorted : List Value → List String → Option Items
unsorted own others = none

abbrev enriched_support : Dict
enriched_support =
    or_same support_action (apply_context plain unsorted (labelling ∷ []) support_action)

abbrev no_result : CanonicalAuthorityResult
no_result = record { verdict = ""; reason = ""; provider = ""; policy_revision = "" }

abbrev Evaluated : Type 0
Evaluated = Dict × CanonicalAuthorityResult

abbrev or_no_result : Exc Evaluated → Evaluated
or_no_result (ok x) = x
or_no_result (raise e) = (Dict.end, no_result)

abbrev enriched_ruling : Evaluated
enriched_ruling = or_no_result (evaluate plain support_kernel 0 none none enriched_support)

-- an authority that says LIMIT to everything, and a kernel that asks it
abbrev limiting : AuthorityPdp
limiting = record {
  name = returned (Value.str "remote");
  policy_revision = returned (Value.str "1");
  evaluate = λ a. returned (Output.plain (Value.str "LIMIT"));
}

abbrev limiting_kernel : Kernel
limiting_kernel = init search_policy "key" "root" none (some limiting) none

abbrev warned_alone : Request
warned_alone = record warned { evaluators = [] }

abbrev or_no_authority : Exc CanonicalAuthorityResult → CanonicalAuthorityResult
or_no_authority (ok r) = r
or_no_authority (raise e) = no_result

abbrev or_blank : Exc String → String
or_blank (ok s) = s
or_blank (raise e) = ""

runs :
    (support_kernel.provider ≡ Provider.builtin search_authority)
    × (decide plain support_kernel moment warned support_action ≡ ok loud_ruling)
    × (apply_context plain unsorted (labelling ∷ []) support_action ≡ ok enriched_support)
    × (evaluate plain support_kernel 0 none none enriched_support
        ≡ ok (enriched_ruling.0, enriched_ruling.1))
    × (get "data_labels" support_action ≡ none)
    × (enriched_ruling.1.verdict ≡ "ALLOW")
    × IsBareLimit plain limiting_kernel moment warned_alone search_action
    × (advised warned_alone.advisor warned_alone.threat_class search_action ≡ ok (some "malicious"))
unfolding decide advised evaluate after_shape shape_objection get evaluate_authority identity_field
    plain_bounded prefix_of text pdp_of init provider Builtin.policy_revision ruled Builtin.evaluate
    objection ambiguous grant_objection holds_value holds_some capability_of get_or_else truthy find
    contains remove_prefix after_prefix held_by_any purpose_objection iterate labels_objection
    canonicalize_authority_output raw_verdict raw_reason normalize normalize_text marked
    after_authority host_decision to_dict redact hits local_decision more_restrictive rank
    verdict_of obliged put fold_evaluators settled as_decision sanitize keep_contributable
    plain_reason fold_in output_digests output_axioms action_fingerprint sorted_labels sorted_items
    texts_of sorted strict_encode strict_items strict_dict concluded bind_legitimacy sealed
    is_permitting granted token_view signed canonical signable verify_raises without action_ref_of
    shown shown_dict dedup of_texts apply_context enriched_by added update hashed texts?
    Plugins.sorted_labels label_objection Builtin.label_bound find?
runs = (
  refl,
  refl,
  refl,
  refl,
  refl,
  refl,
  record {
    in_shape = refl;
    ruling = or_no_authority (evaluate_authority plain none limiting search_action);
    is_ruled = refl;
    is_limit = refl;
    payload = Dict.entry "q" (Value.str "rates") Dict.end;
    is_payload = refl;
    nothing_redacted = refl;
    binding = or_blank (action_fingerprint plain search_action);
    is_bound = refl;
  },
  refl,
)

decide-tightens_example :
    (quiet : Ruling) × Signed plain quiet
      (decide plain support_kernel moment (unadvised warned) support_action)
    × (rank (verdict_of quiet.decision) ≤ rank (verdict_of loud_ruling.decision))
decide-tightens_example =
    decide-tightens plain support_kernel search_authority moment warned support_action loud_ruling
      runs.0 runs.1

allow-ne-deny : "ALLOW" ≢ deny
allow-ne-deny = λ h. ground (arith, eq_iff "ALLOW" deny)

permitted : enriched_ruling.1.verdict ≢ deny
permitted h = allow-ne-deny (rw runs.5 at h)

evaluate-enriched_example :
    evaluate plain support_kernel 0 none none support_action
    ≡ ok (enriched_ruling.0, enriched_ruling.1)
evaluate-enriched_example =
    evaluate-enriched plain support_kernel search_authority unsorted (labelling ∷ []) support_action
      enriched_support [] 0 none none enriched_ruling.0 enriched_ruling.1 runs.0 (missing runs.4)
      runs.2 runs.3 permitted

decide-contains_example :
    (quiet loud : Ruling) × (decide plain limiting_kernel moment
        (unadvised warned_alone)
        search_action
      ≡ ok quiet)
    × (decide plain limiting_kernel moment warned_alone search_action ≡ ok loud)
    × (verdict_of quiet.decision ≡ deny)
    × (verdict_of loud.decision ≡ contain)
    × (is_permitting (verdict_of loud.decision) ≡ true)
unfolding contains init signable
decide-contains_example =
    decide-contains plain limiting_kernel moment warned_alone search_action (some "malicious")
      runs.6 refl runs.7 refl refl refl
