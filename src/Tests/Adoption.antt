-- ===== src/Tests/Adoption.antt =====
-- The pipeline and a governed tool at concrete calls.
use decision_os_min.Prelude.{
  ◌≡◌, refl, true, [], ◌∷◌, prefix_of, find, contains, remove_prefix, after_prefix, sorted, dedup,
  last_part, after_last, find?,
}
use decision_os_min.Py.{get, get_or_else, truthy, put, without, of_texts}
use decision_os_min.Py.Exc.{ok}
use decision_os_min.Compose.{
  text, normalize, normalize_text, more_restrictive, rank, verdict_of, as_decision, sanitize,
  keep_contributable, plain_reason, is_permitting, in_permitting, action_ref_of,
}
use decision_os_min.Attenuation.{held_by_any}
use decision_os_min.AuthorityPdp.{
  evaluate_authority, identity_field, plain_bounded, ruled, canonicalize_authority_output,
  raw_verdict, raw_reason, marked,
}
use decision_os_min.AuthorityPdp.Builtin
use decision_os_min.AuthorityPdp.Builtin.{
  provider, objection, ambiguous, grant_objection, holds_value, holds_some, capability_of,
  purpose_objection, iterate, labels_objection,
}
use decision_os_min.Kernel.{
  signable, verify_raises, decide, verify, advised, evaluate, after_shape, shape_objection, pdp_of,
  init, after_authority, host_decision, to_dict, redact, hits, local_decision, obliged,
  fold_evaluators, settled, fold_in, output_digests, output_axioms, action_fingerprint,
  sorted_labels, sorted_items, texts_of, strict_encode, strict_items, strict_dict, concluded,
  bind_legitimacy, sealed, granted, token_view, signed, canonical,
}
use decision_os_min.SpentStore.InMemory.{in_memory_store, spend_in_memory}
use decision_os_min.Execute.{
  gates, authenticated, value_eq, check_binding, check_verdict, field, check_expiry,
  check_containment, check_limit, chosen_payload, execute, execute_as, audited_tool,
  audited_capability, attempt, prepare, spend, spent_answer, settle, run_effect, effect_line,
  payload_digest,
}
use decision_os_min.Py.Times.{reached}
use decision_os_min.Py.Plugin.{unguarded}
use decision_os_min.System.{handle, carry_out, outcome_of}
use decision_os_min.Prelude.{String, Option, none, some, ◌⊎◌, ap, sym, ◌∙◌}
use decision_os_min.Py.{Value, Dict}
use decision_os_min.Py.Exc.{Exc, ok, raise, ok_inj}
use decision_os_min.Py.Runtime.{Runtime}
use decision_os_min.Py.Plugin.{returned}
use decision_os_min.Evaluators.{legitimacy, judged}
use decision_os_min.Kernel.{Ruling}
use decision_os_min.AuthorityPdp.{CanonicalAuthorityResult}
use decision_os_min.System.Agreed.{IsAgreed, handle-IsAgreed}
use decision_os_min.Paradigm.{Policy, pipeline_request, pipeline_handle}
use decision_os_min.Paradigm.Perpendicular.{IsLegitimate, pipeline_handle-both}
use decision_os_min.Govern.{GovernedTool, governed, governed_action, governed_request, result_of}
use decision_os_min.Govern.Governed.{HasReturned, governed-HasReturned}
use decision_os_min.Tests.Fixtures.{
  plain, reading, search_kernel, search_system, moment, search_action, approving, search_tool,
  tools, log_sink, shown, shown_dict,
}

abbrev fair : Policy
fair action = returned (Value.boolean true, Value.str "fine")

abbrev nothing_ruled : Ruling
nothing_ruled = record { decision = Dict.end; signature = ""; token = none }

abbrev or_nothing : Exc Ruling → Ruling
or_nothing (ok r) = r
or_nothing (raise e) = nothing_ruled

abbrev fair_ruling : Ruling
fair_ruling =
    or_nothing (decide plain search_kernel moment (pipeline_request (some fair)) search_action)

abbrev fair_world : Runtime
fair_world = reading fair_ruling.decision

abbrev lookup : GovernedTool
lookup = record {
  name = "search";
  spec = record { capability = none; purpose = none; data_labels = [] };
  fn = search_tool;
}

abbrev query : Dict
query = Dict.entry "q" (Value.str "rates") Dict.end

abbrev lookup_ruling : Ruling
lookup_ruling = or_nothing (
    decide plain search_kernel moment (governed_request (approving ∷ []))
      (governed_action lookup "bot" "0123456789ab" query))

abbrev lookup_world : Runtime
lookup_world = reading lookup_ruling.decision

adopted :
    (decide fair_world search_kernel moment (pipeline_request (some fair)) search_action
      ≡ ok fair_ruling)
    × ((governed in_memory_store log_sink lookup_world lookup
          (approving ∷ [])
          "bot"
          "0123456789ab"
          moment
          10
          query
          search_system).0
        ≡ ok (Value.str "found"))
unfolding decide advised evaluate after_shape shape_objection get evaluate_authority identity_field
    plain_bounded prefix_of text pdp_of init provider Builtin.policy_revision ruled Builtin.evaluate
    objection ambiguous grant_objection holds_value holds_some capability_of get_or_else truthy find
    contains remove_prefix after_prefix held_by_any purpose_objection iterate labels_objection
    canonicalize_authority_output raw_verdict raw_reason normalize normalize_text marked
    after_authority host_decision to_dict redact hits local_decision more_restrictive rank
    verdict_of obliged put fold_evaluators settled as_decision sanitize keep_contributable
    plain_reason fold_in output_digests output_axioms action_fingerprint sorted_labels sorted_items
    texts_of sorted strict_encode strict_items strict_dict concluded bind_legitimacy sealed
    is_permitting granted token_view signed canonical signable verify_raises without action_ref_of
    shown shown_dict dedup of_texts gates authenticated verify value_eq check_binding check_verdict
    in_permitting field check_expiry reached check_containment last_part after_last find?
    check_limit chosen_payload execute execute_as audited_tool audited_capability attempt prepare
    spend spend_in_memory spent_answer handle carry_out outcome_of settle run_effect effect_line
    payload_digest unguarded legitimacy judged governed governed_action result_of
adopted = (refl, refl)

keeps_verdict :
    (r : Ruling) (e : Dict)
    → decide fair_world search_kernel moment (pipeline_request (some fair)) search_action ≡ ok r
    → fair_world.loads (canonical fair_world r.decision) ≡ some (Value.dict e)
    → get "verdict" e ≡ get "verdict" r.decision
keeps_verdict r e d l =
    let same : fair_ruling ≡ r = ok_inj (sym adopted.0 ∙ d) in
    let read : fair_ruling.decision ≡ e = cc in
    ap (get "verdict") (sym read ∙ ap (λ x. x.decision) same)

handle-IsAgreed_example :
    ((handle in_memory_store log_sink fair_world moment
        (pipeline_request (some fair))
        10
        search_action
        tools
        search_system).1.executor.effects
      ≡ search_system.executor.effects)
    ⊎ IsAgreed in_memory_store log_sink fair_world moment
        (pipeline_request (some fair))
        10
        search_action
        tools
        search_system
handle-IsAgreed_example =
    handle-IsAgreed in_memory_store log_sink fair_world moment (pipeline_request (some fair)) 10
      search_action tools search_system keeps_verdict

pipeline_handle-both_example :
    ((pipeline_handle in_memory_store log_sink fair_world
        (some fair)
        moment
        10
        search_action
        tools
        search_system).1.executor.effects
      ≡ search_system.executor.effects)
    ⊎ IsLegitimate in_memory_store log_sink fair_world fair moment 10 search_action tools
        search_system
      × (first : Dict) × (threat : Option String) × (r : CanonicalAuthorityResult) × (evaluate
            fair_world search_kernel 0 none threat search_action
          ≡ ok (first, r))
      × (is_permitting (verdict_of first) ≡ true)
unfolding init
pipeline_handle-both_example =
    pipeline_handle-both in_memory_store log_sink fair_world fair moment 10 search_action tools
      search_system keeps_verdict

governed-HasReturned_example :
    HasReturned in_memory_store log_sink lookup_world lookup
      (approving ∷ [])
      "bot"
      "0123456789ab"
      moment
      10
      query
      search_system
      (Value.str "found")
      (governed in_memory_store log_sink lookup_world lookup
        (approving ∷ [])
        "bot"
        "0123456789ab"
        moment
        10
        query
        search_system).1
governed-HasReturned_example =
    governed-HasReturned in_memory_store log_sink lookup_world lookup (approving ∷ []) "bot"
      "0123456789ab" moment 10 query search_system (Value.str "found") adopted.1
