-- ===== src/Tests/Executor.antt =====
-- The kernel and the executor at a decision that the kernel made.
use decision_os_min.Prelude.{
  ◌≡◌, ◌≢◌, refl, true, [], ◌∷◌, eq_refl, prefix_of, find, contains, remove_prefix, after_prefix,
  sorted, dedup, last_part, after_last, find?,
}
use decision_os_min.Py.{get, get_or_else, truthy, put, without, of_texts}
use decision_os_min.Py.Exc.{ok}
use decision_os_min.Compose.{
  text, normalize, normalize_text, more_restrictive, rank, verdict_of, as_decision, sanitize,
  keep_contributable, plain_reason, is_permitting, in_permitting, action_ref_of,
}
use decision_os_min.Attenuation.{held_by_any}
use decision_os_min.AuthorityPdp.{
  evaluate_authority, identity_field, plain_bounded, ruled, canonicalize_authority_output,
  raw_verdict, raw_reason, marked,
}
use decision_os_min.AuthorityPdp.Builtin
use decision_os_min.AuthorityPdp.Builtin.{
  provider, objection, ambiguous, grant_objection, holds_value, holds_some, capability_of,
  purpose_objection, iterate, labels_objection,
}
use decision_os_min.Kernel.{
  signable, verify_raises, decide, verify, advised, evaluate, after_shape, shape_objection, pdp_of,
  init, after_authority, host_decision, to_dict, redact, hits, local_decision, obliged,
  fold_evaluators, settled, fold_in, output_digests, output_axioms, action_fingerprint,
  sorted_labels, sorted_items, texts_of, strict_encode, strict_items, strict_dict, concluded,
  bind_legitimacy, sealed, granted, token_view, signed, canonical,
}
use decision_os_min.Kernel.Composed.{IsComposed, decide-composes}
use decision_os_min.Kernel.Minting.{IsSealed, decide-IsSealed, decide-verifies}
use decision_os_min.SpentStore.InMemory.{in_memory_store, spend_in_memory, in_memory_store-IsAtomic}
use decision_os_min.Execute.{
  gates, authenticated, value_eq, check_binding, check_verdict, field, check_expiry,
  check_containment, check_limit, chosen_payload, execute, execute_as, audited_tool,
  audited_capability, attempt, prepare, spend, spent_answer, settle, run_effect, effect_line,
  payload_digest,
}
use decision_os_min.Execute.Gates.{IsCleared, gates-IsCleared}
use decision_os_min.Execute.Audited.{Accounted, execute-Accounted}
use decision_os_min.Execute.Once.{after, run, execute-once}
use decision_os_min.Py.Times.{reached}
use decision_os_min.Py.Plugin.{unguarded}
use decision_os_min.System.{handle, carry_out, outcome_of}
use decision_os_min.System.Outcomes.{IsTrue, handle-IsTrue}
use decision_os_min.Tests.Fixtures.{
  search_system, search_outcome, plain, search_kernel, moment, request, search_action,
  search_ruling, shown, shown_dict, frozen, log_sink, tools, presented, cleared_search, start, call,
}

-- The ruling, the gates' answer to it, and what the call leaves.
runs :
    (decide plain search_kernel moment request search_action ≡ ok search_ruling)
    × (gates frozen "key" 10 search_action presented tools ≡ ok cleared_search)
    × ((execute in_memory_store log_sink frozen "key" 10 search_action presented tools
          start).1.effects
        ≡ ("search", cleared_search.payload) ∷ [])
    × ((handle in_memory_store log_sink frozen moment request 10 search_action tools
          search_system).0
        ≡ ok search_outcome)
unfolding decide advised evaluate after_shape shape_objection get evaluate_authority identity_field
    plain_bounded prefix_of text pdp_of init provider Builtin.policy_revision ruled Builtin.evaluate
    objection ambiguous grant_objection holds_value holds_some capability_of get_or_else truthy find
    contains remove_prefix after_prefix held_by_any purpose_objection iterate labels_objection
    canonicalize_authority_output raw_verdict raw_reason normalize normalize_text marked
    after_authority host_decision to_dict redact hits local_decision more_restrictive rank
    verdict_of obliged put fold_evaluators settled as_decision sanitize keep_contributable
    plain_reason fold_in output_digests output_axioms action_fingerprint sorted_labels sorted_items
    texts_of sorted strict_encode strict_items strict_dict concluded bind_legitimacy sealed
    is_permitting granted token_view signed canonical signable verify_raises without action_ref_of
    shown shown_dict dedup of_texts gates authenticated verify value_eq check_binding check_verdict
    in_permitting field check_expiry reached check_containment last_part after_last find?
    check_limit chosen_payload execute execute_as audited_tool audited_capability attempt prepare
    spend spend_in_memory spent_answer handle carry_out outcome_of settle run_effect effect_line
    payload_digest unguarded
runs = (refl, refl, refl, refl)

pub search_ruled : decide plain search_kernel moment request search_action ≡ ok search_ruling
search_ruled = runs.0

decide-verifies_example : verify plain search_ruling.decision search_ruling.signature "key" ≡ true
unfolding init
decide-verifies_example =
    decide-verifies plain search_kernel moment request search_action search_ruling
      (λ key text. eq_refl (plain.sign key text)) runs.0

decide-composes_example : IsComposed plain search_kernel moment request search_action search_ruling
decide-composes_example =
    decide-composes plain search_kernel moment request search_action search_ruling runs.0

decide-IsSealed_example : IsSealed plain search_kernel moment search_action search_ruling
decide-IsSealed_example =
    decide-IsSealed plain search_kernel moment request search_action search_ruling runs.0

gates-IsCleared_example : IsCleared frozen "key" 10 search_action presented tools cleared_search
gates-IsCleared_example =
    gates-IsCleared frozen "key" 10 search_action presented tools cleared_search runs.1

execute-Accounted_example :
    Accounted in_memory_store log_sink frozen "key" 10 search_action presented tools start
      (execute in_memory_store log_sink frozen "key" 10 search_action presented tools start)
execute-Accounted_example =
    execute-Accounted in_memory_store log_sink frozen "key" 10 search_action presented tools start

has_effect : (after in_memory_store log_sink frozen "key" call start).effects ≢ start.effects
unfolding after
has_effect h =
    let e : ("search", cleared_search.payload) ∷ [] ≡ start.effects = rw runs.2 at h in absurd cc

execute-once_example :
    (after in_memory_store log_sink frozen "key" call
      (after in_memory_store log_sink frozen "key" call start)).effects
    ≡ (after in_memory_store log_sink frozen "key" call start).effects
unfolding run
execute-once_example =
    execute-once in_memory_store log_sink frozen "key" in_memory_store-IsAtomic call call [] start
      refl has_effect

handle-IsTrue_example :
    IsTrue in_memory_store log_sink frozen moment request 10 search_action tools search_system
      search_outcome
      (handle in_memory_store log_sink frozen moment request 10 search_action tools
        search_system).1.executor
handle-IsTrue_example =
    handle-IsTrue in_memory_store log_sink frozen moment request 10 search_action tools
      search_system search_outcome runs.3
