-- ===== src/Tests/Runtime.antt =====
-- The sealed runtime at a concrete ticket.
use decision_os_min.Prelude.{
  ◌≡◌, ◌≢◌, refl, true, [], ◌∷◌, eq_refl, prefix_of, find, contains, remove_prefix, after_prefix,
  sorted, dedup, last_part, after_last, find?,
}
use decision_os_min.Py.{get, get_or_else, truthy, put, without, of_texts}
use decision_os_min.Py.Exc.{ok}
use decision_os_min.Compose.{
  text, normalize, normalize_text, more_restrictive, rank, verdict_of, as_decision, sanitize,
  keep_contributable, as_decision_dict, plain_reason, is_permitting, in_permitting, action_ref_of,
}
use decision_os_min.Attenuation.{held_by_any}
use decision_os_min.AuthorityPdp.{
  evaluate_authority, identity_field, plain_bounded, ruled, canonicalize_authority_output,
  raw_verdict, raw_reason, marked,
}
use decision_os_min.AuthorityPdp.Builtin
use decision_os_min.AuthorityPdp.Builtin.{
  provider, objection, ambiguous, grant_objection, holds_value, holds_some, capability_of,
  purpose_objection, iterate, labels_objection,
}
use decision_os_min.Kernel.{
  signable, verify_raises, decide, verify, advised, evaluate, after_shape, shape_objection, pdp_of,
  init, after_authority, host_decision, to_dict, redact, hits, local_decision, obliged,
  fold_evaluators, settled, fold_in, output_digests, output_axioms, action_fingerprint,
  sorted_labels, sorted_items, texts_of, strict_encode, strict_items, strict_dict, concluded,
  bind_legitimacy, sealed, granted, token_view, signed, canonical,
}
use decision_os_min.SpentStore.InMemory.{in_memory_store, spend_in_memory, in_memory_store-IsAtomic}
use decision_os_min.Execute.{
  gates, authenticated, value_eq, check_binding, check_verdict, field, check_expiry,
  check_containment, check_limit, chosen_payload, execute, execute_as, audited_tool,
  audited_capability, attempt, prepare, spend, spent_answer, settle, run_effect, effect_line,
  payload_digest,
}
use decision_os_min.Py.Times.{reached}
use decision_os_min.Py.Plugin.{unguarded}
use decision_os_min.Prelude.{ℕ, zero, suc, ap, String, some, ◌≢◌, ◌⊎◌, store}
use decision_os_min.Py.{Value, Dict, set_default}
use decision_os_min.Py.Exc.{ok}
use decision_os_min.Py.Runtime.{Runtime, aware}
use decision_os_min.Py.Plugin.{returned}
use decision_os_min.Kernel.{item_texts}
use decision_os_min.Sealed.{
  canon, ticket_body, issue, check_ticket_expiry, check_ticket_signature, canonizes, all_texts,
  body_of, verify_ticket, check_agent, spend_key, admitted, spend_ticket, consume, poison, inert,
  seal_one, seal_all, poisoned, exports, seal, open_cell, live_body, tri_verdict, of_values,
  with_axioms, tri_judged, tri_state_legitimacy, same_names, same_callables, check_arm, tool_table,
  execute_armed, sealed_execute, check_meta, screened, action_of, expected_binding, check_ruling,
  record_of, line_of, emit, refused, finish, run_armed, after_decide, after_consume, after_screen,
  invoke,
}
use decision_os_min.Sealed.Mediated.{IsMediated, invoke-IsMediated}
use decision_os_min.Sealed.Inert.{AreInert, IsSourceInert, seal-AreInert}
use decision_os_min.Sealed.Ticket.{verify_ticket-issue}
use decision_os_min.Compose.Output.{output_verdict}
use decision_os_min.Sealed.Single.{Call, after_invoke, run_all, invoke-once}
use decision_os_min.Tests.Fixtures.{plain, log_sink, shown, shown_dict}
use decision_os_min.Host.{
  replay_key, recorded, concluded as host_concluded, after_admit, after_request, handle_own,
  handle_intent,
}
use decision_os_min.Sealed.{admit}
use decision_os_min.Host.Answers.{own_call, once_spent}
use decision_os_min.Host.Hosted.{key_of}
use decision_os_min.Tests.Agents.{
  agent_meta, office, search_fn, empty_registry, search_table, search_exports, approval, registry,
  approve, at_ten, search_call, world, sealed_start, bound_host, search_intent, host_reading,
  carried, or_no_evidence,
}

-- The call has its effect, and gives the tool's output.
pub invoked :
    ((invoke in_memory_store log_sink world approve at_ten search_call sealed_start).0
      ≡ ok (Value.str "found"))
    × ((invoke in_memory_store log_sink world approve at_ten search_call
          sealed_start).1.stores.effects
        ≡ ("search", search_call.payload) ∷ [])
    × (tri_state_legitimacy plain approve Dict.end ≡ returned approval)
    × (is_permitting (output_verdict approval) ≡ true)
    × (live_body plain registry "search" ≡ ok search_fn)
    × ((handle_intent in_memory_store log_sink world approve host_reading search_intent
          bound_host).1.runtime.stores.effects
        ≡ ("search", search_call.payload) ∷ [])
    × (own_call in_memory_store log_sink world approve host_reading search_intent agent_meta
          (once_spent in_memory_store log_sink world approve host_reading search_intent
            bound_host).runtime
        ≡ ok (Value.str "found"))
    × ((in_memory_store.try_spend
          (key_of in_memory_store log_sink world approve host_reading search_intent bound_host)
          bound_host.runtime.stores.spent).0
        ≡ ok true)
    × (seal plain (λ name. 100) search_table empty_registry ≡ ok (search_exports, registry))
    × (carried ≡ (ok (or_no_evidence carried.0), carried.1))
    × ((or_no_evidence carried.0).ok ≡ true)
unfolding decide advised evaluate after_shape shape_objection get evaluate_authority identity_field
    plain_bounded prefix_of text pdp_of init provider Builtin.policy_revision ruled Builtin.evaluate
    objection ambiguous grant_objection holds_value holds_some capability_of get_or_else truthy find
    contains remove_prefix after_prefix held_by_any purpose_objection iterate labels_objection
    canonicalize_authority_output raw_verdict raw_reason normalize normalize_text marked
    after_authority host_decision to_dict redact hits local_decision more_restrictive rank
    verdict_of obliged put fold_evaluators settled as_decision sanitize keep_contributable
    plain_reason fold_in output_digests output_axioms action_fingerprint sorted_labels sorted_items
    texts_of sorted strict_encode strict_items strict_dict concluded bind_legitimacy sealed
    is_permitting granted token_view signed canonical signable verify_raises without action_ref_of
    shown shown_dict dedup of_texts gates authenticated verify value_eq check_binding check_verdict
    in_permitting field check_expiry reached check_containment last_part after_last find?
    check_limit chosen_payload execute execute_as audited_tool audited_capability attempt prepare
    spend spend_in_memory spent_answer settle run_effect effect_line payload_digest unguarded canon
    issue check_ticket_expiry check_ticket_signature canonizes all_texts body_of verify_ticket
    check_agent spend_key admitted spend_ticket consume poison inert seal_one seal_all poisoned
    exports seal open_cell live_body tri_verdict of_values with_axioms tri_judged
    tri_state_legitimacy same_names same_callables check_arm tool_table execute_armed sealed_execute
    check_meta screened action_of expected_binding check_ruling record_of line_of emit refused
    finish run_armed after_decide after_consume after_screen invoke store Builtin.label_objection
    Builtin.label_bound as_decision_dict set_default item_texts output_verdict replay_key recorded
    host_concluded after_admit after_request handle_own handle_intent admit
invoked = (refl, refl, refl, refl, refl, refl, refl, refl, refl, refl, refl)

invoke-IsMediated_example :
    ((invoke in_memory_store log_sink world approve at_ten search_call
        sealed_start).1.stores.effects
      ≡ sealed_start.stores.effects)
    ⊎ IsMediated in_memory_store log_sink world approve at_ten search_call sealed_start
        (invoke in_memory_store log_sink world approve at_ten search_call sealed_start).1
invoke-IsMediated_example =
    invoke-IsMediated in_memory_store log_sink world approve at_ten search_call sealed_start

abbrev search_at_ten : Call
search_at_ten = record { reading = at_ten; invocation = search_call }

invoked_once :
    (after_invoke in_memory_store log_sink world approve search_at_ten sealed_start).stores.effects
    ≢ sealed_start.stores.effects
unfolding after_invoke
invoked_once h =
    let e : ("search", search_call.payload) ∷ [] ≡ sealed_start.stores.effects =
      rw invoked.1 at h in
    absurd cc

invoke-once_example :
    (after_invoke in_memory_store log_sink world approve search_at_ten (
      after_invoke in_memory_store log_sink world approve search_at_ten
        sealed_start)).stores.effects
    ≡ (after_invoke in_memory_store log_sink world approve search_at_ten
        sealed_start).stores.effects
unfolding run_all
invoke-once_example =
    invoke-once in_memory_store log_sink world approve in_memory_store-IsAtomic search_at_ten
      search_at_ten [] sealed_start refl invoked_once

seal-AreInert_example :
    AreInert search_exports × AreInert registry.tools × IsSourceInert registry.source
unfolding AreInert
seal-AreInert_example =
    seal-AreInert plain (λ name. 100) search_table search_exports empty_registry registry tt
      invoked.8

-- instants as tallies
unfoldable tally : ℕ → String
tally zero = String.[]
tally (suc n) = String.◌∷◌ "1" (tally n)

unfoldable count : String → ℕ
count String.[] = 0
count (String.◌∷◌ c s) = suc (count s)

count-tally : (n : ℕ) → count (tally n) ≡ n
unfolding count tally
count-tally zero = refl
count-tally (suc n) = ap suc (count-tally n)

abbrev clocked : Runtime
clocked = record plain { isoformat = tally; fromisoformat = λ s. some (aware (count s)) }

verify_ticket-issue_example :
    verify_ticket clocked office 10 (issue clocked office 0 "n-1" "bot" "owner" "agent-1")
    ≡ ok (
        ticket_body
          (Value.str "bot")
          (Value.str "owner")
          (Value.str "agent-1")
          (Value.str (tally 300))
          (Value.str "n-1"))
verify_ticket-issue_example =
    verify_ticket-issue clocked office 0 10 "n-1" "bot" "owner" "agent-1"
      (λ key text. eq_refl (plain.sign key text)) (λ n. ap some (ap aware (count-tally n)))
