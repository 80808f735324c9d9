-- ===== src/Sealed/Emission.antt =====
-- `_emit`: the evidence of a call, and its line in the log.
use decision_os_min.Prelude.{
  String, ◌⧺◌, Bool, Option, none, some, List, [], ◌∷◌, ◌++◌, nonempty, prefix_of, Table, find,
  if◌then◌else◌,
}
use decision_os_min.Py.{Value, Items, Dict, get, get_default, get_or_else, or_value}
use decision_os_min.Py.Exc.{Exc, ok, raise}
use decision_os_min.Py.Runtime.{Runtime}
use decision_os_min.Compose.{text}
use decision_os_min.AuthorityPdp.Builtin.{iterate}
use decision_os_min.Kernel.{Ruling}
use decision_os_min.SpentStore.{SpentStore}
use decision_os_min.Execute.{AuditLine, AuditSink}
use decision_os_min.Sealed.Admission.{canon}
use decision_os_min.Sealed.Legitimacy.{of_values}
use decision_os_min.Sealed.Defs.{EvidenceRecord, SealedRuntime, Invocation, Reading}
use decision_os_min.Sealed.Checks.{binding_of}

abbrev signature_mark : String → Option String
signature_mark s = if nonempty s then some (prefix_of 16 s ⧺ "…") else none

abbrev actor_text : Value → String
actor_text (Value.str s) = s
actor_text _ = ""

-- `EvidenceRecord(…)`
unfoldable pub record_of :
    Runtime
    → Table (List String)
    → Reading
    → Invocation
    → Dict
    → Ruling
    → Bool
    → Value
    → String
    → Items
    → EvidenceRecord
record_of R grants c v action ruling executed output note axioms = record {
  timestamp = R.isoformat c.emitted_at;
  actor = get_default "actor" Value.null action;
  agent_id = v.agent_id;
  stakeholder = text R (get_default "stakeholder" (Value.str "") action);
  intent = v.intent;
  tool = v.tool;
  resource = v.resource;
  payload = v.payload;
  capabilities = find [] (actor_text (get_default "actor" Value.null action)) grants;
  legitimacy_verdict = text R (get_default "verdict" Value.null ruling.decision);
  legitimacy_reason = text R (get_default "reason" (Value.str "") ruling.decision);
  axiom_ids = axioms;
  legitimacy_binding = binding_of ruling.decision;
  authority_verdict = text R (get_or_else "authority_verdict" (Value.str "") ruling.decision);
  pep_verdict = note;
  executed = executed;
  output = output;
  decision_ref =
      or_value (get "token_id" ruling.decision)
        (get_default "action_ref" Value.null ruling.decision);
  signature_ref = signature_mark ruling.signature;
}

-- The line that `_emit` writes to the log; the payload was printed when it was fingerprinted.
unfoldable pub line_of : Runtime → Invocation → Dict → Ruling → EvidenceRecord → AuditLine
line_of R v action ruling r = record {
  actor = r.actor;
  tool = v.tool;
  verdict = Value.str r.legitimacy_verdict;
  reason = Value.str (
      text R (get_default "reason" Value.null ruling.decision)
      ⧺ "|"
      ⧺ r.pep_verdict
      ⧺ "|axioms="
      ⧺ text R (Value.list r.axiom_ids)
      ⧺ "|bind="
      ⧺ text R r.legitimacy_binding);
  executed = some r.executed;
  payload_digest = some (R.sha256 (canon R v.payload));
}

abbrev pub axioms_of : Runtime → Ruling → Exc (List Value)
axioms_of R ruling = iterate R (get_or_else "axiom_ids" (Value.list Items.nil) ruling.decision)

module _ (S : SpentStore) (A : AuditSink) where
  -- `_emit`: the record is kept, and then its line is written.
  unfoldable pub emit :
      Runtime
      → Reading
      → Invocation
      → Dict
      → Ruling
      → Bool
      → Value
      → String
      → Exc (List Value)
      → SealedRuntime S A
      → Exc (Unit {0}) × SealedRuntime S A
  emit R c v action ruling executed output note (raise e) s = (raise e, s)
  emit R c v action ruling executed output note (ok axioms) s =
      let r = record_of R s.grants c v action ruling executed output note (of_values axioms) in
      let (written, a) = A.write (line_of R v action ruling r) s.stores.audit in
      (
        written,
        record s { evidence = s.evidence ++ r ∷ []; stores = record s.stores { audit = a } },
      )
