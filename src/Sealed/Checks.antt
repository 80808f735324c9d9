-- ===== src/Sealed/Checks.antt =====
-- What `invoke` checks before a ticket is spent, and of the ruling before the executor is armed.
use decision_os_min.Prelude.{
  String, ◌⧺◌, not, ◌&&◌, Option, none, some, List, [], ◌∷◌, ◌==◌, nonempty, Table, find?,
  if◌then◌else◌,
}
use decision_os_min.Py.{Value, Items, Dict, get_default, truthy, of_texts}
use decision_os_min.Py.Exc.{Exc, ok, raise, Exn, ◌>>=◌, ◌>>◌, raise_if}
use decision_os_min.Py.Runtime.{Runtime}
use decision_os_min.Compose.{deny, in_permitting}
use decision_os_min.Kernel.{Kernel, Ruling, evidence, verify}
use decision_os_min.Sealed.Admission.{AdmissionOffice, canon, verify_ticket, equals, check_agent}
use decision_os_min.Sealed.ToolRegistry.{Callable, Registry, live_body}
use decision_os_min.Sealed.Defs.{AgentMeta, Invocation, Reading}

abbrev quoted : Runtime → Value → String
quoted R v = R.repr v

-- What a ticket's body must agree with.
unfoldable pub check_meta : Runtime → String → AgentMeta → Dict → Exc (Unit {0})
check_meta R agent meta body = do
  check_agent R agent body
  raise_if (not (equals (get_default "actor" Value.null body) meta.actor)) (
      Exn.admission_error (
        "ticket actor "
        ⧺ quoted R (get_default "actor" Value.null body)
        ⧺ " does not match agent "
        ⧺ agent
        ⧺ " ("
        ⧺ meta.actor
        ⧺ ")"))
  raise_if (not (equals (get_default "stakeholder" Value.null body) meta.stakeholder))
      (Exn.admission_error "ticket stakeholder substitution refused")

abbrev pub known_agent : Runtime → String → Option AgentMeta → Exc AgentMeta
known_agent R agent none =
    raise (Exn.admission_error ("unknown agent " ⧺ quoted R (Value.str agent)))
known_agent R agent (some meta) = ok meta

-- The checks before the ticket is spent, and the live body of the tool.
unfoldable pub screened :
    Runtime → AdmissionOffice → Registry → Table AgentMeta → Reading → Invocation → Exc Callable
screened R office registry agents c v = do
  meta ← known_agent R v.agent_id (find? v.agent_id agents)
  body ← verify_ticket R office c.verified_at v.ticket
  check_meta R v.agent_id meta body
  live_body R registry v.tool

-- the data labels of a purpose
abbrev labels_of : String → List String
labels_of purpose = if purpose == "audit" then "ops" ∷ "public" ∷ [] else "ops" ∷ []

abbrev capability_or : String → Option String → String
capability_or tool none = "tool:" ⧺ tool
capability_or tool (some c) = if nonempty c then c else "tool:" ⧺ tool

-- The action that `invoke` puts to the kernel.
unfoldable pub action_of : Reading → Invocation → Value → Value → Dict
action_of c v actor stakeholder = Dict.entry "actor" actor (
    Dict.entry "tool" (Value.str v.tool) (
      Dict.entry "capability" (Value.str (capability_or v.tool v.capability)) (
        Dict.entry "action_purpose" (Value.str v.intent) (
          Dict.entry "data_labels" (Value.list (of_texts (labels_of v.intent))) (
            Dict.entry "payload" (Value.dict v.payload) (
              Dict.entry "nonce" (Value.str c.digits) (
                Dict.entry "agent_id" (Value.str v.agent_id) (
                  Dict.entry "stakeholder" stakeholder (
                    Dict.entry "intent" (Value.str v.intent)
                      (Dict.entry "resource" (Value.str v.resource) Dict.end))))))))))

abbrev pub binding_of : Dict → Value
binding_of decision = get_default "legitimacy_binding" Value.null decision

-- The digest that `legitimacy_binding` must be; the decision was printed when it was signed.
unfoldable pub expected_binding : Runtime → Dict → String
expected_binding R decision = R.sha256 (
    canon R (
      evidence (get_default "action_binding" Value.null decision)
        (get_default "legitimacy_digest" (Value.str "") decision)
        (get_default "axiom_ids" (Value.list Items.nil) decision)
        (get_default "verdict" Value.null decision)))

-- The checks on the ruling before the executor is armed.
unfoldable pub check_ruling : Runtime → Kernel → Ruling → Exc (Unit {0})
check_ruling R k ruling = do
  permitting ← in_permitting (get_default "verdict" Value.null ruling.decision)
  raise_if (permitting && not (truthy (binding_of ruling.decision)))
      (Exn.sealed_refused deny "M5: permitting decision missing legitimacy_binding")
  raise_if
      (truthy (binding_of ruling.decision)
        && not (equals (binding_of ruling.decision) (expected_binding R ruling.decision)))
      (Exn.sealed_refused deny "M5: legitimacy_binding mismatch")
  raise_if (not (verify R ruling.decision ruling.signature (R.public_key k.key)))
      (Exn.sealed_refused deny "decision signature invalid")
