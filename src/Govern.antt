-- ===== src/Govern.antt =====
-- decision_os_min/govern.py: a tool whose calls go through the system.
pub mod Governed
use decision_os_min.Prelude.{
  ℕ, String, ◌⧺◌, Bool, true, false, Option, none, some, List, [], ◌∷◌, Table, find, nonempty,
  if◌then◌else◌,
}
use decision_os_min.Py.{Value, Dict, of_texts}
use decision_os_min.Py.Exc.{Exc, ok, raise, Exn}
use decision_os_min.Py.Runtime.{Runtime}
use decision_os_min.Compose.{text}
use decision_os_min.Evaluators.{Evaluator}
use decision_os_min.Kernel.{Moment, Request}
use decision_os_min.SpentStore.{SpentStore}
use decision_os_min.Execute.{AuditSink, Tool}
use decision_os_min.System.{DecisionOs, Outcome, handle}

-- The keyword arguments of `Governor.tool`.
pub record ToolSpec : Type 0 where
  pub capability : Option String
  pub purpose : Option String
  pub data_labels : List String

-- A tool in its wrapper.
pub record GovernedTool : Type 0 where
  pub name : String
  pub spec : ToolSpec
  pub fn : Tool

abbrev governed_capability : GovernedTool → String
governed_capability t = elim t.spec.capability [
  | none ↦ "tool:" ⧺ t.name
  | some c ↦ if nonempty c then c else "tool:" ⧺ t.name
]

abbrev purpose_of : Option String → String
purpose_of none = ""
purpose_of (some p) = p

-- The action of a call, at the actor that is set and the digits that `uuid4` gave.
unfoldable pub governed_action : GovernedTool → String → String → Dict → Dict
governed_action t actor digits payload = Dict.entry "actor" (Value.str actor) (
    Dict.entry "tool" (Value.str t.name) (
      Dict.entry "capability" (Value.str (governed_capability t)) (
        Dict.entry "action_purpose" (Value.str (purpose_of t.spec.purpose)) (
          Dict.entry "data_labels" (Value.list (of_texts t.spec.data_labels)) (
            Dict.entry "payload" (Value.dict payload)
              (Dict.entry "nonce" (Value.str digits) Dict.end))))))

abbrev pub governed_request : List Evaluator → Request
governed_request evaluators = record {
  threat_class = none;
  advisor = none;
  evaluators = evaluators;
  evaluator_timeout = none;
  authority_timeout = none;
}

abbrev reason_text : Option String → String
reason_text none = "None"
reason_text (some t) = t

abbrev pub output_or_null : Option Value → Value
output_or_null none = Value.null
output_or_null (some v) = v

abbrev pub result_if : Runtime → Bool → Outcome → Exc Value
result_if R true o = ok (output_or_null o.output)
result_if R false o =
    raise (Exn.governance_refused (text R o.verdict) (reason_text o.refused_reason))

-- `GovernanceRefused` unless the call was carried out
unfoldable pub result_of : Runtime → Exc Outcome → Exc Value
result_of R (raise e) = raise e
result_of R (ok o) = result_if R o.executed o

abbrev pub governed_tools : GovernedTool → Table Tool
governed_tools t = (t.name, t.fn) ∷ []

-- A call of the wrapper that `Governor.tool` returns.
unfoldable pub governed :
    (S : SpentStore) (A : AuditSink)
    → Runtime
    → GovernedTool
    → List Evaluator
    → String
    → String
    → Moment
    → ℕ
    → Dict
    → DecisionOs S A
    → Exc Value × DecisionOs S A
governed S A R t evaluators actor digits m now payload s =
    let (outcome, s') =
      handle S A R m (governed_request evaluators) now (governed_action t actor digits payload)
        (governed_tools t) s in
    (result_of R outcome, s')

abbrev plain_spec : ToolSpec
plain_spec = record { capability = none; purpose = none; data_labels = [] }

-- `Governor.wrap`
unfoldable pub wrap : Table ToolSpec → Table Tool → Table GovernedTool
wrap specs [] = []
wrap specs ((name, fn) ∷ tools) =
    (name, record { name = name; spec = find plain_spec name specs; fn = fn }) ∷ wrap specs tools
