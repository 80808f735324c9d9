-- ===== src/Sealed/Invoke.antt =====
-- `invoke`, from the ticket to the evidence.
use decision_os_min.Prelude.{
  ℕ, String, ◌⧺◌, true, false, Option, none, some, [], ◌∷◌, Table, find?, store,
}
use decision_os_min.Py.{Value, Dict, get_default, get_or_else}
use decision_os_min.Py.Exc.{Exc, ok, raise, Exn}
use decision_os_min.Py.Runtime.{Runtime}
use decision_os_min.Compose.{deny, text}
use decision_os_min.Kernel.{Ruling, Request, decide}
use decision_os_min.SpentStore.{SpentStore}
use decision_os_min.Execute.{AuditSink}
use decision_os_min.System.{refusal_of, presented_of}
use decision_os_min.Sealed.Admission.{AdmissionOffice, issue, consume}
use decision_os_min.Sealed.ToolRegistry.{Callable}
use decision_os_min.Sealed.Legitimacy.{LegitimacyPolicy, tri_state_legitimacy}
use decision_os_min.Sealed.Armed.{Arm, sealed_execute}
use decision_os_min.Sealed.Defs.{AgentMeta, SealedRuntime, Invocation, Reading}
use decision_os_min.Sealed.Checks.{screened, action_of, check_ruling}
use decision_os_min.Sealed.Emission.{axioms_of, emit}

-- the legitimacy policy as the one evaluator
abbrev pub request_of : Runtime → LegitimacyPolicy → Request
request_of R policy = record {
  threat_class = none;
  advisor = none;
  evaluators = tri_state_legitimacy R policy ∷ [];
  evaluator_timeout = none;
  authority_timeout = none;
}

abbrev pub then_raise : Exn → Exc (Unit {0}) → Exc Value
then_raise e (ok _) = raise e
then_raise e (raise f) = raise f

abbrev pub then_return : Value → Exc (Unit {0}) → Exc Value
then_return v (ok _) = ok v
then_return v (raise f) = raise f

-- the text of a refusal, with the decision's verdict and reason
abbrev pub sealed_refusal : Runtime → Ruling → String → Exn
sealed_refusal R ruling t =
    Exn.sealed_refused (text R (get_default "verdict" (Value.str deny) ruling.decision))
      (text R (get_default "reason" Value.null ruling.decision) ⧺ " [" ⧺ t ⧺ "]")

abbrev pub armed_tools : Reading → Invocation → Callable → Table Callable
armed_tools c v fn =
    (v.tool, record { identity = c.identity; name = "effect"; body = fn.body }) ∷ []

abbrev pub arm_of : Runtime → Reading → Invocation → Callable → Ruling → Arm
arm_of R c v fn ruling = record {
  binding = text R (get_or_else "action_binding" (Value.str "") ruling.decision);
  tools = armed_tools c v fn;
}

module _ (S : SpentStore) (A : AuditSink) where
  unfoldable pub refused :
      Runtime
      → Reading
      → Invocation
      → Dict
      → Ruling
      → Exn
      → Option String
      → SealedRuntime S A
      → Exc Value × SealedRuntime S A
  refused R c v action ruling e none s = (raise e, s)
  refused R c v action ruling e (some t) s =
      let (emitted, s') =
        emit S A R c v action ruling false Value.null ("PEP:" ⧺ t) (axioms_of R ruling) s in
      (then_raise (sealed_refusal R ruling t) emitted, s')

  -- what follows the executor
  unfoldable pub finish :
      Runtime
      → Reading
      → Invocation
      → Dict
      → Ruling
      → Exc Value
      → SealedRuntime S A
      → Exc Value × SealedRuntime S A
  finish R c v action ruling (raise e) s = refused R c v action ruling e (refusal_of e) s
  finish R c v action ruling (ok output) s =
      let (emitted, s') =
        emit S A R c v action ruling true output "PERMIT+execute" (axioms_of R ruling) s in
      (then_return output emitted, s')

  unfoldable pub run_armed :
      Runtime
      → Reading
      → Invocation
      → Callable
      → Dict
      → Ruling
      → Exc (Unit {0})
      → SealedRuntime S A
      → Exc Value × SealedRuntime S A
  run_armed R c v fn action ruling (raise e) s = (raise e, s)
  run_armed R c v fn action ruling (ok _) s =
      let (out, arm, stores) =
        sealed_execute S A R (R.public_key s.kernel.key) c.executed_at action (presented_of ruling)
          (armed_tools c v fn) (some (arm_of R c v fn ruling)) s.stores in
      finish R c v action ruling out (record s { arm = arm; stores = stores })

  unfoldable pub after_decide :
      Runtime
      → Reading
      → Invocation
      → Callable
      → Dict
      → Exc Ruling
      → SealedRuntime S A
      → Exc Value × SealedRuntime S A
  after_decide R c v fn action (raise e) s = (raise e, s)
  after_decide R c v fn action (ok ruling) s =
      run_armed R c v fn action ruling (check_ruling R s.kernel ruling) s

  unfoldable pub after_consume :
      Runtime
      → LegitimacyPolicy
      → Reading
      → Invocation
      → Callable
      → Exc (Value × Value)
      → SealedRuntime S A
      → Exc Value × SealedRuntime S A
  after_consume R policy c v fn (raise e) s = (raise e, s)
  after_consume R policy c v fn (ok (actor, stakeholder)) s =
      after_decide R c v fn (action_of c v actor stakeholder)
        (decide R s.kernel c.decided_at (request_of R policy) (action_of c v actor stakeholder)) s

  unfoldable pub after_screen :
      Runtime
      → LegitimacyPolicy
      → Reading
      → Invocation
      → Exc Callable
      → SealedRuntime S A
      → Exc Value × SealedRuntime S A
  after_screen R policy c v (raise e) s = (raise e, s)
  after_screen R policy c v (ok fn) s =
      let (answer, spent) =
        consume S R s.office c.consumed_at v.ticket (some v.agent_id) s.stores.spent in
      after_consume R policy c v fn answer (record s { stores = record s.stores { spent = spent } })

  unfoldable pub invoke :
      Runtime
      → LegitimacyPolicy
      → Reading
      → Invocation
      → SealedRuntime S A
      → Exc Value × SealedRuntime S A
  invoke R policy c v s = after_screen R policy c v (screened R s.office s.registry s.agents c v) s

  unfoldable pub register_agent : String → String → String → SealedRuntime S A → SealedRuntime S A
  register_agent agent actor stakeholder s = record s {
    agents = store agent (record { actor = actor; stakeholder = stakeholder }) s.agents;
  }

  abbrev admit_as : Runtime → ℕ → String → String → AdmissionOffice → Option AgentMeta → Exc Dict
  admit_as R now digits agent office none = raise Exn.key_error
  admit_as R now digits agent office (some meta) =
      ok (issue R office now digits meta.actor meta.stakeholder agent)

  unfoldable pub admit : Runtime → ℕ → String → String → SealedRuntime S A → Exc Dict
  admit R now digits agent s = admit_as R now digits agent s.office (find? agent s.agents)
