-- ===== src/System.antt =====
-- decision_os_min/__init__.py: `DecisionOS`, one kernel and one executor that checks its signatures.
pub mod Outcomes
pub mod Agreed
use decision_os_min.Prelude.{
  ℕ, String, ◌⧺◌, Bool, true, false, Option, none, some, List, Table, ◌==◌, if◌then◌else◌,
}
use decision_os_min.Py.{Value, Dict, get_default, truthy}
use decision_os_min.Py.Exc.{Exc, ok, raise, Exn, ◌>>=◌}
use decision_os_min.Py.Runtime.{Runtime, DateTime}
use decision_os_min.Compose.{text}
use decision_os_min.Attenuation.{Macaroon}
use decision_os_min.Kernel
use decision_os_min.Kernel.{Kernel, Moment, Request, Ruling, decide}
use decision_os_min.SpentStore.{SpentStore}
use decision_os_min.Execute.{AuditSink, Tool, Presented, State, field, execute}

-- `refused_reason` is a text where there is one.
pub record Outcome : Type 0 where
  pub verdict : Value
  pub executed : Bool
  pub output : Option Value
  pub refused_reason : Option String

-- The system: the kernel's state, and that of the executor's stores.
pub record DecisionOs (S : SpentStore) (A : AuditSink) : Type 0 where
  pub kernel : Kernel
  pub executor : State S A

-- The exception is an `ExecutionRefused`, whoever raised it: its text.
abbrev pub refusal_of : Exn → Option String
refusal_of (Exn.execution_refused e) = some e
refusal_of (Exn.foreign c e) = if c == "ExecutionRefused" then some e else none
refusal_of _ = none

abbrev pub refused_because : Runtime → Value → String → String
refused_because R why e = if truthy why then text R why ⧺ " [refused: " ⧺ e ⧺ "]" else e

abbrev pub refused_or : Runtime → Dict → Exn → Option String → Exc Outcome
refused_or R decision e none = raise e
refused_or R decision e (some t) = do
  verdict ← field "verdict" decision
  ok (record {
    verdict = verdict;
    executed = false;
    output = none;
    refused_reason = some (refused_because R (get_default "reason" (Value.str "") decision) t);
  })

-- The outcome of what the executor did.
unfoldable pub outcome_of : Runtime → Dict → Exc Value → Exc Outcome
outcome_of R decision (ok v) = do
  verdict ← field "verdict" decision
  ok (record { verdict = verdict; executed = true; output = some v; refused_reason = none })
outcome_of R decision (raise e) = refused_or R decision e (refusal_of e)

abbrev pub presented_of : Ruling → Presented
presented_of ruling = record { decision = Value.dict ruling.decision; signature = ruling.signature }

module _ (S : SpentStore) (A : AuditSink) where
  abbrev pub with_kernel : DecisionOs S A → Exc Kernel → Exc (DecisionOs S A)
  with_kernel s (raise e) = raise e
  with_kernel s (ok k) = ok (record s { kernel = k })

  unfoldable pub grant : Runtime → String → String → DecisionOs S A → Exc (DecisionOs S A)
  grant R actor capability s = with_kernel s (Kernel.grant R actor capability s.kernel)

  unfoldable pub revoke : Runtime → String → String → DecisionOs S A → Exc (DecisionOs S A)
  revoke R actor capability s = with_kernel s (Kernel.revoke R actor capability s.kernel)

  unfoldable pub delegate :
      Runtime
      → String
      → ℕ
      → String
      → String
      → List String
      → Option DateTime
      → DecisionOs S A
      → Exc (Macaroon × DecisionOs S A)
  delegate R nonce now parent child tools expires_at s = do
    (m, k) ← Kernel.delegate R nonce now parent child tools expires_at s.kernel
    ok (m, record s { kernel = k })

  -- what follows the decision
  unfoldable pub carry_out :
      Runtime → ℕ → Dict → Table Tool → Exc Ruling → DecisionOs S A → Exc Outcome × DecisionOs S A
  carry_out R now action tools (raise e) s = (raise e, s)
  carry_out R now action tools (ok ruling) s =
      let (out, stores) =
        execute S A R (R.public_key s.kernel.key) now action (presented_of ruling) tools
          s.executor in
      (outcome_of R ruling.decision out, record s { executor = stores })

  -- `handle`, with the executor's clock
  unfoldable pub handle :
      Runtime
      → Moment
      → Request
      → ℕ
      → Dict
      → Table Tool
      → DecisionOs S A
      → Exc Outcome × DecisionOs S A
  handle R m q now action tools s = carry_out R now action tools (decide R s.kernel m q action) s
