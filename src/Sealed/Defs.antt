-- ===== src/Sealed/Defs.antt =====
-- `SealedRuntime`: its state, and what a call of `invoke` is given.
use decision_os_min.Prelude.{ℕ, String, Bool, Option, List, Table}
use decision_os_min.Py.{Value, Items, Dict}
use decision_os_min.Kernel.{Kernel, Moment}
use decision_os_min.SpentStore.{SpentStore}
use decision_os_min.Execute.{AuditSink, State}
use decision_os_min.Sealed.Admission.{AdmissionOffice}
use decision_os_min.Sealed.ToolRegistry.{Registry}
use decision_os_min.Sealed.Armed.{Arm}

pub record AgentMeta : Type 0 where
  pub actor : String
  pub stakeholder : String

pub record EvidenceRecord : Type 0 where
  pub timestamp : String
  pub actor : Value
  pub agent_id : String
  pub stakeholder : String
  pub intent : String
  pub tool : String
  pub resource : String
  pub payload : Dict
  pub capabilities : List String
  pub legitimacy_verdict : String
  pub legitimacy_reason : String
  pub axiom_ids : Items
  pub legitimacy_binding : Value
  pub authority_verdict : String
  pub pep_verdict : String
  pub executed : Bool
  pub output : Value
  pub decision_ref : Value
  pub signature_ref : Option String

-- The kernel, the admission office, the registry and the agents, the policy's own table of grants,
-- the evidence, and the executor: what it is armed with, and its stores.
pub record SealedRuntime (S : SpentStore) (A : AuditSink) : Type 0 where
  pub kernel : Kernel
  pub office : AdmissionOffice
  pub registry : Registry
  pub agents : Table AgentMeta
  pub grants : Table (List String)
  pub evidence : List EvidenceRecord
  pub arm : Option Arm
  pub stores : State S A

-- The arguments of `invoke`.
pub record Invocation : Type 0 where
  pub ticket : Dict
  pub agent_id : String
  pub tool : String
  pub payload : Dict
  pub intent : String
  pub resource : String
  pub capability : Option String

-- What a call reads from outside: the clocks at its steps, in order, the digits of its nonce, and the
-- identity of the closure that it makes.
pub record Reading : Type 0 where
  pub verified_at : ℕ
  pub consumed_at : ℕ
  pub decided_at : Moment
  pub executed_at : ℕ
  pub emitted_at : ℕ
  pub digits : String
  pub identity : ℕ
