-- ===== src/Host/Handle.antt =====
-- `AgentHost`: one intent after the other, each under a name that is spent once.
use decision_os_min.Prelude.{
  ℕ, String, ◌⧺◌, Bool, true, false, not, Option, none, some, List, [], ◌∷◌, ◌++◌, ◌==◌, Table,
  if◌then◌else◌,
}
use decision_os_min.Py.{Value, Dict}
use decision_os_min.Py.Exc.{Exc, ok, raise, Exn, ◌>>=◌}
use decision_os_min.Py.Runtime.{Runtime}
use decision_os_min.Py.Plugin.{raised}
use decision_os_min.SpentStore.{SpentStore}
use decision_os_min.Execute.{AuditSink}
use decision_os_min.Sealed.{
  Callable, seal, register_agent, LegitimacyPolicy, EvidenceRecord, SealedRuntime, Invocation,
  Reading, invoke, admit,
}
use decision_os_min.Host.Intents.{Intent, or_text}

pub record HostedEvidence : Type 0 where
  pub request_id : String
  pub agent_id : String
  pub tool : String
  pub ok : Bool
  pub output : Value
  pub error : Option String
  pub sealed_evidence : Option EvidenceRecord

-- The host's store is that of its runtime. The adapters are what is left of the tools in the open.
pub record AgentHost (S : SpentStore) (A : AuditSink) : Type 0 where
  pub bound_agent_id : Option String
  pub adapters : Table Callable
  pub runtime : SealedRuntime S A
  pub evidence : List HostedEvidence

-- What a call reads from outside: the digits that name a request and a ticket, the clock at the issue
-- of the ticket, and what `invoke` reads.
pub record HostReading : Type 0 where
  pub request_digits : String
  pub ticket_digits : String
  pub issued_at : ℕ
  pub invoked : Reading

-- `f"{type(exc).__name__}: {exc}"` of an `Exception`; `none` for what `except Exception` lets through
unfoldable pub error_of : Runtime → Exn → Option String
error_of R (Exn.execution_refused t) = some ("ExecutionRefused: " ⧺ t)
error_of R (Exn.attenuation_error t) = some ("AttenuationError: " ⧺ t)
error_of R (Exn.unfingerprintable t) = some ("UnfingerprintablePayload: " ⧺ t)
error_of R (Exn.mutation_unsupported t) = some ("AuthorityMutationUnsupported: " ⧺ t)
error_of R (Exn.authority_pdp_error t) = some ("AuthorityPDPError: " ⧺ t)
error_of R (Exn.spent_store_unavailable t) = some ("SpentStoreUnavailable: " ⧺ t)
error_of R (Exn.os_error t) = some ("OSError: " ⧺ t)
error_of R (Exn.sealed_breach t) = some ("SealedBreach: " ⧺ t)
error_of R (Exn.admission_error t) = some ("AdmissionError: " ⧺ t)
error_of R (Exn.receipt_refused t) = some ("ReceiptRefused: " ⧺ t)
error_of R (Exn.sealed_refused verdict reason) =
    some ("SealedRefused: sealed refused: " ⧺ verdict ⧺ " (" ⧺ reason ⧺ ")")
error_of R (Exn.governance_refused verdict reason) =
    some ("GovernanceRefused: governance refused: " ⧺ verdict ⧺ " (" ⧺ reason ⧺ ")")
error_of R Exn.type_error = some ("TypeError: " ⧺ R.error_text "TypeError")
error_of R Exn.value_error = some ("ValueError: " ⧺ R.error_text "ValueError")
error_of R Exn.key_error = some ("KeyError: " ⧺ R.error_text "KeyError")
error_of R (Exn.foreign c t) = some (c ⧺ ": " ⧺ t)
error_of R (Exn.base_exception c t) = none
error_of R Exn.generator_exit = none
error_of R Exn.hangs = none

abbrev pub last_of {ℓ} : {A : Type ℓ} → List A → Option A
last_of [] = none
last_of (x ∷ []) = some x
last_of (x ∷ y ∷ ys) = last_of (y ∷ ys)

-- `self.bound_agent_id or intent.agent_id`
abbrev pub channel_of : Option String → String → String
channel_of none agent = agent
channel_of (some bound) agent = or_text bound agent

unfoldable pub replay_key : Option String → String → String → String
replay_key bound agent request = "ipc:" ⧺ channel_of bound agent ⧺ ":" ⧺ request

-- Whether the channel is bound to another agent.
abbrev pub is_foreign : Option String → String → Bool
is_foreign none agent = false
is_foreign (some bound) agent = not (agent == bound)

-- the evidence of a failure, and that of a success
abbrev pub failed : String → Intent → String → Option EvidenceRecord → HostedEvidence
failed request i error sealed = record {
  request_id = request;
  agent_id = i.agent_id;
  tool = i.tool;
  ok = false;
  output = Value.null;
  error = some error;
  sealed_evidence = sealed;
}

abbrev pub succeeded : String → Intent → Value → Option EvidenceRecord → HostedEvidence
succeeded request i output sealed = record {
  request_id = request;
  agent_id = i.agent_id;
  tool = i.tool;
  ok = true;
  output = output;
  error = none;
  sealed_evidence = sealed;
}

-- the arguments of `invoke` for an intent
abbrev pub invocation_of : Dict → Intent → Invocation
invocation_of ticket i = record {
  ticket = ticket;
  agent_id = i.agent_id;
  tool = i.tool;
  payload = i.payload;
  intent = i.intent;
  resource = i.resource;
  capability = none;
}

-- `poison_ref`
unfoldable pub poison_ref : Runtime → ℕ → String → Callable
poison_ref R identity name = record {
  identity = identity;
  name = "host_only_" ⧺ name;
  body = λ payload. raised "RuntimeError" (
      "adapter "
      ⧺ R.repr (Value.str name)
      ⧺ " is not available to agents; effects run only in AgentHost");
}

unfoldable pub host_only : Runtime → (String → ℕ) → Table Callable → Table Callable
host_only R fresh [] = []
host_only R fresh ((name, fn) ∷ tools) =
    (name, poison_ref R (fresh name) name) ∷ host_only R fresh tools

module _ (S : SpentStore) (A : AuditSink) where
  -- `AgentHost.__post_init__`: the adapters are sealed in the runtime.
  unfoldable pub open_host :
      Runtime
      → (String → ℕ)
      → Option String
      → Table Callable
      → SealedRuntime S A
      → Exc (AgentHost S A)
  open_host R fresh bound adapters runtime = do
    (_, registry) ← seal R fresh adapters runtime.registry
    ok (record {
      bound_agent_id = bound;
      adapters = host_only R fresh adapters;
      runtime = record runtime { registry = registry };
      evidence = [];
    })

  -- `AgentHost.register_agent`
  unfoldable pub enrol : String → String → String → AgentHost S A → AgentHost S A
  enrol agent actor stakeholder h = record h {
    runtime = register_agent S A agent actor stakeholder h.runtime;
  }

  -- the evidence is kept and returned
  unfoldable pub recorded : HostedEvidence → AgentHost S A → Exc HostedEvidence × AgentHost S A
  recorded e h = (ok e, record h { evidence = h.evidence ++ e ∷ [] })

  abbrev pub or_escape :
      String → Intent → Exn → Option String → AgentHost S A → Exc HostedEvidence × AgentHost S A
  or_escape request i e none h = (raise e, h)
  or_escape request i e (some t) h = recorded (failed request i t (last_of h.runtime.evidence)) h

  -- what follows `invoke`
  unfoldable pub concluded :
      Runtime → String → Intent → Exc Value → AgentHost S A → Exc HostedEvidence × AgentHost S A
  concluded R request i (ok output) h =
      recorded (succeeded request i output (last_of h.runtime.evidence)) h
  concluded R request i (raise e) h = or_escape request i e (error_of R e) h

  -- what follows `admit`, whose error nothing catches here
  unfoldable pub after_admit :
      Runtime
      → LegitimacyPolicy
      → HostReading
      → String
      → Intent
      → Exc Dict
      → AgentHost S A
      → Exc HostedEvidence × AgentHost S A
  after_admit R policy c request i (raise e) h = (raise e, h)
  after_admit R policy c request i (ok ticket) h =
      let (out, runtime) = invoke S A R policy c.invoked (invocation_of ticket i) h.runtime in
      concluded R request i out (record h { runtime = runtime })

  -- what follows the spend of the request's name
  unfoldable pub after_request :
      Runtime
      → LegitimacyPolicy
      → HostReading
      → String
      → Intent
      → Exc Bool
      → AgentHost S A
      → Exc HostedEvidence × AgentHost S A
  after_request R policy c request i (ok true) h =
      after_admit R policy c request i
        (admit S A R c.issued_at c.ticket_digits i.agent_id h.runtime) h
  after_request R policy c request i (ok false) h =
      recorded (failed request i "request_replay" none) h
  after_request R policy c request i (raise (Exn.spent_store_unavailable e)) h =
      recorded (failed request i "request_store_unavailable" none) h
  after_request R policy c request i (raise e) h = (raise e, h)

  -- the host with another state of the store that it shares with its runtime
  abbrev pub with_spent : S.State → AgentHost S A → AgentHost S A
  with_spent spent h = record h {
    runtime = record h.runtime { stores = record h.runtime.stores { spent = spent } };
  }

  -- an intent of this channel's own agent
  unfoldable pub handle_own :
      Runtime
      → LegitimacyPolicy
      → HostReading
      → Intent
      → AgentHost S A
      → Exc HostedEvidence × AgentHost S A
  handle_own R policy c i h =
      let request = or_text i.request_id c.request_digits in
      let (first, spent) =
        S.try_spend (replay_key h.bound_agent_id i.agent_id request) h.runtime.stores.spent in
      after_request R policy c request i first (with_spent spent h)

  -- `handle_intent`
  unfoldable pub handle_intent :
      Runtime
      → LegitimacyPolicy
      → HostReading
      → Intent
      → AgentHost S A
      → Exc HostedEvidence × AgentHost S A
  handle_intent R policy c i h =
      if is_foreign h.bound_agent_id i.agent_id
      then recorded (failed i.request_id i "channel_identity_mismatch" none) h
      else handle_own R policy c i h
