-- ===== src/Tests/Agents.antt =====
-- An agent with a ticket, a sealed runtime and a host.
use decision_os_min.Sealed.{AgentMeta}
use decision_os_min.Prelude.{true, [], ◌∷◌}
use decision_os_min.Py.Exc.{ok}
use decision_os_min.Kernel.{decide, init}
use decision_os_min.SpentStore.InMemory.{in_memory_store}
use decision_os_min.Prelude.{String, none, some, false, Table}
use decision_os_min.Py.{Value, Items, Dict}
use decision_os_min.Py.Exc.{Exc, ok, raise}
use decision_os_min.Py.Runtime.{Runtime}
use decision_os_min.Py.Plugin.{returned}
use decision_os_min.Kernel.{Kernel, Ruling}
use decision_os_min.Sealed.{
  AdmissionOffice, canon, issue, Callable, Registry, exports, seal, LegitimacyPolicy, tri_ruling,
  tri_evidence, Invocation, Reading, SealedRuntime, action_of, request_of,
}
use decision_os_min.Tests.Fixtures.{plain, reading, search_policy, moment, log_sink, start}
use decision_os_min.Host.{AgentHost, Intent, HostReading, HostedEvidence, to_wire, handle_intent}
use decision_os_min.Prelude.{[], ◌∷◌, true, ◌==◌, if◌then◌else◌}

-- a kernel whose policy binds the label `ops` to deployment
abbrev pub deploy_kernel : Kernel
deploy_kernel =
    init (record search_policy { purpose_bindings = ("ops", "deploy" ∷ []) ∷ [] }) "key" "root" none
      none none

abbrev pub office : AdmissionOffice
office = record { key = "office"; ttl = 300 }

abbrev pub search_fn : Callable
search_fn = record { identity = 7; name = "search"; body = λ payload. returned (Value.str "found") }

abbrev pub empty_registry : Registry
empty_registry = record { tools = []; bodies = []; tool_ids = []; source = none; frozen = false }

abbrev pub or_empty : Exc (Table Callable × Registry) → Registry
or_empty (ok (_, r)) = r
or_empty (raise e) = empty_registry

abbrev pub search_table : Table Callable
search_table = ("search", search_fn) ∷ []

abbrev pub search_exports : Table Callable
search_exports = exports plain (λ name. 100) search_table

-- what the evaluator made of the policy returns
abbrev pub approval : Value
approval = tri_ruling "ALLOW" (Value.str "fine") Items.nil (
    plain.sha256
      (canon plain (tri_evidence (Value.boolean true) (Value.str "fine") Items.nil "ALLOW")))

abbrev pub registry : Registry
registry = or_empty (seal plain (λ name. 100) search_table empty_registry)

abbrev pub approve : LegitimacyPolicy
approve action = returned (Value.boolean true, Value.str "fine", Value.list Items.nil)

abbrev pub ticket : Dict
ticket = issue plain office 0 "n-1" "bot" "owner" "agent-1"

abbrev pub at_ten : Reading
at_ten = record {
  verified_at = 10;
  consumed_at = 10;
  decided_at = moment;
  executed_at = 10;
  emitted_at = 10;
  digits = "0123456789ab";
  identity = 200;
}

abbrev pub search_call : Invocation
search_call = record {
  ticket = ticket;
  agent_id = "agent-1";
  tool = "search";
  payload = Dict.entry "q" (Value.str "rates") Dict.end;
  intent = "deploy";
  resource = "";
  capability = none;
}

abbrev pub nothing_ruled : Ruling
nothing_ruled = record { decision = Dict.end; signature = ""; token = none }

abbrev pub or_nothing : Exc Ruling → Ruling
or_nothing (ok r) = r
or_nothing (raise e) = nothing_ruled

abbrev pub ruled_search : Ruling
ruled_search = or_nothing (
    decide plain deploy_kernel moment (request_of plain approve)
      (action_of at_ten search_call (Value.str "bot") (Value.str "owner")))

-- The runtime that reads the ruling back.
abbrev pub world : Runtime
world = reading ruled_search.decision

abbrev pub sealed_start : SealedRuntime in_memory_store log_sink
sealed_start = record {
  kernel = deploy_kernel;
  office = office;
  registry = registry;
  agents = ("agent-1", record { actor = "bot"; stakeholder = "owner" }) ∷ [];
  grants = ("bot", "tool:search" ∷ []) ∷ [];
  evidence = [];
  arm = none;
  stores = start;
}

abbrev pub search_key : String
search_key = "adm:n-1"

-- A host for that agent, and its intent.
abbrev pub bound_host : AgentHost in_memory_store log_sink
bound_host = record {
  bound_agent_id = some "agent-1";
  adapters = [];
  runtime = sealed_start;
  evidence = [];
}

abbrev pub search_intent : Intent
search_intent = record {
  agent_id = "agent-1";
  tool = "search";
  payload = search_call.payload;
  intent = "deploy";
  resource = "";
  request_id = "r-1";
}

abbrev pub host_reading : HostReading
host_reading = record {
  request_digits = "ab12";
  ticket_digits = "n-1";
  issued_at = 0;
  invoked = at_ten;
}

abbrev pub agent_meta : AgentMeta
agent_meta = record { actor = "bot"; stakeholder = "owner" }

-- The client of that agent asks for the search, under the name `ab12`.
abbrev pub carried_intent : Intent
carried_intent = record search_intent { request_id = "" }

abbrev pub named_intent : Intent
named_intent = record search_intent { request_id = "ab12" }

-- The runtime of the host, which reads the client's line as its message, and prints one reply.
abbrev pub carrying : Runtime
carrying = record world {
  loads = λ s.
      if s == "intent" then some (Value.dict (to_wire "ab12" carried_intent)) else world.loads s;
  dumps_plain = λ v. some "reply";
}

abbrev pub no_evidence : HostedEvidence
no_evidence = record {
  request_id = "";
  agent_id = "";
  tool = "";
  ok = false;
  output = Value.null;
  error = none;
  sealed_evidence = none;
}

abbrev pub or_no_evidence : Exc HostedEvidence → HostedEvidence
or_no_evidence (ok e) = e
or_no_evidence (raise x) = no_evidence

abbrev pub carried : Exc HostedEvidence × AgentHost in_memory_store log_sink
carried =
    handle_intent in_memory_store log_sink carrying approve host_reading named_intent bound_host
