-- ===== src/Tests/Fixtures.antt =====
-- A runtime, a policy and an action to run the model on.
use decision_os_min.Prelude.{String, ◌⧺◌, true, false, none, some, List, [], ◌∷◌, ◌==◌, Table}
use decision_os_min.Py.{Value, Dict}
use decision_os_min.Py.Exc.{Exc, ok, raise}
use decision_os_min.Py.Runtime.{Runtime, aware}
use decision_os_min.Py.Plugin.{Ran, returned}
use decision_os_min.SpentStore.InMemory.{in_memory_store}
use decision_os_min.Execute.{AuditLine, AuditSink, Tool, Presented, Prepared, State}
use decision_os_min.Execute.Once.{Call}
use decision_os_min.System.{DecisionOs, Outcome}
use decision_os_min.Kernel.{Kernel, Moment, Request, Ruling, Policy, init, decide}

-- a text that tells the example's values apart
unfoldable mutual
  pub shown : Value → String
  shown (Value.str s) = s
  shown (Value.dict d) = shown_dict d
  shown _ = "value"

  pub shown_dict : Dict → String
  shown_dict Dict.end = ""
  shown_dict (Dict.entry k v d) = k ⧺ "=" ⧺ shown v ⧺ ";" ⧺ shown_dict d
  shown_dict (Dict.odd_entry k v d) = "odd;" ⧺ shown_dict d

-- A runtime that reads every text as the one dict.
abbrev pub reading : Dict → Runtime
reading d = record {
  show = λ v. "value";
  repr = λ v. "value";
  class_name = λ v. "object";
  same = λ a b. false;
  sorted_other = λ v. none;
  dict_other = λ v. none;
  iterate_other = λ v. none;
  member_other = λ v s. none;
  error_text = λ c. c;
  prints = λ v. true;
  dumps = shown;
  dumps_strict = λ v. some (shown v);
  loads = λ s. some (Value.dict d);
  dumps_plain = λ v. some (shown v);
  sha256 = λ s. s;
  hmac = λ k s. k ⧺ s;
  public_key = λ k. k;
  sign = λ k s. k ⧺ s;
  verify_signature = λ k signature s. signature == (k ⧺ s);
  isoformat = λ n. "2026-01-01T00:00:30+00:00";
  fromisoformat = λ s. some (aware 30);
}

abbrev pub plain : Runtime
plain = reading Dict.end

abbrev pub search_action : Dict
search_action = Dict.entry "actor" (Value.str "bot") (
    Dict.entry "tool" (Value.str "search") (
      Dict.entry "action_ref" (Value.str "ref-1")
        (Dict.entry "payload" (Value.dict (Dict.entry "q" (Value.str "rates") Dict.end)) Dict.end)))

abbrev pub search_policy : Policy
search_policy = record {
  grants = ("bot", "tool:search" ∷ []) ∷ [];
  purpose_bindings = [];
  redactions = [];
  contain_threat_classes = none;
  default = none;
}

abbrev pub search_kernel : Kernel
search_kernel = init search_policy "key" "root" none none none

abbrev pub moment : Moment
moment = record { asked_at = 0; minted_at = 0; digits = "0a1b" }

abbrev pub approving : Dict → Ran Value
approving action = returned (Value.str "ALLOW")

abbrev pub request : Request
request = record {
  threat_class = none;
  advisor = none;
  evaluators = approving ∷ [];
  evaluator_timeout = none;
  authority_timeout = none;
}

abbrev nothing_ruled : Ruling
nothing_ruled = record { decision = Dict.end; signature = ""; token = none }

abbrev or_nothing : Exc Ruling → Ruling
or_nothing (ok r) = r
or_nothing (raise e) = nothing_ruled

-- The ruling on the action.
abbrev pub search_ruling : Ruling
search_ruling = or_nothing (decide plain search_kernel moment request search_action)

-- The runtime of the executor, which reads the ruling back.
abbrev pub frozen : Runtime
frozen = reading search_ruling.decision

abbrev pub log_sink : AuditSink
log_sink = record { State = List AuditLine; write = λ l ls. (ok tt, l ∷ ls) }

abbrev pub search_tool : Tool
search_tool payload = returned (Value.str "found")

abbrev pub tools : Table Tool
tools = ("search", search_tool) ∷ []

abbrev pub presented : Presented
presented = record {
  decision = Value.dict search_ruling.decision;
  signature = search_ruling.signature;
}

abbrev pub cleared_search : Prepared
cleared_search = record {
  tool = "search";
  fn = search_tool;
  payload = Dict.entry "q" (Value.str "rates") Dict.end;
  token = "tok-0a1b";
}

abbrev pub start : State in_memory_store log_sink
start = record { spent = []; audit = []; effects = [] }

abbrev pub call : Call
call = record { now = 10; action = search_action; presented = presented; tools = tools }

abbrev pub search_system : DecisionOs in_memory_store log_sink
search_system = record { kernel = search_kernel; executor = start }

abbrev pub search_outcome : Outcome
search_outcome = record {
  verdict = Value.str "ALLOW";
  executed = true;
  output = some (Value.str "found");
  refused_reason = none;
}
