-- ===== src/Tests/Remote.antt =====
-- Providers outside, the client of the host, and composed risk plugins, at concrete inputs.
use decision_os_min.Prelude.{
  ◌≡◌, ◌≢◌, ◌↔◌, ◌⊎◌, refl, true, none, some, Option, List, [], ◌∷◌, String, ltb, not, arith,
  eq_iff, prefix_of, chars, ◌⧺◌, split,
}
use decision_os_min.Py.{ℤ, Value, Dict, get, get_or_else, truthy}
use decision_os_min.Py.Exc.{Exc, ok, raise}
use decision_os_min.Py.Runtime.{Runtime}
use decision_os_min.Py.Plugin.{returned, raised}
use decision_os_min.Compose.{allow, deny, text, normalize, normalize_text}
use decision_os_min.AuthorityPdp.{
  CanonicalAuthorityResult, evaluate_authority, identity_field, plain_bounded, ruled,
  canonicalize_authority_output, raw_verdict, raw_reason, marked,
}
use decision_os_min.AuthorityPdp.Opa
use decision_os_min.AuthorityPdp.Opa.{Opa, Web}
use decision_os_min.AuthorityPdp.Cedar
use decision_os_min.AuthorityPdp.Cedar.{Cedar, Cli}
use decision_os_min.AuthorityPdp.External.{IsAnswered, opa-permits}
use decision_os_min.AuthorityPdp.CedarPermits.{IsPermitted, cedar-permits}
use decision_os_min.Plugins.Reference.{contain_bound, suspect_bound}
use decision_os_min.Plugins.{Floats, RiskPlugin, scored, worst_score, threat_of, risk_advisor}
use decision_os_min.Plugins.Worst.{IsOrdered, IsReached, risk_advisor-IsWorst}
use decision_os_min.SpentStore.InMemory.{in_memory_store}
use decision_os_min.Host.Client.{AgentClient}
use decision_os_min.Host.Requested.{host_process}
use decision_os_min.Tests.Fixtures.{plain, reading, search_action, log_sink}
use decision_os_min.Tests.Agents.{approve, host_reading, bound_host, carrying}

abbrev no_result : CanonicalAuthorityResult
no_result = record { verdict = ""; reason = ""; provider = ""; policy_revision = "" }

abbrev or_no_result : Exc CanonicalAuthorityResult → CanonicalAuthorityResult
or_no_result (ok r) = r
or_no_result (raise e) = no_result

-- an OPA that answers every POST by a body that reads as a true result
abbrev answering : Runtime
answering = reading (Dict.entry "result" (Value.boolean true) Dict.end)

abbrev web : Web
web = record {
  urlsplit = λ url. ok ("http", "opa");
  urlunsplit = λ scheme netloc path. path;
  post = λ url payload timeout. returned "{\"result\": true}";
  get_body = λ url timeout. returned "{}";
}

abbrev opa : Opa
opa = record {
  decision_url = "http://opa/v1/data/authz/allow";
  policy_revision = "7";
  timeout = "2.0";
  health_url = "http://opa/health";
  max_response_bytes = 1024;
}

abbrev opa_ruling : CanonicalAuthorityResult
opa_ruling =
    or_no_result (evaluate_authority answering none (Opa.provider answering web opa) search_action)

-- a Cedar whose process ends with status 0
abbrev cli : Cli
cli = record {
  is_file = λ path. true;
  dumps = λ v. some "{}";
  dumps_text = λ s. "\"" ⧺ s ⧺ "\"";
  run = λ command input timeout.
      returned (record { returncode = ℤ.pos 0; stdout = "ALLOW"; stderr = "" });
}

abbrev cedar : Cedar
cedar = record {
  cedar_bin = "cedar";
  policies = "policies.cedar";
  entities = "entities.json";
  schema = none;
  policy_revision = "3";
  timeout = "2.0";
  principal_type = "User";
  resource_type = "Resource";
  default_resource = "default";
  context_map = ("what", "tool") ∷ [];
  max_output_chars = 1024;
}

abbrev cedar_ruling : CanonicalAuthorityResult
cedar_ruling =
    or_no_result
      (evaluate_authority plain none (Cedar.provider plain cli "request.json" cedar) search_action)

asked :
    (evaluate_authority answering none (Opa.provider answering web opa) search_action
      ≡ ok opa_ruling)
    × (opa_ruling.verdict ≡ allow)
    × (evaluate_authority plain none (Cedar.provider plain cli "request.json" cedar) search_action
        ≡ ok cedar_ruling)
unfolding evaluate_authority identity_field plain_bounded prefix_of text ruled
    canonicalize_authority_output raw_verdict raw_reason marked normalize normalize_text
    Opa.provider Opa.evaluate Opa.read Opa.decoded Opa.result_of get chars Cedar.provider
    Cedar.evaluate Cedar.context_of Cedar.lookup_parts Cedar.request_of Cedar.command Cedar.judged
    Cedar.completed split get_or_else truthy
asked = (refl, refl, refl)

allow-ne-deny : allow ≢ deny
allow-ne-deny = λ h. ground (arith, eq_iff allow deny)

opa-permits_example : IsAnswered answering web opa search_action opa_ruling.verdict
opa-permits_example =
    opa-permits answering web opa none search_action opa_ruling asked.0
      (λ h. allow-ne-deny (rw asked.1 at h))

cedar-permits_example :
    ((cedar_ruling.verdict ≡ allow) ⊎ (cedar_ruling.verdict ≡ deny))
    × ((cedar_ruling.verdict ≡ allow) ↔ IsPermitted plain cli "request.json" cedar search_action)
cedar-permits_example =
    cedar-permits plain cli "request.json" cedar none search_action cedar_ruling asked.2

-- positive floats, which are in the order of their bit patterns
abbrev floats : Floats
floats = record {
  greater = λ b a. ltb a b;
  at_least = λ b a. not (ltb b a);
  sum = λ xs. 0;
  round3 = λ a. a;
}

floats-IsOrdered : IsOrdered floats
floats-IsOrdered = record {
  is_number = λ a. true;
  zero_is_number = refl;
  greater_is_number = λ b a h. refl;
  greater_reaches = λ b a c h g. ground arith;
  else_reaches = λ b a c n h g. ground arith;
}

-- a plugin that fails, and one whose score is 0.9
abbrev plugins : List RiskPlugin
plugins = failing ∷ alarming ∷ []
  where
    failing : RiskPlugin
    failing action = raised "ValueError" "bad"

    alarming : RiskPlugin
    alarming action =
        returned (record { score = 0x3feccccccccccccd; evidence = []; recommended = none })

advises :
    risk_advisor floats plugins contain_bound suspect_bound search_action
    ≡ returned (some "malicious")
unfolding risk_advisor worst_score scored threat_of
advises = refl

risk_advisor-IsWorst_example :
    ((◌≡◌ {A = Option String} (some "malicious") (some "malicious"))
      ↔ IsReached floats contain_bound search_action plugins)
    × ((◌≡◌ {A = Option String} (some "malicious") none) ↔ (
        (¬ IsReached floats contain_bound search_action plugins)
        × (¬ IsReached floats suspect_bound search_action plugins)))
risk_advisor-IsWorst_example =
    risk_advisor-IsWorst floats plugins contain_bound suspect_bound search_action (some "malicious")
      floats-IsOrdered advises

-- the client of the bound agent, at a host that has answered nothing
abbrev client :
    AgentClient (host_process in_memory_store log_sink carrying approve host_reading (λ t. true))
client = record {
  proc = record { answer = none; host = bound_host };
  agent_id = "agent-1";
  request_timeout = "30";
}

abbrev dump_intent : Value → Option String
dump_intent v = some "intent"
