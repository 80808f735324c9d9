-- ===== src/Service/Config.antt =====
-- service.py: the policy, the provider and the bounds that the environment names.
use decision_os_min.Prelude.{
  String, ◌⧺◌, not, Option, none, some, [], ◌∷◌, ◌==◌, nonempty, strip, contains, Table, find,
  find?, if◌then◌else◌,
}
use decision_os_min.Py.{Value, Dict}
use decision_os_min.Py.Exc.{Exc, ok, raise, Exn, ◌>>=◌}
use decision_os_min.Py.Runtime.{Runtime}
use decision_os_min.AuthorityPdp.{AuthorityPdp}
use decision_os_min.AuthorityPdp.Opa
use decision_os_min.AuthorityPdp.Opa.{Opa, Web, Seconds}
use decision_os_min.AuthorityPdp.Cedar
use decision_os_min.AuthorityPdp.Cedar.{Cedar, Cli}
use decision_os_min.Kernel.{Policy}

-- `os.environ`
abbrev pub Environ : Type 0
Environ = Table String

-- What the configuration takes from Python: `s.lower()`, `float(s)`, which may raise `ValueError`, and
-- a policy file, read and parsed.
pub record Libs : Type 0 where
  pub lower : String → String
  pub parse_float : String → Option Seconds
  pub policy_file : String → Exc Policy

-- `_DEFAULT_POLICY`
abbrev pub default_policy : Policy
default_policy = record {
  grants = ("agent:bot", "tool:send_email" ∷ []) ∷ [];
  purpose_bindings = ("customer_support", "support_reply" ∷ []) ∷ [];
  redactions = record { action_purpose = some "support_reply"; redact_fields = "ssn" ∷ [] } ∷ [];
  contain_threat_classes = some ("malicious" ∷ []);
  default = some "deny";
}

abbrev policy_at : Libs → Option String → Exc Policy
policy_at L none = ok default_policy
policy_at L (some path) = if nonempty path then L.policy_file path else ok default_policy

-- `_load_policy`
unfoldable pub load_policy : Libs → Environ → Exc Policy
load_policy L env = policy_at L (find? "DECISION_OS_POLICY" env)

abbrev positive : Option Seconds → Exc (Option Seconds)
positive none = raise Exn.value_error
positive (some t) = if not t.is_positive then raise Exn.value_error else ok (some t)

-- `_env_timeout`
unfoldable pub env_timeout : Libs → Environ → String → Exc (Option Seconds)
env_timeout L env name =
    let raw = L.lower (strip (find "1.0" name env)) in
    if contains raw ("" ∷ "none" ∷ "off" ∷ []) then ok none else positive (L.parse_float raw)

abbrev pub runtime_error {ℓ} : {A : Type ℓ} → String → Exc A
runtime_error t = raise (Exn.foreign "RuntimeError" t)

-- `_required_env`
unfoldable pub required_env : Environ → String → Exc String
required_env env name =
    let value = strip (find "" name env) in
    if nonempty value
    then ok value
    else runtime_error (name ⧺ " is required for the selected authority PDP")

-- a bound that cannot be disabled
abbrev enabled : Option Seconds → Exc Seconds
enabled none = raise Exn.value_error
enabled (some t) = ok t

-- `os.environ.get(name) or None`
abbrev nonempty_env : Environ → String → Option String
nonempty_env env name = let value = find "" name env in if nonempty value then some value else none

-- A dict whose values are all texts; the keys of a JSON object are.
unfoldable pub string_map : Dict → Option (Table String)
string_map Dict.end = some []
string_map (Dict.entry k (Value.str v) d) = elim (string_map d) [
  | none ↦ none
  | some t ↦ some ((k, v) ∷ t)
]
string_map (Dict.entry _ _ _) = none
string_map (Dict.odd_entry _ _ _) = none

abbrev as_map : Option (Table String) → Exc (Table String)
as_map none = raise Exn.value_error
as_map (some t) = ok t

unfoldable pub context_map : Option Value → Exc (Table String)
context_map (some (Value.dict d)) = as_map (string_map d)
context_map _ = raise Exn.value_error

-- The adapter that is selected.
pub data Adapter : Type 0 where
  opa : Opa → Adapter
  cedar : Cedar → Adapter

unfoldable pub load_opa : Runtime → Web → Libs → Environ → Exc (Option Adapter)
load_opa R W L env = do
  given ← env_timeout L env "DECISION_OS_OPA_TIMEOUT_S"
  timeout ← enabled given
  url ← required_env env "DECISION_OS_OPA_DECISION_URL"
  revision ← required_env env "DECISION_OS_OPA_POLICY_REVISION"
  o ←
      Opa.init R W url (Value.str revision) timeout (nonempty_env env "DECISION_OS_OPA_HEALTH_URL")
        65536
  ok (some (Adapter.opa o))

unfoldable pub load_cedar : Runtime → Cli → Libs → Environ → Exc (Option Adapter)
load_cedar R C L env = do
  given ← env_timeout L env "DECISION_OS_CEDAR_TIMEOUT_S"
  timeout ← enabled given
  sources ←
      context_map
        (R.loads (find "{\"purpose\":\"action_purpose\"}" "DECISION_OS_CEDAR_CONTEXT_MAP" env))
  bin ← required_env env "DECISION_OS_CEDAR_BIN"
  policies ← required_env env "DECISION_OS_CEDAR_POLICIES"
  entities ← required_env env "DECISION_OS_CEDAR_ENTITIES"
  revision ← required_env env "DECISION_OS_CEDAR_POLICY_REVISION"
  c ← Cedar.init R C timeout.is_positive (Value.str revision) (record {
    cedar_bin = bin;
    policies = policies;
    entities = entities;
    schema = nonempty_env env "DECISION_OS_CEDAR_SCHEMA";
    policy_revision = revision;
    timeout = timeout.text;
    principal_type = find "Agent" "DECISION_OS_CEDAR_PRINCIPAL_TYPE" env;
    resource_type = find "Effect" "DECISION_OS_CEDAR_RESOURCE_TYPE" env;
    default_resource = find "governed" "DECISION_OS_CEDAR_DEFAULT_RESOURCE" env;
    context_map = sources;
    max_output_chars = 16384;
  })
  ok (some (Adapter.cedar c))

-- `_load_authority_pdp`
unfoldable pub load_authority_pdp : Runtime → Web → Cli → Libs → Environ → Exc (Option Adapter)
load_authority_pdp R W C L env =
    let mode = L.lower (strip (find "builtin" "DECISION_OS_AUTHORITY_PDP" env)) in
    if mode == "builtin"
    then ok none
    else if mode == "opa"
    then load_opa R W L env
    else if mode == "cedar"
    then load_cedar R C L env
    else raise Exn.value_error

-- The provider of the adapter that was selected, at the path of Cedar's request file.
unfoldable pub adapter_pdp : Runtime → Web → Cli → String → Option Adapter → Option AuthorityPdp
adapter_pdp R W C path none = none
adapter_pdp R W C path (some (Adapter.opa o)) = some (Opa.provider R W o)
adapter_pdp R W C path (some (Adapter.cedar c)) = some (Cedar.provider R C path c)
