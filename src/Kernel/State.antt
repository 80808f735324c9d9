-- ===== src/Kernel/State.antt =====
-- The kernel's policy and state, and the operations on its grants.
use decision_os_min.Prelude.{ℕ, String, ◌⧺◌, Option, none, some, List, [], ◌∷◌, ◌==◌, Table}
use decision_os_min.Py.Exc.{Exc, ok, raise, Exn, ◌>>=◌}
use decision_os_min.Py.Runtime.{Runtime, DateTime}
use decision_os_min.Py.Plugin.{unguarded}
use decision_os_min.Compose.{text}
use decision_os_min.Attenuation.{Macaroon}
use decision_os_min.AuthorityPdp.{AuthorityPdp}
use decision_os_min.AuthorityPdp.Builtin
use decision_os_min.AuthorityPdp.Builtin.{Builtin, ambiguous}

-- A redaction rule of the policy.
pub record Redaction : Type 0 where
  pub action_purpose : Option String
  pub redact_fields : List String

-- The policy, with what it leaves out.
pub record Policy : Type 0 where
  pub grants : Table (List String)
  pub purpose_bindings : Table (List String)
  pub redactions : List Redaction
  pub contain_threat_classes : Option (List String)
  pub default : Option String

-- The built-in provider, with its state, or one that is managed elsewhere.
pub data Provider : Type 0 where
  builtin : Builtin → Provider
  external : AuthorityPdp → Provider

-- A bound in seconds is kept by its text; without one a call is made in process.
pub record Kernel : Type 0 where
  pub key : String
  pub redactions : List Redaction
  pub contained_classes : List String
  pub provider : Provider
  pub evaluator_timeout : Option String
  pub authority_timeout : Option String

abbrev or_default {ℓ} : {A : Type ℓ} → A → Option A → A
or_default a none = a
or_default a (some b) = b

abbrev choose : Policy → String → Option AuthorityPdp → Provider
choose policy root_key (some pdp) = Provider.external pdp
choose policy root_key none = Provider.builtin record {
  grants = policy.grants;
  bindings = policy.purpose_bindings;
  graph = record { root_key = root_key; macaroons = []; root_grants = policy.grants };
  default_deny = or_default "deny" policy.default == "deny";
  revision_counter = 0;
}

-- `Kernel.__init__`, at the signing key and at the graph's random root key
unfoldable pub init :
    Policy → String → String → Option String → Option AuthorityPdp → Option String → Kernel
init policy key root_key evaluator_timeout pdp authority_timeout = record {
  key = key;
  redactions = policy.redactions;
  contained_classes = or_default ("malicious" ∷ []) policy.contain_threat_classes;
  provider = choose policy root_key pdp;
  evaluator_timeout = evaluator_timeout;
  authority_timeout = authority_timeout;
}

-- The provider that a call asks, at the time that the built-in one's clock shows.
unfoldable pub pdp_of : Runtime → ℕ → Provider → AuthorityPdp
pdp_of R now (Provider.builtin b) = Builtin.provider R now b
pdp_of R now (Provider.external p) = p

-- The error that names the provider, raised.
unfoldable pub refuse_mutation {ℓ} : {A : Type ℓ} → Runtime → AuthorityPdp → Exc A
refuse_mutation R p = do
  name ← unguarded p.name
  raise (Exn.mutation_unsupported (text R name ⧺ " policy is externally managed"))

abbrev with_builtin : Kernel → Builtin → Kernel
with_builtin k b = record k { provider = Provider.builtin b }

grant_in : Runtime → String → String → Kernel → Provider → Exc Kernel
grant_in R actor capability k (Provider.builtin b) =
    ok (with_builtin k (Builtin.grant actor capability b))
grant_in R actor capability k (Provider.external p) = refuse_mutation R p

unfoldable pub grant : Runtime → String → String → Kernel → Exc Kernel
unfolding grant_in
grant R actor capability k = grant_in R actor capability k k.provider

revoke_in : Runtime → String → String → Kernel → Provider → Exc Kernel
revoke_in R actor capability k (Provider.builtin b) =
    ok (with_builtin k (Builtin.revoke actor capability b))
revoke_in R actor capability k (Provider.external p) = refuse_mutation R p

unfoldable pub revoke : Runtime → String → String → Kernel → Exc Kernel
unfolding revoke_in
revoke R actor capability k = revoke_in R actor capability k k.provider

delegate_in :
    Runtime
    → String
    → ℕ
    → String
    → String
    → List String
    → Option DateTime
    → Kernel
    → Provider
    → Exc (Macaroon × Kernel)
delegate_in R nonce now parent child tools expires_at k (Provider.builtin b) = do
  (m, b') ← Builtin.delegate R nonce now parent child tools expires_at b
  ok (m, with_builtin k b')
delegate_in R nonce now parent child tools expires_at k (Provider.external p) = refuse_mutation R p

unfoldable pub delegate :
    Runtime
    → String
    → ℕ
    → String
    → String
    → List String
    → Option DateTime
    → Kernel
    → Exc (Macaroon × Kernel)
unfolding delegate_in
delegate R nonce now parent child tools expires_at k =
    delegate_in R nonce now parent child tools expires_at k k.provider
