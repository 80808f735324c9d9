-- ===== src/Service/Queries.antt =====
-- service.py: the handlers that change nothing: the audit log, readiness, the public key, the counters.
use decision_os_min.Prelude.{
  ℕ, zero, suc, ◌-◌, String, ◌⧺◌, Bool, true, false, List, [], ◌∷◌, ◌++◌, sorted, length, Table,
  find, join, if◌then◌else◌,
}
use decision_os_min.Py.{Value, ℤ}
use decision_os_min.Py.Exc.{Exc, ok, raise, Exn, ◌>>=◌}
use decision_os_min.Py.Runtime.{Runtime}
use decision_os_min.Py.Plugin.{Ran}
use decision_os_min.Compose.{text}
use decision_os_min.Kernel.Access.{authority_provider, authority_healthcheck, public_key_hex}
use decision_os_min.Audit
use decision_os_min.Audit.Anchor.{entries}
use decision_os_min.Service.Endpoints.{App, Recorder, Response, answered, http_error, failed}

-- the last `n` of a list
unfoldable pub skip {ℓ} : {B : Type ℓ} → ℕ → List B → List B
skip zero xs = xs
skip (suc n) [] = []
skip (suc n) (x ∷ xs) = skip n xs

-- `xs[-limit:]`
unfoldable pub slice_last {ℓ} : {B : Type ℓ} → ℤ → List B → List B
unfolding skip
slice_last (ℤ.pos zero) xs = xs
slice_last (ℤ.pos (suc n)) xs = skip (length xs - suc n) xs
slice_last (ℤ.negsuc n) xs = skip (suc n) xs

abbrev sliced : ℤ → Exc (List Value) → Response (List Value)
sliced limit (ok rows) = answered (slice_last limit rows)
sliced limit (raise e) = failed e

-- `GET /v1/audit`, over the lines of the log
unfoldable pub get_audit : Runtime → Bool → ℤ → List String → Response (List Value)
get_audit R expose_audit limit lines =
    if expose_audit
    then sliced limit (entries R lines)
    else http_error 404 "audit dump disabled (set DECISION_OS_EXPOSE_AUDIT=1 to enable)"

abbrev chain_intact : Exc Bool → Response Bool
chain_intact (ok b) = answered b
chain_intact (raise e) = failed e

-- `GET /v1/audit/verify`
unfoldable pub verify_audit : Runtime → Audit.HashLog → Response Bool
verify_audit R log = chain_intact (Audit.verify R log)

pub record Ready : Type 0 where
  pub status : String
  pub errors : List String
  pub key_persisted : Bool
  pub authority_provider : Value
  pub authority_policy_revision : Value

-- the errors of the audit path: whether its directory is writable, or the error that says so
unfoldable pub path_errors : String → Exc Bool → Exc (List String)
path_errors parent (ok true) = ok []
path_errors parent (ok false) = ok (("audit parent not writable: " ⧺ parent) ∷ [])
path_errors parent (raise (Exn.os_error t)) = ok (("audit path: " ⧺ t) ∷ [])
path_errors parent (raise e) = raise e

abbrev health_errors : Runtime → Value → Bool × String → List String
health_errors R name (true, detail) = []
health_errors R name (false, detail) = ("authority PDP " ⧺ text R name ⧺ ": " ⧺ detail) ∷ []

abbrev status_of : List String → String
status_of [] = "ready"
status_of (_ ∷ _) = "not_ready"

-- `GET /readyz`, at what became of the directory, and at the way in which the health check of a
-- provider outside ends. The public half of a key that is in memory is always there.
unfoldable pub readyz :
    {A : Recorder} → Runtime → ℕ → String → Exc Bool → Ran (Bool × String) → App A → Exc Ready
readyz R now parent writable remote s = do
  first ← path_errors parent writable
  provider ← authority_provider R now s.kernel
  health ← authority_healthcheck R remote s.kernel
  let errors = first ++ health_errors R provider.0 health
  ok (record {
    status = status_of errors;
    errors = errors;
    key_persisted = s.key_persisted;
    authority_provider = provider.0;
    authority_policy_revision = provider.1;
  })

-- `GET /v1/pubkey`
unfoldable pub pubkey : {A : Recorder} → Runtime → App A → String
pubkey R s = public_key_hex R s.kernel

unfoldable pub metric_lines : Runtime → Table ℕ → List String → List String
metric_lines R metrics [] = []
metric_lines R metrics (verdict ∷ verdicts) =
    ("decision_os_decisions_total{verdict=\""
      ⧺ verdict
      ⧺ "\"} "
      ⧺ R.show (Value.int (ℤ.pos (find 0 verdict metrics))))
    ∷ metric_lines R metrics verdicts

unfoldable pub keys {ℓ} : {B : Type ℓ} → Table B → List String
keys [] = []
keys ((k, _) ∷ t) = k ∷ keys t

-- `GET /metrics`
unfoldable pub prometheus_metrics : {A : Recorder} → Runtime → App A → String
prometheus_metrics R s =
    join "\n" (
      "# HELP decision_os_decisions_total Decisions issued, by verdict."
      ∷ "# TYPE decision_os_decisions_total counter"
      ∷ metric_lines R s.metrics (sorted (keys s.metrics)))
    ⧺ "\n"
