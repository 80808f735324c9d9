-- ===== src/AuthorityPdp/Opa.antt =====
-- authority_pdp.py: `OPAHTTPAuthorityPDP`, the adapter for an OPA decision endpoint. The HTTP client is
-- a parameter; a body's bytes are kept as the characters of a text.
use decision_os_min.Prelude.{
  ℕ, suc, String, ◌⧺◌, Bool, true, false, not, ◌||◌, Option, none, some, ◌==◌, nonempty, prefix_of,
  chars, ltb, if◌then◌else◌,
}
use decision_os_min.Py.{Value, Dict, get}
use decision_os_min.Py.Exc.{Exc, ok, Exn, ◌>>=◌, ◌>>◌, raise_if}
use decision_os_min.Py.Runtime.{Runtime}
use decision_os_min.Py.Plugin.{Ran, returned, raised, based, closed, silent, after_call, unguarded}
use decision_os_min.Compose.{allow, deny}
use decision_os_min.AuthorityPdp.Defs.{
  AuthorityPdp, CanonicalAuthorityResult, Output, plain_bounded, canonicalize_authority_output,
  max_reason_chars,
}

-- A time in seconds, by its text and by whether it is positive.
pub record Seconds : Type 0 where
  pub text : String
  pub is_positive : Bool

-- `urllib`: the scheme and the host of a URL, a URL of these and a path, and the body that answers a
-- POST or a GET within a time.
pub record Web : Type 0 where
  pub urlsplit : String → Exc (String × String)
  pub urlunsplit : String → String → String → String
  pub post : String → String → String → Ran String
  pub get_body : String → String → Ran String

pub record Opa : Type 0 where
  pub decision_url : String
  pub policy_revision : String
  pub timeout : String
  pub health_url : String
  pub max_response_bytes : ℕ

abbrev is_http : String → Bool
is_http scheme = scheme == "http" || scheme == "https"

abbrev or_health : Web → String × String → Option String → String
or_health W (scheme, netloc) (some (String.◌∷◌ c url)) = String.◌∷◌ c url
or_health W (scheme, netloc) _ = W.urlunsplit scheme netloc "/health"

-- `__init__`
unfoldable pub init : Runtime → Web → String → Value → Seconds → Option String → ℕ → Exc Opa
init R W decision_url policy_revision timeout health_url max_response_bytes = do
  parsed ← W.urlsplit decision_url
  raise_if (not (is_http parsed.0) || not (nonempty parsed.1)) Exn.value_error
  raise_if (not timeout.is_positive || ltb max_response_bytes 1) Exn.value_error
  ok (record {
    decision_url = decision_url;
    policy_revision = plain_bounded R policy_revision "unknown" 256;
    timeout = timeout.text;
    health_url = or_health W parsed health_url;
    max_response_bytes = max_response_bytes;
  })

abbrev pub pdp_error {ℓ} : {A : Type ℓ} → String → Ran A
pdp_error t = raised "AuthorityPDPError" t

-- An error of a class that the interpreter or the JSON reader raises.
abbrev pub present {ℓ} : {A : Type ℓ} → Runtime → String → Option A → Ran A
present R c none = raised c (R.error_text c)
present R c (some a) = returned a

-- `_read`: one byte more than the bound is asked for.
unfoldable pub read : ℕ → String → Ran String
read bound body =
    let got = prefix_of (suc bound) body in
    if ltb bound (chars got)
    then pdp_error "OPA response exceeds configured limit"
    else returned got

abbrev bool_text : Bool → String
bool_text true = "True"
bool_text false = "False"

abbrev bool_verdict : Bool → String
bool_verdict true = allow
bool_verdict false = deny

abbrev as_result : CanonicalAuthorityResult → Output
as_result r = Output.result (Value.str r.verdict) (Value.str r.reason)

-- The ruling that the field `result` of an answer is.
unfoldable pub result_of : Runtime → Opa → Value → Ran Output
result_of R o (Value.boolean b) =
    returned (
      Output.result (Value.str (bool_verdict b)) (Value.str ("OPA boolean result: " ⧺ bool_text b)))
result_of R o (Value.str s) = returned (
    as_result
      (canonicalize_authority_output R "opa" o.policy_revision (Output.plain (Value.str s))))
result_of R o (Value.dict d) = returned (
    as_result
      (canonicalize_authority_output R "opa" o.policy_revision (Output.plain (Value.dict d))))
result_of R o _ = pdp_error "OPA result must be bool, verdict string, or object"

abbrev pub missing {ℓ} : {A : Type ℓ} → Ran A
missing = pdp_error "OPA response missing result"

unfoldable pub decoded : Runtime → Opa → Value → Ran Output
decoded R o (Value.dict d) = elim (get "result" d) [ none ↦ missing | some v ↦ result_of R o v ]
decoded R o _ = missing

-- `evaluate`
unfoldable pub evaluate : Runtime → Web → Opa → Dict → Ran Output
evaluate R W o action =
    after_call
      (present R "TypeError"
        (R.dumps_strict (Value.dict (Dict.entry "input" (Value.dict action) Dict.end))))
      λ payload. after_call (W.post o.decision_url payload o.timeout) λ body.
        after_call (read o.max_response_bytes body)
          λ got. after_call (present R "JSONDecodeError" (R.loads got)) λ answer. decoded R o answer

-- The provider that an adapter is.
unfoldable pub provider : Runtime → Web → Opa → AuthorityPdp
provider R W o = record {
  name = returned (Value.str "opa");
  policy_revision = returned (Value.str o.policy_revision);
  evaluate = evaluate R W o;
}

-- What a health check makes of a body, or of an error that the classes `caught` have.
unfoldable pub health_of : (String → Bool) → Opa → Ran String → Exc (Bool × String)
health_of caught o (returned _) = ok (true, o.policy_revision)
health_of caught o (raised c t) =
    if caught c
    then ok (false, prefix_of max_reason_chars ("OPA unavailable: " ⧺ t))
    else unguarded (raised c t)
health_of caught o (based c t) = unguarded (based c t)
health_of caught o closed = unguarded closed
health_of caught o silent = unguarded silent

-- `healthcheck`, at the classes that are an `OSError`, a `ValueError` or a `URLError`
unfoldable pub healthcheck : Web → (String → Bool) → Opa → Exc (Bool × String)
healthcheck W caught o =
    health_of caught o
      (after_call (W.get_body o.health_url o.timeout) λ body. read o.max_response_bytes body)
