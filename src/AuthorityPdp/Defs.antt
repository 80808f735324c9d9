-- ===== src/AuthorityPdp/Defs.antt =====
-- Providers, and what the kernel makes of their output.
use decision_os_min.Prelude.{
  ℕ, String, ◌⧺◌, Bool, true, false, Option, none, some, ◌==◌, not, ◌&&◌, nonempty, prefix_of,
  if◌then◌else◌,
}
use decision_os_min.Py.{Value, Dict, get_default}
use decision_os_min.Py.Exc.{Exc, ok, raise, Exn, ◌>>=◌}
use decision_os_min.Py.Runtime.{Runtime}
use decision_os_min.Py.Plugin.{Ran, returned, raised, based, closed, silent, is_timeout}
use decision_os_min.Compose.{allow, deny, limit, contain, defer, normalize, text, type_name}

pub record CanonicalAuthorityResult : Type 0 where
  pub verdict : String
  pub reason : String
  pub provider : String
  pub policy_revision : String

-- What `evaluate` may return: a result object, of which the first two fields are read, or a value.
pub data Output : Type 0 where
  result : Value → Value → Output
  plain : Value → Output

-- A provider: its two identity fields, which it computes itself, and its ruling.
pub record AuthorityPdp : Type 0 where
  pub name : Ran Value
  pub policy_revision : Ran Value
  pub evaluate : Dict → Ran Output

abbrev pub max_reason_chars : ℕ
max_reason_chars = 1024

abbrev or_text : String → String → String
or_text s fallback = if nonempty s then s else fallback

-- `_plain_bounded`, of a value whose `str()` does not raise
unfoldable pub plain_bounded : Runtime → Value → String → ℕ → String
unfolding prefix_of
plain_bounded R value fallback bound = or_text (prefix_of bound (text R value)) fallback

-- An identity field: whatever it raises gives the fallback.
unfoldable pub identity_field : Runtime → Ran Value → String → ℕ → Exc String
identity_field R (returned v) fallback bound = ok (plain_bounded R v fallback bound)
identity_field R silent fallback bound = raise Exn.hangs
identity_field R _ fallback bound = ok fallback

-- `verdict.lower()` of a canonical verdict
abbrev pub lower : String → String
lower v =
    if v == allow
    then "allow"
    else if v == limit
    then "limit"
    else if v == contain
    then "contain"
    else if v == defer
    then "defer"
    else "deny"

unfoldable pub raw_verdict : Output → Value
raw_verdict (result verdict _) = verdict
raw_verdict (plain (Value.dict d)) = get_default "verdict" (Value.str deny) d
raw_verdict (plain (Value.str s)) = Value.str s
raw_verdict (plain _) = Value.str deny

unfoldable pub raw_reason : Runtime → Output → Value
raw_reason R (result _ reason) = reason
raw_reason R (plain (Value.dict d)) = get_default "reason" (Value.str "") d
raw_reason R (plain (Value.str s)) = Value.str ""
raw_reason R (plain v) = Value.str ("malformed authority output: " ⧺ type_name R v)

-- `raw_verdict != DENY`
abbrev is_deny : Value → Bool
is_deny (Value.str s) = s == deny
is_deny _ = false

-- The reason, marked where the verdict became DENY only by normalization.
unfoldable pub marked : Bool → String → String
marked true reason =
    prefix_of max_reason_chars ("unknown/malformed authority verdict (fail-closed): " ⧺ reason)
marked false reason = reason

unfoldable pub canonicalize_authority_output :
    Runtime → String → String → Output → CanonicalAuthorityResult
canonicalize_authority_output R name revision output =
    let verdict = normalize (raw_verdict output) in
    let reason =
      plain_bounded R (raw_reason R output) (name ⧺ ": " ⧺ lower verdict) max_reason_chars in
    record {
      verdict = verdict;
      reason = marked ((verdict == deny) && not (is_deny (raw_verdict output))) reason;
      provider = name;
      policy_revision = revision;
    }

abbrev pub denied : String → String → String → CanonicalAuthorityResult
denied reason name revision = record {
  verdict = deny;
  reason = reason;
  provider = name;
  policy_revision = revision;
}

abbrev pub timed_out : String → String
timed_out bound = "authority PDP timeout (fail-closed): " ⧺ bound ⧺ "s"

abbrev pub failed : String → String → String
failed c t = prefix_of max_reason_chars ("authority PDP error (fail-closed): " ⧺ c ⧺ ": " ⧺ t)

-- The ruling from the way in which the provider's call ended, under a bound in seconds, or none.
unfoldable pub ruled :
    Runtime → Option String → String → String → Ran Output → Exc CanonicalAuthorityResult
ruled R bound name revision (returned output) =
    ok (canonicalize_authority_output R name revision output)
ruled R none name revision (raised c t) = ok (denied (failed c t) name revision)
ruled R (some s) name revision (raised c t) =
    ok (denied (if is_timeout c then timed_out s else failed c t) name revision)
ruled R bound name revision (based c t) = ok (
    denied
      (prefix_of max_reason_chars ("authority PDP BaseException (fail-closed): " ⧺ c ⧺ ": " ⧺ t))
      name revision)
ruled R bound name revision closed = raise Exn.generator_exit
ruled R none name revision silent = raise Exn.hangs
ruled R (some s) name revision silent = ok (denied (timed_out s) name revision)

unfoldable pub evaluate_authority :
    Runtime → Option String → AuthorityPdp → Dict → Exc CanonicalAuthorityResult
evaluate_authority R bound provider action = do
  name ← identity_field R provider.name "authority-pdp" 128
  revision ← identity_field R provider.policy_revision "unknown" 256
  ruled R bound name revision (provider.evaluate action)
