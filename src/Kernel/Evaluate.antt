-- ===== src/Kernel/Evaluate.antt =====
-- `_evaluate`: the authority's ruling with the host's own obligations.
use decision_os_min.Prelude.{
  ℕ, String, ◌⧺◌, Bool, true, false, Option, none, some, List, [], ◌∷◌, ◌==◌, contains, nonempty,
  sorted, if◌then◌else◌,
}
use decision_os_min.Py.{Value, Items, Dict, ℤ, get, get_or_else, put, of_texts}
use decision_os_min.Py.Exc.{Exc, ok, raise, Exn, ◌>>=◌}
use decision_os_min.Py.Runtime.{Runtime}
use decision_os_min.Compose.{
  allow, deny, limit, contain, defer, action_ref_of, verdict_of, more_restrictive,
}
use decision_os_min.AuthorityPdp.{CanonicalAuthorityResult, evaluate_authority}
use decision_os_min.AuthorityPdp.Builtin.{ambiguous}
use decision_os_min.Kernel.State.{Redaction, Kernel, pdp_of}

-- `{"verdict": v, "reason": r, "action_ref": ref, **extra}`
abbrev pub ruling : String → String → Value → Dict → Dict
ruling verdict reason ref extra =
    Dict.entry "verdict" (Value.str verdict)
      (Dict.entry "reason" (Value.str reason) (Dict.entry "action_ref" ref extra))

abbrev pub provenance : CanonicalAuthorityResult → Dict
provenance r =
    Dict.entry "authority_provider" (Value.str r.provider)
      (Dict.entry "authority_policy_revision" (Value.str r.policy_revision) Dict.end)

-- `action_purpose` of a rule against that of the action
abbrev same_purpose : Option String → Option Value → Bool
same_purpose none none = true
same_purpose none (some Value.null) = true
same_purpose (some s) (some (Value.str t)) = s == t
same_purpose _ _ = false

-- `payload.get(f) not in (None, "")`
abbrev has_content : Option Value → Bool
has_content none = false
has_content (some Value.null) = false
has_content (some (Value.str s)) = nonempty s
has_content (some _) = true

-- the fields of a rule that the payload has
unfoldable pub hits : List String → Dict → List String
hits [] payload = []
hits (f ∷ fs) payload =
    let rest = hits fs payload in if has_content (get f payload) then f ∷ rest else rest

unfoldable pub blank : List String → Dict → Dict
blank [] payload = payload
blank (f ∷ fs) payload = blank fs (put f (Value.str "[REDACTED]") payload)

abbrev redact_hits : List String → Dict → Dict × List String → Dict × List String
redact_hits [] payload rest = rest
redact_hits (f ∷ fs) payload rest = (blank (f ∷ fs) payload, sorted (f ∷ fs))

-- The first rule for the action's purpose that finds something: the payload without it, and the
-- names of the fields that went.
unfoldable pub redact : List Redaction → Option Value → Dict → Dict × List String
redact [] purpose payload = (payload, [])
redact (rule ∷ rules) purpose payload =
    let rest = redact rules purpose payload in
    if same_purpose rule.action_purpose purpose
    then redact_hits (hits rule.redact_fields payload) payload rest
    else rest

abbrev or_not_dict : Runtime → Option Dict → Exc Dict
or_not_dict R none = raise Exn.type_error
or_not_dict R (some d) = ok d

-- `dict(v)`
unfoldable pub to_dict : Runtime → Value → Exc Dict
to_dict R (Value.dict d) = ok d
to_dict R v = or_not_dict R (R.dict_other v)

abbrev pub named : Runtime → List String → String
named R redacted = R.repr (Value.list (of_texts redacted))

abbrev pub in_classes : Option String → List String → Bool
in_classes none classes = false
in_classes (some c) classes = contains c classes

abbrev threat_text : Option String → String
threat_text none = "None"
threat_text (some c) = c

abbrev and_redacted : Runtime → List String → String
and_redacted R [] = ""
and_redacted R (f ∷ fs) = "; redacted " ⧺ named R (f ∷ fs)

-- `local_decision`
unfoldable pub local_decision : Runtime → Kernel → Option String → Value → List String → Dict
local_decision R k threat ref redacted =
    if in_classes threat k.contained_classes
    then ruling contain ("threat '" ⧺ threat_text threat ⧺ "' -> sandbox" ⧺ and_redacted R redacted)
        ref Dict.end
    else elim redacted [
      | [] ↦ ruling allow "host obligations satisfied" ref Dict.end
      | f ∷ fs ↦ ruling limit ("redacted " ⧺ named R (f ∷ fs)) ref Dict.end
    ]

-- `_CONTAINMENT`
abbrev pub containment : Value
containment = Value.dict (
    Dict.entry "sandbox" (Value.boolean true) (
      Dict.entry "network" (Value.str "none") (
        Dict.entry "allowed_tools" (Value.list Items.nil)
          (Dict.entry "time_limit_seconds" (Value.int (ℤ.pos 5)) Dict.end))))

-- `decision.update(obligations)`
abbrev pub oblige : Dict → List String → Dict → Dict
oblige payload [] decision = decision
oblige payload (f ∷ fs) decision = put "transformed_payload" (Value.dict payload) decision

abbrev pub identify : CanonicalAuthorityResult → Dict → Dict
identify r decision =
    put "authority_policy_revision" (Value.str r.policy_revision)
      (put "authority_provider" (Value.str r.provider) decision)

abbrev pub limited : CanonicalAuthorityResult → Value → Dict → List String → Dict → Dict
limited r ref payload [] decision =
    ruling deny "authority LIMIT has no host-owned transformation -> fail-closed" ref (provenance r)
limited r ref payload (f ∷ fs) decision = identify r (oblige payload (f ∷ fs) decision)

-- The obligations that the composed verdict carries.
unfoldable pub obliged : CanonicalAuthorityResult → Value → Dict → List String → Dict → Dict
obliged r ref payload redacted decision =
    if verdict_of decision == limit
    then limited r ref payload redacted decision
    else if verdict_of decision == contain
    then identify r (oblige payload redacted (put "containment" containment decision))
    else identify r decision

unfoldable pub host_decision :
    Runtime → Kernel → Option String → Dict → CanonicalAuthorityResult → Exc Dict
host_decision R k threat action r = do
  given ← to_dict R (get_or_else "payload" (Value.dict Dict.end) action)
  let ref = action_ref_of action
  let (payload, redacted) = redact k.redactions (get "action_purpose" action) given
  ok (
      obliged r ref payload redacted (
        more_restrictive (ruling r.verdict r.reason ref (provenance r))
          (local_decision R k threat ref redacted)))

abbrev pub with_result : CanonicalAuthorityResult → Exc Dict → Exc (Dict × CanonicalAuthorityResult)
with_result r (ok d) = ok (d, r)
with_result r (raise e) = raise e

-- `if authority_result.verdict in {DENY, DEFER}: return`
unfoldable pub after_authority :
    Runtime
    → Kernel
    → Option String
    → Dict
    → CanonicalAuthorityResult
    → Exc (Dict × CanonicalAuthorityResult)
after_authority R k threat action r =
    if r.verdict == deny
    then ok (ruling r.verdict r.reason (action_ref_of action) (provenance r), r)
    else if r.verdict == defer
    then ok (ruling r.verdict r.reason (action_ref_of action) (provenance r), r)
    else with_result r (host_decision R k threat action r)

-- the ruling on an action whose capability is a text that disagrees with its tool
abbrev misshapen : String → CanonicalAuthorityResult
misshapen reason = record {
  verdict = deny;
  reason = reason;
  provider = "kernel";
  policy_revision = "action-shape";
}

-- The shape check of the kernel, which wants the capability to be a text.
unfoldable pub shape_objection : Runtime → Dict → Option String
shape_objection R action = elim (get "capability" action) [
  | none ↦ none
  | some cap ↦ elim cap [
    | Value.str c ↦ ambiguous R (some (Value.str c)) (get "tool" action)
    | _ ↦ none
  ]
]

-- After the shape check: its objection is the ruling, and else the provider is asked.
unfoldable pub after_shape :
    Runtime
    → Kernel
    → ℕ
    → Option String
    → Option String
    → Dict
    → Option String
    → Exc (Dict × CanonicalAuthorityResult)
after_shape R k now bound threat action (some reason) =
    ok (ruling deny reason (action_ref_of action) (provenance (misshapen reason)), misshapen reason)
after_shape R k now bound threat action none =
    evaluate_authority R bound (pdp_of R now k.provider) action
    >>= after_authority R k threat action

-- `_evaluate`
unfoldable pub evaluate :
    Runtime
    → Kernel
    → ℕ
    → Option String
    → Option String
    → Dict
    → Exc (Dict × CanonicalAuthorityResult)
evaluate R k now bound threat action =
    after_shape R k now bound threat action (shape_objection R action)
