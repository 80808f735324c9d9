-- ===== src/Sealed/Legitimacy.antt =====
-- `tri_state_legitimacy`: a policy that may also leave the question open, adapted to an evaluator.
use decision_os_min.Prelude.{String, ◌⧺◌, List, [], ◌∷◌, if◌then◌else◌}
use decision_os_min.Py.{Value, Items, Dict, truthy}
use decision_os_min.Py.Exc.{Exc, ok, raise}
use decision_os_min.Py.Runtime.{Runtime}
use decision_os_min.Py.Plugin.{Ran, returned, raised, based, closed, silent}
use decision_os_min.Compose.{allow, defer, deny}
use decision_os_min.Evaluators.{Evaluator}
use decision_os_min.AuthorityPdp.Builtin.{iterate}
use decision_os_min.Sealed.Admission.{canon, canonizes}

-- `(ok, reason, axioms)` of an action, `ok` being None where the policy has no answer.
abbrev pub LegitimacyPolicy : Type 0
LegitimacyPolicy = Dict → Ran (Value × Value × Value)

unfoldable pub tri_verdict : Value → String
tri_verdict Value.null = defer
tri_verdict v = if truthy v then allow else deny

unfoldable pub of_values : List Value → Items
of_values [] = Items.nil
of_values (v ∷ vs) = Items.cons v (of_values vs)

-- the dict that an evaluator returns
abbrev pub tri_ruling : String → Value → Items → String → Value
tri_ruling verdict reason axioms digest = Value.dict (
    Dict.entry "verdict" (Value.str verdict) (
      Dict.entry "reason" reason (
        Dict.entry "axiom_ids" (Value.list axioms)
          (Dict.entry "legitimacy_digest" (Value.str digest) Dict.end))))

-- the dict that the digest is taken of
abbrev pub tri_evidence : Value → Value → Items → String → Dict
tri_evidence fine reason axioms verdict = Dict.entry "ok" fine (
    Dict.entry "reason" reason
      (Dict.entry "axioms" (Value.list axioms) (Dict.entry "verdict" (Value.str verdict) Dict.end)))

unfoldable pub with_axioms : Runtime → Value → Value → Exc (List Value) → Ran Value
with_axioms R fine reason (raise e) = raised "TypeError" (R.error_text "TypeError")
with_axioms R fine reason (ok axioms) =
    if canonizes R (tri_evidence fine reason (of_values axioms) (tri_verdict fine))
    then returned (
        tri_ruling (tri_verdict fine) reason (of_values axioms)
          (R.sha256 (canon R (tri_evidence fine reason (of_values axioms) (tri_verdict fine)))))
    else raised "TypeError" (R.error_text "TypeError")

unfoldable pub tri_judged : Runtime → Ran (Value × Value × Value) → Ran Value
tri_judged R (returned (fine, reason, axioms)) = with_axioms R fine reason (iterate R axioms)
tri_judged R (raised c t) =
    returned
      (tri_ruling deny (Value.str ("legitimacy error (fail-closed): " ⧺ t)) Items.nil (R.sha256 t))
tri_judged R (based c t) = based c t
tri_judged R closed = closed
tri_judged R silent = silent

unfoldable pub tri_state_legitimacy : Runtime → LegitimacyPolicy → Evaluator
tri_state_legitimacy R policy action = tri_judged R (policy action)
