-- ===== src/Evaluators.antt =====
-- decision_os_min/evaluators.py: policies adapted into veto-only evaluators. An evaluator is a
-- function of the action; that the code hands it a copy is what a function's argument is.
pub mod VetoOnly
use decision_os_min.Prelude.{
  String, ◌⧺◌, Bool, true, false, ◌==◌, ◌||◌, Option, some, List, [], ◌∷◌, contains, if◌then◌else◌,
}
use decision_os_min.Py.{Value, Dict, truthy, or_value}
use decision_os_min.Py.Runtime.{Runtime}
use decision_os_min.Py.Plugin.{Ran, returned, raised, based, closed, silent}
use decision_os_min.Compose.{allow, deny, limit, contain, defer, text}

abbrev pub Evaluator : Type 0
Evaluator = Dict → Ran Value

-- `{"verdict": verdict, "reason": reason}`
abbrev pub ruling : Value → Value → Value
ruling verdict reason =
    Value.dict (Dict.entry "verdict" verdict (Dict.entry "reason" reason Dict.end))

abbrev legitimacy_verdict : Bool → String
legitimacy_verdict true = allow
legitimacy_verdict false = deny

abbrev legitimacy_reason : Bool → String
legitimacy_reason true = "legitimate"
legitimacy_reason false = "illegitimate"

-- What a policy's pair becomes; that a result which is no pair raises is part of `Ran`.
unfoldable pub judged : Ran (Value × Value) → Ran Value
judged (returned (fine, reason)) = returned (
    ruling (Value.str (legitimacy_verdict (truthy fine)))
      (or_value (some reason) (Value.str (legitimacy_reason (truthy fine)))))
judged (raised c t) =
    returned (ruling (Value.str deny) (Value.str ("legitimacy error (fail-closed): " ⧺ t)))
judged (based c t) = returned (
    ruling (Value.str deny) (Value.str ("legitimacy BaseException (fail-closed): " ⧺ c ⧺ ": " ⧺ t)))
judged closed = closed
judged silent = silent

unfoldable pub legitimacy : (Dict → Ran (Value × Value)) → Evaluator
legitimacy policy action = judged (policy action)

-- `VERDICTS`
abbrev pub verdicts : List String
verdicts = allow ∷ limit ∷ contain ∷ defer ∷ deny ∷ []

-- `verdict not in VERDICTS` of a value that has no hash raises outside the handler.
unfoldable pub checked : Runtime → Value → Value → Ran Value
checked R (Value.str v) reason =
    if contains v verdicts
    then returned
        (ruling (Value.str v) (or_value (some reason) (Value.str ("external authority: " ⧺ v))))
    else returned (
        ruling (Value.str deny)
          (Value.str ("unknown authority verdict " ⧺ R.repr (Value.str v) ⧺ " (fail-closed)")))
checked R (Value.list _) reason = raised "TypeError" "unhashable type: 'list'"
checked R (Value.dict _) reason = raised "TypeError" "unhashable type: 'dict'"
checked R v reason = returned (
    ruling (Value.str deny)
      (Value.str ("unknown authority verdict " ⧺ R.repr v ⧺ " (fail-closed)")))

unfoldable pub authorized : Runtime → Ran (Value × Value) → Ran Value
authorized R (returned (verdict, reason)) = checked R verdict reason
authorized R (raised c t) =
    returned (ruling (Value.str deny) (Value.str ("authority error (fail-closed): " ⧺ t)))
authorized R (based c t) =
    returned (
      ruling (Value.str deny)
        (Value.str ("authority BaseException (fail-closed): " ⧺ c ⧺ ": " ⧺ t)))
authorized R closed = closed
authorized R silent = silent

unfoldable pub authority : Runtime → (Dict → Ran (Value × Value)) → Evaluator
authority R engine action = authorized R (engine action)
