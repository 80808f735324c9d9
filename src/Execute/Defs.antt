-- ===== src/Execute/Defs.antt =====
-- The executor. What a tool does to the world is kept as the list of its calls.
use decision_os_min.Prelude.{
  ℕ, String, ◌⧺◌, Bool, true, false, Option, none, some, List, [], ◌∷◌, ◌++◌, last_part, Table,
  if◌then◌else◌,
}
use decision_os_min.Py.{Value, Dict, get_default, get_or_else, truthy, or_value}
use decision_os_min.Py.Exc.{Exc, ok, raise, Exn}
use decision_os_min.Py.Runtime.{Runtime}
use decision_os_min.Py.Plugin.{unguarded}
use decision_os_min.Compose.{text}
use decision_os_min.SpentStore.{SpentStore}
use decision_os_min.Execute.Checks.{Tool, Presented, refuse, payload_digest, Prepared, gates}

-- the arguments of `record`
pub record AuditLine : Type 0 where
  pub actor : Value
  pub tool : String
  pub verdict : Value
  pub reason : Value
  pub executed : Option Bool
  pub payload_digest : Option String

-- `AuditSink`: a sink that cannot write raises.
pub record AuditSink : Type 1 where
  pub State : Type 0
  pub write : AuditLine → State → Exc (Unit {0}) × State

-- The two stores that the executor writes, and the calls of tools so far.
pub record State (S : SpentStore) (A : AuditSink) : Type 0 where
  pub spent : S.State
  pub audit : A.State
  pub effects : List (String × Dict)

-- the store's answer
unfoldable pub spent_answer : Prepared → Exc Bool → Exc Prepared
spent_answer g (ok true) = ok g
spent_answer g (ok false) = refuse "token already spent (replay)"
spent_answer g (raise (Exn.spent_store_unavailable e)) =
    refuse ("spent-store unavailable, refusing (fail-closed): " ⧺ e)
spent_answer g (raise e) = raise e

-- The spend, which only a call that the gates let through comes to.
unfoldable pub spend : (S : SpentStore) → Exc Prepared → S.State → Exc Prepared × S.State
spend S (ok g) s = (spent_answer g (S.try_spend g.token s).0, (S.try_spend g.token s).1)
spend S (raise e) s = (raise e, s)

-- `_prepare`: the gates, then the spend.
unfoldable pub prepare :
    (S : SpentStore)
    → Runtime
    → String
    → ℕ
    → Dict
    → Presented
    → Table Tool
    → S.State
    → Exc Prepared × S.State
prepare S R pub_key now action p tools s = spend S (gates R pub_key now action p tools) s

-- a field of what may be a decision
abbrev decision_field : String → Value → Value → Value
decision_field k v (Value.dict d) = get_default k v d
decision_field k v _ = v

-- The capability that the audit names: the decision's, or the action's own.
unfoldable pub audited_capability : Runtime → Dict → Value → Value
audited_capability R action decision =
    or_value (some (decision_field "capability" Value.null decision)) (
      get_or_else "capability"
        (if truthy (get_default "tool" Value.null action)
          then Value.str ("tool:" ⧺ text R (get_default "tool" Value.null action))
          else Value.null)
        action)

-- `(cap or "").split("tool:")[-1] if cap else ""`
unfoldable pub audited_tool : Runtime → Value → Exc String
audited_tool R (Value.str s) = ok (last_part "tool:" s)
audited_tool R v =
    if truthy v then raise (Exn.foreign "AttributeError" (R.error_text "AttributeError")) else ok ""

abbrev refused_reason : Runtime → Value → String → Value
refused_reason R reason e =
    if truthy reason
    then Value.str (text R reason ⧺ " [refused: " ⧺ e ⧺ "]")
    else Value.str ("refused: " ⧺ e)

-- The line of a refusal, and that of an effect.
unfoldable pub refusal_line : Runtime → Dict → Presented → String → String → AuditLine
refusal_line R action p tool e = record {
  actor = get_default "actor" (Value.str "") action;
  tool = tool;
  verdict = decision_field "verdict" (Value.str "") p.decision;
  reason = refused_reason R (decision_field "reason" (Value.str "") p.decision) e;
  executed = some false;
  payload_digest = none;
}

unfoldable pub effect_line : Runtime → Dict → Presented → String → Dict → AuditLine
effect_line R action p tool payload = record {
  actor = get_default "actor" (Value.str "") action;
  tool = tool;
  verdict = decision_field "verdict" (Value.str "") p.decision;
  reason = decision_field "reason" (Value.str "") p.decision;
  executed = some true;
  payload_digest = some (payload_digest R payload);
}

module _ (S : SpentStore) (A : AuditSink) where
  -- the effect, once its line is written
  unfoldable pub run_effect : Prepared → Exc (Unit {0}) → State S A → Exc Value × State S A
  run_effect g (raise e) s = (raise e, s)
  run_effect g (ok _) s =
      (unguarded (g.fn g.payload), record s { effects = s.effects ++ (g.tool, g.payload) ∷ [] })

  abbrev refused_after : String → Exc (Unit {0}) → Exc Value
  refused_after e (raise f) = raise f
  refused_after e (ok _) = raise (Exn.execution_refused e)

  -- What follows the outcome of `_prepare`, the refusal's handler included.
  unfoldable pub settle :
      Runtime → Dict → Presented → String → Exc Prepared → State S A → Exc Value × State S A
  settle R action p tool (ok g) s =
      let (written, a) = A.write (effect_line R action p tool g.payload) s.audit in
      run_effect g written (record s { audit = a })
  settle R action p tool (raise (Exn.execution_refused e)) s =
      let (written, a) = A.write (refusal_line R action p tool e) s.audit in
      (refused_after e written, record s { audit = a })
  settle R action p tool (raise e) s = (raise e, s)

  unfoldable pub attempt :
      Runtime
      → String
      → ℕ
      → Dict
      → Presented
      → Table Tool
      → String
      → State S A
      → Exc Value × State S A
  attempt R pub_key now action p tools tool s =
      let (outcome, spent) = prepare S R pub_key now action p tools s.spent in
      settle R action p tool outcome (record s { spent = spent })

  unfoldable pub execute_as :
      Runtime
      → String
      → ℕ
      → Dict
      → Presented
      → Table Tool
      → Exc String
      → State S A
      → Exc Value × State S A
  execute_as R pub_key now action p tools (ok tool) s = attempt R pub_key now action p tools tool s
  execute_as R pub_key now action p tools (raise e) s = (raise e, s)

  unfoldable pub execute :
      Runtime → String → ℕ → Dict → Presented → Table Tool → State S A → Exc Value × State S A
  execute R pub_key now action p tools s =
      execute_as R pub_key now action p tools
        (audited_tool R (audited_capability R action p.decision)) s
