-- ===== src/Govern/Governed.antt =====
-- govern.py: what a call of a governed tool did, by how it ended.
use decision_os_min.Prelude.{
  ℕ, String, ◌≡◌, refl, sym, ap, ◌∙◌, Bool, true, false, List, [], ◌∷◌, ◌++◌,
}
use decision_os_min.Py.{Value, Dict}
use decision_os_min.Py.Exc.{Exc, ok, raise, ok_inj}
use decision_os_min.Py.Runtime.{Runtime}
use decision_os_min.Py.Plugin.{unguarded}
use decision_os_min.Evaluators.{Evaluator}
use decision_os_min.Kernel.{Moment, Ruling}
use decision_os_min.SpentStore.{SpentStore}
use decision_os_min.Execute.{AuditSink, Prepared}
use decision_os_min.Execute.Gates.{IsCleared}
use decision_os_min.System.{DecisionOs, Outcome, presented_of, handle}
use decision_os_min.System.Outcomes.{IsTrue, handle-IsTrue}
use decision_os_min.Govern.{
  GovernedTool, governed_action, governed_request, governed_tools, output_or_null, result_of,
  result_if, governed,
}

module _ (S : SpentStore) (A : AuditSink) (R : Runtime) (t : GovernedTool)
    (evaluators : List Evaluator) (actor digits : String) (m : Moment) (now : ℕ) (payload : Dict)
    (s : DecisionOs S A) where
  -- A call that returned `v`, and left `s'`.
  pub record HasReturned (v : Value) (s' : DecisionOs S A) : Type 0 where
    pub ruling : Ruling
    pub prepared : Prepared
    pub is_cleared :
        IsCleared R
          (R.public_key s.kernel.key)
          now
          (governed_action t actor digits payload)
          (presented_of ruling)
          (governed_tools t)
          prepared
    pub is_output : unguarded (prepared.fn prepared.payload) ≡ ok v
    pub one_effect :
        s'.executor.effects ≡ s.executor.effects ++ (prepared.tool, prepared.payload) ∷ []

  executed-ok :
      (b : Bool) (o : Outcome) (v : Value)
      → result_if R b o ≡ ok v
      → (b ≡ true) × (output_or_null o.output ≡ v)
  executed-ok true o v h = (refl, ok_inj h)
  executed-ok false o v h = absurd cc

  returned_of :
      (o : Outcome) (v : Value) (s' : DecisionOs S A)
      → (o.executed ≡ true) × (output_or_null o.output ≡ v)
      → IsTrue S A R m
          (governed_request evaluators)
          now
          (governed_action t actor digits payload)
          (governed_tools t)
          s
          o
          s'.executor
      → HasReturned v s'
  returned_of o v s' (done, same) (IsTrue.refused never _) = absurd cc
  returned_of o v s' (done, same) (IsTrue.tool_refused _ _ _ never _ _ _) = absurd cc
  returned_of o v s' (done, same) (IsTrue.ran ruling g w _ clear _ output ended one) = record {
    ruling = ruling;
    prepared = g;
    is_cleared = clear;
    is_output = ended ∙ ap ok (ap output_or_null (sym output) ∙ same);
    one_effect = one;
  }

  -- A governed tool returns a value only where the system carried the call out: its decision was
  -- cleared for the call's own action, the tool ran once, and the value is what it returned.
  pub governed-HasReturned :
      (v : Value)
      → (governed S A R t evaluators actor digits m now payload s).0 ≡ ok v
      → HasReturned v (governed S A R t evaluators actor digits m now payload s).1
  unfolding governed result_of
  governed-HasReturned v =
      by_outcome
        (handle S A R m (governed_request evaluators) now (governed_action t actor digits payload)
          (governed_tools t) s).0
        refl
    where
      by_outcome :
          (o : Exc Outcome)
          → (handle S A R m
              (governed_request evaluators)
              now
              (governed_action t actor digits payload)
              (governed_tools t)
              s).0
            ≡ o
          → result_of R o ≡ ok v
          → HasReturned v
              (handle S A R m
                (governed_request evaluators)
                now
                (governed_action t actor digits payload)
                (governed_tools t)
                s).1
      by_outcome (raise e) same h = absurd cc
      by_outcome (ok o) same h =
          returned_of o v
            (handle S A R m (governed_request evaluators) now
              (governed_action t actor digits payload) (governed_tools t) s).1
            (executed-ok o.executed o v h)
            (handle-IsTrue S A R m (governed_request evaluators) now
              (governed_action t actor digits payload) (governed_tools t) s o same)
