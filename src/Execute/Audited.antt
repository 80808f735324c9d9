-- ===== src/Execute/Audited.antt =====
-- execute.py: what one call of `execute` leaves behind, on every path.
use decision_os_min.Prelude.{
  ℕ, String, ◌⧺◌, ◌≡◌, refl, Bool, true, false, [], ◌∷◌, ◌++◌, arith, Table,
}
use decision_os_min.Py.{Value, Dict}
use decision_os_min.Py.Exc.{Exc, ok, raise, Exn}
use decision_os_min.Py.Runtime.{Runtime}
use decision_os_min.Py.Plugin.{unguarded}
use decision_os_min.SpentStore.{SpentStore}
use decision_os_min.Execute.Checks.{Presented, Tool, Prepared, gates}
use decision_os_min.Execute.Defs.{
  AuditSink, State, spent_answer, prepare, spend, execute_as, audited_capability, audited_tool,
  refusal_line, effect_line, run_effect, settle, attempt, execute,
}
use decision_os_min.Execute.Gates.{IsCleared, gates-IsCleared}

abbrev pub is_refusal : Exn → Bool
is_refusal (Exn.execution_refused _) = true
is_refusal _ = false

module _ (S : SpentStore) (A : AuditSink) (R : Runtime) (key : String) (now : ℕ) (action : Dict)
    (p : Presented) (tools : Table Tool) (s : State S A) where
  -- How a call that began at `s` may end.
  pub data Accounted (out : Exc Value × State S A) : Type 0 where
    -- an error that is no refusal passes through: no line, no effect
    passed :
        (e : Exn)
        → is_refusal e ≡ false
        → out.0 ≡ raise e
        → out.1.audit ≡ s.audit
        → out.1.effects ≡ s.effects
        → Accounted out
    -- a refusal writes its one line, and has no effect
    refused :
        (e tool : String) (f : Exn)
        → out.0 ≡ raise f
        → out.1.audit ≡ (A.write (refusal_line R action p tool e) s.audit).1
        → ((A.write (refusal_line R action p tool e) s.audit).0 ≡ ok tt
            → out.0 ≡ raise (Exn.execution_refused e))
        → out.1.effects ≡ s.effects
        → Accounted out
    -- cleared and first to spend, but the line could not be written: no effect
    unwritten :
        (g : Prepared) (tool : String) (e : Exn)
        → IsCleared R key now action p tools g
        → (S.try_spend g.token s.spent).0 ≡ ok true
        → (A.write (effect_line R action p tool g.payload) s.audit).0 ≡ raise e
        → out.0 ≡ raise e
        → out.1.audit ≡ (A.write (effect_line R action p tool g.payload) s.audit).1
        → out.1.effects ≡ s.effects
        → Accounted out
    -- cleared, first to spend, one line written, and then the one effect
    ran :
        (g : Prepared) (tool : String)
        → IsCleared R key now action p tools g
        → (S.try_spend g.token s.spent).0 ≡ ok true
        → (A.write (effect_line R action p tool g.payload) s.audit).0 ≡ ok tt
        → out.0 ≡ unguarded (g.fn g.payload)
        → out.1.audit ≡ (A.write (effect_line R action p tool g.payload) s.audit).1
        → out.1.effects ≡ s.effects ++ (g.tool, g.payload) ∷ []
        → out.1.spent ≡ (S.try_spend g.token s.spent).1
        → Accounted out

  settled_ran :
      (g : Prepared) (tool : String) (w : Exc (Unit {0}))
      → gates R key now action p tools ≡ ok g
      → (S.try_spend g.token s.spent).0 ≡ ok true
      → (A.write (effect_line R action p tool g.payload) s.audit).0 ≡ w
      → Accounted
          (settle S A R action p tool (ok g) (record s { spent = (S.try_spend g.token s.spent).1 }))
  unfolding settle run_effect
  settled_ran g tool (ok _) h first e =
      ran g tool (gates-IsCleared R key now action p tools g h) first e (rw e) (rw e) (rw e) (rw e)
  settled_ran g tool (raise f) h first e =
      unwritten g tool f (gates-IsCleared R key now action p tools g h) first e (rw e) (rw e) (rw e)

  settled_refused :
      (e tool : String) (spent : S.State)
      → Accounted (
          settle S A R action p tool (raise (Exn.execution_refused e)) (record s { spent = spent }))
  unfolding settle
  settled_refused e tool spent = by_write (A.write (refusal_line R action p tool e) s.audit).0 refl
    where
      by_write :
          (w : Exc (Unit {0}))
          → (A.write (refusal_line R action p tool e) s.audit).0 ≡ w
          → Accounted (
              settle S A R action p tool
                (raise (Exn.execution_refused e))
                (record s { spent = spent }))
      by_write (ok _) h = refused e tool (Exn.execution_refused e) (rw h) refl (λ w. rw w) refl
      by_write (raise f) h = refused e tool f (rw h) refl (λ w. rw w) refl

  settled_raise :
      (e : Exn) (tool : String) (spent : S.State)
      → Accounted (settle S A R action p tool (raise e) (record s { spent = spent }))
  unfolding settle
  settled_raise (Exn.execution_refused e) tool spent = settled_refused e tool spent
  settled_raise Exn.type_error tool spent = passed Exn.type_error refl refl refl refl
  settled_raise e tool spent = passed e refl refl refl refl

  settled_answer :
      (g : Prepared) (tool : String) (a : Exc Bool)
      → gates R key now action p tools ≡ ok g
      → (S.try_spend g.token s.spent).0 ≡ a
      → Accounted (
          settle S A R action p tool
            (spent_answer g a)
            (record s { spent = (S.try_spend g.token s.spent).1 }))
  unfolding spent_answer
  settled_answer g tool (ok true) h e =
      settled_ran g tool (A.write (effect_line R action p tool g.payload) s.audit).0 h e refl
  settled_answer g tool (ok false) h e =
      settled_refused "token already spent (replay)" tool (S.try_spend g.token s.spent).1
  settled_answer g tool (raise (Exn.spent_store_unavailable f)) h e =
      settled_refused ("spent-store unavailable, refusing (fail-closed): " ⧺ f) tool
        (S.try_spend g.token s.spent).1
  settled_answer g tool (raise f) h e = settled_raise f tool (S.try_spend g.token s.spent).1

  spent_then_settled :
      (tool : String) (o : Exc Prepared)
      → gates R key now action p tools ≡ o
      → Accounted (
          settle S A R action p tool
            (spend S o s.spent).0
            (record s { spent = (spend S o s.spent).1 }))
  unfolding spend
  spent_then_settled tool (ok g) h = settled_answer g tool (S.try_spend g.token s.spent).0 h refl
  spent_then_settled tool (raise e) h = settled_raise e tool s.spent

  attempted : (tool : String) → Accounted (attempt S A R key now action p tools tool s)
  unfolding attempt prepare
  attempted tool = spent_then_settled tool (gates R key now action p tools) refl

  audited_tool-raise : (v : Value) (e : Exn) → audited_tool R v ≡ raise e → is_refusal e ≡ false
  unfolding audited_tool
  audited_tool-raise v e h = ground arith

  executed_as :
      (o : Exc String)
      → audited_tool R (audited_capability R action p.decision) ≡ o
      → Accounted (execute_as S A R key now action p tools o s)
  unfolding execute_as
  executed_as (ok tool) h = attempted tool
  executed_as (raise e) h =
      passed e (audited_tool-raise (audited_capability R action p.decision) e h) refl refl refl

  -- Every call ends in one of four ways: an error that is no refusal, and neither a line nor an
  -- effect; a refusal with its line and no effect; the effect's line refused by the sink, and no
  -- effect; or the gates passed, the token newly spent, the line written, and then the one effect.
  pub execute-Accounted : Accounted (execute S A R key now action p tools s)
  unfolding execute
  execute-Accounted = executed_as (audited_tool R (audited_capability R action p.decision)) refl
