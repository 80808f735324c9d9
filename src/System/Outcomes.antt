-- ===== src/System/Outcomes.antt =====
-- `DecisionOS.handle`: the outcome tells what was done.
use decision_os_min.Prelude.{
  ℕ, String, ◌≡◌, refl, true, false, Option, none, some, [], ◌∷◌, ◌++◌, Table, sym, ap,
}
use decision_os_min.Py.{Value, Dict}
use decision_os_min.Py.Exc.{Exc, ok, raise, Exn, ok_of_bind, ok_inj}
use decision_os_min.Py.Runtime.{Runtime}
use decision_os_min.Py.Plugin.{unguarded}
use decision_os_min.Kernel.{Moment, Request, Ruling, decide}
use decision_os_min.SpentStore.{SpentStore}
use decision_os_min.Execute.{AuditSink, Tool, Prepared, State, field, execute}
use decision_os_min.Execute.Gates.{IsCleared}
use decision_os_min.Execute.Audited.{Accounted, execute-Accounted}
use decision_os_min.System

module _ (S : SpentStore) (A : AuditSink) (R : Runtime) (m : Moment) (q : Request) (now : ℕ)
    (action : Dict) (tools : Table Tool) (s : System.DecisionOs S A) where
  -- What an outcome that was returned says of the effects.
  pub data IsTrue (o : System.Outcome) (after : State S A) : Type 0 where
    -- executed: one effect, of a cleared call, and its output
    ran :
        (ruling : Ruling) (g : Prepared) (v : Value)
        → decide R s.kernel m q action ≡ ok ruling
        → IsCleared R (R.public_key s.kernel.key) now action (System.presented_of ruling) tools g
        → o.executed ≡ true
        → o.output ≡ some v
        → unguarded (g.fn g.payload) ≡ ok v
        → after.effects ≡ s.executor.effects ++ (g.tool, g.payload) ∷ []
        → IsTrue o after
    -- not executed, and no effect
    refused : o.executed ≡ false → after.effects ≡ s.executor.effects → IsTrue o after
    -- reported as refused because the tool itself raised a refusal, after its effect began
    tool_refused :
        (g : Prepared) (e : Exn) (why : String)
        → o.executed ≡ false
        → unguarded (g.fn g.payload) ≡ raise e
        → System.refusal_of e ≡ some why
        → after.effects ≡ s.executor.effects ++ (g.tool, g.payload) ∷ []
        → IsTrue o after

  outcome_of-raise :
      (d : Dict) (e : Exn) (o : System.Outcome)
      → System.outcome_of R d (raise e) ≡ ok o
      → (why : String) × (System.refusal_of e ≡ some why) × (o.executed ≡ false)
  unfolding System.outcome_of
  outcome_of-raise d e o h = by_refusal (System.refusal_of e) h refl
    where
      by_refusal :
          (t : Option String)
          → System.refused_or R d e t ≡ ok o
          → System.refusal_of e ≡ t
          → (why : String) × (System.refusal_of e ≡ some why) × (o.executed ≡ false)
      by_refusal none h same = absurd cc
      by_refusal (some why) h same =
          ok_of_bind (field "verdict" d) _ h
            λ verdict _ rest. (why, same, sym (ap (λ x. x.executed) (ok_inj rest)))

  outcome_of-ok :
      (d : Dict) (v : Value) (o : System.Outcome)
      → System.outcome_of R d (ok v) ≡ ok o
      → (o.executed ≡ true) × (o.output ≡ some v)
  unfolding System.outcome_of
  outcome_of-ok d v o h = ok_of_bind (field "verdict" d) _ h λ verdict _ rest.
      (sym (ap (λ x. x.executed) (ok_inj rest)), sym (ap (λ x. x.output) (ok_inj rest)))

  told :
      (ruling : Ruling) (o : System.Outcome) (out : Exc Value × State S A)
      → decide R s.kernel m q action ≡ ok ruling
      → System.outcome_of R ruling.decision out.0 ≡ ok o
      → Accounted S A R
          (R.public_key s.kernel.key)
          now
          action
          (System.presented_of ruling)
          tools
          s.executor
          out
      → IsTrue o out.1
  told ruling o out d h (Accounted.passed e _ is_raise _ same) =
      refused (outcome_of-raise ruling.decision e o (rw is_raise at h)).2 same
  told ruling o out d h (Accounted.refused _ _ f is_raise _ _ same) =
      refused (outcome_of-raise ruling.decision f o (rw is_raise at h)).2 same
  told ruling o out d h (Accounted.unwritten _ _ e _ _ _ is_raise _ same) =
      refused (outcome_of-raise ruling.decision e o (rw is_raise at h)).2 same
  told ruling o out d h (Accounted.ran g _ clear _ _ ended _ one _) =
      by_end (unguarded (g.fn g.payload)) refl (rw ended at h)
    where
      by_end :
          (r : Exc Value)
          → unguarded (g.fn g.payload) ≡ r
          → System.outcome_of R ruling.decision (unguarded (g.fn g.payload)) ≡ ok o
          → IsTrue o out.1
      by_end (ok v) e k =
          let (executed, output) = outcome_of-ok ruling.decision v o (rw e at k) in
          ran ruling g v d clear executed output e one
      by_end (raise x) e k =
          let (why, named, executed) = outcome_of-raise ruling.decision x o (rw e at k) in
          tool_refused g x why executed e named one

  -- An outcome that `handle` returns tells what was done: executed, with the output of the one
  -- effect of a cleared call; or not executed, with no effect, but where the tool itself raised a
  -- refusal.
  pub handle-IsTrue :
      (o : System.Outcome)
      → (System.handle S A R m q now action tools s).0 ≡ ok o
      → IsTrue o (System.handle S A R m q now action tools s).1.executor
  unfolding System.handle System.carry_out
  handle-IsTrue o = by_ruling (decide R s.kernel m q action) refl
    where
      by_ruling :
          (r : Exc Ruling)
          → decide R s.kernel m q action ≡ r
          → (System.carry_out S A R now action tools r s).0 ≡ ok o
          → IsTrue o (System.carry_out S A R now action tools r s).1.executor
      by_ruling (raise e) d h = absurd cc
      by_ruling (ok ruling) d h =
          told ruling o
            (execute S A R (R.public_key s.kernel.key) now action (System.presented_of ruling) tools
              s.executor)
            d h
            (execute-Accounted S A R (R.public_key s.kernel.key) now action
              (System.presented_of ruling) tools s.executor)
