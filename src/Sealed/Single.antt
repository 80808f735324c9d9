-- ===== src/Sealed/Single.antt =====
-- sealed.py: over any sequence of calls of `invoke`, one ticket has at most one effect.
use decision_os_min.Prelude.{
  String, ◌≡◌, ◌≢◌, sym, inl, inr, refl, ◌⧺◌, subst, Bool, true, false, Option, none, some, List,
  [], ◌∷◌,
}
use decision_os_min.Py.{Value, Dict}
use decision_os_min.Py.Exc.{Exc, ok, raise}
use decision_os_min.Py.Runtime.{Runtime}
use decision_os_min.Kernel.{Ruling, decide}
use decision_os_min.SpentStore.{SpentStore, IsAtomic}
use decision_os_min.Execute.{AuditSink, State}
use decision_os_min.Execute.Once.{after, after-kept}
use decision_os_min.System.{presented_of, refusal_of}
use decision_os_min.Sealed.Admission.{body_of, spend_key, spend_ticket, checked_body, consume}
use decision_os_min.Sealed.ToolRegistry.{Callable}
use decision_os_min.Sealed.Legitimacy.{LegitimacyPolicy}
use decision_os_min.Sealed.Armed.{check_arm, tool_table, execute_armed, sealed_execute}
use decision_os_min.Sealed.Defs.{SealedRuntime, Invocation, Reading}
use decision_os_min.Sealed.Checks.{action_of, check_ruling, screened}
use decision_os_min.Sealed.Emission.{axioms_of, emit}
use decision_os_min.Sealed.Invoke.{
  refused, finish, armed_tools, arm_of, run_armed, after_decide, request_of, after_consume,
  after_screen, invoke,
}
use decision_os_min.Sealed.Mediated.{IsMediated, invoke-IsMediated}

-- One call of `invoke`.
pub record Call : Type 0 where
  pub reading : Reading
  pub invocation : Invocation

module _ (S : SpentStore) (A : AuditSink) (R : Runtime) (policy : LegitimacyPolicy) where
  -- the runtime that a call leaves, and that a sequence of calls leaves
  unfoldable pub after_invoke : Call → SealedRuntime S A → SealedRuntime S A
  after_invoke c s = (invoke S A R policy c.reading c.invocation s).1

  unfoldable pub run_all : List Call → SealedRuntime S A → SealedRuntime S A
  run_all [] s = s
  run_all (c ∷ cs) s = run_all cs (after_invoke c s)

  -- What a call leaves as it was: a spent key stays spent, and an executor that is not armed stays so.
  pub record IsKept (I : IsAtomic S) (j : String) (s t : SealedRuntime S A) : Type 0 where
    pub spent : I.is_spent s.stores.spent j ≡ true → I.is_spent t.stores.spent j ≡ true
    pub disarmed : s.arm ≡ none → t.arm ≡ none

  module _ (I : IsAtomic S) (j : String) (c : Reading) (v : Invocation) where
    same : (s : SealedRuntime S A) → IsKept I j s s
    same s = record { spent = λ h. h; disarmed = λ h. h }

    emit-IsKept :
        (action : Dict) (ruling : Ruling) (done : Bool) (output : Value) (note : String)
        (axioms : Exc (List Value)) (s : SealedRuntime S A)
        → IsKept I j s (emit S A R c v action ruling done output note axioms s).1
    unfolding emit
    emit-IsKept action ruling done output note (ok axioms) s = record {
      spent = λ h. h;
      disarmed = λ h. h;
    }
    emit-IsKept action ruling done output note (raise e) s = same s

    finish-IsKept :
        (action : Dict) (ruling : Ruling) (out : Exc Value) (s : SealedRuntime S A)
        → IsKept I j s (finish S A R c v action ruling out s).1
    unfolding finish refused
    finish-IsKept action ruling (ok output) s =
        emit-IsKept action ruling true output "PERMIT+execute" (axioms_of R ruling) s
    finish-IsKept action ruling (raise e) s = by_refusal (refusal_of e)
      where
        by_refusal : (t : Option String) → IsKept I j s (refused S A R c v action ruling e t s).1
        by_refusal none = same s
        by_refusal (some t) =
            emit-IsKept action ruling false Value.null ("PEP:" ⧺ t) (axioms_of R ruling) s

    armed-kept :
        (fn : Callable) (action : Dict) (ruling : Ruling) (o : Exc (Unit {0})) (key : String)
        (s : State S A)
        → I.is_spent s.spent j ≡ true
        → I.is_spent
            (execute_armed S A R key c.executed_at action
              (presented_of ruling)
              (armed_tools c v fn)
              o
              s).1.spent
            j
          ≡ true
    unfolding execute_armed after
    armed-kept fn action ruling (raise e) key s h = h
    armed-kept fn action ruling (ok _) key s h =
        after-kept S A R key I
          (record {
            now = c.executed_at;
            action = action;
            presented = presented_of ruling;
            tools = tool_table (armed_tools c v fn);
          })
          j s h

    run_armed-IsKept :
        (fn : Callable) (action : Dict) (ruling : Ruling) (w : Exc (Unit {0}))
        (s : SealedRuntime S A)
        → IsKept I j s (run_armed S A R c v fn action ruling w s).1
    unfolding run_armed sealed_execute
    run_armed-IsKept fn action ruling (raise e) s = same s
    run_armed-IsKept fn action ruling (ok _) s =
        let o =
          check_arm (some (arm_of R c v fn ruling)) (presented_of ruling) (armed_tools c v fn) in
        let out =
          execute_armed S A R (R.public_key s.kernel.key) c.executed_at action (presented_of ruling)
            (armed_tools c v fn) o s.stores in
        let rest = finish-IsKept action ruling out.0 (record s { arm = none; stores = out.1 }) in
        record {
          spent = λ h.
              rest.spent (armed-kept fn action ruling o (R.public_key s.kernel.key) s.stores h);
          disarmed = λ h. rest.disarmed refl;
        }

    after_decide-IsKept :
        (fn : Callable) (action : Dict) (o : Exc Ruling) (s : SealedRuntime S A)
        → IsKept I j s (after_decide S A R c v fn action o s).1
    unfolding after_decide
    after_decide-IsKept fn action (raise e) s = same s
    after_decide-IsKept fn action (ok ruling) s =
        run_armed-IsKept fn action ruling (check_ruling R s.kernel ruling) s

    after_consume-IsKept :
        (fn : Callable) (o : Exc (Value × Value)) (s : SealedRuntime S A)
        → IsKept I j s (after_consume S A R policy c v fn o s).1
    unfolding after_consume
    after_consume-IsKept fn (raise e) s = same s
    after_consume-IsKept fn (ok (actor, stakeholder)) s =
        after_decide-IsKept fn (action_of c v actor stakeholder)
          (decide R s.kernel c.decided_at (request_of R policy) (action_of c v actor stakeholder)) s

    spend_ticket-kept :
        (o : Exc Dict) (s : S.State)
        → I.is_spent s j ≡ true
        → I.is_spent (spend_ticket S R o s).1 j ≡ true
    unfolding spend_ticket
    spend_ticket-kept (raise e) s h = h
    spend_ticket-kept (ok body) s h = I.kept (spend_key R body) j s h

    after_screen-IsKept :
        (o : Exc Callable) (s : SealedRuntime S A)
        → IsKept I j s (after_screen S A R policy c v o s).1
    unfolding after_screen consume
    after_screen-IsKept (raise e) s = same s
    after_screen-IsKept (ok fn) s =
        let o = checked_body R s.office c.consumed_at v.ticket (some v.agent_id) in
        let (answer, spent) = spend_ticket S R o s.stores.spent in
        let rest =
          after_consume-IsKept fn answer
            (record s { stores = record s.stores { spent = spent } }) in
        record {
          spent = λ h. rest.spent (spend_ticket-kept o s.stores.spent h);
          disarmed = rest.disarmed;
        }

    -- A call of `invoke`, however it ends, forgets no spent key, and leaves an executor that was not
    -- armed not armed.
    pub invoke-IsKept : (s : SealedRuntime S A) → IsKept I j s (invoke S A R policy c v s).1
    unfolding invoke
    invoke-IsKept s = after_screen-IsKept (screened R s.office s.registry s.agents c v) s

  module _ (I : IsAtomic S) where
    run_all-kept :
        (cs : List Call) (j : String) (s : SealedRuntime S A)
        → I.is_spent s.stores.spent j ≡ true
        → I.is_spent (run_all cs s).stores.spent j ≡ true
    unfolding run_all after_invoke
    run_all-kept [] j s h = h
    run_all-kept (c ∷ cs) j s h =
        run_all-kept cs j (after_invoke c s)
          (IsKept.spent (invoke-IsKept I j c.reading c.invocation s) h)

    effect-spends :
        (c : Call) (s : SealedRuntime S A)
        → IsMediated S A R policy c.reading c.invocation s (after_invoke c s)
        → I.is_spent (after_invoke c s).stores.spent (spend_key R (body_of c.invocation.ticket))
          ≡ true
    unfolding after_invoke invoke after_screen consume spend_ticket
    effect-spends c s i =
        let key = spend_key R (body_of c.invocation.ticket) in
        let (answer, spent) = spend_ticket S R (ok (body_of c.invocation.ticket)) s.stores.spent in
        subst
          (λ o.
            I.is_spent (after_screen S A R policy c.reading c.invocation o s).1.stores.spent key
            ≡ true)
          (sym i.is_passed)
          (subst
            (λ o.
              I.is_spent
                (after_consume S A R policy c.reading c.invocation i.fn
                  (spend_ticket S R o s.stores.spent).0
                  (record s {
                    stores = record s.stores { spent = (spend_ticket S R o s.stores.spent).1 };
                  })).1.stores.spent
                key
              ≡ true)
            (sym i.is_checked)
            (IsKept.spent
              (after_consume-IsKept I key c.reading c.invocation i.fn answer
                (record s { stores = record s.stores { spent = spent } }))
              (I.first key s.stores.spent i.is_spent).1))

    -- On an atomic spent store, once a call with a ticket has had its effect, no later call with a
    -- ticket of the same nonce has one, whatever calls come between.
    pub invoke-once :
        (c d : Call) (between : List Call) (s : SealedRuntime S A)
        → spend_key R (body_of c.invocation.ticket) ≡ spend_key R (body_of d.invocation.ticket)
        → (after_invoke c s).stores.effects ≢ s.stores.effects
        → (after_invoke d (run_all between (after_invoke c s))).stores.effects
          ≡ (run_all between (after_invoke c s)).stores.effects
    unfolding after_invoke
    invoke-once c d between s e h = elim (invoke-IsMediated S A R policy c.reading c.invocation s) [
      | inl same ↦ absurd (h same)
      | inr first ↦
          let t = run_all between (after_invoke c s) in
          let key = spend_key R (body_of c.invocation.ticket) in
          let spent = run_all-kept between key (after_invoke c s) (effect-spends c s first) in
          elim (invoke-IsMediated S A R policy d.reading d.invocation t) [
            | inl same ↦ same
            | inr again ↦ absurd (
                I.replay (spend_key R (body_of d.invocation.ticket)) t.stores.spent
                  (subst (λ k. I.is_spent t.stores.spent k ≡ true) e spent) again.is_spent)
          ]
    ]
