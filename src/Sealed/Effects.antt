-- ===== src/Sealed/Effects.antt =====
-- sealed.py: the effect of a call of `invoke` whose ticket is spent.
use decision_os_min.Prelude.{
  String, ◌⧺◌, ◌≡◌, inl, inr, ◌⊎◌, refl, ◌∙◌, Bool, true, false, Option, none, some, List, [], ◌∷◌,
  ◌++◌, arith,
}
use decision_os_min.Py.{Value, Dict, get_default}
use decision_os_min.Py.Exc.{Exc, ok, raise}
use decision_os_min.Py.Runtime.{Runtime}
use decision_os_min.Compose.{in_permitting}
use decision_os_min.Kernel.{Ruling, decide, verify}
use decision_os_min.SpentStore.{SpentStore}
use decision_os_min.Execute.{AuditSink, Prepared, State, execute}
use decision_os_min.Execute.Gates.{IsCleared}
use decision_os_min.Execute.Audited.{Accounted, execute-Accounted}
use decision_os_min.System.{presented_of, refusal_of}
use decision_os_min.Sealed.ToolRegistry.{Callable}
use decision_os_min.Sealed.Legitimacy.{LegitimacyPolicy}
use decision_os_min.Sealed.Armed.{check_arm, tool_table, execute_armed, sealed_execute}
use decision_os_min.Sealed.Defs.{SealedRuntime, Invocation, Reading}
use decision_os_min.Sealed.Checks.{binding_of, expected_binding, check_ruling}
use decision_os_min.Sealed.Emission.{axioms_of, emit}
use decision_os_min.Sealed.Invoke.{
  refused, finish, armed_tools, arm_of, run_armed, after_decide, request_of,
}
use decision_os_min.Sealed.Screened.{equals-eq}

-- What the checks on the ruling establish.
pub record IsBoundRuling (R : Runtime) (key : String) (ruling : Ruling) : Type 0 where
  pub is_bound :
      in_permitting (get_default "verdict" Value.null ruling.decision) ≡ ok true
      → binding_of ruling.decision ≡ Value.str (expected_binding R ruling.decision)
  pub is_verified : verify R ruling.decision ruling.signature key ≡ true

module _ (S : SpentStore) (A : AuditSink) (R : Runtime) (policy : LegitimacyPolicy) (c : Reading)
    (v : Invocation) where
  emit-effects :
      (action : Dict) (ruling : Ruling) (done : Bool) (output : Value) (note : String)
      (axioms : Exc (List Value)) (s : SealedRuntime S A)
      → (emit S A R c v action ruling done output note axioms s).1.stores.effects ≡ s.stores.effects
  unfolding emit
  emit-effects action ruling done output note (ok axioms) s = refl
  emit-effects action ruling done output note (raise e) s = refl

  finish-effects :
      (action : Dict) (ruling : Ruling) (out : Exc Value) (s : SealedRuntime S A)
      → (finish S A R c v action ruling out s).1.stores.effects ≡ s.stores.effects
  unfolding finish refused
  finish-effects action ruling (ok output) s =
      emit-effects action ruling true output "PERMIT+execute" (axioms_of R ruling) s
  finish-effects action ruling (raise e) s = by_refusal (refusal_of e)
    where
      by_refusal :
          (t : Option String)
          → (refused S A R c v action ruling e t s).1.stores.effects ≡ s.stores.effects
      by_refusal none = refl
      by_refusal (some t) =
          emit-effects action ruling false Value.null ("PEP:" ⧺ t) (axioms_of R ruling) s

  -- The effect of a call, once its ticket is spent.
  pub record HasRun (fn : Callable) (action : Dict) (s t : SealedRuntime S A) : Type 0 where
    pub ruling : Ruling
    pub is_decided : decide R s.kernel c.decided_at (request_of R policy) action ≡ ok ruling
    pub is_bound : IsBoundRuling R (R.public_key s.kernel.key) ruling
    pub prepared : Prepared
    pub is_cleared :
        IsCleared R
          (R.public_key s.kernel.key)
          c.executed_at
          action
          (presented_of ruling)
          (tool_table (armed_tools c v fn))
          prepared
    pub is_first : (S.try_spend prepared.token s.stores.spent).0 ≡ ok true
    pub one_effect : t.stores.effects ≡ s.stores.effects ++ (prepared.tool, prepared.payload) ∷ []

  bound-ruling :
      (s : SealedRuntime S A) (ruling : Ruling)
      → check_ruling R s.kernel ruling ≡ ok tt
      → IsBoundRuling R (R.public_key s.kernel.key) ruling
  unfolding check_ruling
  bound-ruling s ruling h = record {
    is_bound = λ permits. ground (
      arith,
      permits,
      equals-eq (binding_of ruling.decision) (expected_binding R ruling.decision),
    );
    is_verified = ground arith;
  }

  -- The executor has at most one effect, and only for the decision that it was armed with.
  ran :
      (fn : Callable) (action : Dict) (ruling : Ruling) (s t : SealedRuntime S A)
      → decide R s.kernel c.decided_at (request_of R policy) action ≡ ok ruling
      → check_ruling R s.kernel ruling ≡ ok tt
      → Accounted S A R
          (R.public_key s.kernel.key)
          c.executed_at
          action
          (presented_of ruling)
          (tool_table (armed_tools c v fn))
          s.stores
          (execute S A R
            (R.public_key s.kernel.key)
            c.executed_at
            action
            (presented_of ruling)
            (tool_table (armed_tools c v fn))
            s.stores)
      → t.stores.effects
        ≡ (execute S A R
            (R.public_key s.kernel.key)
            c.executed_at
            action
            (presented_of ruling)
            (tool_table (armed_tools c v fn))
            s.stores).1.effects
      → (t.stores.effects ≡ s.stores.effects) ⊎ HasRun fn action s t
  ran fn action ruling s t d b (Accounted.passed _ _ _ _ same) e = inl (e ∙ same)
  ran fn action ruling s t d b (Accounted.refused _ _ _ _ _ _ same) e = inl (e ∙ same)
  ran fn action ruling s t d b (Accounted.unwritten _ _ _ _ _ _ _ _ same) e = inl (e ∙ same)
  ran fn action ruling s t d b (Accounted.ran g _ clear first _ _ _ one _) e = inr record {
    ruling = ruling;
    is_decided = d;
    is_bound = bound-ruling s ruling b;
    prepared = g;
    is_cleared = clear;
    is_first = first;
    one_effect = e ∙ one;
  }

  -- the state that the executor's outcome leads to
  abbrev ended :
      Callable → Dict → Ruling → Exc Value × State S A → SealedRuntime S A → SealedRuntime S A
  ended fn action ruling out s =
      (finish S A R c v action ruling out.0 (record s { arm = none; stores = out.1 })).1

  abbrev armed :
      Callable → Dict → Ruling → Exc (Unit {0}) → SealedRuntime S A → Exc Value × State S A
  armed fn action ruling o s =
      execute_armed S A R (R.public_key s.kernel.key) c.executed_at action (presented_of ruling)
        (armed_tools c v fn) o s.stores

  ended-HasRun :
      (fn : Callable) (action : Dict) (ruling : Ruling) (o : Exc (Unit {0})) (s : SealedRuntime S A)
      → decide R s.kernel c.decided_at (request_of R policy) action ≡ ok ruling
      → check_ruling R s.kernel ruling ≡ ok tt
      → ((ended fn action ruling (armed fn action ruling o s) s).stores.effects ≡ s.stores.effects)
        ⊎ HasRun fn action s (ended fn action ruling (armed fn action ruling o s) s)
  unfolding execute_armed
  ended-HasRun fn action ruling (raise e) s d b =
      inl (finish-effects action ruling (raise e) (record s { arm = none }))
  ended-HasRun fn action ruling (ok _) s d b =
      let out =
        execute S A R (R.public_key s.kernel.key) c.executed_at action (presented_of ruling)
          (tool_table (armed_tools c v fn)) s.stores in
      ran fn action ruling s (ended fn action ruling out s) d b
        (execute-Accounted S A R (R.public_key s.kernel.key) c.executed_at action
          (presented_of ruling) (tool_table (armed_tools c v fn)) s.stores)
        (finish-effects action ruling out.0 (record s { arm = none; stores = out.1 }))

  pub after_decide-HasRun :
      (fn : Callable) (action : Dict) (o : Exc Ruling) (s : SealedRuntime S A)
      → decide R s.kernel c.decided_at (request_of R policy) action ≡ o
      → ((after_decide S A R c v fn action o s).1.stores.effects ≡ s.stores.effects)
        ⊎ HasRun fn action s (after_decide S A R c v fn action o s).1
  unfolding after_decide run_armed sealed_execute
  after_decide-HasRun fn action (raise e) s d = inl refl
  after_decide-HasRun fn action (ok ruling) s d = by_check (check_ruling R s.kernel ruling) refl
    where
      by_check :
          (w : Exc (Unit {0}))
          → check_ruling R s.kernel ruling ≡ w
          → ((run_armed S A R c v fn action ruling w s).1.stores.effects ≡ s.stores.effects)
            ⊎ HasRun fn action s (run_armed S A R c v fn action ruling w s).1
      by_check (raise e) b = inl refl
      by_check (ok _) b =
          ended-HasRun fn action ruling
            (check_arm (some (arm_of R c v fn ruling)) (presented_of ruling) (armed_tools c v fn)) s
            d b
