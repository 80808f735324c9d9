-- ===== src/Execute/Once.antt =====
-- execute.py: over any sequence of calls, one signed decision has at most one effect.
use decision_os_min.Prelude.{
  ℕ, String, ◌≡◌, ◌≢◌, refl, ap, subst, true, some, List, [], ◌∷◌, arith, Table,
}
use decision_os_min.Py.{Value, Dict, get}
use decision_os_min.Py.Exc.{Exc, ok, raise, Exn}
use decision_os_min.Py.Runtime.{Runtime}
use decision_os_min.SpentStore.{SpentStore, IsAtomic}
use decision_os_min.Execute.Checks.{Presented, Tool, Prepared, gates}
use decision_os_min.Execute.Defs.{
  AuditSink, State, spend, prepare, settle, run_effect, attempt, audited_capability, audited_tool,
  execute_as, execute,
}
use decision_os_min.Kernel.{canonical}
use decision_os_min.Execute.Gates.{IsCleared}
use decision_os_min.Execute.Audited.{Accounted, execute-Accounted}

-- The arguments of one call, the decision apart.
pub record Call : Type 0 where
  pub now : ℕ
  pub action : Dict
  pub presented : Presented
  pub tools : Table Tool

module _ (S : SpentStore) (A : AuditSink) (R : Runtime) (key : String) where
  -- the state that a call leaves, and that a sequence of calls leaves
  unfoldable pub after : Call → State S A → State S A
  after c s = (execute S A R key c.now c.action c.presented c.tools s).1

  unfoldable pub run : List Call → State S A → State S A
  run [] s = s
  run (c ∷ cs) s = run cs (after c s)

  same_decision :
      {p q : Presented} {c d e f : Dict}
      → p ≡ q
      → p.decision ≡ Value.dict c
      → q.decision ≡ Value.dict d
      → R.loads (canonical R c) ≡ some (Value.dict e)
      → R.loads (canonical R d) ≡ some (Value.dict f)
      → e ≡ f
  same_decision {p = p} {q = q} {c = c} {d = d} same is_c is_d is_e is_f =
      let decided : p.decision ≡ q.decision = ap (λ r. r.decision) same in
      let equal : c ≡ d = cc in
      let loaded : R.loads (canonical R c) ≡ R.loads (canonical R d) = rw equal refl in cc

  same_text :
      (k : String) {d e : Dict} {t u : String}
      → d ≡ e
      → get k d ≡ some (Value.str t)
      → get k e ≡ some (Value.str u)
      → t ≡ u
  same_text k same is_t is_u = cc

  same_token :
      {a b : ℕ} {x y : Dict} {p q : Presented} {t u : Table Tool} (g h : Prepared)
      → p ≡ q
      → IsCleared R key a x p t g
      → IsCleared R key b y q u h
      → g.token ≡ h.token
  same_token g h same c d =
      same_text "token_id"
        (same_decision same c.is_presented d.is_presented c.is_frozen d.is_frozen) c.has_token
        d.has_token

  module _ (I : IsAtomic S) where
    settle-spent :
        (action : Dict) (p : Presented) (tool : String) (o : Exc Prepared) (s : State S A)
        → (settle S A R action p tool o s).1.spent ≡ s.spent
    unfolding settle run_effect
    settle-spent action p tool (ok g) s = ground arith
    settle-spent action p tool (raise (Exn.execution_refused e)) s = refl
    settle-spent action p tool (raise e) s = refl

    spend-kept :
        (o : Exc Prepared) (j : String) (s : S.State)
        → I.is_spent s j ≡ true
        → I.is_spent (spend S o s).1 j ≡ true
    unfolding spend
    spend-kept (ok g) j s h = I.kept g.token j s h
    spend-kept (raise e) j s h = h

    pub after-kept :
        (c : Call) (j : String) (s : State S A)
        → I.is_spent s.spent j ≡ true
        → I.is_spent (after c s).spent j ≡ true
    unfolding after execute execute_as attempt prepare
    after-kept c j s h =
        as_named (audited_tool R (audited_capability R c.action c.presented.decision))
      where
        as_named :
            (o : Exc String)
            → I.is_spent (execute_as S A R key c.now c.action c.presented c.tools o s).1.spent j
              ≡ true
        as_named (raise e) = h
        as_named (ok tool) =
            rw settle-spent
              (spend-kept (gates R key c.now c.action c.presented c.tools) j s.spent h)

    run-kept :
        (cs : List Call) (j : String) (s : State S A)
        → I.is_spent s.spent j ≡ true
        → I.is_spent (run cs s).spent j ≡ true
    unfolding run
    run-kept [] j s h = h
    run-kept (c ∷ cs) j s h = run-kept cs j (after c s) (after-kept c j s h)

    -- A call that had an effect was cleared and left its token spent.
    effect-spends :
        (c : Call) (s : State S A)
        → (after c s).effects ≢ s.effects
        → (g : Prepared) × IsCleared R key c.now c.action c.presented c.tools g
          × (I.is_spent (after c s).spent g.token ≡ true)
    unfolding after
    effect-spends c s h = elim (execute-Accounted S A R key c.now c.action c.presented c.tools s) [
      | Accounted.passed _ _ _ _ same ↦ absurd (h same)
      | Accounted.refused _ _ _ _ _ _ same ↦ absurd (h same)
      | Accounted.unwritten _ _ _ _ _ _ _ _ same ↦ absurd (h same)
      | Accounted.ran g _ clear first _ _ _ _ spent ↦
          (g, clear, rw spent (I.first g.token s.spent first).1)
    ]

    -- At a state in which the token is spent, a call has no effect.
    spent-blocks :
        (c : Call) (s : State S A)
        → ((g : Prepared)
            → IsCleared R key c.now c.action c.presented c.tools g
            → I.is_spent s.spent g.token ≡ true)
        → (after c s).effects ≡ s.effects
    unfolding after
    spent-blocks c s h = elim (execute-Accounted S A R key c.now c.action c.presented c.tools s) [
      | Accounted.passed _ _ _ _ same ↦ same
      | Accounted.refused _ _ _ _ _ _ same ↦ same
      | Accounted.unwritten _ _ _ _ _ _ _ _ same ↦ same
      | Accounted.ran g _ clear first _ _ _ _ _ ↦
          absurd (I.replay g.token s.spent (h g clear) first)
    ]

    -- On an atomic spent store, once a signed decision has had its effect, no later call with it
    -- has one, whatever calls come between.
    pub execute-once :
        (c d : Call) (between : List Call) (s : State S A)
        → c.presented ≡ d.presented
        → (after c s).effects ≢ s.effects
        → (after d (run between (after c s))).effects ≡ (run between (after c s)).effects
    execute-once c d between s same h =
        let (g, clear, spent) = effect-spends c s h in
        spent-blocks d (run between (after c s)) λ f clear'.
          subst (λ t. I.is_spent (run between (after c s)).spent t ≡ true)
            (same_token g f same clear clear') (run-kept between g.token (after c s) spent)
