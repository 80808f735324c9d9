-- ===== src/Paradigm/Perpendicular.antt =====
-- paradigm.py: an effect of the pipeline is both legitimate and authorized.
use decision_os_min.Prelude.{
  ℕ, String, ◌≡◌, true, Option, none, some, List, [], ◌∷◌, inl, inr, ◌⊎◌, Table, Bool-cases, sym,
  ap, subst, All, ◌∙◌,
}
use decision_os_min.Py.{Value, Dict, get, truthy}
use decision_os_min.Py.Exc.{ok, ok_of_bind, ok_inj}
use decision_os_min.Py.Runtime.{Runtime}
use decision_os_min.Py.Plugin.{Ran, returned, raised, based, closed, silent, is_timeout}
use decision_os_min.Compose.{is_permitting, verdict_of, normalize, normalize_text, deny}
use decision_os_min.Compose.Output.{output_verdict}
use decision_os_min.Evaluators.{ruling, legitimacy}
use decision_os_min.Evaluators.VetoOnly.{legitimacy-permits}
use decision_os_min.AuthorityPdp.{CanonicalAuthorityResult}
use decision_os_min.Kernel.{Moment, Ruling, decide, canonical, evaluate, settled}
use decision_os_min.Kernel.Composed.{outputs}
use decision_os_min.SpentStore.{SpentStore}
use decision_os_min.Execute.{AuditSink, Tool}
use decision_os_min.System.{DecisionOs}
use decision_os_min.System.Agreed.{handle-IsAgreed}
use decision_os_min.Paradigm.{Policy, pipeline_request, pipeline_handle}

-- A denial permits nothing.
denial-denies :
    {C : Type 0} (r out : Value)
    → ok (ruling (Value.str deny) r) ≡ ok out
    → is_permitting (output_verdict out) ≡ true
    → C
unfolding output_verdict verdict_of normalize normalize_text is_permitting get
denial-denies r out h p =
    let denied = ap (λ v. is_permitting (output_verdict v)) (ok_inj h) ∙ p in absurd cc

-- An output that permits is what the evaluator returned.
settled-permits :
    (bound : Option String) (o : Ran Value) (out : Value)
    → settled bound o ≡ ok out
    → is_permitting (output_verdict out) ≡ true
    → o ≡ returned out
unfolding settled
settled-permits bound (returned v) out h p = ap returned (ok_inj h)
settled-permits none (raised c t) out h p = denial-denies _ out h p
settled-permits (some s) (raised c t) out h p = elim (Bool-cases (is_timeout c)) [
  | inl e ↦ denial-denies _ out (rw e at h) p
  | inr e ↦ denial-denies _ out (rw e at h) p
]
settled-permits bound (based c t) out h p = denial-denies _ out h p
settled-permits bound closed out h p = absurd cc
settled-permits none silent out h p = absurd cc
settled-permits (some s) silent out h p = denial-denies _ out h p

module _ (S : SpentStore) (A : AuditSink) (R : Runtime) (policy : Policy) (m : Moment) (now : ℕ)
    (action : Dict) (tools : Table Tool) (s : DecisionOs S A) where
  -- Both questions are answered with yes.
  pub record IsLegitimate : Type 0 where
    pub fine : Value
    pub reason : Value
    pub is_answered : policy action ≡ returned (fine, reason)
    pub is_fine : truthy fine ≡ true

  one_output :
      (bound : Option String) (outs : List Value)
      → outputs bound action (legitimacy policy ∷ []) ≡ ok outs
      → All (λ v. is_permitting (output_verdict v) ≡ true) outs
      → IsLegitimate
  unfolding outputs
  one_output bound outs h permits =
      ok_of_bind (settled bound (legitimacy policy action)) _ h λ out e rest.
        let first =
          (subst (λ os. All (λ v. is_permitting (output_verdict v) ≡ true) os) (sym (ok_inj rest))
            permits).0 in
        let (fine, reason, answered, is_fine) =
          legitimacy-permits policy action out
            (settled-permits bound (legitimacy policy action) out e first) first in
        record { fine = fine; reason = reason; is_answered = answered; is_fine = is_fine }

  -- Where the canonical text of a ruling keeps its verdict, the pipeline leaves the effects as they
  -- were, or the policy found the action legitimate and the authority's ruling permits it: neither
  -- question is answered for the other.
  pub pipeline_handle-both :
      ((r : Ruling) (e : Dict)
        → decide R s.kernel m (pipeline_request (some policy)) action ≡ ok r
        → R.loads (canonical R r.decision) ≡ some (Value.dict e)
        → get "verdict" e ≡ get "verdict" r.decision)
      → ((pipeline_handle S A R (some policy) m now action tools s).1.executor.effects
          ≡ s.executor.effects)
        ⊎ IsLegitimate
          × (first : Dict) × (threat : Option String) × (r : CanonicalAuthorityResult) × (evaluate R
                s.kernel m.asked_at s.kernel.authority_timeout threat action
              ≡ ok (first, r))
          × (is_permitting (verdict_of first) ≡ true)
  unfolding pipeline_handle
  pipeline_handle-both keeps =
      elim (handle-IsAgreed S A R m (pipeline_request (some policy)) now action tools s keeps) [
        | inl same ↦ inl same
        | inr i ↦ inr (
          one_output _ i.outs i.are_outputs i.are_permitting,
          i.first,
          i.threat,
          i.authority,
          i.is_evaluated,
          i.is_permitted,
        )
      ]
