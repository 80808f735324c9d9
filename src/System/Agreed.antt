-- ===== src/System/Agreed.antt =====
-- `DecisionOS.handle`: an effect has the authority and every evaluator behind it.
use decision_os_min.Prelude.{
  ℕ, String, ◌≡◌, refl, sym, ap, ◌∙◌, true, Option, some, List, [], ◌∷◌, inl, inr, ◌⊎◌, Table,
  arith, eq_iff, All,
}
use decision_os_min.Py.{Value, Dict, get}
use decision_os_min.Py.Exc.{Exc, ok, raise}
use decision_os_min.Py.Runtime.{Runtime}
use decision_os_min.Compose.{is_permitting, normalize, normalize_text, verdict_of, compose}
use decision_os_min.Compose.Lattice.{is_permitting-compose}
use decision_os_min.Compose.Output.{output_verdict}
use decision_os_min.AuthorityPdp.{CanonicalAuthorityResult}
use decision_os_min.Kernel.{Moment, Request, Ruling, decide, canonical, evaluate, overridden}
use decision_os_min.Kernel.Composed.{
  decide-composes, outputs, verdict_values, normalize-verdict_of, normalize-output_verdict,
}
use decision_os_min.SpentStore.{SpentStore}
use decision_os_min.Execute.{AuditSink, Tool, Prepared}
use decision_os_min.Execute.Gates.{IsCleared}
use decision_os_min.Execute.Audited.{Accounted, execute-Accounted}
use decision_os_min.System

normalize-permitting :
    (v : String) → is_permitting v ≡ true → is_permitting (normalize_text v) ≡ true
unfolding is_permitting normalize_text
normalize-permitting v h = ground (arith, eq_iff v "ALLOW", eq_iff v "LIMIT", eq_iff v "CONTAIN")

permit-values :
    (outs : List Value)
    → All (λ v. is_permitting (normalize v) ≡ true) (verdict_values outs)
    → All (λ v. is_permitting (output_verdict v) ≡ true) outs
unfolding verdict_values
permit-values [] h = tt
permit-values (v ∷ vs) (p, ps) = (rw normalize-output_verdict at p, permit-values vs ps)

dict_inj : {d e : Dict} → Value.dict d ≡ Value.dict e → d ≡ e
dict_inj h = cc

module _ (S : SpentStore) (A : AuditSink) (R : Runtime) (m : Moment) (q : Request) (now : ℕ)
    (action : Dict) (tools : Table Tool) (s : System.DecisionOs S A) where
  -- The authority and every evaluator permit the action.
  pub record IsAgreed : Type 1 where
    pub threat : Option String
    pub first : Dict
    pub authority : CanonicalAuthorityResult
    pub outs : List Value
    pub is_evaluated :
        evaluate R s.kernel m.asked_at
          (overridden q.authority_timeout s.kernel.authority_timeout)
          threat
          action
        ≡ ok (first, authority)
    pub is_permitted : is_permitting (verdict_of first) ≡ true
    pub are_outputs :
        outputs (overridden q.evaluator_timeout s.kernel.evaluator_timeout) action q.evaluators
        ≡ ok outs
    pub are_permitting : All (λ v. is_permitting (output_verdict v) ≡ true) outs

  agreed :
      (ruling : Ruling)
      → decide R s.kernel m q action ≡ ok ruling
      → is_permitting (verdict_of ruling.decision) ≡ true
      → IsAgreed
  agreed ruling d p =
      let (threat, first, authority, outs, _, evaluated, all, same) =
        decide-composes R s.kernel m q action ruling d in
      let composed : is_permitting (compose (Value.str (verdict_of first) ∷ verdict_values outs))
          ≡ true =
        ap is_permitting (sym same) ∙ p in
      let (own, others) =
        (is_permitting-compose (Value.str (verdict_of first) ∷ verdict_values outs)).0 composed in
      record {
        threat = threat;
        first = first;
        authority = authority;
        outs = outs;
        is_evaluated = evaluated;
        is_permitted = ap is_permitting (sym (normalize-verdict_of first)) ∙ own;
        are_outputs = all;
        are_permitting = permit-values outs others;
      }

  cleared-permits :
      (ruling : Ruling) (g : Prepared)
      → ((e : Dict)
          → R.loads (canonical R ruling.decision) ≡ some (Value.dict e)
          → get "verdict" e ≡ get "verdict" ruling.decision)
      → IsCleared R (R.public_key s.kernel.key) now action (System.presented_of ruling) tools g
      → is_permitting (verdict_of ruling.decision) ≡ true
  unfolding verdict_of normalize
  cleared-permits ruling g keeps clear =
      let same = dict_inj clear.is_presented in
      let frozen : R.loads (canonical R ruling.decision) ≡ some (Value.dict clear.decision) =
        ap (λ d. R.loads (canonical R d)) same ∙ clear.is_frozen in
      let verdict : get "verdict" ruling.decision ≡ some (Value.str clear.verdict) =
        sym (keeps clear.decision frozen) ∙ clear.has_verdict in
      rw verdict (normalize-permitting clear.verdict clear.permits)

  -- Where the canonical text of the ruling keeps its verdict, `handle` leaves the effects as they were,
  -- or the authority's own ruling permits, and so does the output of every evaluator.
  pub handle-IsAgreed :
      ((ruling : Ruling) (e : Dict)
        → decide R s.kernel m q action ≡ ok ruling
        → R.loads (canonical R ruling.decision) ≡ some (Value.dict e)
        → get "verdict" e ≡ get "verdict" ruling.decision)
      → ((System.handle S A R m q now action tools s).1.executor.effects ≡ s.executor.effects)
        ⊎ IsAgreed
  unfolding System.handle System.carry_out
  handle-IsAgreed keeps = by_ruling (decide R s.kernel m q action) refl
    where
      by_ruling :
          (r : Exc Ruling)
          → decide R s.kernel m q action ≡ r
          → ((System.carry_out S A R now action tools r s).1.executor.effects ≡ s.executor.effects)
            ⊎ IsAgreed
      by_ruling (raise e) d = inl refl
      by_ruling (ok ruling) d =
          elim (execute-Accounted S A R (R.public_key s.kernel.key) now action
            (System.presented_of ruling) tools s.executor) [
              | Accounted.passed _ _ _ _ same ↦ inl same
              | Accounted.refused _ _ _ _ _ _ same ↦ inl same
              | Accounted.unwritten _ _ _ _ _ _ _ _ same ↦ inl same
              | Accounted.ran g _ clear _ _ _ _ _ _ ↦
                  inr (agreed ruling d (cleared-permits ruling g (λ e. keeps ruling e d) clear))
            ]
