-- ===== src/Kernel/Compared.antt =====
-- kernel.py: the steps of `decide` with a threat, against the same steps without one.
use decision_os_min.Prelude.{
  ℕ, ◌≤◌, ◌≡◌, refl, sym, ◌∙◌, ap, String, ◌⊎◌, inl, inr, Option, none, some, List, [], ◌∷◌, arith,
  ◌==◌, Bool-cases,
}
use decision_os_min.Py.{Value, Dict}
use decision_os_min.Py.Exc.{Exc, ok, raise, ok_of_bind, ok_inj}
use decision_os_min.Py.Runtime.{Runtime}
use decision_os_min.Compose.{rank, deny, defer, verdict_of}
use decision_os_min.Compose.Lattice.{worst}
use decision_os_min.Evaluators.{Evaluator}
use decision_os_min.AuthorityPdp.{CanonicalAuthorityResult, evaluate_authority, ruled}
use decision_os_min.Kernel.State.{Kernel, pdp_of}
use decision_os_min.Kernel.Evaluate.{
  after_authority, after_shape, with_result, host_decision, evaluate, shape_objection,
}
use decision_os_min.Kernel.Decide.{settled, Folded, fold_in, fold_evaluators}
use decision_os_min.Kernel.Composed.{outputs, verdict_values, rank-fold_evaluators}
use decision_os_min.Kernel.Advice.{Tightened, IsLoosened, host_decision-Tightened}

-- The ruling without a threat that goes with one that was given, and how they compare.
abbrev Compared :
    Runtime
    → Kernel
    → Option String
    → Dict
    → Exc (Dict × CanonicalAuthorityResult)
    → Dict
    → CanonicalAuthorityResult
    → Type 0
Compared R k threat action without loud r =
    (quiet : Dict) × (without ≡ ok (quiet, r))
    × Tightened R k threat action r (verdict_of quiet) (verdict_of loud)

le_self : (n : ℕ) → n ≤ n
le_self n = omega arith

module _ (R : Runtime) (k : Kernel) (threat : Option String) (action : Dict) where
  after_authority-Compared :
      (loud : Dict) (r s : CanonicalAuthorityResult)
      → after_authority R k threat action s ≡ ok (loud, r)
      → Compared R k threat action (after_authority R k none action s) loud r
  unfolding after_authority
  after_authority-Compared loud r s h = elim (Bool-cases (s.verdict == deny)) [
    | inl e ↦ (loud, rw e (rw e at h), inl (le_self _))
    | inr e ↦ elim (Bool-cases (s.verdict == defer)) [
      | inl f ↦ (loud, rw (e, f) (rw (e, f) at h), inl (le_self _))
      | inr f ↦ rw (e, f) (hosted (host_decision R k threat action s) refl (rw (e, f) at h))
    ]
  ]
    where
      hosted :
          (o : Exc Dict)
          → host_decision R k threat action s ≡ o
          → with_result s o ≡ ok (loud, r)
          → Compared R k threat action (with_result s (host_decision R k none action s)) loud r
      hosted (ok d) e w =
          let (quiet, came, t) = host_decision-Tightened R k threat action s d e in
          let same_ruling : d ≡ loud = ap (λ x. x.0) (ok_inj w) in
          let same_result : s ≡ r = ap (λ x. x.1) (ok_inj w) in
          (quiet, rw (came, same_result) refl, rw (← same_ruling, ← same_result) t)
      hosted (raise x) e w = absurd cc

  pub after_authority-asked :
      (loud : Dict) (r s : CanonicalAuthorityResult)
      → after_authority R k threat action s ≡ ok (loud, r)
      → s ≡ r
  unfolding after_authority
  after_authority-asked loud r s h = elim (Bool-cases (s.verdict == deny)) [
    | inl e ↦ ap (λ x. x.1) (ok_inj (rw e at h))
    | inr e ↦ elim (Bool-cases (s.verdict == defer)) [
      | inl f ↦ ap (λ x. x.1) (ok_inj (rw (e, f) at h))
      | inr f ↦ hosted (host_decision R k threat action s) (rw (e, f) at h)
    ]
  ]
    where
      hosted : (o : Exc Dict) → with_result s o ≡ ok (loud, r) → s ≡ r
      hosted (ok d) w = ap (λ x. x.1) (ok_inj w)
      hosted (raise x) w = absurd cc

  -- The ruling without the threat is never harsher, or the authority said LIMIT and it is loosened.
  abbrev Answered :
      ℕ
      → Option String
      → Exc (Dict × CanonicalAuthorityResult)
      → Dict
      → CanonicalAuthorityResult
      → Type 0
  Answered now bound without loud r =
      (quiet : Dict) × (without ≡ ok (quiet, r))
      × ((rank (verdict_of quiet) ≤ rank (verdict_of loud))
          ⊎ (IsLoosened R k threat action r (verdict_of quiet) (verdict_of loud)
              × (evaluate_authority R bound (pdp_of R now k.provider) action ≡ ok r)))

  pub evaluate-Answered :
      (now : ℕ) (bound : Option String) (loud : Dict) (r : CanonicalAuthorityResult)
      → evaluate R k now bound threat action ≡ ok (loud, r)
      → Answered now bound (evaluate R k now bound none action) loud r
  unfolding evaluate
  evaluate-Answered now bound loud r h = by_shape (shape_objection R action) h
    where
      by_shape :
          (o : Option String)
          → after_shape R k now bound threat action o ≡ ok (loud, r)
          → Answered now bound (after_shape R k now bound none action o) loud r
      by_shape (some reason) e = unfold after_shape in (loud, e, inl (le_self _))
      by_shape none e =
          unfold after_shape in
          ok_of_bind (evaluate_authority R bound (pdp_of R now k.provider) action) _ e
            λ s came rest.
              let (quiet, ruled, t) = after_authority-Compared loud r s rest in
              (
                quiet,
                rw came ruled,
                elim t [
                  | inl below ↦ inl below
                  | inr loosened ↦
                      inr (loosened, came ∙ ap ok (after_authority-asked loud r s rest))
                ],
              )

fold_of_outputs :
    (R : Runtime) (action : Dict) (bound : Option String) (es : List Evaluator) (f : Folded)
    (outs : List Value)
    → outputs bound action es ≡ ok outs
    → (g : Folded) × (fold_evaluators R bound action es f ≡ ok g)
unfolding outputs fold_evaluators
fold_of_outputs R action bound [] f outs h = (f, refl)
fold_of_outputs R action bound (e ∷ es) f outs h =
    ok_of_bind (settled bound (e action)) _ h λ out came rest.
      ok_of_bind (outputs bound action es) _ rest λ others came' _.
        let (g, done) = fold_of_outputs R action bound es (fold_in R action out f) others came' in
        (g, rw came done)

-- The evaluators' loop from another decision: it ends too, and adds the same verdicts.
pub fold_from :
    (R : Runtime) (action : Dict) (bound : Option String) (es : List Evaluator) (f f' g : Folded)
    → fold_evaluators R bound action es f ≡ ok g
    → (g' : Folded) × (fold_evaluators R bound action es f' ≡ ok g')
      × (rank (verdict_of f'.decision) ≤ rank (verdict_of f.decision)
          → rank (verdict_of g'.decision) ≤ rank (verdict_of g.decision))
fold_from R action bound es f f' g h =
    let (outs, came, same) = rank-fold_evaluators R bound action es f g h in
    let (g', done) = fold_of_outputs R action bound es f' outs came in
    let (outs', came', same') = rank-fold_evaluators R bound action es f' g' done in
    let one : outs' ≡ outs = ok_inj (sym came' ∙ came) in
    let alike : worst (verdict_values outs') ≡ worst (verdict_values outs) =
      ap (λ x. worst (verdict_values x)) one in
    (g', done, λ below. omega (arith, same, same', alike))
