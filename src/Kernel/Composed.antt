-- ===== src/Kernel/Composed.antt =====
-- kernel.py: the verdict of a decision is the composition of the authority's and the evaluators'.
use Prim.Native.Nat.{max}
use decision_os_min.Prelude.{
  not, ◌≡◌, refl, sym, ◌∙◌, ap, String, false, Option, List, [], ◌∷◌, arith, ◌==◌, inl, inr,
  Bool-cases,
}
use decision_os_min.Py.{Value, Dict, get_default, put}
use decision_os_min.Py.Laws.{get-put}
use decision_os_min.Py.Exc.{Exc, ok, ◌>>=◌, ok_of_bind, ok_of_raise_if, Exn, ok_inj}
use decision_os_min.Py.Runtime.{Runtime}
use decision_os_min.Compose.{
  rank, normalize, normalize_text, compose, is_permitting, verdict_of, sanitize, as_decision,
}
use decision_os_min.Compose.Lattice.{
  rank-inj, worst, rank-compose, normalize-compose, normalize-normalize,
}
use decision_os_min.Compose.Output.{output_verdict, verdict_of-as_decision, rank-more_restrictive}
use decision_os_min.Evaluators.{Evaluator}
use decision_os_min.AuthorityPdp.{CanonicalAuthorityResult}
use decision_os_min.Kernel.Fingerprint.{action_fingerprint, signable}
use decision_os_min.Kernel.State.{Kernel}
use decision_os_min.Kernel.Evaluate.{evaluate}
use decision_os_min.Kernel.Decide.{
  settled, Folded, fold_in, fold_evaluators, bind_legitimacy, granted, Moment, Ruling, sealed,
  signed, concluded, overridden, advised, Request, decide,
}

-- What the evaluators say, in order: the list that the loop folds.
unfoldable pub outputs : Option String → Dict → List Evaluator → Exc (List Value)
outputs bound action [] = ok []
outputs bound action (e ∷ es) = do
  out ← settled bound (e action)
  outs ← outputs bound action es
  ok (out ∷ outs)

unfoldable pub verdict_values : List Value → List Value
verdict_values [] = []
verdict_values (v ∷ vs) = Value.str (output_verdict v) ∷ verdict_values vs

pub verdict_of-put :
    (k : String) (v : Value) (d : Dict)
    → (k == "verdict") ≡ false
    → verdict_of (put k v d) ≡ verdict_of d
unfolding verdict_of
verdict_of-put k v d h = rw (get-put, h) refl

verdict_of-bind_legitimacy :
    (R : Runtime) (ds xs : List String) (b : String) (d : Dict)
    → verdict_of (bind_legitimacy R ds xs b d) ≡ verdict_of d
unfolding bind_legitimacy verdict_of
verdict_of-bind_legitimacy R [] [] b d = refl
verdict_of-bind_legitimacy R [] (x ∷ xs) b d = simp get-put
verdict_of-bind_legitimacy R (s ∷ ss) xs b d = simp get-put

pub verdict_of-granted :
    (R : Runtime) (m : Moment) (action d : Dict) → verdict_of (granted R m action d) ≡ verdict_of d
unfolding granted verdict_of
verdict_of-granted R m action d = simp get-put

verdict_of-sealed :
    (R : Runtime) (k : Kernel) (m : Moment) (action d : Dict)
    → verdict_of (sealed R k m action d).decision ≡ verdict_of d
unfolding sealed signed
verdict_of-sealed R k m action d = elim (Bool-cases (is_permitting (verdict_of d))) [
  | inl e ↦ rw e (verdict_of-granted R m action d)
  | inr e ↦ rw e refl
]

-- The steps after the loop leave the verdict as the loop made it.
pub verdict_of-concluded :
    (R : Runtime) (k : Kernel) (m : Moment) (action : Dict) (r : CanonicalAuthorityResult)
    (f : Folded) (binding : String)
    → verdict_of (concluded R k m action r f binding).decision ≡ verdict_of f.decision
unfolding concluded
verdict_of-concluded R k m action r f binding =
    rw verdict_of-sealed (rw verdict_of-bind_legitimacy (unfold verdict_of in simp get-put))

pub normalize-verdict_of : (d : Dict) → normalize (Value.str (verdict_of d)) ≡ verdict_of d
unfolding verdict_of
normalize-verdict_of d = normalize-normalize (get_default "verdict" (Value.str "DENY") d)

pub normalize-output_verdict :
    (v : Value) → normalize (Value.str (output_verdict v)) ≡ output_verdict v
unfolding output_verdict
normalize-output_verdict (Value.dict d) = normalize-verdict_of d
normalize-output_verdict (Value.str v) = unfold normalize in normalize-normalize (Value.str v)
normalize-output_verdict _ = unfold normalize normalize_text in refl

pub rank-fold_evaluators :
    (R : Runtime) (bound : Option String) (action : Dict) (es : List Evaluator) (f g : Folded)
    → fold_evaluators R bound action es f ≡ ok g
    → (outs : List Value) × (outputs bound action es ≡ ok outs)
      × (rank (verdict_of g.decision)
          ≡ max (rank (verdict_of f.decision)) (worst (verdict_values outs)))
unfolding fold_evaluators outputs verdict_values worst fold_in
rank-fold_evaluators R bound action [] f g h = ([], refl, rw (ok_inj h) (omega arith))
rank-fold_evaluators R bound action (e ∷ es) f g h =
    ok_of_bind (settled bound (e action)) _ h λ out e1 h1.
      let (outs, e2, same) = rank-fold_evaluators R bound action es (fold_in R action out f) g h1 in
      (
        out ∷ outs,
        rw (e1, e2) refl,
        omega (
          arith,
          same,
          rank-more_restrictive f.decision (sanitize R (as_decision R out action)),
          ap rank (verdict_of-as_decision R out action),
          ap rank (normalize-output_verdict out),
        ),
      )

-- The verdict of a ruling is composed of the authority's and of what the evaluators returned.
abbrev pub IsComposed : Runtime → Kernel → Moment → Request → Dict → Ruling → Type 0
IsComposed R k m q action ruling =
    (threat : Option String) × (first : Dict) × (r : CanonicalAuthorityResult) × (outs : List Value)
    × (advised q.advisor q.threat_class action ≡ ok threat)
    × (evaluate R k m.asked_at (overridden q.authority_timeout k.authority_timeout) threat action
        ≡ ok (first, r))
    × (outputs (overridden q.evaluator_timeout k.evaluator_timeout) action q.evaluators ≡ ok outs)
    × (verdict_of ruling.decision ≡ compose (Value.str (verdict_of first) ∷ verdict_values outs))

-- Whenever `decide` answers, its verdict is the composition of the authority's ruling with the
-- verdict that each evaluator's output stands for.
pub decide-composes :
    (R : Runtime) (k : Kernel) (m : Moment) (q : Request) (action : Dict) (ruling : Ruling)
    → decide R k m q action ≡ ok ruling
    → IsComposed R k m q action ruling
unfolding decide worst
decide-composes R k m q action ruling h =
    ok_of_bind (advised q.advisor q.threat_class action) _ h λ threat e1 h1.
      ok_of_bind (evaluate R k m.asked_at _ threat action) _ h1 λ (first, r) e2 h2.
        ok_of_bind (fold_evaluators R _ action q.evaluators _) _ h2 λ f e3 h3.
          ok_of_bind (action_fingerprint R action) _ h3 λ binding e4 h4'.
            ok_of_raise_if (not (signable R (concluded R k m action r f binding).decision))
              Exn.type_error _ h4'
              λ _ h4.
                let (outs, e5, same) = rank-fold_evaluators R _ action q.evaluators _ f e3 in
                (
                  threat,
                  first,
                  r,
                  outs,
                  e1,
                  e2,
                  e5,
                  ap (λ x. verdict_of x.decision) (sym (ok_inj h4))
                      ∙ verdict_of-concluded R k m action r f binding
                      ∙ composed f first outs same,
                )
  where
    composed :
        (f : Folded) (first : Dict) (outs : List Value)
        → rank (verdict_of f.decision) ≡ max (rank (verdict_of first)) (worst (verdict_values outs))
        → verdict_of f.decision ≡ compose (Value.str (verdict_of first) ∷ verdict_values outs)
    composed f first outs same =
        sym (normalize-verdict_of f.decision)
        ∙ rank-inj (Value.str (verdict_of f.decision))
            (Value.str (compose (Value.str (verdict_of first) ∷ verdict_values outs)))
            (omega (
              arith,
              same,
              ap rank (normalize-verdict_of f.decision),
              ap rank (normalize-verdict_of first),
              ap rank (normalize-compose (Value.str (verdict_of first) ∷ verdict_values outs)),
              rank-compose (Value.str (verdict_of first) ∷ verdict_values outs),
            ))
        ∙ normalize-compose (Value.str (verdict_of first) ∷ verdict_values outs)
