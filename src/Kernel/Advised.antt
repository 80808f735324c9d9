-- ===== src/Kernel/Advised.antt =====
-- kernel.py: `decide` with an advisor, against the same call without one.
use decision_os_min.Prelude.{
  Bool-cases, not, ℕ, ◌≤◌, ◌≡◌, ◌≢◌, refl, sym, ◌∙◌, ap, String, false, ◌⊎◌, inl, inr, Option, none,
  some, [], arith, ◌==◌, eq_iff,
}
use decision_os_min.Py.{Value, Dict}
use decision_os_min.Py.Exc.{Exc, ok, raise, Exn, ◌>>◌, raise_if, ok_of_bind, ok_of_raise_if, ok_inj}
use decision_os_min.Py.Runtime.{Runtime}
use decision_os_min.Py.Plugin.{returned}
use decision_os_min.Compose.{rank, normalize, normalize_text, allow, deny, limit, verdict_of}
use decision_os_min.AuthorityPdp.{
  CanonicalAuthorityResult, evaluate_authority, identity_field, ruled,
  canonicalize_authority_output, raw_verdict, denied,
}
use decision_os_min.AuthorityPdp.Builtin
use decision_os_min.AuthorityPdp.Builtin.{Builtin}
use decision_os_min.Kernel.Fingerprint.{action_fingerprint}
use decision_os_min.Kernel.State.{Kernel, Provider, pdp_of}
use decision_os_min.Kernel.Evaluate.{evaluate}
use decision_os_min.Kernel.Decide.{
  Folded, fold_evaluators, Moment, Ruling, concluded, overridden, advised, Request, decide,
}
use decision_os_min.Kernel.Composed.{verdict_of-concluded}
use decision_os_min.Kernel.Advice.{IsLoosened}
use decision_os_min.Kernel.Fingerprint.{signable}
use decision_os_min.Kernel.Compared.{evaluate-Answered, fold_from}

-- The request with neither an advisor nor a threat class.
abbrev pub unadvised : Request → Request
unadvised q = record q { advisor = none; threat_class = none }

-- The threat that was advised made CONTAIN of a DENY: the authority said LIMIT, and nothing that the
-- host does implements it.
pub record IsContained (R : Runtime) (k : Kernel) (m : Moment) (q : Request) (action : Dict)
    : Type 0 where
  pub threat : Option String
  pub is_advised : advised q.advisor q.threat_class action ≡ ok threat
  pub ruling : CanonicalAuthorityResult
  pub is_ruled :
      evaluate_authority R
        (overridden q.authority_timeout k.authority_timeout)
        (pdp_of R m.asked_at k.provider)
        action
      ≡ ok ruling
  pub before : String
  pub after : String
  pub is_loosened : IsLoosened R k threat action ruling before after

-- The ruling is the answer, or its decision cannot be printed to be signed, and that is the error.
abbrev pub Signed : Runtime → Ruling → Exc Ruling → Type 0
Signed R ruling out =
    (out ≡ ok ruling) ⊎ ((signable R ruling.decision ≡ false) × (out ≡ raise Exn.type_error))

raise_if-Signed :
    (R : Runtime) (ruling : Ruling)
    → Signed R ruling (raise_if (not (signable R ruling.decision)) Exn.type_error >> ok ruling)
raise_if-Signed R ruling = elim (Bool-cases (signable R ruling.decision)) [
  | inl e ↦ inl (rw e refl)
  | inr e ↦ inr (e, rw e refl)
]

-- Whenever `decide` answers, the same request with no advice comes to a ruling that is no harsher, and
-- answers by it where it can be signed, unless the authority said LIMIT, the host has nothing to redact, and the threat that was
-- advised is one to contain.
pub decide-advised :
    (R : Runtime) (k : Kernel) (m : Moment) (q : Request) (action : Dict) (loud : Ruling)
    → decide R k m q action ≡ ok loud
    → (quiet : Ruling) × Signed R quiet (decide R k m (unadvised q) action)
      × ((rank (verdict_of quiet.decision) ≤ rank (verdict_of loud.decision))
          ⊎ IsContained R k m q action)
unfolding decide advised
decide-advised R k m q action loud h =
    ok_of_bind (advised q.advisor q.threat_class action) _ h λ threat e1 h1.
      ok_of_bind (evaluate R k m.asked_at _ threat action) _ h1 λ (first, r) e2 h2.
        ok_of_bind (fold_evaluators R _ action q.evaluators _) _ h2 λ f e3 h3.
          ok_of_bind (action_fingerprint R action) _ h3 λ binding e4 h4'.
            ok_of_raise_if (not (signable R (concluded R k m action r f binding).decision))
              Exn.type_error _ h4'
              λ _ h4.
                let (calm, ruled, t) =
                  evaluate-Answered R k threat action m.asked_at _ first r e2 in
                let (g, folded, below) =
                  fold_from R action _ q.evaluators _
                    (record { decision = calm; digests = []; axioms = [] }) f e3 in
                let verdicts : (s : CanonicalAuthorityResult) (f : Folded)
                    → verdict_of (concluded R k m action s f binding).decision
                      ≡ verdict_of f.decision =
                  λ s f. verdict_of-concluded R k m action s f binding in
                (
                  concluded R k m action r g binding,
                  rw (ruled, folded, e4) (raise_if-Signed R (concluded R k m action r g binding)),
                  elim t [
                    | inl less ↦ inl (rw (verdicts r g, ← ok_inj h4, verdicts r f) (below less))
                    | inr (loosened, asked) ↦ inr record {
                      threat = threat;
                      is_advised = e1;
                      ruling = r;
                      is_ruled = asked;
                      before = verdict_of calm;
                      after = verdict_of first;
                      is_loosened = loosened;
                    }
                  ],
                )

texts_differ : (a b : String) → (a == b) ≡ false → a ≢ b
texts_differ a b h e = ground (arith, eq_iff a b)

deny-ne-limit :
    (reason name revision : String) (r : CanonicalAuthorityResult)
    → ok (denied reason name revision) ≡ ok r
    → normalize_text r.verdict ≢ limit
unfolding normalize_text
deny-ne-limit reason name revision r h = rw (← ok_inj h) (texts_differ deny limit refl)

-- The built-in authority says ALLOW or DENY.
ruled-ne-limit :
    (R : Runtime) (bound : Option String) (name revision : String) (o : Exc (Option String))
    (r : CanonicalAuthorityResult)
    → ruled R bound name revision (Builtin.as_output R o) ≡ ok r
    → normalize_text r.verdict ≢ limit
unfolding ruled
ruled-ne-limit R bound name revision (ok none) r h = rw (← ok_inj h) (
    unfold canonicalize_authority_output raw_verdict normalize normalize_text in
    texts_differ allow limit refl)
ruled-ne-limit R bound name revision (ok (some reason)) r h = rw (← ok_inj h) (
    unfold canonicalize_authority_output raw_verdict normalize normalize_text in
    texts_differ deny limit refl)
ruled-ne-limit R none name revision (raise Exn.type_error) r h = deny-ne-limit _ _ _ r h
ruled-ne-limit R (some t) name revision (raise Exn.type_error) r h = deny-ne-limit _ _ _ r h
ruled-ne-limit R none name revision (raise (Exn.foreign c u)) r h = deny-ne-limit _ _ _ r h
ruled-ne-limit R (some t) name revision (raise (Exn.foreign c u)) r h = deny-ne-limit _ _ _ r h
ruled-ne-limit R none name revision (raise Exn.value_error) r h = deny-ne-limit _ _ _ r h
ruled-ne-limit R (some t) name revision (raise Exn.value_error) r h = deny-ne-limit _ _ _ r h
ruled-ne-limit R none name revision (raise _) r h = deny-ne-limit _ _ _ r h
ruled-ne-limit R (some t) name revision (raise _) r h = deny-ne-limit _ _ _ r h

builtin-ne-limit :
    (R : Runtime) (bound : Option String) (now : ℕ) (b : Builtin) (action : Dict)
    (r : CanonicalAuthorityResult)
    → evaluate_authority R bound (Builtin.provider R now b) action ≡ ok r
    → normalize_text r.verdict ≢ limit
unfolding evaluate_authority Builtin.provider Builtin.evaluate
builtin-ne-limit R bound now b action r h =
    ok_of_bind (identity_field R (returned (Value.str "builtin")) "authority-pdp" 128) _ h
      λ name _ h1.
        ok_of_bind
          (identity_field R (returned (Value.str (Builtin.policy_revision R b))) "unknown" 256) _ h1
          λ revision _ h2.
            ruled-ne-limit R bound name revision (Builtin.objection R b now action) r h2

-- With the built-in authority, advice only tightens: whenever `decide` answers, the same request with
-- no advice comes to a ruling that is no harsher, which is its answer but where the decision cannot
-- be printed to be signed, which raises `TypeError`.
pub decide-tightens :
    (R : Runtime) (k : Kernel) (b : Builtin) (m : Moment) (q : Request) (action : Dict)
    (loud : Ruling)
    → k.provider ≡ Provider.builtin b
    → decide R k m q action ≡ ok loud
    → (quiet : Ruling) × Signed R quiet (decide R k m (unadvised q) action)
      × (rank (verdict_of quiet.decision) ≤ rank (verdict_of loud.decision))
unfolding pdp_of
decide-tightens R k b m q action loud inside h =
    let (quiet, answered, compared) = decide-advised R k m q action loud h in
    (
      quiet,
      answered,
      elim compared [
        | inl below ↦ below
        | inr c ↦ absurd (
            builtin-ne-limit R _ m.asked_at b action c.ruling
              (ap
                  (λ p.
                    evaluate_authority R (overridden q.authority_timeout k.authority_timeout)
                      (pdp_of R m.asked_at p) action)
                  (sym inside)
                ∙ c.is_ruled)
              c.is_loosened.limits)
      ],
    )
