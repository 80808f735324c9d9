-- ===== src/Plugins/Worst.antt =====
-- plugins.py: what the composed advisor says of the plugins' scores.
use decision_os_min.Prelude.{
  ℕ, ◌≡◌, ◌≢◌, refl, sym, ◌∙◌, eq_iff, Bool, true, false, ◌⊎◌, ◌↔◌, inl, inr, String, Option, none,
  some, List, [], ◌∷◌, arith, Bool-cases, if◌then◌else◌,
}
use mathlib.Core.Bool.{false≢true}
use mathlib.Core.Option.{some-injective}
use decision_os_min.Py.{Dict}
use decision_os_min.Py.Plugin.{
  Ran, returned, raised, based, closed, silent, after_call-returned, returned-inj,
}
use decision_os_min.Plugins.{
  Floats, RiskPlugin, RiskAssessment, scored, worst_score, threat_of, risk_advisor,
}

-- What the advisor relies on of `>` and `>=`: they are an order on the floats that are numbers, which
-- 0.0 is, and nothing compares as greater that is no number.
pub record IsOrdered (F : Floats) : Type 0 where
  pub is_number : ℕ → Bool
  pub zero_is_number : is_number 0 ≡ true
  pub greater_is_number : (b a : ℕ) → F.greater b a ≡ true → is_number b ≡ true
  pub greater_reaches :
      (b a c : ℕ) → F.greater b a ≡ true → F.at_least a c ≡ true → F.at_least b c ≡ true
  pub else_reaches :
      (b a c : ℕ)
      → is_number a ≡ true
      → F.greater b a ≡ false
      → F.at_least b c ≡ true
      → F.at_least a c ≡ true

-- A plugin that answers has a score that reaches the bound.
abbrev pub Scores : Floats → ℕ → Dict → List RiskPlugin → Type 0
Scores F c action [] = ⊥
Scores F c action (p ∷ ps) =
    ((a : RiskAssessment) × (p action ≡ returned a) × (F.at_least a.score c ≡ true))
    ⊎ Scores F c action ps

-- The bound is reached, by a score or by 0.0, from which the advisor starts.
abbrev pub IsReached : Floats → ℕ → Dict → List RiskPlugin → Type 0
IsReached F c action ps = (F.at_least 0 c ≡ true) ⊎ Scores F c action ps

module _ (F : Floats) (O : IsOrdered F) (c : ℕ) where
  -- One plugin keeps a number, and reaches the bound where the score before or its own does.
  scored-reaches :
      (w v : ℕ) (r : Ran RiskAssessment)
      → O.is_number w ≡ true
      → scored F w r ≡ returned v
      → (O.is_number v ≡ true)
        × ((F.at_least v c ≡ true) ↔ (
            (F.at_least w c ≡ true)
            ⊎ ((a : RiskAssessment) × (r ≡ returned a) × (F.at_least a.score c ≡ true))))
  unfolding scored
  scored-reaches w v (returned a) n h = elim (Bool-cases (F.greater a.score w)) [
    | inl e ↦
        let same : a.score ≡ v = ground arith in
        (
          rw (← same) (O.greater_is_number a.score w e),
          (
            λ r. inr (a, refl, rw same r),
            λ s. rw (← same) (elim s [
              | inl r ↦ O.greater_reaches a.score w c e r
              | inr (b, is_b, r) ↦ let one : b.score ≡ a.score = ground arith in rw (← one) r
            ]),
          ),
        )
    | inr e ↦
        let same : w ≡ v = ground arith in
        (
          rw (← same) n,
          (
            λ r. inl (rw same r),
            λ s. rw (← same) (elim s [
              | inl r ↦ r
              | inr (b, is_b, r) ↦
                  let one : b.score ≡ a.score = ground arith in
                  O.else_reaches a.score w c n e (rw (← one) r)
            ]),
          ),
        )
  ]
  scored-reaches w v (raised k t) n h =
      let same : w ≡ v = ground arith in
      (
        rw (← same) n,
        (
          λ r. inl (rw same r),
          λ s. rw (← same) (elim s [ inl r ↦ r | inr (b, is_b, r) ↦ absurd cc ]),
        ),
      )
  scored-reaches w v (based k t) n h = absurd cc
  scored-reaches w v closed n h = absurd cc
  scored-reaches w v silent n h = absurd cc

  worst_score-reaches :
      (action : Dict) (w v : ℕ) (ps : List RiskPlugin)
      → O.is_number w ≡ true
      → worst_score F action w ps ≡ returned v
      → (F.at_least v c ≡ true) ↔ ((F.at_least w c ≡ true) ⊎ Scores F c action ps)
  unfolding worst_score
  worst_score-reaches action w v [] n h =
      let same : w ≡ v = ground arith in
      (λ r. inl (rw same r), λ s. rw (← same) (elim s [ inl r ↦ r | inr never ↦ absurd never ]))
  worst_score-reaches action w v (p ∷ ps) n h =
      let (u, came, rest) = after_call-returned (scored F w (p action)) _ v h in
      let (m, step) = scored-reaches w u (p action) n came in
      let later = worst_score-reaches action u v ps m rest in
      (
        λ r. elim (later.0 r) [
          | inl s ↦ elim (step.0 s) [ inl a ↦ inl a | inr b ↦ inr (inl b) ]
          | inr s ↦ inr (inr s)
        ],
        λ s. later.1 (elim s [
          | inl a ↦ inl (step.1 (inl a))
          | inr t ↦ elim t [ inl b ↦ inl (step.1 (inr b)) | inr b ↦ inr b ]
        ]),
      )

suspicious-ne-malicious : ◌≢◌ {A = String} "suspicious" "malicious"
suspicious-ne-malicious = λ h. ground (arith, eq_iff "suspicious" "malicious")

-- The class, from the two tests and what they stand for.
by_tests :
    (upper lower : Bool) {A B : Type 0} (threat : Option String)
    → (upper ≡ true) ↔ A
    → (lower ≡ true) ↔ B
    → (if upper then some "malicious" else if lower then some "suspicious" else none) ≡ threat
    → ((threat ≡ some "malicious") ↔ A) × ((threat ≡ none) ↔ ((¬ A) × (¬ B)))
by_tests true lower threat a b h =
    ((λ _. a.0 refl, λ _. sym h), (λ e. absurd (cc), λ n. absurd (n.0 (a.0 refl))))
by_tests false true threat a b h = (
  (
    λ e. absurd (suspicious-ne-malicious (some-injective _ _ (h ∙ e))),
    λ x. absurd (false≢true (a.1 x)),
  ),
  (λ e. absurd (cc), λ n. absurd (n.1 (b.0 refl))),
)
by_tests false false threat a b h = (
  (λ e. absurd (cc), λ x. absurd (false≢true (a.1 x))),
  (λ e. (λ x. false≢true (a.1 x), λ x. false≢true (b.1 x)), λ _. sym h),
)

-- Where the advisor answers, and floats are ordered, its word is "malicious" exactly where the score
-- of a plugin that answered reaches the upper bound, and it has nothing to say exactly where none
-- reaches either bound, 0.0 counting as a score.
pub risk_advisor-IsWorst :
    (F : Floats) (plugins : List RiskPlugin) (contain_at suspect_at : ℕ) (action : Dict)
    (threat : Option String)
    → IsOrdered F
    → risk_advisor F plugins contain_at suspect_at action ≡ returned threat
    → ((threat ≡ some "malicious") ↔ IsReached F contain_at action plugins)
      × ((threat ≡ none)
          ↔ ((¬ IsReached F contain_at action plugins) × (¬ IsReached F suspect_at action plugins)))
unfolding risk_advisor threat_of
risk_advisor-IsWorst F plugins contain_at suspect_at action threat O h =
    let (v, came, said) = after_call-returned (worst_score F action 0 plugins) _ threat h in
    let upper = worst_score-reaches F O contain_at action 0 v plugins O.zero_is_number came in
    let lower = worst_score-reaches F O suspect_at action 0 v plugins O.zero_is_number came in
    by_tests (F.at_least v contain_at) (F.at_least v suspect_at) threat upper lower
      (returned-inj said)
