-- ===== src/Evaluators/VetoOnly.antt =====
-- evaluators.py: an adapted policy permits only where the policy itself answered so.
use decision_os_min.Prelude.{
  String, ◌≡◌, refl, sym, ◌∙◌, ap, true, eq_iff, inl, inr, Bool-cases, contains, arith,
}
use decision_os_min.Py.{Value, Dict, get, truthy}
use decision_os_min.Py.Runtime.{Runtime}
use decision_os_min.Py.Plugin.{Ran, returned, raised, based, closed, silent}
use decision_os_min.Compose.{
  allow, limit, contain, defer, deny, is_permitting, normalize, normalize_text, verdict_of,
}
use decision_os_min.Compose.Output.{output_verdict}
use decision_os_min.Evaluators.{
  ruling, legitimacy, judged, authority, authorized, checked, verdicts,
}

output_verdict-ruling :
    (v : String) (r : Value) → output_verdict (ruling (Value.str v) r) ≡ normalize_text v
unfolding output_verdict verdict_of normalize get
output_verdict-ruling v r = refl

pub returned_inj {ℓ} : {A : Type ℓ} {a b : A} → ◌≡◌ {A = Ran A} (returned a) (returned b) → a ≡ b
returned_inj h = cc

-- The verdict of a denial is not permitting.
denial-denies :
    {C : Type 0} (v : String) (r out : Value)
    → ◌≡◌ {A = Ran Value} (returned (ruling (Value.str deny) r)) (returned out)
    → output_verdict out ≡ v
    → is_permitting v ≡ true
    → C
unfolding is_permitting normalize_text
denial-denies v r out h e p =
    let same = ap output_verdict (returned_inj h) in
    let name = output_verdict-ruling deny r in
    let denied : deny ≡ v = sym name ∙ same ∙ e in
    let q : is_permitting deny ≡ true = ap is_permitting denied ∙ p in absurd cc

judged-permits :
    (o : Ran (Value × Value)) (out : Value)
    → judged o ≡ returned out
    → is_permitting (output_verdict out) ≡ true
    → (fine : Value) × (reason : Value) × (o ≡ returned (fine, reason)) × (truthy fine ≡ true)
unfolding judged
judged-permits (returned (fine, reason)) out h p = elim (Bool-cases (truthy fine)) [
  | inl e ↦ (fine, reason, refl, e)
  | inr e ↦ denial-denies _ _ out (rw e at h) refl p
]
judged-permits (raised c t) out h p = denial-denies _ _ out h refl p
judged-permits (based c t) out h p = denial-denies _ _ out h refl p
judged-permits closed out h p = absurd cc
judged-permits silent out h p = absurd cc

-- A legitimacy evaluator's output permits only where the policy returned a pair whose first part
-- is true.
pub legitimacy-permits :
    (policy : Dict → Ran (Value × Value)) (action : Dict) (out : Value)
    → legitimacy policy action ≡ returned out
    → is_permitting (output_verdict out) ≡ true
    → (fine : Value) × (reason : Value) × (policy action ≡ returned (fine, reason))
      × (truthy fine ≡ true)
unfolding legitimacy
legitimacy-permits policy action out h p = judged-permits (policy action) out h p

-- A text in `VERDICTS` is its own canonical form.
contains-normal : (v : String) → contains v verdicts ≡ true → normalize_text v ≡ v
unfolding contains normalize_text
contains-normal v h =
    ground (arith, eq_iff v allow, eq_iff v limit, eq_iff v contain, eq_iff v defer, eq_iff v deny)

checked-permits :
    (R : Runtime) (verdict reason out : Value)
    → checked R verdict reason ≡ returned out
    → is_permitting (output_verdict out) ≡ true
    → verdict ≡ Value.str (output_verdict out)
unfolding checked
checked-permits R (Value.str v) reason out h p = elim (Bool-cases (contains v verdicts)) [
  | inl e ↦ ap Value.str (
      sym (contains-normal v e)
      ∙ sym (output_verdict-ruling v _)
      ∙ ap output_verdict (returned_inj (rw e at h)))
  | inr e ↦ denial-denies _ _ out (rw e at h) refl p
]
checked-permits R (Value.list _) reason out h p = absurd cc
checked-permits R (Value.dict _) reason out h p = absurd cc
checked-permits R _ reason out h p = denial-denies _ _ out h refl p

authorized-permits :
    (R : Runtime) (o : Ran (Value × Value)) (out : Value)
    → authorized R o ≡ returned out
    → is_permitting (output_verdict out) ≡ true
    → (reason : Value) × (o ≡ returned (Value.str (output_verdict out), reason))
unfolding authorized
authorized-permits R (returned (v, reason)) out h p =
    (reason, ap (λ w. returned (w, reason)) (checked-permits R v reason out h p))
authorized-permits R (raised c t) out h p = denial-denies _ _ out h refl p
authorized-permits R (based c t) out h p = denial-denies _ _ out h refl p
authorized-permits R closed out h p = absurd cc
authorized-permits R silent out h p = absurd cc

-- An authority evaluator's output permits only where the engine returned that very verdict.
pub authority-permits :
    (R : Runtime) (engine : Dict → Ran (Value × Value)) (action : Dict) (out : Value)
    → authority R engine action ≡ returned out
    → is_permitting (output_verdict out) ≡ true
    → (reason : Value) × (engine action ≡ returned (Value.str (output_verdict out), reason))
unfolding authority
authority-permits R engine action out h p = authorized-permits R (engine action) out h p
