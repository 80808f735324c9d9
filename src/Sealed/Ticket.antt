-- ===== src/Sealed/Ticket.antt =====
-- sealed.py: an issued ticket is good until its expiry, and a policy that does not approve gives no
-- permit.
use decision_os_min.Prelude.{
  ℕ, ◌+◌, String, ◌≡◌, refl, true, some, leb, if◌then◌else◌, ap, sym, false, List, Bool-cases, inl,
  inr, ◌∙◌,
}
use decision_os_min.Py.{Value, Items, Dict, get, truthy}
use decision_os_min.Py.Exc.{Exc, ok, raise, Exn}
use decision_os_min.Py.Runtime.{Runtime, aware}
use decision_os_min.Py.Plugin.{Ran, returned, raised, based, closed, silent}
use decision_os_min.Py.Times.{reached}
use decision_os_min.Compose.{is_permitting, deny, normalize, normalize_text, verdict_of}
use decision_os_min.Compose.Output.{output_verdict}
use decision_os_min.Evaluators.VetoOnly.{returned_inj}
use decision_os_min.AuthorityPdp.Builtin.{iterate}
use decision_os_min.Sealed.Admission.{
  AdmissionOffice, ticket_body, body_of, issue, check_ticket_expiry, check_ticket_signature,
  verify_ticket, canonizes, all_texts,
}
use decision_os_min.Sealed.Legitimacy.{
  LegitimacyPolicy, tri_verdict, tri_ruling, with_axioms, tri_evidence, of_values, tri_judged,
  tri_state_legitimacy,
}

-- Where the signature scheme is correct and a printed instant reads back, a ticket that the office
-- issued verifies to its body until a lifetime after the issue, and is expired from then on.
pub verify_ticket-issue :
    (R : Runtime) (office : AdmissionOffice) (now later : ℕ)
    (digits actor stakeholder agent : String)
    → ((k t : String) → R.verify_signature (R.public_key k) (R.sign k t) t ≡ true)
    → ((n : ℕ) → R.fromisoformat (R.isoformat n) ≡ some (aware n))
    → verify_ticket R office later (issue R office now digits actor stakeholder agent) ≡ (
        if leb (now + office.ttl) later
        then raise (Exn.admission_error "admission ticket expired")
        else ok (
            ticket_body
              (Value.str actor)
              (Value.str stakeholder)
              (Value.str agent)
              (Value.str (R.isoformat (now + office.ttl)))
              (Value.str digits)))
unfolding verify_ticket issue body_of check_ticket_expiry check_ticket_signature canonizes all_texts
    reached get
verify_ticket-issue R office now later digits actor stakeholder agent signs reads =
    elim (Bool-cases (leb (now + office.ttl) later)) [
      | inl e ↦ rw (reads, signs, e) refl
      | inr e ↦ rw (reads, signs, e) refl
    ]

tri_verdict-untrue :
    (v : Value) → truthy v ≡ false → is_permitting (normalize_text (tri_verdict v)) ≡ false
unfolding tri_verdict is_permitting normalize_text
tri_verdict-untrue Value.null h = refl
tri_verdict-untrue v h = rw h refl

output_verdict-tri :
    (t : String) (reason : Value) (axioms : Items) (digest : String)
    → output_verdict (tri_ruling t reason axioms digest) ≡ normalize_text t
unfolding output_verdict verdict_of normalize get
output_verdict-tri t reason axioms digest = refl

-- A ruling whose verdict does not permit is no permitting output.
untrue :
    {C : Type 0} (t : String) (reason : Value) (axioms : Items) (digest : String) (out : Value)
    → is_permitting (normalize_text t) ≡ false
    → ◌≡◌ {A = Ran Value} (returned (tri_ruling t reason axioms digest)) (returned out)
    → is_permitting (output_verdict out) ≡ true
    → C
untrue t reason axioms digest out e h p =
    let same = ap output_verdict (returned_inj h) in
    let q : is_permitting (normalize_text t) ≡ true =
      ap is_permitting (sym (output_verdict-tri t reason axioms digest) ∙ same) ∙ p in
    absurd cc

denies : is_permitting (normalize_text deny) ≡ false
unfolding is_permitting normalize_text
denies = refl

is_no_return : {c t : String} {v : Value} → ◌≡◌ {A = Ran Value} (raised c t) (returned v) → ⊥
is_no_return h = cc

tri_judged-permits :
    (R : Runtime) (o : Ran (Value × Value × Value)) (out : Value)
    → tri_judged R o ≡ returned out
    → is_permitting (output_verdict out) ≡ true
    → (fine : Value) × (reason : Value) × (axioms : Value) × (o ≡ returned (fine, reason, axioms))
      × (truthy fine ≡ true)
unfolding tri_judged with_axioms
tri_judged-permits R (returned (fine, reason, axioms)) out h p = by_axioms (iterate R axioms) h
  where
    by_axioms :
        (o : Exc (List Value))
        → with_axioms R fine reason o ≡ returned out
        → (f : Value) × (r : Value) × (a : Value) × (◌≡◌ {A = Ran (Value × Value × Value)}
            (returned (fine, reason, axioms))
            (returned (f, r, a)))
          × (truthy f ≡ true)
    by_axioms (raise e) h = absurd cc
    by_axioms (ok vs) h = elim (Bool-cases (truthy fine)) [
      | inl e ↦ (fine, reason, axioms, refl, e)
      | inr e ↦
          elim (Bool-cases
            (canonizes R (tri_evidence fine reason (of_values vs) (tri_verdict fine)))) [
              | inl c ↦ untrue _ _ _ _ out (tri_verdict-untrue fine e) (rw c at h) p
              | inr c ↦ absurd (is_no_return (rw c at h))
            ]
    ]
tri_judged-permits R (raised c t) out h p = untrue deny _ _ _ out denies h p
tri_judged-permits R (based c t) out h p = absurd cc
tri_judged-permits R closed out h p = absurd cc
tri_judged-permits R silent out h p = absurd cc

-- The evaluator made of a three-valued policy permits only where the policy returned an approval: its
-- first part is true.
pub tri_state_legitimacy-permits :
    (R : Runtime) (policy : LegitimacyPolicy) (action : Dict) (out : Value)
    → tri_state_legitimacy R policy action ≡ returned out
    → is_permitting (output_verdict out) ≡ true
    → (fine : Value) × (reason : Value) × (axioms : Value) × (policy action
        ≡ returned (fine, reason, axioms))
      × (truthy fine ≡ true)
unfolding tri_state_legitimacy
tri_state_legitimacy-permits R policy action out h p = tri_judged-permits R (policy action) out h p
