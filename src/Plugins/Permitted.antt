-- ===== src/Plugins/Permitted.antt =====
-- plugins.py and kernel.py: the kernel's ruling on an enriched action, against its ruling on the
-- action itself.
use decision_os_min.Prelude.{
  ℕ, ◌≡◌, ◌≢◌, refl, sym, ◌∙◌, ap, false, String, Option, none, some, List, ◌==◌,
}
use decision_os_min.Py.{Value, Items, Dict, get, get_or_else}
use decision_os_min.Py.Exc.{Exc, ok, raise, Exn, ok_of_bind, ok_inj}
use decision_os_min.Py.Runtime.{Runtime}
use decision_os_min.Compose.{deny, normalize, normalize_text, action_ref_of}
use decision_os_min.AuthorityPdp.{
  CanonicalAuthorityResult, Output, evaluate_authority, ruled, canonicalize_authority_output,
  raw_verdict, denied, identity_field,
}
use decision_os_min.AuthorityPdp.Builtin
use decision_os_min.AuthorityPdp.Builtin.{Builtin, objection, ambiguous}
use decision_os_min.Kernel.{
  Kernel, Provider, evaluate, shape_objection, after_shape, after_authority, host_decision, pdp_of,
}
use decision_os_min.Kernel.Compared.{after_authority-asked}
use decision_os_min.Plugins.{ContextPlugin, apply_context}
use decision_os_min.Plugins.Additive.{Labelled, get-apply_context}
use decision_os_min.Plugins.Tightens.{objection-enriched}

denied-absurd :
    {A : Type 0} (reason name revision : String) (r : CanonicalAuthorityResult)
    → ok (denied reason name revision) ≡ ok r
    → r.verdict ≢ deny
    → A
denied-absurd reason name revision r h permits =
    absurd (permits (ap (λ x. x.verdict) (sym (ok_inj h))))

-- A ruling of the built-in authority that is no DENY is one with no objection.
unobjected :
    (R : Runtime) (bound : Option String) (name revision : String) (o : Exc (Option String))
    (r : CanonicalAuthorityResult)
    → ruled R bound name revision (Builtin.as_output R o) ≡ ok r
    → r.verdict ≢ deny
    → o ≡ ok none
unfolding ruled
unobjected R bound name revision (ok none) r h p = refl
unobjected R bound name revision (ok (some reason)) r h p =
    absurd (p (ap (λ x. x.verdict) (sym (ok_inj h)) ∙ refused))
  where
    refused :
        (canonicalize_authority_output R name revision
          (Output.result (Value.str deny) (Value.str reason))).verdict
        ≡ deny
    refused = unfold canonicalize_authority_output raw_verdict normalize normalize_text in refl
unobjected R none name revision (raise Exn.type_error) r h p = denied-absurd _ _ _ r h p
unobjected R (some t) name revision (raise Exn.type_error) r h p = denied-absurd _ _ _ r h p
unobjected R none name revision (raise (Exn.foreign c u)) r h p = denied-absurd _ _ _ r h p
unobjected R (some t) name revision (raise (Exn.foreign c u)) r h p = denied-absurd _ _ _ r h p
unobjected R none name revision (raise Exn.value_error) r h p = denied-absurd _ _ _ r h p
unobjected R (some t) name revision (raise Exn.value_error) r h p = denied-absurd _ _ _ r h p
unobjected R none name revision (raise _) r h p = denied-absurd _ _ _ r h p
unobjected R (some t) name revision (raise _) r h p = denied-absurd _ _ _ r h p

module _ (R : Runtime) (b : Builtin) (mixed : List Value → List String → Option Items)
    (plugins : List ContextPlugin) (action enriched : Dict) (ls : List String)
    (labelled : Labelled action ls)
    (came : apply_context R mixed plugins action ≡ ok enriched) where
  kept :
      (k : String)
      → ("data_labels" == k) ≡ false
      → ("context" == k) ≡ false
      → get k enriched ≡ get k action
  kept k a c = get-apply_context R mixed plugins action enriched k (a, c) came

  evaluate_authority-enriched :
      (bound : Option String) (now : ℕ) (r : CanonicalAuthorityResult)
      → r.verdict ≢ deny
      → evaluate_authority R bound (Builtin.provider R now b) enriched ≡ ok r
      → evaluate_authority R bound (Builtin.provider R now b) action ≡ ok r
  unfolding evaluate_authority Builtin.provider Builtin.evaluate
  evaluate_authority-enriched bound now r permits h =
      ok_of_bind (identity_field R (Builtin.provider R now b).name "authority-pdp" 128) _ h
        λ name e1 h1.
          ok_of_bind (identity_field R (Builtin.provider R now b).policy_revision "unknown" 256) _
            h1
            λ revision e2 h2.
              let quiet : objection R b now enriched ≡ ok none =
                unobjected R bound name revision (objection R b now enriched) r h2 permits in
              rw
                (
                  e1,
                  e2,
                  objection-enriched R b mixed plugins action enriched ls labelled came now quiet,
                )
                (rw quiet at h2)

  after_authority-enriched :
      (k : Kernel) (threat : Option String) (r : CanonicalAuthorityResult)
      → after_authority R k threat enriched r ≡ after_authority R k threat action r
  unfolding after_authority host_decision action_ref_of get_or_else
  after_authority-enriched k threat r = simp (
    kept "nonce" refl refl,
    kept "action_ref" refl refl,
    kept "payload" refl refl,
    kept "action_purpose" refl refl,
  )

  shape_objection-enriched : shape_objection R enriched ≡ shape_objection R action
  unfolding shape_objection
  shape_objection-enriched = λ i. elim (kept "capability" refl refl i) [
    | none ↦ none
    | some cap ↦ elim cap [
      | Value.str c ↦ ambiguous R (some (Value.str c)) (kept "tool" refl refl i)
      | _ ↦ none
    ]
  ]

-- Where the built-in authority is asked and the action's own labels are texts, what the kernel rules
-- on an enriched action, unless the authority denies it, it rules on the action itself: enrichment
-- can turn a permission into a denial, and a denial into nothing else.
pub evaluate-enriched :
    (R : Runtime) (k : Kernel) (b : Builtin) (mixed : List Value → List String → Option Items)
    (plugins : List ContextPlugin) (action enriched : Dict) (ls : List String) (now : ℕ)
    (bound threat : Option String) (d : Dict) (r : CanonicalAuthorityResult)
    → k.provider ≡ Provider.builtin b
    → Labelled action ls
    → apply_context R mixed plugins action ≡ ok enriched
    → evaluate R k now bound threat enriched ≡ ok (d, r)
    → r.verdict ≢ deny
    → evaluate R k now bound threat action ≡ ok (d, r)
unfolding evaluate
evaluate-enriched R k b mixed plugins action enriched ls now bound threat d r inside labelled came h
      permits =
    by_shape (shape_objection R action)
      (shape_objection-enriched R b mixed plugins action enriched ls labelled came) h
  where
    asked :
        (a : Dict)
        → evaluate_authority R bound (pdp_of R now k.provider) a
          ≡ evaluate_authority R bound (Builtin.provider R now b) a
    asked a =
        ap (λ p. evaluate_authority R bound (pdp_of R now p) a) inside ∙ (unfold pdp_of in refl)

    by_shape :
        (o : Option String)
        → shape_objection R enriched ≡ o
        → after_shape R k now bound threat enriched (shape_objection R enriched) ≡ ok (d, r)
        → after_shape R k now bound threat action o ≡ ok (d, r)
    by_shape (some reason) e h =
        absurd (permits (unfold after_shape in ap (λ x. (x.1).verdict) (sym (ok_inj (rw e at h)))))
    by_shape none e h =
        unfold after_shape in
        ok_of_bind (evaluate_authority R bound (pdp_of R now k.provider) enriched) _ (rw e at h)
          λ s ruled_s rest.
            let one : s ≡ r = after_authority-asked R k threat enriched d r s rest in
            let again : evaluate_authority R bound (Builtin.provider R now b) action ≡ ok s =
              evaluate_authority-enriched R b mixed plugins action enriched ls labelled came bound
                now s (rw one permits) (sym (asked enriched) ∙ ruled_s) in
            rw (asked action ∙ again) (
              sym (
                after_authority-enriched R b mixed plugins action enriched ls labelled came k threat
                  s)
              ∙ rest)
