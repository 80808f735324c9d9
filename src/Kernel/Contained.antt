-- ===== src/Kernel/Contained.antt =====
-- kernel.py: where a threat makes a ruling permit that would deny without it.
use decision_os_min.Prelude.{
  ◌≡◌, refl, ◌∙◌, ap, String, true, false, Bool, ◌==◌, if◌then◌else◌, Option, none, List, [],
}
use decision_os_min.Py.{Value, Dict, get, get_or_else}
use decision_os_min.Py.Exc.{ok}
use decision_os_min.Py.Runtime.{Runtime}
use decision_os_min.Compose.{
  rank, normalize_text, limit, defer, more_restrictive, contain, deny, verdict_of, is_permitting,
  action_ref_of,
}
use decision_os_min.AuthorityPdp.{CanonicalAuthorityResult, evaluate_authority}
use decision_os_min.Kernel.Fingerprint.{action_fingerprint, signable}
use decision_os_min.Kernel.State.{Kernel, pdp_of}
use decision_os_min.Kernel.Evaluate.{
  after_authority, after_shape, with_result, host_decision, evaluate, in_classes, shape_objection,
  to_dict, redact, obliged, ruling, provenance, local_decision,
}
use decision_os_min.Kernel.Decide.{
  fold_evaluators, Moment, Ruling, concluded, overridden, advised, Request, decide,
}
use decision_os_min.Kernel.Composed.{verdict_of-concluded}
use decision_os_min.Kernel.Advice.{composed_verdict, outcome}
use decision_os_min.Kernel.Advised.{unadvised}

-- A LIMIT of the authority, on an action that the kernel finds in shape and has nothing to redact in.
pub record IsBareLimit (R : Runtime) (k : Kernel) (m : Moment) (q : Request) (action : Dict)
    : Type 0 where
  pub in_shape : shape_objection R action ≡ none
  pub ruling : CanonicalAuthorityResult
  pub is_ruled :
      evaluate_authority R
        (overridden q.authority_timeout k.authority_timeout)
        (pdp_of R m.asked_at k.provider)
        action
      ≡ ok ruling
  pub is_limit : ruling.verdict ≡ limit
  pub payload : Dict
  pub is_payload : to_dict R (get_or_else "payload" (Value.dict Dict.end) action) ≡ ok payload
  pub nothing_redacted : (redact k.redactions (get "action_purpose" action) payload).1 ≡ []
  pub binding : String
  pub is_bound : action_fingerprint R action ≡ ok binding

module _ (R : Runtime) (k : Kernel) (m : Moment) (q : Request) (action : Dict)
    (L : IsBareLimit R k m q action) where
  found : Dict × List String
  found = redact k.redactions (get "action_purpose" action) L.payload

  composed_with : Option String → Dict
  unfolding found
  composed_with threat = obliged L.ruling (action_ref_of action) found.0 found.1 (
      more_restrictive
        (ruling L.ruling.verdict L.ruling.reason (action_ref_of action) (provenance L.ruling))
        (local_decision R k threat (action_ref_of action) found.1))

  evaluate-composed :
      (threat : Option String)
      → evaluate R k m.asked_at (overridden q.authority_timeout k.authority_timeout) threat action
        ≡ ok (composed_with threat, L.ruling)
  unfolding evaluate after_shape after_authority host_decision composed_with
  evaluate-composed threat =
      rw (L.in_shape, L.is_ruled)
        (after (L.ruling.verdict == deny) (L.ruling.verdict == defer)
          (ap (λ v. v == deny) L.is_limit) (ap (λ v. v == defer) L.is_limit))
    where
      after :
          (b c : Bool)
          → b ≡ false
          → c ≡ false
          → (if b
              then ok (
                ruling L.ruling.verdict L.ruling.reason
                    (action_ref_of action)
                    (provenance L.ruling),
                L.ruling,
              )
              else if c
              then ok (
                ruling L.ruling.verdict L.ruling.reason
                    (action_ref_of action)
                    (provenance L.ruling),
                L.ruling,
              )
              else with_result L.ruling (host_decision R k threat action L.ruling))
            ≡ ok (composed_with threat, L.ruling)
      after b c e f = rw (e, f, L.is_payload) refl

  verdict_with :
      (threat : Option String)
      → verdict_of (composed_with threat) ≡ outcome (in_classes threat k.contained_classes) [] limit
  unfolding composed_with found
  verdict_with threat =
      composed_verdict R k threat action L.ruling threat found.0 found.1
      ∙ ap (λ v. outcome (in_classes threat k.contained_classes) found.1 (normalize_text v))
          L.is_limit
      ∙ ap (λ fs. outcome (in_classes threat k.contained_classes) fs (normalize_text limit))
          L.nothing_redacted
      ∙ (unfold normalize_text in refl)

  pub concluded_with : Option String → Ruling
  unfolding composed_with
  concluded_with threat =
      concluded R k m action L.ruling
        (record { decision = composed_with threat; digests = []; axioms = [] }) L.binding

  decide-concluded :
      (given : Request) (threat : Option String)
      → advised given.advisor given.threat_class action ≡ ok threat
      → given.authority_timeout ≡ q.authority_timeout
      → given.evaluators ≡ []
      → signable R (concluded_with threat).decision ≡ true
      → decide R k m given action ≡ ok (concluded_with threat)
  unfolding decide concluded_with fold_evaluators
  decide-concluded given threat told same alone signs =
      rw (told, same, evaluate-composed threat, alone, L.is_bound) (rw signs refl)

  verdict-concluded :
      (threat : Option String)
      → verdict_of (concluded_with threat).decision
        ≡ outcome (in_classes threat k.contained_classes) [] limit
  unfolding concluded_with
  verdict-concluded threat =
      verdict_of-concluded R k m action L.ruling
        (record { decision = composed_with threat; digests = []; axioms = [] }) L.binding
      ∙ verdict_with threat

-- Where the action is in shape and has a fingerprint, the authority says LIMIT, the host has nothing to
-- redact and there is no evaluator, and the two decisions can be printed to be signed, `decide` denies
-- with no advice, and permits with CONTAIN on the advice of a threat that is to be contained.
pub decide-contains :
    (R : Runtime) (k : Kernel) (m : Moment) (q : Request) (action : Dict) (threat : Option String)
    (L : IsBareLimit R k m q action)
    → q.evaluators ≡ []
    → advised q.advisor q.threat_class action ≡ ok threat
    → in_classes threat k.contained_classes ≡ true
    → signable R (concluded_with R k m q action L none).decision ≡ true
    → signable R (concluded_with R k m q action L threat).decision ≡ true
    → (quiet loud : Ruling) × (decide R k m (unadvised q) action ≡ ok quiet)
      × (decide R k m q action ≡ ok loud)
      × (verdict_of quiet.decision ≡ deny)
      × (verdict_of loud.decision ≡ contain)
      × (is_permitting (verdict_of loud.decision) ≡ true)
unfolding advised rank is_permitting
decide-contains R k m q action threat L alone told counts quiet_signs loud_signs =
    let contained : verdict_of (concluded_with R k m q action L threat).decision ≡ contain =
      verdict-concluded R k m q action L threat ∙ ap (λ b. outcome b [] limit) counts in
    (
      concluded_with R k m q action L none,
      concluded_with R k m q action L threat,
      decide-concluded R k m q action L (unadvised q) none refl refl alone quiet_signs,
      decide-concluded R k m q action L q threat told refl alone loud_signs,
      verdict-concluded R k m q action L none,
      contained,
      rw contained refl,
    )
