-- ===== src/Kernel/Advice.antt =====
-- kernel.py: what a threat class, an advisor's or the caller's, can change in a ruling.
use decision_os_min.Prelude.{
  ◌≤◌, ◌≡◌, refl, sym, ◌∙◌, ap, String, true, false, ◌⊎◌, inl, inr, Option, none, List, [], ◌∷◌,
  arith, ◌==◌, Bool, Bool-cases, ltb, ◌⧺◌, if◌then◌else◌,
}
use decision_os_min.Py.{Value, Dict, get, get_or_else}
use decision_os_min.Py.Laws.{get-put}
use decision_os_min.Py.Exc.{ok, ok_of_bind, ok_inj}
use decision_os_min.Py.Runtime.{Runtime}
use decision_os_min.Compose.{
  rank, normalize, normalize_text, allow, limit, contain, deny, verdict_of, more_restrictive,
  action_ref_of,
}
use decision_os_min.Compose.Lattice.{Level, name}
use decision_os_min.Compose.Lattice.{normalize_text-Level}
use decision_os_min.AuthorityPdp.{CanonicalAuthorityResult}
use decision_os_min.Kernel.State.{Kernel}
use decision_os_min.Kernel.Evaluate.{
  local_decision, in_classes, identify, oblige, obliged, containment, after_authority, after_shape,
  with_result, to_dict, redact, host_decision, ruling, provenance, evaluate,
}
use decision_os_min.Kernel.Evaluate
use decision_os_min.Kernel.Composed.{verdict_of-put}

verdict_of-ruling :
    (v reason : String) (ref : Value) (extra : Dict)
    → verdict_of (ruling v reason ref extra) ≡ normalize_text v
unfolding verdict_of get normalize
verdict_of-ruling v reason ref extra = refl

verdict_of-identify :
    (r : CanonicalAuthorityResult) (d : Dict) → verdict_of (identify r d) ≡ verdict_of d
unfolding verdict_of
verdict_of-identify r d = simp get-put

verdict_of-oblige :
    (payload : Dict) (redacted : List String) (d : Dict)
    → verdict_of (oblige payload redacted d) ≡ verdict_of d
unfolding verdict_of
verdict_of-oblige payload [] d = refl
verdict_of-oblige payload (f ∷ fs) d = simp get-put

-- The verdict that a composed one leaves the kernel with: LIMIT wants something to redact.
abbrev pub settled : List String → String → String
settled [] v = if v == limit then deny else v
settled (_ ∷ _) v = v

verdict_of-obliged :
    (r : CanonicalAuthorityResult) (ref : Value) (payload : Dict) (redacted : List String)
    (d : Dict)
    → verdict_of (obliged r ref payload redacted d) ≡ settled redacted (verdict_of d)
unfolding obliged
verdict_of-obliged r ref payload redacted d = elim (Bool-cases (verdict_of d == limit)) [
  | inl e ↦ rw e (by_redacted redacted e)
  | inr e ↦ elim (Bool-cases (verdict_of d == contain)) [
    | inl c ↦
        rw (e, c)
          (verdict_of-identify r _
            ∙ verdict_of-oblige payload redacted _
            ∙ verdict_of-put "containment" containment d refl
            ∙ kept redacted e)
    | inr c ↦ rw (e, c) (verdict_of-identify r d ∙ kept redacted e)
  ]
]
  where
    by_redacted :
        (fs : List String)
        → (verdict_of d == limit) ≡ true
        → verdict_of (Evaluate.limited r ref payload fs d) ≡ settled fs (verdict_of d)
    by_redacted [] e = rw e (unfold verdict_of get normalize normalize_text in refl)
    by_redacted (f ∷ fs) e = verdict_of-identify r _ ∙ verdict_of-oblige payload (f ∷ fs) d

    kept :
        (fs : List String)
        → (verdict_of d == limit) ≡ false
        → verdict_of d ≡ settled fs (verdict_of d)
    kept [] e = rw e refl
    kept (f ∷ fs) e = refl

abbrev pub joined : String → String → String
joined v w = if ltb (rank v) (rank w) then w else v

verdict_of-more_restrictive :
    (d e : Dict) → verdict_of (more_restrictive d e) ≡ joined (verdict_of d) (verdict_of e)
unfolding more_restrictive
verdict_of-more_restrictive d e = ground arith

-- The local verdict where no threat counts.
abbrev pub calm : List String → String
calm [] = allow
calm (_ ∷ _) = limit

-- The local verdict, by whether the threat counts.
abbrev pub alarmed : Bool → List String → String
alarmed true redacted = contain
alarmed false redacted = calm redacted

verdict_of-local_decision :
    (R : Runtime) (k : Kernel) (threat : Option String) (ref : Value) (redacted : List String)
    → verdict_of (local_decision R k threat ref redacted)
      ≡ alarmed (in_classes threat k.contained_classes) redacted
unfolding local_decision
verdict_of-local_decision R k threat ref redacted =
    elim (Bool-cases (in_classes threat k.contained_classes)) [
      | inl e ↦ rw e (unfold verdict_of get normalize normalize_text in refl)
      | inr e ↦ rw e (quiet redacted)
    ]
  where
    quiet :
        (fs : List String)
        → verdict_of (elim fs [
          | [] ↦ ruling allow "host obligations satisfied" ref Dict.end
          | g ∷ gs ↦ ruling limit ("redacted " ⧺ Evaluate.named R (g ∷ gs)) ref Dict.end
        ])
          ≡ calm fs
    quiet [] = unfold verdict_of get normalize normalize_text in refl
    quiet (g ∷ gs) = unfold verdict_of get normalize normalize_text in refl

-- What becomes of the authority's verdict.
abbrev pub outcome : Bool → List String → String → String
outcome alarm redacted v = settled redacted (joined v (alarmed alarm redacted))

-- The one case in which an alarm loosens: a LIMIT with nothing to redact.
abbrev Loosens : Bool → List String → String → Type 0
Loosens alarm redacted v = (alarm ≡ true) × (redacted ≡ []) × (v ≡ limit)

level_outcome :
    (alarm : Bool) (redacted : List String) (l : Level)
    → (rank (outcome false redacted (name l)) ≤ rank (outcome alarm redacted (name l)))
      ⊎ Loosens alarm redacted (name l)
unfolding rank name
level_outcome false redacted l = inl (omega arith)
level_outcome true [] Level.allowed = inl (omega arith)
level_outcome true [] Level.limited = inr (refl, refl, refl)
level_outcome true [] Level.contained = inl (omega arith)
level_outcome true [] Level.deferred = inl (omega arith)
level_outcome true [] Level.denied = inl (omega arith)
level_outcome true (f ∷ fs) Level.allowed = inl (omega arith)
level_outcome true (f ∷ fs) Level.limited = inl (omega arith)
level_outcome true (f ∷ fs) Level.contained = inl (omega arith)
level_outcome true (f ∷ fs) Level.deferred = inl (omega arith)
level_outcome true (f ∷ fs) Level.denied = inl (omega arith)

-- The one way in which advice loosens: a threat that counts turns the DENY of a LIMIT that nothing
-- implements into CONTAIN.
pub record IsLoosened (R : Runtime) (k : Kernel) (threat : Option String) (action : Dict)
    (r : CanonicalAuthorityResult) (quiet loud : String) : Type 0 where
  pub counts : in_classes threat k.contained_classes ≡ true
  pub limits : normalize_text r.verdict ≡ limit
  pub payload : Dict
  pub is_payload : to_dict R (get_or_else "payload" (Value.dict Dict.end) action) ≡ ok payload
  pub nothing_redacted : (redact k.redactions (get "action_purpose" action) payload).1 ≡ []
  pub is_denied : quiet ≡ deny
  pub is_contained : loud ≡ contain

-- What a ruling's verdict is with a threat, against its verdict without one.
abbrev pub Tightened :
    Runtime → Kernel → Option String → Dict → CanonicalAuthorityResult → String → String → Type 0
Tightened R k threat action r quiet loud =
    (rank quiet ≤ rank loud) ⊎ IsLoosened R k threat action r quiet loud

module _ (R : Runtime) (k : Kernel) (threat : Option String) (action : Dict)
    (r : CanonicalAuthorityResult) where
  pub composed_verdict :
      (t : Option String) (payload : Dict) (redacted : List String)
      → verdict_of (
          obliged r (action_ref_of action) payload redacted (
            more_restrictive
              (ruling r.verdict r.reason (action_ref_of action) (provenance r))
              (local_decision R k t (action_ref_of action) redacted)))
        ≡ outcome (in_classes t k.contained_classes) redacted (normalize_text r.verdict)
  composed_verdict t payload redacted =
      verdict_of-obliged r _ payload redacted _
      ∙ ap (settled redacted) (
          verdict_of-more_restrictive _ _
          ∙ ap (λ v. joined v (verdict_of (local_decision R k t (action_ref_of action) redacted)))
              (verdict_of-ruling r.verdict r.reason _ _)
          ∙ ap (joined (normalize_text r.verdict)) (verdict_of-local_decision R k t _ redacted))

  tightened :
      (given : Dict) (redacted : List String) (quiet loud : String)
      → to_dict R (get_or_else "payload" (Value.dict Dict.end) action) ≡ ok given
      → (redact k.redactions (get "action_purpose" action) given).1 ≡ redacted
      → quiet ≡ outcome false redacted (normalize_text r.verdict)
      → loud ≡ outcome (in_classes threat k.contained_classes) redacted (normalize_text r.verdict)
      → Tightened R k threat action r quiet loud
  tightened given redacted quiet loud came found q a =
      let (l, e) = normalize_text-Level r.verdict in
      elim (level_outcome (in_classes threat k.contained_classes) redacted l) [
        | inl below ↦ inl (rw (q, a, e) below)
        | inr (counts, empty, limits) ↦ inr record {
          counts = counts;
          limits = e ∙ limits;
          payload = given;
          is_payload = came;
          nothing_redacted = found ∙ empty;
          is_denied = rw (q, e, limits, empty) (unfold rank in refl);
          is_contained = rw (a, e, limits, empty, counts) (unfold rank in refl);
        }
      ]

  pub host_decision-Tightened :
      (loud : Dict)
      → host_decision R k threat action r ≡ ok loud
      → (quiet : Dict) × (host_decision R k none action r ≡ ok quiet)
        × Tightened R k threat action r (verdict_of quiet) (verdict_of loud)
  unfolding host_decision
  host_decision-Tightened loud h =
      ok_of_bind (to_dict R (get_or_else "payload" (Value.dict Dict.end) action)) _ h
        λ given came e. (_, rw came refl, compared given came _ refl (ok_inj e))
    where
      compared :
          (given : Dict)
          → to_dict R (get_or_else "payload" (Value.dict Dict.end) action) ≡ ok given
          → (found : Dict × List String)
          → redact k.redactions (get "action_purpose" action) given ≡ found
          → obliged r (action_ref_of action) found.0 found.1 (
              more_restrictive
                (ruling r.verdict r.reason (action_ref_of action) (provenance r))
                (local_decision R k threat (action_ref_of action) found.1))
            ≡ loud
          → Tightened R k threat action r
              (verdict_of (
                obliged r (action_ref_of action) found.0 found.1 (
                  more_restrictive
                    (ruling r.verdict r.reason (action_ref_of action) (provenance r))
                    (local_decision R k none (action_ref_of action) found.1))))
              (verdict_of loud)
      compared given came (payload, redacted) found same =
          tightened given redacted _ _ came (ap (λ x. x.1) found)
            (composed_verdict none payload redacted)
            (ap verdict_of (sym same) ∙ composed_verdict threat payload redacted)
