-- ===== src/Kernel/Tokenless.antt =====
-- kernel.py: the ruling of `_evaluate` carries no token.
use decision_os_min.Prelude.{
  ℕ, ◌≡◌, refl, ◌∙◌, ap, String, Option, none, some, List, [], ◌∷◌, arith, ◌==◌, inl, inr,
  Bool-cases,
}
use decision_os_min.Py.{Value, Dict, get, put, get_or_else}
use decision_os_min.Py.Laws.{get-put}
use decision_os_min.Py.Exc.{Exc, ok, raise, ok_of_bind, ok_inj}
use decision_os_min.Py.Runtime.{Runtime}
use decision_os_min.Compose.{
  limit, contain, deny, defer, action_ref_of, verdict_of, more_restrictive,
}
use decision_os_min.AuthorityPdp.{CanonicalAuthorityResult, evaluate_authority}
use decision_os_min.Kernel.State.{Kernel, pdp_of}
use decision_os_min.Kernel.Evaluate.{
  local_decision, identify, oblige, obliged, limited, containment, after_authority, after_shape,
  with_result, to_dict, redact, host_decision,
}

-- No ruling of the authority's carries a token.
abbrev pub LacksToken : Dict → Type 0
LacksToken d = get "token_id" d ≡ none

more_restrictive-lacks :
    (d e : Dict) → LacksToken d → LacksToken e → LacksToken (more_restrictive d e)
unfolding more_restrictive
more_restrictive-lacks d e a b = ground arith

local_decision-lacks :
    (R : Runtime) (k : Kernel) (threat : Option String) (ref : Value) (redacted : List String)
    → LacksToken (local_decision R k threat ref redacted)
unfolding local_decision get
local_decision-lacks R k threat ref [] = ground arith
local_decision-lacks R k threat ref (f ∷ fs) = ground arith

identify-lacks :
    (r : CanonicalAuthorityResult) (d : Dict) → LacksToken d → LacksToken (identify r d)
identify-lacks r d h = simp (get-put, h)

oblige-lacks :
    (payload : Dict) (redacted : List String) (d : Dict)
    → LacksToken d
    → LacksToken (oblige payload redacted d)
oblige-lacks payload [] d h = h
oblige-lacks payload (f ∷ fs) d h = simp (get-put, h)

obliged-lacks :
    (r : CanonicalAuthorityResult) (ref : Value) (payload : Dict) (redacted : List String)
    (d : Dict)
    → LacksToken d
    → LacksToken (obliged r ref payload redacted d)
unfolding obliged
obliged-lacks r ref payload redacted d h = elim (Bool-cases (verdict_of d == limit)) [
  | inl e ↦ rw e (limited-lacks redacted)
  | inr e ↦ elim (Bool-cases (verdict_of d == contain)) [
    | inl c ↦
        rw (e, c)
          (identify-lacks r _
            (oblige-lacks payload redacted (put "containment" containment d) (simp (get-put, h))))
    | inr c ↦ rw (e, c) (identify-lacks r d h)
  ]
]
  where
    limited-lacks : (fs : List String) → LacksToken (limited r ref payload fs d)
    limited-lacks [] = unfold get in refl
    limited-lacks (f ∷ fs) =
        identify-lacks r (oblige payload (f ∷ fs) d) (oblige-lacks payload (f ∷ fs) d h)

host_decision-lacks :
    (R : Runtime) (k : Kernel) (threat : Option String) (action d : Dict)
    (r : CanonicalAuthorityResult)
    → host_decision R k threat action r ≡ ok d
    → LacksToken d
unfolding host_decision get
host_decision-lacks R k threat action d r h =
    ok_of_bind (to_dict R (get_or_else "payload" (Value.dict Dict.end) action)) _ h λ given _ e.
      let ref = action_ref_of action in
      let (payload, redacted) = redact k.redactions (get "action_purpose" action) given in
      rw (← ok_inj e) (
        obliged-lacks r ref payload redacted _
          (more_restrictive-lacks _ _ refl (local_decision-lacks R k threat ref redacted)))

after_authority-lacks :
    (R : Runtime) (k : Kernel) (threat : Option String) (action d : Dict)
    (r s : CanonicalAuthorityResult)
    → after_authority R k threat action r ≡ ok (d, s)
    → LacksToken d
unfolding after_authority get
after_authority-lacks R k threat action d r s h = elim (Bool-cases (r.verdict == deny)) [
  | inl e ↦ rw (← ap (λ x. x.0) (ok_inj (rw e at h))) refl
  | inr e ↦ elim (Bool-cases (r.verdict == defer)) [
    | inl f ↦ rw (← ap (λ x. x.0) (ok_inj (rw (e, f) at h))) refl
    | inr f ↦ permitted (host_decision R k threat action r) refl (rw (e, f) at h)
  ]
]
  where
    permitted :
        (o : Exc Dict)
        → host_decision R k threat action r ≡ o
        → with_result r o ≡ ok (d, s)
        → LacksToken d
    permitted (ok c) e w = host_decision-lacks R k threat action d r (e ∙ ground arith)
    permitted (raise c) e w = absurd cc

pub after_shape-lacks :
    (R : Runtime) (k : Kernel) (now : ℕ) (bound threat : Option String) (action d : Dict)
    (o : Option String) (r : CanonicalAuthorityResult)
    → after_shape R k now bound threat action o ≡ ok (d, r)
    → LacksToken d
unfolding after_shape
after_shape-lacks R k now bound threat action d (some reason) r h =
    rw (← ap (λ x. x.0) (ok_inj h)) (unfold get in refl)
after_shape-lacks R k now bound threat action d none r h =
    ok_of_bind (evaluate_authority R bound (pdp_of R now k.provider) action) _ h
      λ s _ e. after_authority-lacks R k threat action d s r e
