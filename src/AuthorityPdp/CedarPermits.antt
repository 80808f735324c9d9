-- ===== src/AuthorityPdp/CedarPermits.antt =====
-- authority_pdp.py: the Cedar adapter permits exactly where the process says so.
use decision_os_min.Prelude.{
  ◌≡◌, ◌≢◌, refl, sym, ◌∙◌, ap, ◌⊎◌, inl, inr, ◌↔◌, String, true, false, Option, some, arith, ◌==◌,
  eq_iff, eq_refl, nat_eq, Bool-cases,
}
use decision_os_min.Py.{Value, Dict, ℤ}
use decision_os_min.Py.Exc.{ok, ok_of_bind, ok_inj}
use decision_os_min.Py.Runtime.{Runtime}
use decision_os_min.Py.Plugin.{
  Ran, returned, raised, based, closed, silent, after_call-returned, returned-inj,
}
use decision_os_min.Compose.{allow, deny, normalize, normalize_text}
use decision_os_min.AuthorityPdp.Defs.{
  CanonicalAuthorityResult, Output, identity_field, raw_verdict, canonicalize_authority_output,
  ruled, evaluate_authority,
}
use decision_os_min.AuthorityPdp.External.{evaluate_authority-Own, present-returned}
use decision_os_min.AuthorityPdp.Opa.{present, pdp_error}
use decision_os_min.AuthorityPdp.Cedar
use decision_os_min.AuthorityPdp.Cedar.{
  Cedar, Cli, Completed, context_of, request_of, command, judged, completed,
}

-- What Cedar did, where it permits.
pub record IsPermitted (R : Runtime) (C : Cli) (path : String) (c : Cedar) (action : Dict)
    : Type 0 where
  pub context : Dict
  pub is_found : context_of c.context_map action ≡ returned context
  pub request : String
  pub is_printed : C.dumps (Value.dict (request_of R C c action context)) ≡ some request
  pub done : Completed
  pub is_run : C.run (command c path) (some request) c.timeout ≡ returned done
  pub is_success : done.returncode ≡ ℤ.pos 0

completed-returned :
    (x : Ran Completed) (done : Completed) → completed x ≡ returned done → x ≡ returned done
unfolding completed
completed-returned (returned d) done h = h
completed-returned (raised c t) done h = elim (Bool-cases (c == "TimeoutExpired")) [
  | inl e ↦ absurd (no_result (rw e at h))
  | inr e ↦ rw e at h
]
  where
    no_result : pdp_error "Cedar CLI timed out" ≡ returned done → ⊥
    no_result h = cc
completed-returned (based c t) done h = absurd cc
completed-returned closed done h = absurd cc
completed-returned silent done h = absurd cc

judged-success :
    (R : Runtime) (c : Cedar) (done : Completed) (output : Output)
    → judged R c done ≡ returned output
    → normalize (raw_verdict output) ≢ deny
    → done.returncode ≡ ℤ.pos 0
unfolding judged
judged-success R c done output h permits = by_code done.returncode refl
  where
    denies :
        returned (Output.result (Value.str deny) (Value.str "Cedar deny")) ≡ returned output → ⊥
    denies e = permits (
        ap (λ x. normalize (raw_verdict x)) (sym (returned-inj e))
        ∙ (unfold raw_verdict normalize normalize_text in refl))

    no_result : (t : String) → ◌≡◌ {A = Ran Output} (pdp_error t) (returned output) → ⊥
    no_result t e = cc

    by_code : (z : ℤ) → done.returncode ≡ z → done.returncode ≡ ℤ.pos 0
    by_code (ℤ.pos n) e = elim (Bool-cases (nat_eq n 0)) [
      | inl zero_code ↦ e ∙ ap ℤ.pos (ground arith)
      | inr other ↦ elim (Bool-cases (nat_eq n 2)) [
        | inl two ↦ absurd (denies (rw (e, other, two, judged) at h))
        | inr error ↦ absurd (no_result _ (rw (e, other, error, judged) at h))
      ]
    ]
    by_code (ℤ.negsuc n) e = absurd (no_result _ (rw (e, judged) at h))

judged-zero :
    (R : Runtime) (c : Cedar) (done : Completed)
    → done.returncode ≡ ℤ.pos 0
    → judged R c done ≡ returned (Output.result (Value.str allow) (Value.str "Cedar permit"))
unfolding judged
judged-zero R c done e = rw (e, judged) refl

module _ (R : Runtime) (C : Cli) (path : String) (c : Cedar) (bound : Option String) (action : Dict)
    (r : CanonicalAuthorityResult)
    (ruled_r : evaluate_authority R bound (Cedar.provider R C path c) action ≡ ok r) where
  permitted : r.verdict ≢ deny → IsPermitted R C path c action
  unfolding Cedar.provider Cedar.evaluate
  permitted permits =
      let (output, own, same) =
        evaluate_authority-Own R bound (Cedar.provider R C path c) action r ruled_r permits in
      let (context, found, h1) =
        after_call-returned (context_of c.context_map action) _ output own in
      let (request, printed, h2) =
        after_call-returned
          (present R "TypeError" (C.dumps (Value.dict (request_of R C c action context)))) _ output
          h1 in
      let (done, ran, h3) =
        after_call-returned (completed (C.run (command c path) (some request) c.timeout)) _ output
          h2 in
      record {
        context = context;
        is_found = found;
        request = request;
        is_printed = present-returned R "TypeError" _ request printed;
        done = done;
        is_run = completed-returned _ done ran;
        is_success = judged-success R c done output h3 (λ e. permits (same ∙ e));
      }

  allows : IsPermitted R C path c action → r.verdict ≡ allow
  unfolding evaluate_authority Cedar.provider Cedar.evaluate ruled completed
  allows p =
      ok_of_bind (identity_field R (returned (Value.str "cedar")) "authority-pdp" 128) _ ruled_r
        λ name _ h1.
          ok_of_bind (identity_field R (returned (Value.str c.policy_revision)) "unknown" 256) _ h1
            λ revision _ h2.
              let output : Cedar.evaluate R C path c action
                  ≡ returned (Output.result (Value.str allow) (Value.str "Cedar permit")) =
                ran p in
              ap (λ x. x.verdict)
                (sym (ok_inj (ap (ruled R bound name revision) (sym output) ∙ h2)))
              ∙ (unfold canonicalize_authority_output raw_verdict normalize normalize_text in refl)
    where
      ran :
          IsPermitted R C path c action
          → Cedar.evaluate R C path c action
            ≡ returned (Output.result (Value.str allow) (Value.str "Cedar permit"))
      ran p = rw (p.is_found, p.is_printed, p.is_run) (judged-zero R c p.done p.is_success)

-- A ruling that comes of the Cedar adapter is ALLOW or DENY, and it is ALLOW exactly where each source
-- of the context was found in the action and the process, run on the request that is made of it,
-- ended with status 0.
pub cedar-permits :
    (R : Runtime) (C : Cli) (path : String) (c : Cedar) (bound : Option String) (action : Dict)
    (r : CanonicalAuthorityResult)
    → evaluate_authority R bound (Cedar.provider R C path c) action ≡ ok r
    → ((r.verdict ≡ allow) ⊎ (r.verdict ≡ deny))
      × ((r.verdict ≡ allow) ↔ IsPermitted R C path c action)
cedar-permits R C path c bound action r h = (
  elim (Bool-cases (r.verdict == deny)) [
    | inl e ↦ inr ((eq_iff r.verdict deny).0 e)
    | inr e ↦ inl (
        allows R C path c bound action r h
          (permitted R C path c bound action r h (λ d. differ (rw (d, eq_refl) at e))))
  ],
  (
    λ e. permitted R C path c bound action r h (λ d. allow-ne-deny (sym e ∙ d)),
    allows R C path c bound action r h,
  ),
)
  where
    differ : true ≡ false → ⊥
    differ x = cc

    allow-ne-deny : allow ≢ deny
    allow-ne-deny = λ x. ground (arith, eq_iff allow deny)
