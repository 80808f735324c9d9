-- ===== src/AuthorityPdp/External.antt =====
-- authority_pdp.py: the adapters permit only what the engines behind them permit.
use Prim.Native.Nat.{zero, suc}
use decision_os_min.Prelude.{
  ℕ, ◌≤◌, ◌≡◌, ◌≢◌, refl, sym, ◌∙◌, ap, ◌⊎◌, inl, inr, String, true, false, Option, none, some,
  arith, chars, prefix_of, ltb, Bool-cases, Option-cases,
}
use decision_os_min.Py.{Value, Dict, get}
use decision_os_min.Py.Exc.{ok, ok_of_bind, ok_inj}
use decision_os_min.Py.Runtime.{Runtime}
use decision_os_min.Py.Plugin.{
  Ran, returned, raised, based, closed, silent, after_call-returned, returned-inj,
}
use decision_os_min.Compose.{allow, deny, normalize, normalize_text}
use decision_os_min.Compose.Lattice.{normalize-normalize}
use decision_os_min.AuthorityPdp.Defs.{
  CanonicalAuthorityResult, AuthorityPdp, Output, denied, identity_field, raw_verdict,
  canonicalize_authority_output, ruled, evaluate_authority,
}
use decision_os_min.AuthorityPdp.Opa
use decision_os_min.AuthorityPdp.Opa.{
  Opa, Web, read, present, result_of, decoded, missing, pdp_error,
}

-- The provider's own output that a permission goes back to.
abbrev pub Own : AuthorityPdp → Dict → CanonicalAuthorityResult → Type 0
Own p action r =
    (output : Output) × (p.evaluate action ≡ returned output)
    × (r.verdict ≡ normalize (raw_verdict output))

denied-absurd :
    {A : Type 0} (reason name revision : String) (r : CanonicalAuthorityResult)
    → ok (denied reason name revision) ≡ ok r
    → r.verdict ≢ deny
    → A
denied-absurd reason name revision r h permits =
    absurd (permits (ap (λ x. x.verdict) (sym (ok_inj h))))

ruled-own :
    (R : Runtime) (bound : Option String) (name revision : String) (o : Ran Output)
    (r : CanonicalAuthorityResult)
    → ruled R bound name revision o ≡ ok r
    → r.verdict ≢ deny
    → (output : Output) × (o ≡ returned output) × (r.verdict ≡ normalize (raw_verdict output))
unfolding ruled
ruled-own R bound name revision (returned output) r h p = (
  output,
  refl,
  ap (λ x. x.verdict) (sym (ok_inj h)) ∙ (unfold canonicalize_authority_output in refl),
)
ruled-own R none name revision (raised c t) r h p = denied-absurd _ _ _ r h p
ruled-own R (some s) name revision (raised c t) r h p = denied-absurd _ _ _ r h p
ruled-own R bound name revision (based c t) r h p = denied-absurd _ _ _ r h p
ruled-own R bound name revision closed r h p = absurd cc
ruled-own R none name revision silent r h p = absurd cc
ruled-own R (some s) name revision silent r h p = denied-absurd _ _ _ r h p

pub evaluate_authority-Own :
    (R : Runtime) (bound : Option String) (p : AuthorityPdp) (action : Dict)
    (r : CanonicalAuthorityResult)
    → evaluate_authority R bound p action ≡ ok r
    → r.verdict ≢ deny
    → Own p action r
unfolding evaluate_authority
evaluate_authority-Own R bound p action r h permits =
    ok_of_bind (identity_field R p.name "authority-pdp" 128) _ h λ name _ h1.
      ok_of_bind (identity_field R p.policy_revision "unknown" 256) _ h1
        λ revision _ h2. ruled-own R bound name revision (p.evaluate action) r h2 permits

pub present-returned :
    {A : Type 0} (R : Runtime) (c : String) (o : Option A) (a : A)
    → present R c o ≡ returned a
    → o ≡ some a
present-returned R c none a h = absurd cc
present-returned R c (some b) a h = ap some (returned-inj h)

-- A text that is read whole, one character more being asked for, is the text.
prefix_of-whole : (n : ℕ) (s : String) → chars (prefix_of (suc n) s) ≤ n → prefix_of (suc n) s ≡ s
unfolding prefix_of chars
prefix_of-whole n String.[] h = refl
prefix_of-whole zero (String.◌∷◌ c s) h = absurd (omega arith)
prefix_of-whole (suc n) (String.◌∷◌ c s) h = ap (String.◌∷◌ c) (prefix_of-whole n s (omega arith))

read-returned :
    (bound : ℕ) (body got : String)
    → read bound body ≡ returned got
    → (got ≡ body) × (chars body ≤ bound)
unfolding read
read-returned bound body got h =
    elim (Bool-cases (ltb bound (chars (prefix_of (suc bound) body)))) [
      | inl e ↦ absurd (too_long (rw e at h))
      | inr e ↦
          let short : chars (prefix_of (suc bound) body) ≤ bound = ground arith in
          let whole = prefix_of-whole bound body short in
          (sym (returned-inj (rw e at h)) ∙ whole, rw whole at short)
    ]
  where
    too_long : pdp_error "OPA response exceeds configured limit" ≡ returned got → ⊥
    too_long h = cc

-- What OPA said, for a ruling with a verdict.
pub record IsAnswered (R : Runtime) (W : Web) (o : Opa) (action : Dict) (verdict : String)
    : Type 0 where
  pub payload : String
  pub is_printed :
      R.dumps_strict (Value.dict (Dict.entry "input" (Value.dict action) Dict.end)) ≡ some payload
  pub body : String
  pub is_posted : W.post o.decision_url payload o.timeout ≡ returned body
  pub is_short : chars body ≤ o.max_response_bytes
  pub answer : Dict
  pub is_read : R.loads body ≡ some (Value.dict answer)
  pub result : Value
  pub has_result : get "result" answer ≡ some result
  pub is_said :
      ((result ≡ Value.boolean true) × (verdict ≡ allow))
      ⊎ (verdict ≡ normalize (raw_verdict (Output.plain result)))

result_of-said :
    (R : Runtime) (o : Opa) (v : Value) (output : Output) (verdict : String)
    → result_of R o v ≡ returned output
    → verdict ≡ normalize (raw_verdict output)
    → verdict ≢ deny
    → ((v ≡ Value.boolean true) × (verdict ≡ allow))
      ⊎ (verdict ≡ normalize (raw_verdict (Output.plain v)))
unfolding result_of
result_of-said R o (Value.boolean true) output verdict h e p = inl (
  refl,
  e
      ∙ ap (λ x. normalize (raw_verdict x)) (sym (returned-inj h))
      ∙ (unfold raw_verdict normalize normalize_text in refl),
)
result_of-said R o (Value.boolean false) output verdict h e p = absurd (
    p (
      e
      ∙ ap (λ x. normalize (raw_verdict x)) (sym (returned-inj h))
      ∙ (unfold raw_verdict normalize normalize_text in refl)))
result_of-said R o (Value.str s) output verdict h e p = inr (
    e
    ∙ ap (λ x. normalize (raw_verdict x)) (sym (returned-inj h))
    ∙ (unfold raw_verdict canonicalize_authority_output in normalize-normalize (Value.str s)))
result_of-said R o (Value.dict d) output verdict h e p = inr (
    e
    ∙ ap (λ x. normalize (raw_verdict x)) (sym (returned-inj h))
    ∙ (unfold raw_verdict canonicalize_authority_output in
        normalize-normalize (raw_verdict (Output.plain (Value.dict d)))))
result_of-said R o _ output verdict h e p = absurd cc

-- A ruling that comes of the OPA adapter and does not deny is what an answer of OPA says: one that
-- came to the POST of the action, within the bound, and whose field `result` is true or stands for
-- that very verdict.
pub opa-permits :
    (R : Runtime) (W : Web) (o : Opa) (bound : Option String) (action : Dict)
    (r : CanonicalAuthorityResult)
    → evaluate_authority R bound (Opa.provider R W o) action ≡ ok r
    → r.verdict ≢ deny
    → IsAnswered R W o action r.verdict
unfolding Opa.provider Opa.evaluate decoded
opa-permits R W o bound action r h permits =
    let (output, own, same) =
      evaluate_authority-Own R bound (Opa.provider R W o) action r h permits in
    let (payload, printed, h1) = after_call-returned _ _ output own in
    let (body, posted, h2) =
      after_call-returned (W.post o.decision_url payload o.timeout) _ output h1 in
    let (got, was_read, h3) = after_call-returned (read o.max_response_bytes body) _ output h2 in
    let (answer, parsed, h4) =
      after_call-returned (present R "JSONDecodeError" (R.loads got)) _ output h3 in
    let (whole, short) = read-returned o.max_response_bytes body got was_read in
    by_answer payload body answer output (present-returned R _ _ payload printed) posted short
      (rw (← whole) (present-returned R _ _ answer parsed)) h4 same
  where
    by_answer :
        (payload body : String) (answer : Value) (output : Output)
        → R.dumps_strict (Value.dict (Dict.entry "input" (Value.dict action) Dict.end))
          ≡ some payload
        → W.post o.decision_url payload o.timeout ≡ returned body
        → chars body ≤ o.max_response_bytes
        → R.loads body ≡ some answer
        → decoded R o answer ≡ returned output
        → r.verdict ≡ normalize (raw_verdict output)
        → IsAnswered R W o action r.verdict
    by_answer payload body (Value.dict d) output printed posted short loads d_ok same =
        elim (Option-cases (get "result" d)) [
          | inl e ↦ absurd (not_missing output (rw (e, decoded) at d_ok))
          | inr (v, e) ↦ record {
            payload = payload;
            is_printed = printed;
            body = body;
            is_posted = posted;
            is_short = short;
            answer = d;
            is_read = loads;
            result = v;
            has_result = e;
            is_said = result_of-said R o v output r.verdict (rw (e, decoded) at d_ok) same permits;
          }
        ]
      where
        not_missing : (output : Output) → missing ≡ returned output → ⊥
        not_missing output h = cc
    by_answer payload body _ output printed posted short loads d_ok same = absurd cc
