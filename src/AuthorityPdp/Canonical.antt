-- ===== src/AuthorityPdp/Canonical.antt =====
-- authority_pdp.py: whatever a provider does, the ruling is in the lattice, bounded, and permits
-- only where the provider's own output does.
use Prim.Native.Nat.{zero, suc}
use decision_os_min.Prelude.{
  ℕ, ◌+◌, ◌≤◌, ◌≡◌, ◌≢◌, refl, String, ◌⧺◌, Bool, true, false, Option, none, some, arith, inl, inr,
  Bool-cases, prefix_of, nonempty, nil-append, cons-append, if◌then◌else◌, ◌==◌,
}
use decision_os_min.Py.{Value, Dict}
use decision_os_min.Py.Exc.{ok, ok_of_bind, ok_inj}
use decision_os_min.Py.Runtime.{Runtime}
use decision_os_min.Py.Plugin.{Ran, returned, raised, based, closed, silent, is_timeout}
use decision_os_min.Compose.{allow, limit, contain, defer, deny, normalize, normalize_text, text}
use decision_os_min.Compose.Lattice.{normalize-normalize}
use decision_os_min.AuthorityPdp.Defs.{
  CanonicalAuthorityResult, AuthorityPdp, Output, plain_bounded, denied, timed_out, failed,
  identity_field, raw_verdict, raw_reason, marked, canonicalize_authority_output, ruled,
  evaluate_authority, lower, max_reason_chars,
}

-- `len(s)`
unfoldable pub size : String → ℕ
size String.[] = 0
size (String.◌∷◌ c s) = suc (size s)

size-prefix_of : (n : ℕ) (s : String) → size (prefix_of n s) ≤ n
unfolding size prefix_of
size-prefix_of zero s = omega arith
size-prefix_of (suc n) String.[] = omega arith
size-prefix_of (suc n) (String.◌∷◌ c s) = omega (arith, size-prefix_of n s)

size-append : (s t : String) → size (s ⧺ t) ≡ size s + size t
unfolding size
size-append String.[] t = rw nil-append (omega arith)
size-append (String.◌∷◌ c s) t = rw cons-append (omega (arith, size-append s t))

size-lower : (v : String) → size (lower v) ≤ 7
unfolding size
size-lower v = elim (Bool-cases (v == allow)) [
  | inl a ↦ rw a (omega arith)
  | inr a ↦ elim (Bool-cases (v == limit)) [
    | inl b ↦ rw (a, b) (omega arith)
    | inr b ↦ elim (Bool-cases (v == contain)) [
      | inl c ↦ rw (a, b, c) (omega arith)
      | inr c ↦ elim (Bool-cases (v == defer)) [
        | inl d ↦ rw (a, b, c, d) (omega arith)
        | inr d ↦ rw (a, b, c, d) (omega arith)
      ]
    ]
  ]
]

size-or_text :
    (s t : String) (n : ℕ) → size s ≤ n → size t ≤ n → size (if nonempty s then s else t) ≤ n
size-or_text s t n a b = ground arith

size-plain_bounded :
    (R : Runtime) (v : Value) (fallback : String) (n : ℕ)
    → size fallback ≤ n
    → size (plain_bounded R v fallback n) ≤ n
unfolding plain_bounded
size-plain_bounded R v fallback n h =
    size-or_text (prefix_of n (text R v)) fallback n (size-prefix_of n (text R v)) h

size-marked :
    (b : Bool) (s : String) → size s ≤ max_reason_chars → size (marked b s) ≤ max_reason_chars
unfolding marked
size-marked true s h = size-prefix_of max_reason_chars _
size-marked false s h = h

size-identity_field :
    (R : Runtime) (r : Ran Value) (fallback s : String) (n : ℕ)
    → size fallback ≤ n
    → identity_field R r fallback n ≡ ok s
    → size s ≤ n
unfolding identity_field
size-identity_field R (returned v) fallback s n h e =
    rw (← ok_inj e) (size-plain_bounded R v fallback n h)
size-identity_field R silent fallback s n h e = absurd cc
size-identity_field R _ fallback s n h e = rw (← ok_inj e) h

-- What holds of every ruling that the kernel takes from a provider.
pub record IsCanonical (p : AuthorityPdp) (action : Dict) (r : CanonicalAuthorityResult)
    : Type 0 where
  pub in_lattice : normalize (Value.str r.verdict) ≡ r.verdict
  pub reason_bound : size r.reason ≤ 1024
  pub provider_bound : size r.provider ≤ 128
  pub revision_bound : size r.policy_revision ≤ 256
  -- a verdict other than DENY is the one that the provider's own output has
  pub own_verdict :
      r.verdict ≢ deny
      → (output : Output) × (p.evaluate action ≡ returned output)
        × (r.verdict ≡ normalize (raw_verdict output))

deny-normal : normalize (Value.str deny) ≡ deny
unfolding normalize normalize_text
deny-normal = refl

denied-IsCanonical :
    (p : AuthorityPdp) (action : Dict) (reason name revision : String)
    → size reason ≤ 1024
    → size name ≤ 128
    → size revision ≤ 256
    → IsCanonical p action (denied reason name revision)
denied-IsCanonical p action reason name revision a b c = record {
  in_lattice = deny-normal;
  reason_bound = a;
  provider_bound = b;
  revision_bound = c;
  own_verdict = λ h. absurd (h refl);
}

returned-IsCanonical :
    (R : Runtime) (p : AuthorityPdp) (action : Dict) (name revision : String) (output : Output)
    → size name ≤ 128
    → size revision ≤ 256
    → p.evaluate action ≡ returned output
    → IsCanonical p action (canonicalize_authority_output R name revision output)
unfolding canonicalize_authority_output
returned-IsCanonical R p action name revision output b c h =
    let verdict = normalize (raw_verdict output) in
    record {
      in_lattice = normalize-normalize (raw_verdict output);
      reason_bound = size-marked _ _ (
          size-plain_bounded R (raw_reason R output) (name ⧺ ": " ⧺ lower verdict) max_reason_chars
            (fallback verdict));
      provider_bound = b;
      revision_bound = c;
      own_verdict = λ _. (output, h, refl);
    }
  where
    fallback : (v : String) → size (name ⧺ ": " ⧺ lower v) ≤ 1024
    fallback v = rw (size-append, size-append) (omega (arith, size-lower v, two, b))
      where
        two : size ": " ≡ 2
        two = unfold size in refl

ruled-IsCanonical :
    (R : Runtime) (bound : Option String) (p : AuthorityPdp) (action : Dict)
    (name revision : String) (r : CanonicalAuthorityResult) (o : Ran Output)
    → size name ≤ 128
    → size revision ≤ 256
    → ((s : String) → bound ≡ some s → size (timed_out s) ≤ 1024)
    → p.evaluate action ≡ o
    → ruled R bound name revision o ≡ ok r
    → IsCanonical p action r
unfolding ruled
ruled-IsCanonical R bound p action name revision r (returned output) b c t e h =
    rw (← ok_inj h) (returned-IsCanonical R p action name revision output b c e)
ruled-IsCanonical R none p action name revision r (raised k x) b c t e h =
    rw (← ok_inj h) (
      denied-IsCanonical p action (failed k x) name revision (size-prefix_of max_reason_chars _) b
        c)
ruled-IsCanonical R (some s) p action name revision r (raised k x) b c t e h = rw (← ok_inj h) (
    denied-IsCanonical p action (if is_timeout k then timed_out s else failed k x) name revision
      (either (is_timeout k)) b c)
  where
    either : (q : Bool) → size (if q then timed_out s else failed k x) ≤ 1024
    either true = t s refl
    either false = size-prefix_of max_reason_chars _
ruled-IsCanonical R bound p action name revision r (based k x) b c t e h =
    rw (← ok_inj h)
      (denied-IsCanonical p action _ name revision (size-prefix_of max_reason_chars _) b c)
ruled-IsCanonical R bound p action name revision r closed b c t e h = absurd cc
ruled-IsCanonical R none p action name revision r silent b c t e h = absurd cc
ruled-IsCanonical R (some s) p action name revision r silent b c t e h =
    rw (← ok_inj h) (denied-IsCanonical p action (timed_out s) name revision (t s refl) b c)

-- Whatever a provider returns or raises, the ruling that comes of it is in the lattice, has its
-- three texts within the bounds, and is DENY or the verdict of the provider's own output, where the
-- text of the time bound is short.
pub evaluate_authority-IsCanonical :
    (R : Runtime) (bound : Option String) (p : AuthorityPdp) (action : Dict)
    (r : CanonicalAuthorityResult)
    → ((s : String) → bound ≡ some s → size s ≤ 512)
    → evaluate_authority R bound p action ≡ ok r
    → IsCanonical p action r
unfolding evaluate_authority
evaluate_authority-IsCanonical R bound p action r t h =
    ok_of_bind (identity_field R p.name "authority-pdp" 128) _ h λ name e1 h1.
      ok_of_bind (identity_field R p.policy_revision "unknown" 256) _ h1 λ revision e2 h2.
        ruled-IsCanonical R bound p action name revision r (p.evaluate action)
          (size-identity_field R p.name "authority-pdp" name 128 (unfold size in omega arith) e1)
          (size-identity_field R p.policy_revision "unknown" revision 256
            (unfold size in omega arith) e2)
          short refl h2
  where
    around : (size "authority PDP timeout (fail-closed): " ≡ 37) × (size "s" ≡ 1)
    around = unfold size in (refl, refl)

    short : (s : String) → bound ≡ some s → size (timed_out s) ≤ 1024
    short s e = rw (size-append, size-append) (omega (arith, t s e, around.0, around.1))
