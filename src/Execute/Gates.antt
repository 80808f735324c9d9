-- ===== src/Execute/Gates.antt =====
-- execute.py: what the gates before an effect establish about the decision that was presented.
use decision_os_min.Prelude.{
  ℕ, ◌<◌, String, ◌≡◌, refl, ◌∙◌, ap, subst, true, Option, some, arith, Table, find?, last_part,
  none, eq_iff,
}
use decision_os_min.Py.{Value, Dict, get}
use decision_os_min.Py.Exc.{ok, >>=-eq-ok, ok_of_bind, ok_inj}
use decision_os_min.Py.Runtime.{Runtime, aware}
use decision_os_min.Py.Times.{reached}
use decision_os_min.Compose.{is_permitting, in_permitting, text}
use decision_os_min.Kernel.{canonical, action_fingerprint, verify}
use decision_os_min.Execute.Checks.{
  Presented, Tool, Prepared, gates, authenticated, check_binding, check_verdict, check_expiry,
  field, check_containment, check_limit, chosen_payload, is_text, find_tool, as_token,
}

authenticated-verifies :
    (R : Runtime) (key : String) (p : Presented) (d : Dict)
    → authenticated R key p ≡ ok d
    → (c : Dict) × (p.decision ≡ Value.dict c)
      × (verify R c p.signature key ≡ true)
      × (R.loads (canonical R c) ≡ some (Value.dict d))
unfolding authenticated
authenticated-verifies R key p d h = ground arith

pub is_text→eq : (o : Option Value) (f : String) → is_text o f ≡ true → o ≡ some (Value.str f)
is_text→eq none f h = cc
is_text→eq (some (Value.str s)) f h = ground (arith, eq_iff s f)
is_text→eq (some _) f h = cc

check_binding-binds :
    (R : Runtime) (action d : Dict)
    → check_binding R action d ≡ ok tt
    → (f : String) × (action_fingerprint R action ≡ ok f)
      × (get "action_binding" d ≡ some (Value.str f))
unfolding check_binding
check_binding-binds R action d h =
    let (f, e, rest) = >>=-eq-ok (action_fingerprint R action) _ h in
    (f, e, ground (arith, is_text→eq (get "action_binding" d) f))

check_verdict-permits :
    (R : Runtime) (d : Dict) (v : Value)
    → check_verdict R d ≡ ok v
    → (s : String) × (v ≡ Value.str s) × (get "verdict" d ≡ some v) × (is_permitting s ≡ true)
unfolding check_verdict field in_permitting
check_verdict-permits R d v h = ground arith

check_expiry-lives :
    (R : Runtime) (now : ℕ) (d : Dict)
    → check_expiry R now d ≡ ok tt
    → (s : String) × (t : ℕ) × (get "token_expires_at" d ≡ some (Value.str s))
      × (R.fromisoformat s ≡ some (aware t))
      × (now < t)
unfolding check_expiry reached
check_expiry-lives R now d h = ground arith

as_token-eq : (o : Option Value) (t : String) → as_token o ≡ ok t → o ≡ some (Value.str t)
as_token-eq none t h = cc
as_token-eq (some (Value.str s)) t h = ground arith
as_token-eq (some _) t h = cc

find_tool-eq :
    (tools : Table Tool) (n : String) (fn : Tool)
    → find_tool tools n ≡ ok fn
    → find? n tools ≡ some fn
find_tool-eq tools n fn h = ground arith

-- What is known of the decision that was presented, once the gates let through.
pub record IsCleared (R : Runtime) (key : String) (now : ℕ) (action : Dict) (p : Presented)
    (tools : Table Tool) (g : Prepared) : Type 0 where
  -- the dict that was verified, and its reading from the canonical text
  pub presented : Dict
  pub decision : Dict
  pub is_presented : p.decision ≡ Value.dict presented
  pub is_verified : verify R presented p.signature key ≡ true
  pub is_frozen : R.loads (canonical R presented) ≡ some (Value.dict decision)
  -- it was made for this action
  pub fingerprint : String
  pub is_fingerprint : action_fingerprint R action ≡ ok fingerprint
  pub is_bound : get "action_binding" decision ≡ some (Value.str fingerprint)
  -- it permits, and its token has not expired
  pub verdict : String
  pub has_verdict : get "verdict" decision ≡ some (Value.str verdict)
  pub permits : is_permitting verdict ≡ true
  pub expiry : ℕ
  pub expiry_text : String
  pub has_expiry : get "token_expires_at" decision ≡ some (Value.str expiry_text)
  pub is_expiry : R.fromisoformat expiry_text ≡ some (aware expiry)
  pub is_live : now < expiry
  -- the tool is the one that it grants, and the token is its own
  pub capability : Value
  pub has_capability : get "capability" decision ≡ some capability
  pub names_tool : g.tool ≡ last_part "tool:" (text R capability)
  pub is_registered : find? g.tool tools ≡ some g.fn
  pub is_contained : check_containment R (Value.str verdict) g.tool decision ≡ ok tt
  pub is_minimized : check_limit (Value.str verdict) decision ≡ ok tt
  pub has_payload : chosen_payload action decision ≡ ok g.payload
  pub has_token : get "token_id" decision ≡ some (Value.str g.token)

field-eq : (k : String) (d : Dict) (v : Value) → field k d ≡ ok v → get k d ≡ some v
unfolding field
field-eq k d v h = ground arith

module _ (R : Runtime) (key : String) (now : ℕ) (action : Dict) (p : Presented)
    (tools : Table Tool) where
  abbrev prepared : Value → Tool → Dict → String → Prepared
  prepared cap fn payload token = record {
    tool = last_part "tool:" (text R cap);
    fn = fn;
    payload = payload;
    token = token;
  }

  cleared :
      (d : Dict) (v cap : Value) (fn : Tool) (payload : Dict) (token : String)
      → authenticated R key p ≡ ok d
      → check_binding R action d ≡ ok tt
      → check_verdict R d ≡ ok v
      → check_expiry R now d ≡ ok tt
      → field "capability" d ≡ ok cap
      → check_containment R v (last_part "tool:" (text R cap)) d ≡ ok tt
      → find_tool tools (last_part "tool:" (text R cap)) ≡ ok fn
      → check_limit v d ≡ ok tt
      → chosen_payload action d ≡ ok payload
      → as_token (get "token_id" d) ≡ ok token
      → IsCleared R key now action p tools (prepared cap fn payload token)
  cleared d v cap fn payload token e1 e2 e3 e4 e5 e6 e7 e8 e9 e10 =
      let (c, is_c, verified, frozen) = authenticated-verifies R key p d e1 in
      let (f, is_f, bound) = check_binding-binds R action d e2 in
      let (s, is_s, has_s, permits) = check_verdict-permits R d v e3 in
      let (t, n, has_t, is_n, live) = check_expiry-lives R now d e4 in
      record {
        presented = c;
        decision = d;
        is_presented = is_c;
        is_verified = verified;
        is_frozen = frozen;
        fingerprint = f;
        is_fingerprint = is_f;
        is_bound = bound;
        verdict = s;
        has_verdict = has_s ∙ ap some is_s;
        permits = permits;
        expiry = n;
        expiry_text = t;
        has_expiry = has_t;
        is_expiry = is_n;
        is_live = live;
        capability = cap;
        has_capability = field-eq "capability" d cap e5;
        names_tool = refl;
        is_registered = find_tool-eq tools (last_part "tool:" (text R cap)) fn e7;
        is_contained =
            subst (λ w. check_containment R w (last_part "tool:" (text R cap)) d ≡ ok tt) is_s e6;
        is_minimized = subst (λ w. check_limit w d ≡ ok tt) is_s e8;
        has_payload = e9;
        has_token = as_token-eq (get "token_id" d) token e10;
      }

  -- The gates let through only a decision that the kernel's key verifies, for this action, that
  -- permits, is live, and names a registered tool and the token.
  pub gates-IsCleared :
      (g : Prepared) → gates R key now action p tools ≡ ok g → IsCleared R key now action p tools g
  unfolding gates
  gates-IsCleared g h = ok_of_bind (authenticated R key p) _ h λ d e1 h1.
      ok_of_bind (check_binding R action d) _ h1 λ _ e2 h2.
        ok_of_bind (check_verdict R d) _ h2 λ v e3 h3.
          ok_of_bind (check_expiry R now d) _ h3 λ _ e4 h4.
            ok_of_bind (field "capability" d) _ h4 λ cap e5 h5.
              ok_of_bind (check_containment R v (last_part "tool:" (text R cap)) d) _ h5 λ _ e6 h6.
                ok_of_bind (find_tool tools (last_part "tool:" (text R cap))) _ h6 λ fn e7 h7.
                  ok_of_bind (check_limit v d) _ h7 λ _ e8 h8.
                    ok_of_bind (chosen_payload action d) _ h8 λ payload e9 h9.
                      ok_of_bind (as_token (get "token_id" d)) _ h9 λ token e10 h10.
                        subst (λ g. IsCleared R key now action p tools g) (ok_inj h10)
                          (cleared d v cap fn payload token e1 e2 e3 e4 e5 e6 e7 e8 e9 e10)
