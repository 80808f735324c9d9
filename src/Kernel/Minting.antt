-- ===== src/Kernel/Minting.antt =====
-- kernel.py: what `decide` signs, and when it mints a token.
use decision_os_min.Prelude.{
  not, ◌+◌, ◌≡◌, refl, sym, ◌∙◌, ap, String, ◌⧺◌, Bool, true, false, Option, none, some, List, [],
  ◌∷◌, arith, ◌==◌, inl, inr, ◌⊎◌, subst, ◌≢◌, Bool-cases, contains,
}
use decision_os_min.Py.{Value, Dict, get}
use decision_os_min.Py.Laws.{get-put}
use decision_os_min.Py.Exc.{ok, ok_of_bind, ok_of_raise_if, Exn, ok_inj}
use decision_os_min.Py.Runtime.{Runtime}
use decision_os_min.Compose.{
  is_permitting, contributable, verdict_of, as_decision, more_restrictive,
}
use decision_os_min.Compose.Output.{get-sanitize}
use decision_os_min.Evaluators.{Evaluator}
use decision_os_min.AuthorityPdp.{CanonicalAuthorityResult}
use decision_os_min.AuthorityPdp.Builtin.{capability_of}
use decision_os_min.Kernel.Fingerprint.{
  kernel_identity, canonical, signable, action_fingerprint, verify,
}
use decision_os_min.Kernel.State.{Kernel}
use decision_os_min.Kernel.Evaluate.{evaluate}
use decision_os_min.Kernel.Decide.{
  settled, Folded, fold_in, fold_evaluators, bind_legitimacy, stamped, granted, token_lifetime,
  token_view, Moment, Ruling, sealed, signed, concluded, advised, Request, decide,
}
use decision_os_min.Kernel.Tokenless.{LacksToken, after_shape-lacks}
use decision_os_min.Kernel.Composed.{verdict_of-granted}

-- A field of the decision that no evaluator may contribute.
get-fold_in :
    (R : Runtime) (k : String) (action : Dict) (out : Value) (f : Folded)
    → contains k contributable ≡ false
    → (get k (fold_in R action out f).decision ≡ get k f.decision)
      ⊎ (get k (fold_in R action out f).decision ≡ none)
unfolding fold_in more_restrictive
get-fold_in R k action out f h = elim (Bool-cases (contains k contributable)) [
  | inl e ↦ absurd cc
  | inr e ↦ ground (arith, get-sanitize R k (as_decision R out action), e)
]

get-fold_evaluators :
    (R : Runtime) (bound : Option String) (k : String) (action : Dict) (es : List Evaluator)
    (f g : Folded)
    → contains k contributable ≡ false
    → fold_evaluators R bound action es f ≡ ok g
    → (get k g.decision ≡ get k f.decision) ⊎ (get k g.decision ≡ none)
unfolding fold_evaluators
get-fold_evaluators R bound k action [] f g h e = inl (ap (λ x. get k x.decision) (sym (ok_inj e)))
get-fold_evaluators R bound k action (e ∷ es) f g h folded =
    ok_of_bind (settled bound (e action)) _ folded λ out _ rest. ground (
      arith,
      get-fold_in R k action out f h,
      get-fold_evaluators R bound k action es (fold_in R action out f) g h rest,
    )

get-bind_legitimacy :
    (R : Runtime) (ds xs : List String) (b k : String) (d : Dict)
    → ("legitimacy_binding" == k) ≡ false
    → ("axiom_ids" == k) ≡ false
    → ("legitimacy_digest" == k) ≡ false
    → get k (bind_legitimacy R ds xs b d) ≡ get k d
unfolding bind_legitimacy
get-bind_legitimacy R [] [] b k d e1 e2 e3 = refl
get-bind_legitimacy R [] (x ∷ xs) b k d e1 e2 e3 = simp (get-put, e1, e2, e3)
get-bind_legitimacy R (s ∷ ss) xs b k d e1 e2 e3 = simp (get-put, e1, e2, e3)

-- What the kernel states of every ruling that it gives.
pub record IsSealed (R : Runtime) (k : Kernel) (m : Moment) (action : Dict) (r : Ruling)
    : Type 0 where
  pub signature : r.signature ≡ R.sign k.key (canonical R r.decision)
  pub issuer : get "issued_by" r.decision ≡ some (Value.str kernel_identity)
  pub fingerprint : String
  pub is_fingerprint : action_fingerprint R action ≡ ok fingerprint
  pub binding : get "action_binding" r.decision ≡ some (Value.str fingerprint)
  -- a permitting verdict carries the grant, and any other carries none
  pub minted :
      is_permitting (verdict_of r.decision) ≡ true
      → (r.token ≡ some (token_view action r.decision))
        × (get "token_id" r.decision ≡ some (Value.str ("tok-" ⧺ m.digits)))
        × (get "capability" r.decision ≡ some (capability_of R action))
        × (get "token_expires_at" r.decision
            ≡ some (Value.str (R.isoformat (m.minted_at + token_lifetime))))
  pub withheld :
      is_permitting (verdict_of r.decision) ≡ false
      → (r.token ≡ none) × (get "token_id" r.decision ≡ none)

stamped-get :
    (r : CanonicalAuthorityResult) (binding : String) (d : Dict)
    → (get "action_binding" (stamped r binding d) ≡ some (Value.str binding))
      × (get "issued_by" (stamped r binding d) ≡ some (Value.str kernel_identity))
      × (get "token_id" (stamped r binding d) ≡ get "token_id" d)
stamped-get r binding d = (simp get-put, simp get-put, simp get-put)

granted-get :
    (R : Runtime) (m : Moment) (action d : Dict)
    → (get "token_id" (granted R m action d) ≡ some (Value.str ("tok-" ⧺ m.digits)))
      × (get "capability" (granted R m action d) ≡ some (capability_of R action))
      × (get "token_expires_at" (granted R m action d)
          ≡ some (Value.str (R.isoformat (m.minted_at + token_lifetime))))
unfolding granted
granted-get R m action d = (simp get-put, simp get-put, simp get-put)

granted-keeps :
    (R : Runtime) (m : Moment) (action d : Dict)
    → (get "action_binding" (granted R m action d) ≡ get "action_binding" d)
      × (get "issued_by" (granted R m action d) ≡ get "issued_by" d)
unfolding granted
granted-keeps R m action d = (simp get-put, simp get-put)

not_both : {b : Bool} → b ≡ true → b ≢ false
not_both p q = cc

-- The mint gate on a decision that has its issuer and binding, and no token yet.
sealed-IsSealed :
    (R : Runtime) (k : Kernel) (m : Moment) (action d : Dict) (f : String)
    → action_fingerprint R action ≡ ok f
    → get "action_binding" d ≡ some (Value.str f)
    → get "issued_by" d ≡ some (Value.str kernel_identity)
    → LacksToken d
    → IsSealed R k m action (sealed R k m action d)
unfolding sealed signed
sealed-IsSealed R k m action d f is_f bound issued lacks =
    elim (Bool-cases (is_permitting (verdict_of d))) [
      | inl e ↦ rw e (record {
        signature = refl;
        issuer = (granted-keeps R m action d).1 ∙ issued;
        fingerprint = f;
        is_fingerprint = is_f;
        binding = (granted-keeps R m action d).0 ∙ bound;
        minted = λ _.
            let (token, capability, expiry) = granted-get R m action d in
            (refl, token, capability, expiry);
        withheld = λ h. absurd (not_both (rw verdict_of-granted e) h);
      })
      | inr e ↦ rw e (record {
        signature = refl;
        issuer = issued;
        fingerprint = f;
        is_fingerprint = is_f;
        binding = bound;
        minted = λ h. absurd (not_both h e);
        withheld = λ _. (refl, lacks);
      })
    ]

-- Every ruling of `decide` is signed by the kernel's key, bound to the action's fingerprint, and
-- carries a token exactly when its verdict permits, which is then for the action's capability and
-- expires a lifetime after the mint.
pub decide-IsSealed :
    (R : Runtime) (k : Kernel) (m : Moment) (q : Request) (action : Dict) (ruling : Ruling)
    → decide R k m q action ≡ ok ruling
    → IsSealed R k m action ruling
unfolding decide concluded evaluate
decide-IsSealed R k m q action ruling h =
    ok_of_bind (advised q.advisor q.threat_class action) _ h λ threat e1 h1.
      ok_of_bind (evaluate R k m.asked_at _ threat action) _ h1 λ (first, r) e2 h2.
        ok_of_bind (fold_evaluators R _ action q.evaluators _) _ h2 λ f e3 h3.
          ok_of_bind (action_fingerprint R action) _ h3 λ binding e4 h4'.
            ok_of_raise_if (not (signable R (concluded R k m action r f binding).decision))
              Exn.type_error _ h4'
              λ _ h4.
                let lacks = after_shape-lacks R k m.asked_at _ threat action first _ r e2 in
                let (bound, issued, token) = stamped-get r binding f.decision in
                let d = stamped r binding f.decision in
                subst (λ x. IsSealed R k m action x) (ok_inj h4)
                  (sealed-IsSealed R k m action (bind_legitimacy R f.digests f.axioms binding d)
                    binding e4
                    (get-bind_legitimacy R f.digests f.axioms binding "action_binding" d refl refl
                        refl
                      ∙ bound)
                    (get-bind_legitimacy R f.digests f.axioms binding "issued_by" d refl refl refl
                      ∙ issued)
                    (get-bind_legitimacy R f.digests f.axioms binding "token_id" d refl refl refl
                      ∙ token
                      ∙ still_lacks f first lacks (
                          get-fold_evaluators R _ "token_id" action q.evaluators _ f
                            (unfold contains in refl) e3)))
  where
    still_lacks :
        (f : Folded) (first : Dict)
        → LacksToken first
        → (get "token_id" f.decision ≡ get "token_id" first) ⊎ (get "token_id" f.decision ≡ none)
        → LacksToken f.decision
    still_lacks f first lacks (inl e) = e ∙ lacks
    still_lacks f first lacks (inr e) = e

-- A ruling of `decide` verifies under the key's public half, where the signature scheme is correct.
pub decide-verifies :
    (R : Runtime) (k : Kernel) (m : Moment) (q : Request) (action : Dict) (ruling : Ruling)
    → ((key text : String) → R.verify_signature (R.public_key key) (R.sign key text) text ≡ true)
    → decide R k m q action ≡ ok ruling
    → verify R ruling.decision ruling.signature (R.public_key k.key) ≡ true
unfolding verify
decide-verifies R k m q action ruling correct h =
    let s = decide-IsSealed R k m q action ruling h in
    rw (s.issuer, s.signature) (correct k.key (canonical R ruling.decision))
