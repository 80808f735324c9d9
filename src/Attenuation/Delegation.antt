-- ===== src/Attenuation/Delegation.antt =====
-- attenuation.py: a delegation takes on nothing that the parent does not hold then.
use mathlib.Core.Option
use decision_os_min.Prelude.{
  ℕ, String, ◌⧺◌, ◌≡◌, refl, sym, subst, ◌∙◌, ap, ◌⊎◌, inl, inr, Bool, true, false, not, ◌&&◌, ◌||◌,
  Option, none, some, List, [], ◌∷◌, ◌++◌, map, Bool-cases, contains, contains-append,
  contains-inter, contains-dedup, contains-filter, filter, dedup, remove_prefix, find, sorted,
  arith, if◌then◌else◌,
}
use decision_os_min.Py.{Value, of_texts}
use decision_os_min.Py.Exc.{ok, Exn, ok_of_bind, ok_of_raise_if, ok_inj}
use decision_os_min.Py.Runtime.{Runtime, DateTime}
use decision_os_min.Py.Times.{expired, in_utc}
use decision_os_min.Attenuation.Caveats.{tools_from, expiry_from, least}
use decision_os_min.Attenuation.Graph.{
  Macaroon, AuthorityGraph, usable_by, Credential, live_one, live_macaroons, is_nothing,
  root_tools_of, live_credentials, parent_authority, hit, covered_by, clamp, delegated, is_empty,
  restrict, delegation,
}
use decision_os_min.Attenuation.Narrowing.{lets}

-- A macaroon of the list is the parent's, verifies, has not expired, and lets the tool through.
pub data HasLive (R : Runtime) (g : AuthorityGraph) (parent : String) (now : ℕ) (tool : String)
    : List Macaroon → Type 0 where
  here :
      {m : Macaroon} {ms : List Macaroon} (exp : Option DateTime)
      → usable_by R g parent m ≡ true
      → expiry_from R m.caveats ≡ ok exp
      → expired now exp ≡ ok false
      → lets (tools_from m.caveats) tool ≡ true
      → HasLive R g parent now tool (m ∷ ms)
  there :
      {m : Macaroon} {ms : List Macaroon}
      → HasLive R g parent now tool ms
      → HasLive R g parent now tool (m ∷ ms)

-- What the parent may delegate: by `*`, by a root grant, or by a live macaroon.
pub data IsHeld (R : Runtime) (g : AuthorityGraph) (parent : String) (now : ℕ) (tool : String)
    : Type 0 where
  by_star : contains "*" (find [] parent g.root_grants) ≡ true → IsHeld R g parent now tool
  by_root :
      contains tool (root_tools_of (find [] parent g.root_grants)) ≡ true
      → IsHeld R g parent now tool
  by_macaroon :
      HasLive R g parent now tool (find [] parent g.macaroons) → IsHeld R g parent now tool

any_lets : List Credential → String → Bool
any_lets [] t = false
any_lets ((ts, _) ∷ macs) t = lets ts t || any_lets macs t

any_lets-append :
    (a b : List Credential) (t : String) → any_lets (a ++ b) t ≡ any_lets a t || any_lets b t
unfolding any_lets
any_lets-append [] b t = refl
any_lets-append ((ts, _) ∷ a) b t = ground (arith, any_lets-append a b t)

in_rest :
    (t : String) (a b : List Credential)
    → any_lets (a ++ b) t ≡ true
    → any_lets a t ≡ false
    → any_lets b t ≡ true
in_rest t a b h e = ground (arith, any_lets-append a b t)

contains-hit :
    (ts : Option (List String)) (xs : List String) (t : String)
    → contains t (hit ts xs) ≡ lets ts t && contains t xs
contains-hit none xs t = refl
contains-hit (some ts) xs t = contains-inter t ts xs

contains-covered_by :
    (xs : List String) (macs : List Credential) (t : String)
    → contains t (covered_by xs macs) ≡ any_lets macs t && contains t xs
unfolding covered_by any_lets contains
contains-covered_by xs [] t = refl
contains-covered_by xs ((ts, e) ∷ macs) t =
    rw contains-append (rw (contains-hit, contains-covered_by xs macs) (ground arith))

module _ (R : Runtime) (g : AuthorityGraph) (parent : String) (now : ℕ) (t : String) where
  added_lets :
      (m : Macaroon) (exp : Option DateTime) (over nothing : Bool)
      → any_lets (if over || nothing then [] else (tools_from m.caveats, exp) ∷ []) t ≡ true
      → (over ≡ false) × (lets (tools_from m.caveats) t ≡ true)
  unfolding any_lets
  added_lets m exp true nothing h = absurd cc
  added_lets m exp false true h = absurd cc
  added_lets m exp false false h = (refl, ground arith)

  live_one-HasLive :
      (m : Macaroon) (ms : List Macaroon) (one : List Credential) (b : Bool)
      → usable_by R g parent m ≡ b
      → live_one R g parent now m ≡ ok one
      → any_lets one t ≡ true
      → HasLive R g parent now t (m ∷ ms)
  unfolding live_one
  live_one-HasLive m ms one false u e h = absurd (nothing_lets (rw (ok_inj (rw u at e)) h))
    where
      nothing_lets : {C : Type 0} → any_lets [] t ≡ true → C
      nothing_lets h = absurd (unfold any_lets in cc)
  live_one-HasLive m ms one true u e h =
      ok_of_bind (expiry_from R m.caveats) _ (rw u at e) λ exp e1 h1.
        ok_of_bind (expired now exp) _ h1 λ over e2 h2.
          let (live, allowed) =
            added_lets m exp over (is_nothing (tools_from m.caveats)) (rw (ok_inj h2) h) in
          HasLive.here exp u e1 (e2 ∙ ap ok live) allowed

  live_macaroons-HasLive :
      (ms : List Macaroon) (macs : List Credential)
      → live_macaroons R g parent now ms ≡ ok macs
      → any_lets macs t ≡ true
      → HasLive R g parent now t ms
  unfolding live_macaroons
  live_macaroons-HasLive [] macs e h = absurd (none_lets (rw (ok_inj e) h))
    where
      none_lets : {C : Type 0} → any_lets [] t ≡ true → C
      none_lets h = absurd (unfold any_lets in cc)
  live_macaroons-HasLive (m ∷ ms) macs e h = ok_of_bind (live_one R g parent now m) _ e λ one e1 h1.
      ok_of_bind (live_macaroons R g parent now ms) _ h1 λ rest e2 h2.
        elim (Bool-cases (any_lets one t)) [
          | inl a ↦ live_one-HasLive m ms one (usable_by R g parent m) refl e1 a
          | inr a ↦
              HasLive.there
                (live_macaroons-HasLive ms rest e2 (in_rest t one rest (rw (ok_inj h2) h) a))
        ]

  parent_authority-ok :
      (pt : Option (List String)) (rt : List String) (macs : List Credential)
      → parent_authority R g parent now ≡ ok (pt, rt, macs)
      → (rt ≡ root_tools_of (find [] parent g.root_grants))
        × (live_macaroons R g parent now (find [] parent g.macaroons) ≡ ok macs)
  unfolding parent_authority live_credentials
  parent_authority-ok pt rt macs h =
      ok_of_bind (live_credentials R g parent now) _ h λ (star, roots, live) e1 h1.
        ok_of_bind (live_macaroons R g parent now (find [] parent g.macaroons)) _ e1 λ ms e2 h2. (
          sym (ap (λ x. x.1) (ok_inj h1)) ∙ sym (ap (λ x. x.1) (ok_inj h2)),
          e2 ∙ ap ok (ap (λ x. x.2) (ok_inj h2) ∙ ap (λ x. x.2) (ok_inj h1)),
        )

  empty-contains : (xs : List String) → is_empty xs ≡ true → contains t xs ≡ false
  unfolding contains
  empty-contains [] h = refl
  empty-contains (x ∷ xs) h = absurd cc

  -- A name that is not missing is a root's, or covered.
  covered :
      (star : Bool) (allowed rt : List String) (macs : List Credential)
      → is_empty (
          filter
            (λ u. not (
              contains u
                (covered_by (if star then [] else filter (λ v. not (contains v rt)) allowed) macs)))
            (if star then [] else filter (λ v. not (contains v rt)) allowed))
        ≡ true
      → contains t allowed ≡ true
      → (star ≡ true) ⊎ ((contains t rt ≡ true) ⊎ (any_lets macs t ≡ true))
  covered true allowed rt macs h c = inl refl
  covered false allowed rt macs h c =
      let remainder = filter (λ v. not (contains v rt)) allowed in
      let missing = filter (λ u. not (contains u (covered_by remainder macs))) remainder in
      ground (
        arith,
        empty-contains missing h,
        contains-filter t (λ u. not (contains u (covered_by remainder macs))) remainder,
        contains-filter t (λ v. not (contains v rt)) allowed,
        contains-covered_by remainder macs t,
      )

  held :
      (pt : Option (List String)) (rt : List String) (macs : List Credential)
      → parent_authority R g parent now ≡ ok (pt, rt, macs)
      → (contains "*" (find [] parent g.root_grants) ≡ true)
        ⊎ ((contains t rt ≡ true) ⊎ (any_lets macs t ≡ true))
      → IsHeld R g parent now t
  held pt rt macs h (inl e) = IsHeld.by_star e
  held pt rt macs h (inr (inl e)) = IsHeld.by_root (rw (← (parent_authority-ok pt rt macs h).0) e)
  held pt rt macs h (inr (inr e)) = IsHeld.by_macaroon (
      live_macaroons-HasLive (find [] parent g.macaroons) macs (parent_authority-ok pt rt macs h).1
        e)

  among_requested :
      (pt : Option (List String)) (tools : List String)
      → contains t (restrict pt (dedup (map (remove_prefix "tool:") tools))) ≡ true
      → contains t (map (remove_prefix "tool:") tools) ≡ true
  among_requested none tools h = rw (← contains-dedup t (map (remove_prefix "tool:") tools)) h
  among_requested (some ts) tools h = ground (
    arith,
    contains-inter t (dedup (map (remove_prefix "tool:") tools)) ts,
    contains-dedup t (map (remove_prefix "tool:") tools),
  )

  -- What a delegation takes on was asked for, and the parent holds it at that time: by `*`, by a root
  -- grant, or by a macaroon of its own that verifies and has not expired.
  pub delegated-IsHeld :
      (child : String) (tools : List String) (expires_at : Option DateTime) (allowed : List String)
      (expiry : Option DateTime)
      → delegated R g parent child tools expires_at now ≡ ok (allowed, expiry)
      → contains t allowed ≡ true
      → IsHeld R g parent now t × (contains t (map (remove_prefix "tool:") tools) ≡ true)
  unfolding delegated
  delegated-IsHeld child tools expires_at allowed expiry h c =
      ok_of_bind (parent_authority R g parent now) _ h λ (pt, rt, macs) e1 h1.
        let granted = restrict pt (dedup (map (remove_prefix "tool:") tools)) in
        let remainder =
          if contains "*" (find [] parent g.root_grants)
          then []
          else filter (λ v. not (contains v rt)) granted in
        let missing = filter (λ v. not (contains v (covered_by remainder macs))) remainder in
        ok_of_raise_if (is_empty granted)
          (Exn.attenuation_error (delegation parent child ⧺ "grants nothing after attenuation")) _
          h1
          λ _ h2.
            ok_of_raise_if (not (is_empty missing))
              (Exn.attenuation_error (
                delegation parent child
                ⧺ "lacks live credentials for "
                ⧺ R.repr (Value.list (of_texts (sorted missing)))))
              _ h2
              λ complete h3. ok_of_bind (least _) _ h3 λ ceiling _ h4.
                ok_of_bind (clamp expires_at ceiling) _ h4 λ exp _ h5.
                  ok_of_bind (expired now (Option.map in_utc exp)) _ h5 λ over _ h6.
                    ok_of_raise_if over
                      (Exn.attenuation_error
                        (delegation parent child ⧺ "would mint expired authority"))
                      _ h6
                      λ _ h7.
                        let among : contains t granted ≡ true =
                          subst (λ xs. contains t xs ≡ true) (sym (ap (λ x. x.0) (ok_inj h7))) c in
                        (
                          held pt rt macs e1 (
                              covered (contains "*" (find [] parent g.root_grants)) granted rt macs
                                (not-false _ complete) among),
                          among_requested pt tools among,
                        )
    where
      not-false : (b : Bool) → not b ≡ false → b ≡ true
      not-false b h = ground arith
