-- ===== src/Attenuation/Granted.antt =====
-- attenuation.py: what the macaroon of a delegation lets through, its caveat read back.
use Prim.Native.Char.{Char, code}
use decision_os_min.Prelude.{
  ℕ, String, ◌⧺◌, ◌≡◌, refl, sym, ◌∙◌, ap, Bool, true, false, ◌||◌, ◌⊎◌, inl, inr, Option, List, [],
  ◌∷◌, map, ◌==◌, eq_refl, cut, contains, contains-sorted, has_char, pieces, split, join, sorted,
  strip, nonempty, nat_eq, remove_prefix, after_prefix-append, arith, nil-append, cons-append,
  append-nil, Bool-cases,
}
use decision_os_min.Py.Exc.{ok, ok_of_bind, ok_inj}
use decision_os_min.Py.Runtime.{Runtime, DateTime}
use decision_os_min.Attenuation.Caveats.{strip_parts, parse_tools_caveat, tools_from}
use decision_os_min.Attenuation.Graph.{
  Macaroon, AuthorityGraph, mint, delegated, caveats_of, delegate,
}
use decision_os_min.Attenuation.Narrowing.{lets, every_allows, lets-tools_from}
use decision_os_min.Attenuation.Delegation.{IsHeld, delegated-IsHeld}

-- A name that is written into an allowlist reads back from it as itself.
abbrev pub IsPlain : String → Type 0
IsPlain u = (has_char b',' u ≡ false) × (strip u ≡ u)

-- Each name of a list is plain.
abbrev pub ArePlain : List String → Type 0
ArePlain xs = (u : String) → contains u xs ≡ true → IsPlain u

cut-more :
    (b : Bool) (c : Char) (p : String × List String)
    → b ≡ false
    → cut b c p ≡ (String.◌∷◌ c p.0, p.1)
cut-more true c p h = absurd cc
cut-more false c (w, ws) h = refl

-- A text without the separator is one piece with what is behind it.
pieces-behind :
    (n : ℕ) (s t : String)
    → has_char n s ≡ false
    → pieces n (s ⧺ t) ≡ (s ⧺ (pieces n t).0, (pieces n t).1)
unfolding pieces has_char
pieces-behind n String.[] t h =
    ap (pieces n) (nil-append t) ∙ ap (λ u. (u, (pieces n t).1)) (sym (nil-append (pieces n t).0))
pieces-behind n (String.◌∷◌ c s) t h =
    let first : nat_eq (code c) n ≡ false = ground arith in
    let rest : has_char n s ≡ false = ground arith in
    ap (pieces n) (cons-append c s t)
    ∙ cut-more (nat_eq (code c) n) c (pieces n (s ⧺ t)) first
    ∙ ap (λ p. (String.◌∷◌ c p.0, p.1)) (pieces-behind n s t rest)
    ∙ ap (λ u. (u, (pieces n t).1)) (sym (cons-append c s (pieces n t).0))

split-one : (w : String) → has_char b',' w ≡ false → split b',' w ≡ w ∷ []
unfolding split pieces
split-one w h =
    ap (split b',') (sym (append-nil w))
    ∙ ap (λ p. p.0 ∷ p.1) (pieces-behind b',' w "" h)
    ∙ ap (λ u. u ∷ []) (append-nil w)

split-more :
    (w r : String) → has_char b',' w ≡ false → split b',' (w ⧺ ("," ⧺ r)) ≡ w ∷ split b',' r
unfolding split pieces
split-more w r h =
    ap (λ p. p.0 ∷ p.1) (pieces-behind b',' w ("," ⧺ r) h)
    ∙ ap (λ p. (w ⧺ p.0) ∷ p.1) comma
    ∙ ap (λ u. u ∷ split b',' r) (append-nil w)
  where
    comma : pieces b',' ("," ⧺ r) ≡ ("", split b',' r)
    comma = ap (pieces b',') (cons-append "," "" r) ∙ ap (λ u. ("", split b',' u)) (nil-append r)

-- One part more, that stripping keeps.
strip_parts-cons :
    (t w : String) (ps : List String)
    → strip w ≡ w
    → contains t (strip_parts (w ∷ ps)) ≡ true
    → ((t == w) ≡ true) ⊎ (contains t (strip_parts ps) ≡ true)
unfolding strip_parts contains
strip_parts-cons t w ps same h = elim (Bool-cases (nonempty (strip w))) [
  | inl e ↦ elim (Bool-cases (t == w)) [
    | inl f ↦ inl f
    | inr f ↦ inr (behind (rw (e, same) at h) f)
  ]
  | inr e ↦ inr (rw e at h)
]
  where
    behind : {a b : Bool} → (a || b) ≡ true → a ≡ false → b ≡ true
    behind h e = ground arith

contains-head : (t w : String) (ws : List String) → (t == w) ≡ true → contains t (w ∷ ws) ≡ true
unfolding contains
contains-head t w ws h = ground arith

contains-tail :
    (t w : String) (ws : List String) → contains t ws ≡ true → contains t (w ∷ ws) ≡ true
unfolding contains
contains-tail t w ws h = ground arith

-- What reads back from a joined list of plain names is one of them.
contains-join :
    (t : String) (xs : List String)
    → ArePlain xs
    → contains t (strip_parts (split b',' (join "," xs))) ≡ true
    → contains t xs ≡ true
unfolding join
contains-join t [] plain h = absurd (unfold split pieces strip_parts strip contains in cc)
contains-join t (w ∷ []) plain h =
    let (bare, same) = plain w (contains-head w w [] (eq_refl w)) in
    elim (strip_parts-cons t w [] same (rw (split-one w bare) at h)) [
      | inl e ↦ contains-head t w [] e
      | inr e ↦ absurd (unfold strip_parts contains in cc)
    ]
contains-join t (w ∷ v ∷ vs) plain h =
    let (bare, same) = plain w (contains-head w w (v ∷ vs) (eq_refl w)) in
    elim (strip_parts-cons t w _ same (rw (split-more w (join "," (v ∷ vs)) bare) at h)) [
      | inl e ↦ contains-head t w (v ∷ vs) e
      | inr e ↦
          contains-tail t w (v ∷ vs)
            (contains-join t (v ∷ vs) (λ u c. plain u (contains-tail u w (v ∷ vs) c)) e)
    ]

-- Where the names that are asked for are plain, without the prefix `tool:`, the macaroon that
-- `delegate` gives lets through only what the parent holds at that time: by `*`, by a root grant, or
-- by a macaroon of its own that verifies and has not expired.
pub delegate-IsHeld :
    (R : Runtime) (g g' : AuthorityGraph) (nonce parent child : String) (now : ℕ)
    (tools : List String) (expires_at : Option DateTime) (m : Macaroon) (t : String)
    → ArePlain (map (remove_prefix "tool:") tools)
    → delegate R nonce now parent child tools expires_at g ≡ ok (m, g')
    → lets (tools_from m.caveats) t ≡ true
    → IsHeld R g parent now t
unfolding delegate mint caveats_of
delegate-IsHeld R g g' nonce parent child now tools expires_at m t plain h allowed_t =
    ok_of_bind (delegated R g parent child tools expires_at now) _ h λ (allowed, expiry) came rest.
      let names = join "," (sorted allowed) in
      let caveats = caveats_of R allowed expiry in
      let is_minted : caveats ≡ m.caveats = ap (λ x. (x.0).caveats) (ok_inj rest) in
      let read : every_allows caveats t ≡ true =
        sym (lets-tools_from caveats t) ∙ ap (λ cs. lets (tools_from cs) t) is_minted ∙ allowed_t in
      let listed : contains t (strip_parts (split b',' names)) ≡ true = first_allows names _ read in
      let inside : contains t (sorted allowed) ≡ true =
        contains-join t (sorted allowed)
          (λ u c.
            plain u
              (delegated-IsHeld R g parent now u child tools expires_at allowed expiry came
                (sym (contains-sorted u allowed) ∙ c)).1)
          listed in
      (delegated-IsHeld R g parent now t child tools expires_at allowed expiry came
        (sym (contains-sorted t allowed) ∙ inside)).0
  where
    first_allows :
        (names : String) (cs : List String)
        → every_allows (("tools:" ⧺ names) ∷ cs) t ≡ true
        → contains t (strip_parts (split b',' names)) ≡ true
    first_allows names cs a =
        unfold every_allows parse_tools_caveat in ground (arith, after_prefix-append "tools:" names)
