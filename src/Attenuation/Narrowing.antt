-- ===== src/Attenuation/Narrowing.antt =====
-- attenuation.py: a caveat that a holder appends can only narrow.
use Prim.Native.Char.{Char, code}
use decision_os_min.Prelude.{
  ℕ, String, ◌⧺◌, ◌≡◌, refl, sym, ◌∙◌, ap, Bool, true, false, ◌&&◌, ◌||◌, Option, none, some, List,
  [], ◌∷◌, ◌++◌, ◌==◌, eq_refl, eq_iff, cut, contains, contains-inter, has_char, pieces, nat_eq,
  arith, nil-append, cons-append, append-nil,
}
use decision_os_min.Py.Runtime.{Runtime}
use decision_os_min.Attenuation.Caveats.{
  narrow, fold_tools, tools_from, parse_tools_caveat, holder_from_identifier,
}
use decision_os_min.Attenuation.Graph.{
  Macaroon, AuthorityGraph, chain, seal_of, mint, verify_sig, usable_by,
}

-- Whether an allowlist lets a tool through; no allowlist lets every tool through.
abbrev pub lets : Option (List String) → String → Bool
lets none tool = true
lets (some ts) tool = contains tool ts

-- Whether every allowlist among the caveats has the tool.
unfoldable pub every_allows : List String → String → Bool
every_allows [] tool = true
every_allows (c ∷ cs) tool = lets (parse_tools_caveat c) tool && every_allows cs tool

lets-narrow : (a b : Option (List String)) (t : String) → lets (narrow a b) t ≡ lets a t && lets b t
lets-narrow none b t = refl
lets-narrow (some ts) none t = ground arith
lets-narrow (some ts) (some us) t = contains-inter t ts us

lets-fold_tools :
    (out : Option (List String)) (cs : List String) (t : String)
    → lets (fold_tools out cs) t ≡ lets out t && every_allows cs t
unfolding fold_tools every_allows
lets-fold_tools out [] t = ground arith
lets-fold_tools out (c ∷ cs) t =
    lets-fold_tools (narrow out (parse_tools_caveat c)) cs t ∙ rw lets-narrow (ground arith)

-- The effective allowlist is the intersection of all the allowlists among the caveats.
pub lets-tools_from : (cs : List String) (t : String) → lets (tools_from cs) t ≡ every_allows cs t
unfolding tools_from
lets-tools_from cs t = lets-fold_tools none cs t

every_allows-append :
    (cs ds : List String) (t : String)
    → every_allows (cs ++ ds) t ≡ every_allows cs t && every_allows ds t
unfolding every_allows
every_allows-append [] ds t = refl
every_allows-append (c ∷ cs) ds t = ground (arith, every_allows-append cs ds t)

chain-append :
    (R : Runtime) (sig : String) (cs ds : List String)
    → chain R sig (cs ++ ds) ≡ chain R (chain R sig cs) ds
unfolding chain
chain-append R sig [] ds = refl
chain-append R sig (c ∷ cs) ds = chain-append R (R.hmac sig ("caveat|" ⧺ c)) cs ds

-- What a holder makes of a macaroon without the root key: more caveats, under its tip.
unfoldable pub appended : Runtime → Macaroon → List String → Macaroon
appended R m ds = record {
  location = m.location;
  identifier = m.identifier;
  caveats = m.caveats ++ ds;
  signature = chain R m.signature ds;
}

verify_sig-eq :
    (R : Runtime) (g : AuthorityGraph) (m : Macaroon)
    → verify_sig R g m ≡ true
    → seal_of R g m.identifier m.caveats ≡ m.signature
unfolding verify_sig
verify_sig-eq R g m h = (eq_iff (seal_of R g m.identifier m.caveats) m.signature).0 h

-- A macaroon that verifies still does with caveats appended, and then lets a tool through only
-- where the first macaroon and every appended caveat do.
pub appended-narrows :
    (R : Runtime) (g : AuthorityGraph) (m : Macaroon) (ds : List String) (t : String)
    → verify_sig R g m ≡ true
    → (verify_sig R g (appended R m ds) ≡ true)
      × (lets (tools_from (appended R m ds).caveats) t
          ≡ lets (tools_from m.caveats) t && every_allows ds t)
unfolding appended
appended-narrows R g m ds t h = (
  unfold verify_sig seal_of in rw (chain-append, verify) (eq_refl (chain R m.signature ds)),
  lets-tools_from (m.caveats ++ ds) t
      ∙ every_allows-append m.caveats ds t
      ∙ rw lets-tools_from refl,
)
  where
    verify : chain R (R.hmac g.root_key ("id|" ⧺ m.identifier)) m.caveats ≡ m.signature
    verify = unfold seal_of in verify_sig-eq R g m h

cut-head :
    (b : Bool) (c : Char) (p : String × List String) → b ≡ false → (cut b c p).0 ≡ String.◌∷◌ c p.0
cut-head true c p h = absurd cc
cut-head false c (w, ws) h = refl

cut-bar : (c : Char) (p : String × List String) → (cut true c p).0 ≡ ""
cut-bar c (w, ws) = refl

or-false : (a b : Bool) → (a || b) ≡ false → (a ≡ false) × (b ≡ false)
or-false a b h = ground arith

pieces-append :
    (n : ℕ) (s t : String) → has_char n s ≡ false → (pieces n (s ⧺ t)).0 ≡ s ⧺ (pieces n t).0
unfolding pieces has_char
pieces-append n String.[] t h =
    ap (λ u. (pieces n u).0) (nil-append t) ∙ sym (nil-append (pieces n t).0)
pieces-append n (String.◌∷◌ c s) t h =
    let (first, rest) = or-false (nat_eq (code c) n) (has_char n s) h in
    ap (λ u. (pieces n u).0) (cons-append c s t)
    ∙ cut-head (nat_eq (code c) n) c (pieces n (s ⧺ t)) first
    ∙ ap (λ u. String.◌∷◌ c u) (pieces-append n s t rest)
    ∙ sym (cons-append c s (pieces n t).0)

-- A macaroon that the graph mints for a holder without a bar is usable by that holder alone.
pub mint-usable :
    (R : Runtime) (g : AuthorityGraph) (nonce holder other : String) (caveats : List String)
    → has_char b'|' holder ≡ false
    → usable_by R g other (mint R g nonce holder caveats) ≡ (holder == other)
unfolding usable_by mint verify_sig holder_from_identifier pieces
mint-usable R g nonce holder other caveats h = rw (named, eq_refl) (ground arith)
  where
    bar : (pieces b'|' ("|" ⧺ nonce)).0 ≡ ""
    bar =
        ap (λ u. (pieces b'|' u).0) (cons-append "|" "" nonce)
        ∙ cut-bar "|" (pieces b'|' ("" ⧺ nonce))

    named : (pieces b'|' (holder ⧺ "|" ⧺ nonce)).0 ≡ holder
    named = pieces-append b'|' holder ("|" ⧺ nonce) h ∙ ap (λ u. holder ⧺ u) bar ∙ append-nil holder
