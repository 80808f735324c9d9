-- ===== src/Attenuation/Graph.antt =====
-- `AuthorityGraph` and its macaroons. The clock and `uuid4` are arguments; a `now` that a caller
-- passes is its instant in UTC.
use mathlib.Core.Option
use decision_os_min.Prelude.{
  ℕ, String, ◌⧺◌, Bool, true, false, not, ◌&&◌, ◌||◌, Option, none, some, List, [], ◌∷◌, ◌++◌, map,
  ◌==◌, contains, inter, after_prefix, remove_prefix, join, Table, find, store, discard, dedup,
  filter, sorted, if◌then◌else◌,
}
use decision_os_min.Py.{Value, of_texts}
use decision_os_min.Py.Exc.{Exc, ok, Exn, ◌>>=◌, ◌>>◌, raise_if}
use decision_os_min.Py.Runtime.{Runtime, DateTime}
use decision_os_min.Py.Times.{earlier, expired, in_utc, instant}
use decision_os_min.Attenuation.Caveats.{tools_from, expiry_from, holder_from_identifier, least}

pub record Macaroon : Type 0 where
  pub location : String
  pub identifier : String
  pub caveats : List String
  pub signature : String

-- Root grants and live macaroons by holder.
pub record AuthorityGraph : Type 0 where
  pub root_key : String
  pub macaroons : Table (List Macaroon)
  pub root_grants : Table (List String)

unfoldable pub grant : String → String → AuthorityGraph → AuthorityGraph
grant holder capability g = record g {
  root_grants = store holder (capability ∷ find [] holder g.root_grants) g.root_grants;
}

unfoldable pub discard_in : String → String → Table (List String) → Table (List String)
discard_in holder capability [] = []
discard_in holder capability ((j, caps) ∷ t) =
    if j == holder
    then (j, discard capability caps) ∷ t
    else (j, caps) ∷ discard_in holder capability t

-- The discard is made only where the holder has an entry.
unfoldable pub revoke : String → String → AuthorityGraph → AuthorityGraph
revoke holder capability g = record g { root_grants = discard_in holder capability g.root_grants }

unfoldable pub set_root_grants : Table (List String) → AuthorityGraph → AuthorityGraph
set_root_grants grants g = record g { root_grants = grants }

-- the keyed digests of the caveats, each under the one before
unfoldable pub chain : Runtime → String → List String → String
chain R sig [] = sig
chain R sig (c ∷ cs) = chain R (R.hmac sig ("caveat|" ⧺ c)) cs

unfoldable pub seal_of : Runtime → AuthorityGraph → String → List String → String
seal_of R g identifier caveats = chain R (R.hmac g.root_key ("id|" ⧺ identifier)) caveats

-- `_mint`, at the hex digits that `uuid4` gave
unfoldable pub mint : Runtime → AuthorityGraph → String → String → List String → Macaroon
mint R g nonce holder caveats =
    let identifier = holder ⧺ "|" ⧺ nonce in
    record {
      location = "decision-os-min";
      identifier = identifier;
      caveats = caveats;
      signature = seal_of R g identifier caveats;
    }

-- `_verify_sig`
unfoldable pub verify_sig : Runtime → AuthorityGraph → Macaroon → Bool
verify_sig R g m = seal_of R g m.identifier m.caveats == m.signature

-- `_macaroon_usable_by`
unfoldable pub usable_by : Runtime → AuthorityGraph → String → Macaroon → Bool
usable_by R g holder m = (holder_from_identifier m.identifier == holder) && verify_sig R g m

abbrev pub Credential : Type 0
Credential = Option (List String) × Option DateTime

abbrev pub is_nothing : Option (List String) → Bool
is_nothing (some []) = true
is_nothing _ = false

-- one round of the loop over a holder's macaroons: what the macaroon adds to the live ones
unfoldable pub live_one : Runtime → AuthorityGraph → String → ℕ → Macaroon → Exc (List Credential)
live_one R g parent now m =
    if usable_by R g parent m
    then (do
      exp ← expiry_from R m.caveats
      over ← expired now exp
      ok (
          if over || is_nothing (tools_from m.caveats)
          then []
          else (tools_from m.caveats, exp) ∷ []))
    else ok []

unfoldable pub live_macaroons :
    Runtime → AuthorityGraph → String → ℕ → List Macaroon → Exc (List Credential)
live_macaroons R g parent now [] = ok []
live_macaroons R g parent now (m ∷ ms) = do
  one ← live_one R g parent now m
  rest ← live_macaroons R g parent now ms
  ok (one ++ rest)

-- the names behind `tool:` among the root grants
unfoldable pub root_tools_of : List String → List String
root_tools_of [] = []
root_tools_of (c ∷ cs) = elim (after_prefix "tool:" c) [
  | none ↦ root_tools_of cs
  | some t ↦ t ∷ root_tools_of cs
]

-- `_live_credentials`
unfoldable pub live_credentials :
    Runtime → AuthorityGraph → String → ℕ → Exc (Bool × List String × List Credential)
live_credentials R g parent now = do
  let root = find [] parent g.root_grants
  macs ← live_macaroons R g parent now (find [] parent g.macaroons)
  ok (contains "*" root, root_tools_of root, macs)

-- the union over the live macaroons, `none` where one of them is unrestricted
unfoldable pub union_tools : List String → List Credential → Option (List String)
union_tools tools [] = some tools
union_tools tools ((none, _) ∷ macs) = none
union_tools tools ((some ts, _) ∷ macs) = union_tools (tools ++ ts) macs

-- `_parent_authority`
unfoldable pub parent_authority :
    Runtime
    → AuthorityGraph
    → String
    → ℕ
    → Exc (Option (List String) × List String × List Credential)
parent_authority R g parent now = do
  (star, root_tools, macs) ← live_credentials R g parent now
  ok (if star then none else union_tools root_tools macs, root_tools, macs)

-- the names in the remainder that a credential covers
abbrev pub hit : Option (List String) → List String → List String
hit none remainder = remainder
hit (some ts) remainder = inter ts remainder

unfoldable pub covered_by : List String → List Credential → List String
covered_by remainder [] = []
covered_by remainder ((ts, _) ∷ macs) = hit ts remainder ++ covered_by remainder macs

abbrev expiry_if : Bool → Option DateTime → List DateTime → List DateTime
expiry_if true (some t) ts = t ∷ ts
expiry_if _ _ ts = ts

abbrev pub is_empty : List String → Bool
is_empty [] = true
is_empty (_ ∷ _) = false

unfoldable pub covering_expiries : List String → List Credential → List DateTime
covering_expiries remainder [] = []
covering_expiries remainder ((ts, exp) ∷ macs) =
    expiry_if (not (is_empty (hit ts remainder))) exp (covering_expiries remainder macs)

-- the clamp of a child's expiry to the ceiling
unfoldable pub clamp : Option DateTime → Option DateTime → Exc (Option DateTime)
clamp child none = ok child
clamp none (some ceiling) = ok (some ceiling)
clamp (some child) (some ceiling) = do
  above ← earlier ceiling child
  ok (some (if above then ceiling else child))

abbrev pub restrict : Option (List String) → List String → List String
restrict none requested = requested
restrict (some tools) requested = inter requested tools

abbrev pub delegation : String → String → String
delegation parent child = "delegation from '" ⧺ parent ⧺ "' to '" ⧺ child ⧺ "' "

-- The allowlist and the expiry that a delegation grants, or the error.
unfoldable pub delegated :
    Runtime
    → AuthorityGraph
    → String
    → String
    → List String
    → Option DateTime
    → ℕ
    → Exc (List String × Option DateTime)
delegated R g parent child tools expires_at now = do
  (parent_tools, root_tools, macs) ← parent_authority R g parent now
  let allowed = restrict parent_tools (dedup (map (remove_prefix "tool:") tools))
  raise_if (is_empty allowed)
      (Exn.attenuation_error (delegation parent child ⧺ "grants nothing after attenuation"))
  let remainder =
      if contains "*" (find [] parent g.root_grants)
      then []
      else filter (λ t. not (contains t root_tools)) allowed
  let missing = filter (λ t. not (contains t (covered_by remainder macs))) remainder
  raise_if (not (is_empty missing)) (
      Exn.attenuation_error (
        delegation parent child
        ⧺ "lacks live credentials for "
        ⧺ R.repr (Value.list (of_texts (sorted missing)))))
  ceiling ← least (covering_expiries remainder macs)
  expiry ← clamp expires_at ceiling
  over ← expired now (Option.map in_utc expiry)
  raise_if over (Exn.attenuation_error (delegation parent child ⧺ "would mint expired authority"))
  ok (allowed, Option.map in_utc expiry)

abbrev time_caveat : Runtime → Option DateTime → List String
time_caveat R none = []
time_caveat R (some t) = ("time < " ⧺ R.isoformat (instant t)) ∷ []

unfoldable pub caveats_of : Runtime → List String → Option DateTime → List String
caveats_of R allowed expiry = ("tools:" ⧺ join "," (sorted allowed)) ∷ time_caveat R expiry

-- `delegate`: the macaroon and the graph that holds it
unfoldable pub delegate :
    Runtime
    → String
    → ℕ
    → String
    → String
    → List String
    → Option DateTime
    → AuthorityGraph
    → Exc (Macaroon × AuthorityGraph)
delegate R nonce now parent child tools expires_at g = do
  (allowed, expiry) ← delegated R g parent child tools expires_at now
  let m = mint R g nonce child (caveats_of R allowed expiry)
  ok (m, record g { macaroons = store child (find [] child g.macaroons ++ m ∷ []) g.macaroons })

abbrev allows : Option (List String) → String → Bool
allows none tool = false
allows (some ts) tool = contains tool ts

-- one round of `holds` over a holder's macaroons
unfoldable pub held_by : Runtime → AuthorityGraph → String → String → ℕ → Macaroon → Exc Bool
held_by R g holder tool now m =
    if usable_by R g holder m
    then (do
      exp ← expiry_from R m.caveats
      over ← expired now exp
      ok (not over && allows (tools_from m.caveats) tool))
    else ok false

unfoldable pub held_by_any :
    Runtime → AuthorityGraph → String → String → ℕ → List Macaroon → Exc Bool
held_by_any R g holder tool now [] = ok false
held_by_any R g holder tool now (m ∷ ms) =
    let rest = held_by_any R g holder tool now ms in
    do found ← held_by R g holder tool now m; if found then ok true else rest

unfoldable pub holds : Runtime → AuthorityGraph → String → String → ℕ → Exc Bool
holds R g holder capability now =
    let root = find [] holder g.root_grants in
    if contains "*" root || contains capability root
    then ok true
    else held_by_any R g holder (remove_prefix "tool:" capability) now (find [] holder g.macaroons)
