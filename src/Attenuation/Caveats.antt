-- ===== src/Attenuation/Caveats.antt =====
-- The caveat texts and what is read from them. A set of tools is a list of names.
use decision_os_min.Prelude.{
  String, ◌⧺◌, Option, none, some, List, [], ◌∷◌, inter, nonempty, after_prefix, split, pieces,
  strip, before_last, if◌then◌else◌,
}
use decision_os_min.Py.Exc.{Exc, ok, raise, Exn, ◌>>=◌}
use decision_os_min.Py.Runtime.{Runtime, DateTime}
use decision_os_min.Py.Times.{earliest}

abbrev utc_text : String → String
utc_text raw = elim (before_last b'Z' raw) [ none ↦ raw | some t ↦ t ⧺ "+00:00" ]

abbrev or_value_error : Option DateTime → Exc (Option DateTime)
or_value_error none = raise Exn.value_error
or_value_error (some t) = ok (some t)

parse_expiry_text : Runtime → Option String → Exc (Option DateTime)
parse_expiry_text R none = ok none
parse_expiry_text R (some raw) = or_value_error (R.fromisoformat (utc_text (strip raw)))

-- `_parse_expiry`
unfoldable pub parse_expiry : Runtime → String → Exc (Option DateTime)
unfolding parse_expiry_text
parse_expiry R caveat = parse_expiry_text R (after_prefix "time < " caveat)

-- `[p.strip() for p in ps if p.strip()]`
unfoldable pub strip_parts : List String → List String
strip_parts [] = []
strip_parts (p ∷ ps) =
    let rest = strip_parts ps in if nonempty (strip p) then strip p ∷ rest else rest

parse_singleton : Option String → Option (List String)
parse_singleton none = none
parse_singleton (some name) = some (name ∷ [])

parse_listed : Option String → String → Option (List String)
unfolding parse_singleton
parse_listed none caveat = parse_singleton (after_prefix "tool:" caveat)
parse_listed (some names) caveat = some (strip_parts (split b',' names))

-- `_parse_tools_caveat`
unfoldable pub parse_tools_caveat : String → Option (List String)
unfolding parse_listed
parse_tools_caveat caveat = parse_listed (after_prefix "tools:" caveat) caveat

-- the intersection with one more caveat's allowlist; `none` is no allowlist
abbrev pub narrow : Option (List String) → Option (List String) → Option (List String)
narrow none s = s
narrow (some out) none = some out
narrow (some out) (some s) = some (inter out s)

unfoldable pub fold_tools : Option (List String) → List String → Option (List String)
fold_tools out [] = out
fold_tools out (c ∷ cs) = fold_tools (narrow out (parse_tools_caveat c)) cs

-- `_tools_from`
unfoldable pub tools_from : List String → Option (List String)
unfolding fold_tools
tools_from caveats = fold_tools none caveats

abbrev consider : Option DateTime → List DateTime → List DateTime
consider none ts = ts
consider (some t) ts = t ∷ ts

-- the expiry caveats of a list, in its order
unfoldable pub times_from : Runtime → List String → Exc (List DateTime)
times_from R [] = ok []
times_from R (c ∷ cs) = do t ← parse_expiry R c; ts ← times_from R cs; ok (consider t ts)

unfoldable pub least : List DateTime → Exc (Option DateTime)
least [] = ok none
least (t ∷ ts) = do m ← earliest t ts; ok (some m)

-- `_expiry_from`
unfoldable pub expiry_from : Runtime → List String → Exc (Option DateTime)
expiry_from R caveats = do ts ← times_from R caveats; least ts

-- `_holder_from_identifier`
unfoldable pub holder_from_identifier : String → String
holder_from_identifier identifier = (pieces b'|' identifier).0
