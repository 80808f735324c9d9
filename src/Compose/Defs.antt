-- ===== src/Compose/Defs.antt =====
-- The definitions of compose.py, in its order.
use decision_os_min.Prelude.{
  ℕ, String, ◌⧺◌, Bool, ◌||◌, leb, ltb, List, [], ◌∷◌, Option, none, some, ◌==◌, contains,
  if◌then◌else◌,
}
use decision_os_min.Py.{Value, Dict, get, put, set_default, get_default, get_or_else}
use decision_os_min.Py.Exc.{Exc, ok, raise, Exn}
use decision_os_min.Py.Runtime.{Runtime}

abbrev pub allow : String
allow = "ALLOW"

abbrev pub deny : String
deny = "DENY"

abbrev pub limit : String
limit = "LIMIT"

abbrev pub contain : String
contain = "CONTAIN"

abbrev pub defer : String
defer = "DEFER"

-- `verdict in PERMITTING` of a text
unfoldable pub is_permitting : String → Bool
is_permitting v = v == allow || v == limit || v == contain

-- `verdict in PERMITTING` of any value: a set refuses to look up what has no hash.
unfoldable pub in_permitting : Value → Exc Bool
in_permitting (Value.str v) = ok (is_permitting v)
in_permitting (Value.list _) = raise Exn.type_error
in_permitting (Value.dict _) = raise Exn.type_error
in_permitting _ = ok (Bool.false)

-- `_rank`: a text that `_RANK` lacks ranks as DENY.
unfoldable pub rank : String → ℕ
rank v =
    if v == allow
    then 0
    else if v == limit
    then 1
    else if v == contain
    then 2
    else if v == defer
    then 3
    else 4

-- `_CANONICAL.get(key, DENY)`
unfoldable pub normalize_text : String → String
normalize_text v =
    if v == allow
    then allow
    else if v == limit
    then limit
    else if v == contain
    then contain
    else if v == defer
    then defer
    else deny

-- `normalize`: what is no `str` is DENY.
unfoldable pub normalize : Value → String
normalize (Value.str v) = normalize_text v
normalize _ = deny

unfoldable pub meet : Value → Value → String
meet a b =
    let a' = normalize a in let b' = normalize b in if leb (rank b') (rank a') then a' else b'

-- the loop of `compose`
unfoldable pub fold_meet : String → List Value → String
fold_meet out [] = out
fold_meet out (v ∷ vs) = fold_meet (meet (Value.str out) v) vs

unfoldable pub compose : List Value → String
compose vs = fold_meet allow vs

-- `action.get("nonce") or action.get("action_ref") or ""`
unfoldable pub action_ref_of : Dict → Value
action_ref_of action = get_or_else "nonce" (get_or_else "action_ref" (Value.str "") action) action

-- The verdict field of an evaluator's dict, canonical; a missing one fails closed.
unfoldable pub verdict_of : Dict → String
verdict_of d = normalize (get_default "verdict" (Value.str deny) d)

-- `type(v).__name__`
unfoldable pub type_name : Runtime → Value → String
type_name R Value.null = "NoneType"
type_name R (Value.boolean _) = "bool"
type_name R (Value.int _) = "int"
type_name R (Value.float _) = "float"
type_name R (Value.str _) = "str"
type_name R (Value.list _) = "list"
type_name R (Value.tuple _) = "tuple"
type_name R (Value.dict _) = "dict"
type_name R v = R.class_name v

-- `str(v)`, and the text that an f-string puts for `{v}`
unfoldable pub text : Runtime → Value → String
text R (Value.str s) = s
text R v = R.show v

unfoldable pub as_decision_dict : Dict → Value → Dict
as_decision_dict d ref =
    put "action_ref" ref
      (set_default "reason" (Value.str "") (put "verdict" (Value.str (verdict_of d)) d))

unfoldable pub as_decision : Runtime → Value → Dict → Dict
as_decision R (Value.str out) action =
    Dict.entry "verdict" (Value.str (normalize_text out))
      (Dict.entry "reason" (Value.str "") (Dict.entry "action_ref" (action_ref_of action) Dict.end))
as_decision R (Value.dict out) action = as_decision_dict out (action_ref_of action)
as_decision R out action = Dict.entry "verdict" (Value.str deny) (
    Dict.entry "reason"
      (Value.str ("malformed evaluator output of type " ⧺ type_name R out ⧺ " (fail-closed)"))
      (Dict.entry "action_ref" (action_ref_of action) Dict.end))

-- `EVALUATOR_CONTRIBUTABLE`
abbrev pub contributable : List String
contributable = "verdict" ∷ "reason" ∷ "action_ref" ∷ "legitimacy_digest" ∷ "axiom_ids" ∷ []

-- `{k: v for k, v in d.items() if k in EVALUATOR_CONTRIBUTABLE}`
unfoldable pub keep_contributable : Dict → Dict
keep_contributable Dict.end = Dict.end
keep_contributable (Dict.entry k v d) =
    let rest = keep_contributable d in
    if contains k contributable then Dict.entry k v rest else rest
keep_contributable (Dict.odd_entry k v d) = keep_contributable d

-- the coercion of `reason` to a plain text, where there is one
unfoldable pub plain_reason : Runtime → Option Value → Dict → Dict
plain_reason R none d = d
plain_reason R (some v) d = put "reason" (Value.str (text R v)) d

unfoldable pub sanitize : Runtime → Dict → Dict
sanitize R d = let out = keep_contributable d in plain_reason R (get "reason" out) out

-- The decision with the more restrictive verdict; a tie keeps the first.
unfoldable pub more_restrictive : Dict → Dict → Dict
more_restrictive d1 d2 = if ltb (rank (verdict_of d1)) (rank (verdict_of d2)) then d2 else d1
