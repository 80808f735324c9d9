-- ===== src/AuthorityPdp/Builtin.antt =====
-- `BuiltinAuthorityPDP`: the grants and purpose policy behind the provider's interface. It shares
-- its grants table with the kernel, and its graph holds the same grants as sets.
use decision_os_min.Prelude.{
  ℕ, ◌+◌, String, ◌⧺◌, Bool, true, Option, none, some, List, [], ◌∷◌, ◌++◌, contains, ◌==◌, not,
  ◌&&◌, Table, find, find?, store, discard, prefix_of, remove_prefix, if◌then◌else◌,
}
use decision_os_min.Py.{
  Value, Items, Dict, ℤ, get, get_default, get_or_else, truthy, of_texts, hashable,
}
use decision_os_min.Py.Exc.{Exc, ok, raise, Exn, ◌>>=◌}
use decision_os_min.Py.Runtime.{Runtime, DateTime}
use decision_os_min.Py.Plugin.{Ran, returned, raised}
use decision_os_min.Compose.{allow, deny, text}
use decision_os_min.Attenuation
use decision_os_min.Attenuation.{AuthorityGraph, Macaroon, held_by_any, holds}
use decision_os_min.AuthorityPdp.Defs.{AuthorityPdp, Output, result}

pub record Builtin : Type 0 where
  pub grants : Table (List String)
  pub bindings : Table (List String)
  pub graph : AuthorityGraph
  pub default_deny : Bool
  pub revision_counter : ℕ

abbrev table_value : Table (List String) → Dict
table_value [] = Dict.end
table_value ((k, vs) ∷ t) = Dict.entry k (Value.list (of_texts vs)) (table_value t)

-- `policy_revision`
unfoldable pub policy_revision : Runtime → Builtin → String
policy_revision R b =
    "builtin:"
    ⧺ prefix_of 16 (
        R.sha256 (
          R.dumps (
            Value.dict (
              Dict.entry "grants" (Value.dict (table_value b.grants)) (
                Dict.entry "purpose_bindings" (Value.dict (table_value b.bindings)) (
                  Dict.entry "default_deny" (Value.boolean b.default_deny)
                    (Dict.entry "revision" (Value.int (ℤ.pos b.revision_counter)) Dict.end)))))))

-- `action.get("capability") or f"tool:{action.get('tool', '')}"`
unfoldable pub capability_of : Runtime → Dict → Value
capability_of R action =
    get_or_else "capability"
      (Value.str ("tool:" ⧺ text R (get_default "tool" (Value.str "") action))) action

-- `v != t` for a text `t`
abbrev pub differs : Value → String → Bool
differs (Value.str s) t = not (s == t)
differs _ t = true

-- The reason that a capability and a tool which disagree give. An absent field is false.
unfoldable pub ambiguous : Runtime → Option Value → Option Value → Option String
ambiguous R (some cap) (some tool) =
    if truthy cap && truthy tool && differs cap ("tool:" ⧺ text R tool)
    then some ("ambiguous: capability '" ⧺ text R cap ⧺ "' != tool '" ⧺ text R tool ⧺ "'")
    else none
ambiguous R _ _ = none

abbrev pub interpreter_error {ℓ} : {A : Type ℓ} → Runtime → String → Exc A
interpreter_error R c = raise (Exn.foreign c (R.error_text c))

-- What `holds` does below the test for `*`, at any capability: what has no hash cannot be looked
-- up, and only a text has `removeprefix`.
unfoldable pub holds_some :
    Runtime → AuthorityGraph → List String → List Macaroon → String → Value → ℕ → Exc Bool
holds_some R g root macs holder (Value.str c) now =
    if contains c root then ok true else held_by_any R g holder (remove_prefix "tool:" c) now macs
holds_some R g root macs holder (Value.list _) now = interpreter_error R "TypeError"
holds_some R g root macs holder (Value.dict _) now = interpreter_error R "TypeError"
holds_some R g root macs holder _ now = interpreter_error R "AttributeError"

-- `holds` at any two values: a holder that is no text has no entry.
unfoldable pub holds_value : Runtime → AuthorityGraph → Value → Value → ℕ → Exc Bool
holds_value R g (Value.str holder) capability now =
    let root = find [] holder g.root_grants in
    if contains "*" root
    then ok true
    else holds_some R g root (find [] holder g.macaroons) holder capability now
holds_value R g (Value.list _) capability now = interpreter_error R "TypeError"
holds_value R g (Value.dict _) capability now = interpreter_error R "TypeError"
holds_value R g _ capability now = holds_some R g [] [] "" capability now

items : Items → List Value
items Items.nil = []
items (Items.cons x xs) = x ∷ items xs

or_not_iterable : Runtime → Option (List Value) → Exc (List Value)
or_not_iterable R none = interpreter_error R "TypeError"
or_not_iterable R (some vs) = ok vs

-- The items that `for` runs through.
unfoldable pub iterate : Runtime → Value → Exc (List Value)
unfolding items or_not_iterable
iterate R (Value.list xs) = ok (items xs)
iterate R (Value.tuple xs) = ok (items xs)
iterate R v = or_not_iterable R (R.iterate_other v)

-- What one data label does to the ruling: `none` lets the loop go on.
unfoldable pub label_bound :
    Runtime → Builtin → Value → String → Option (List String) → Option String
label_bound R b purpose label none =
    if b.default_deny then some ("unknown data purpose '" ⧺ label ⧺ "' -> default-deny") else none
label_bound R b (Value.str purpose) label (some allowed) =
    if contains purpose allowed
    then none
    else some ("purpose mismatch: '" ⧺ label ⧺ "' != '" ⧺ purpose ⧺ "'")
label_bound R b purpose label (some allowed) =
    some ("purpose mismatch: '" ⧺ label ⧺ "' != '" ⧺ text R purpose ⧺ "'")

unfoldable pub label_objection : Runtime → Builtin → Value → Value → Exc (Option String)
label_objection R b purpose (Value.str label) =
    ok (label_bound R b purpose label (find? label b.bindings))
label_objection R b purpose (Value.list _) = interpreter_error R "TypeError"
label_objection R b purpose (Value.dict _) = interpreter_error R "TypeError"
label_objection R b purpose label =
    if hashable label
    then ok (label_bound R b purpose (text R label) none)
    else interpreter_error R "TypeError"

-- the loop over the labels: the first objection
unfoldable pub labels_objection : Runtime → Builtin → Value → List Value → Exc (Option String)
labels_objection R b purpose [] = ok none
labels_objection R b purpose (l ∷ ls) =
    let rest = labels_objection R b purpose ls in
    do
      found ← label_objection R b purpose l
      elim found [ none ↦ rest | some reason ↦ ok (some reason) ]

-- The verdict and the reason of a ruling, an objection being a denial.
abbrev pub verdict_by : Option String → String × String
verdict_by none = (allow, "all checks passed")
verdict_by (some reason) = (deny, reason)

abbrev pub lacks : Runtime → Value → Value → String
lacks R actor cap = "actor '" ⧺ text R actor ⧺ "' lacks capability '" ⧺ text R cap ⧺ "'"

-- the loop over the data labels of an action
unfoldable pub purpose_objection : Runtime → Builtin → Dict → Exc (Option String)
purpose_objection R b action = do
  labels ← iterate R (get_default "data_labels" (Value.list Items.nil) action)
  labels_objection R b (get_default "action_purpose" Value.null action) labels

unfoldable pub grant_objection : Runtime → Builtin → ℕ → Dict → Exc (Option String)
grant_objection R b now action =
    let actor = get_default "actor" (Value.str "") action in
    let cap = capability_of R action in
    let labels = purpose_objection R b action in
    do
      held ← holds_value R b.graph actor cap now
      if held then labels else ok (some (lacks R actor cap))

-- The objection of `evaluate`, in the order of its checks.
unfoldable pub objection : Runtime → Builtin → ℕ → Dict → Exc (Option String)
objection R b now action = elim (ambiguous R (get "capability" action) (get "tool" action)) [
  | some reason ↦ ok (some reason)
  | none ↦ grant_objection R b now action
]

abbrev pub as_output : Runtime → Exc (Option String) → Ran Output
as_output R (ok o) =
    let (v, reason) = verdict_by o in returned (result (Value.str v) (Value.str reason))
as_output R (raise (Exn.foreign c t)) = raised c t
as_output R (raise Exn.type_error) = raised "TypeError" (R.error_text "TypeError")
as_output R (raise Exn.value_error) = raised "ValueError" (R.error_text "ValueError")
as_output R (raise _) = raised "RuntimeError" (R.error_text "RuntimeError")

-- `evaluate`, at the time that its clock shows
unfoldable pub evaluate : Runtime → Builtin → ℕ → Dict → Ran Output
evaluate R b now action = as_output R (objection R b now action)

-- The provider that a built-in policy is.
unfoldable pub provider : Runtime → ℕ → Builtin → AuthorityPdp
provider R now b = record {
  name = returned (Value.str "builtin");
  policy_revision = returned (Value.str (policy_revision R b));
  evaluate = evaluate R b now;
}

abbrev pub add_new : String → List String → List String
add_new capability caps = if contains capability caps then caps else caps ++ capability ∷ []

unfoldable pub grant : String → String → Builtin → Builtin
grant actor capability b = record b {
  grants = store actor (add_new capability (find [] actor b.grants)) b.grants;
  graph = Attenuation.grant actor capability b.graph;
  revision_counter = b.revision_counter + 1;
}

unfoldable pub revoke : String → String → Builtin → Builtin
revoke actor capability b = record b {
  grants = store actor (discard capability (find [] actor b.grants)) b.grants;
  graph = Attenuation.revoke actor capability b.graph;
  revision_counter = b.revision_counter + 1;
}

unfoldable pub delegate :
    Runtime
    → String
    → ℕ
    → String
    → String
    → List String
    → Option DateTime
    → Builtin
    → Exc (Macaroon × Builtin)
delegate R nonce now parent child tools expires_at b = do
  (m, g) ← Attenuation.delegate R nonce now parent child tools expires_at b.graph
  ok (m, record b { graph = g; revision_counter = b.revision_counter + 1 })
