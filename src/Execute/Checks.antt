-- ===== src/Execute/Checks.antt =====
-- `Executor._prepare` before the spend: the gates.
use decision_os_min.Prelude.{
  ℕ, String, ◌⧺◌, Bool, true, false, not, ◌&&◌, ◌||◌, Option, none, some, ◌==◌, nonempty, last_part,
  Table, find?, if◌then◌else◌,
}
use decision_os_min.Py.{
  Value, Items, Dict, get, get_default, get_or_else, truthy, or_value, has_key,
}
use decision_os_min.Py.Exc.{Exc, ok, raise, Exn, ◌>>=◌, ◌>>◌, raise_if}
use decision_os_min.Py.Runtime.{Runtime, DateTime}
use decision_os_min.Py.Times.{reached}
use decision_os_min.Py.Plugin.{Ran}
use decision_os_min.Compose.{limit, contain, in_permitting, text, action_ref_of}
use decision_os_min.Kernel.{canonical, action_fingerprint, verify_raises, verify}

abbrev pub Tool : Type 0
Tool = Dict → Ran Value

-- What a caller presents beside the action; `result["token"]` is not read.
pub record Presented : Type 0 where
  pub decision : Value
  pub signature : String

abbrev pub refuse {ℓ} : {A : Type ℓ} → String → Exc A
refuse why = raise (Exn.execution_refused why)

unfoldable pub payload_digest : Runtime → Dict → String
payload_digest R payload = R.sha256 (
    if R.prints (Value.dict payload)
    then R.dumps (Value.dict payload)
    else R.repr (Value.dict payload))

-- `a == b`
unfoldable pub value_eq : Runtime → Value → Value → Bool
value_eq R (Value.str s) (Value.str t) = s == t
value_eq R a b = R.same a b

abbrev pub is_text : Option Value → String → Bool
is_text (some (Value.str s)) t = s == t
is_text _ t = false

abbrev as_frozen : Option Value → Exc Dict
as_frozen (some (Value.dict d)) = ok d
as_frozen _ = refuse "decision is not JSON-round-trippable"

-- The decision as it was signed: verified, then read back from its canonical text.
unfoldable pub authenticated : Runtime → String → Presented → Exc Dict
authenticated R pub_key p = elim p.decision [
  | Value.dict d ↦
      if verify_raises R d
      then raise Exn.type_error
      else if verify R d p.signature pub_key
      then as_frozen (R.loads (canonical R d))
      else refuse "decision not authenticated by the kernel"
  | _ ↦ raise (Exn.foreign "AttributeError" (R.error_text "AttributeError"))
]

-- `decision[k]`
unfoldable pub field : String → Dict → Exc Value
field k d = elim (get k d) [ none ↦ raise Exn.key_error | some v ↦ ok v ]

-- The action is the one that was authorized.
unfoldable pub check_binding : Runtime → Dict → Dict → Exc (Unit {0})
check_binding R action decision = do
  fingerprint ← action_fingerprint R action
  raise_if (not (is_text (get "action_binding" decision) fingerprint))
      (Exn.execution_refused "action does not match the authorized decision (binding mismatch)")
  raise_if
      (not (value_eq R (action_ref_of action) (get_default "action_ref" (Value.str "") decision)))
      (Exn.execution_refused "action nonce/action_ref does not match the authorized decision")

-- The verdict is on the whitelist and carries a token.
unfoldable pub check_verdict : Runtime → Dict → Exc Value
check_verdict R decision = do
  verdict ← field "verdict" decision
  allowed ← in_permitting verdict
  raise_if (not allowed || not (truthy (get_default "token_id" Value.null decision)))
      (Exn.execution_refused ("verdict " ⧺ text R verdict ⧺ ": no execution"))
  ok verdict

abbrev pub invalid_expiry {ℓ} : {A : Type ℓ} → Exc A
invalid_expiry = refuse "token missing/invalid expiry"

abbrev pub expired_by : Exc Bool → Exc (Unit {0})
expired_by (ok true) = refuse "token expired"
expired_by (ok false) = ok tt
expired_by (raise _) = invalid_expiry

abbrev pub check_time : ℕ → Option DateTime → Exc (Unit {0})
check_time now none = invalid_expiry
check_time now (some t) = expired_by (reached now t)

unfoldable pub check_expiry : Runtime → ℕ → Dict → Exc (Unit {0})
check_expiry R now decision = elim (get "token_expires_at" decision) [
  | none ↦ invalid_expiry
  | some v ↦ elim v [ Value.str s ↦ check_time now (R.fromisoformat s) | _ ↦ invalid_expiry ]
]

-- `s in xs`
unfoldable pub item_member : Runtime → String → Items → Bool
item_member R s Items.nil = false
item_member R s (Items.cons x xs) = value_eq R x (Value.str s) || item_member R s xs

abbrev or_unsupported : Runtime → Option Bool → Exc Bool
or_unsupported R none = raise (Exn.foreign "TypeError" (R.error_text "TypeError"))
or_unsupported R (some b) = ok b

unfoldable pub member : Runtime → String → Value → Exc Bool
member R s (Value.list xs) = ok (item_member R s xs)
member R s (Value.tuple xs) = ok (item_member R s xs)
member R s v = or_unsupported R (R.member_other v s)

-- `(decision.get("containment") or {}).get("allowed_tools", [])`
unfoldable pub allowed_tools : Runtime → Value → Exc Value
allowed_tools R (Value.dict d) = ok (get_default "allowed_tools" (Value.list Items.nil) d)
allowed_tools R _ = raise (Exn.foreign "AttributeError" (R.error_text "AttributeError"))

abbrev pub is_verdict : Value → String → Bool
is_verdict (Value.str s) v = s == v
is_verdict _ v = false

unfoldable pub check_containment : Runtime → Value → String → Dict → Exc (Unit {0})
check_containment R verdict tool decision =
    if is_verdict verdict contain
    then (do
      allowed ← allowed_tools R (get_or_else "containment" (Value.dict Dict.end) decision)
      inside ← member R tool allowed
      raise_if (not inside)
          (Exn.execution_refused ("contained: '" ⧺ tool ⧺ "' not in allowlist " ⧺ text R allowed)))
    else ok tt

abbrev pub find_tool : Table Tool → String → Exc Tool
find_tool tools name = elim (find? name tools) [
  | none ↦ refuse ("no executor registered for tool '" ⧺ name ⧺ "'")
  | some fn ↦ ok fn
]

abbrev as_payload : Value → Exc Dict
as_payload (Value.dict d) = ok d
as_payload _ = refuse "payload is not an object"

-- The minimized payload where the decision carries one, and else the action's.
unfoldable pub chosen_payload : Dict → Dict → Exc Dict
chosen_payload action decision = as_payload (
    or_value
      (if has_key "transformed_payload" decision
        then get "transformed_payload" decision
        else get "payload" action)
      (Value.dict Dict.end))

abbrev pub as_token : Option Value → Exc String
as_token (some (Value.str s)) = if nonempty s then ok s else refuse "token_id missing/invalid"
as_token _ = refuse "token_id missing/invalid"

-- What the gates before the spend establish: the tool, its payload and the token.
pub record Prepared : Type 0 where
  pub tool : String
  pub fn : Tool
  pub payload : Dict
  pub token : String

unfoldable pub check_limit : Value → Dict → Exc (Unit {0})
check_limit verdict decision =
    raise_if (is_verdict verdict limit && not (has_key "transformed_payload" decision))
      (Exn.execution_refused "LIMIT without a transformed_payload: refusing")

-- `_prepare` up to the spend
unfoldable pub gates : Runtime → String → ℕ → Dict → Presented → Table Tool → Exc Prepared
gates R pub_key now action p tools = do
  decision ← authenticated R pub_key p
  check_binding R action decision
  verdict ← check_verdict R decision
  check_expiry R now decision
  capability ← field "capability" decision
  let tool = last_part "tool:" (text R capability)
  check_containment R verdict tool decision
  fn ← find_tool tools tool
  check_limit verdict decision
  payload ← chosen_payload action decision
  token ← as_token (get "token_id" decision)
  ok (record { tool = tool; fn = fn; payload = payload; token = token })
