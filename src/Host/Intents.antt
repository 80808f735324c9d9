-- ===== src/Host/Intents.antt =====
-- `Intent`: a request of an agent, and its form on the wire.
use decision_os_min.Prelude.{
  ℕ, String, ◌⧺◌, Bool, true, false, not, ◌||◌, ◌&&◌, Option, none, some, List, [], ◌∷◌, nat_eq,
  ltb, contains, nonempty, chars, if◌then◌else◌,
}
use decision_os_min.Py.{ℤ, Value, Dict, get, get_default, has_key}
use decision_os_min.Py.Exc.{Exc, ok, raise, Exn, ◌>>=◌, ◌>>◌, raise_if}
use decision_os_min.Py.Runtime.{Runtime}
use decision_os_min.Execute.{is_text}

pub record Intent : Type 0 where
  pub agent_id : String
  pub tool : String
  pub payload : Dict
  pub intent : String
  pub resource : String
  pub request_id : String

-- `PROTOCOL`, and the bounds on a frame, in bytes, and on a request's name, in characters
abbrev pub protocol : Value
protocol = Value.int (ℤ.pos 1)

abbrev pub max_ipc_frame_bytes : ℕ
max_ipc_frame_bytes = 65536

abbrev pub max_request_id_chars : ℕ
max_request_id_chars = 128

abbrev pub intent_keys : List String
intent_keys =
    "v" ∷ "type" ∷ "request_id" ∷ "agent_id" ∷ "tool" ∷ "payload" ∷ "intent" ∷ "resource" ∷ []

-- `s or t`
abbrev pub or_text : String → String → String
or_text s t = if nonempty s then s else t

-- `to_wire`, at the digits that `uuid4` gave
unfoldable pub to_wire : String → Intent → Dict
to_wire digits i = Dict.entry "v" protocol (
    Dict.entry "type" (Value.str "intent") (
      Dict.entry "request_id" (Value.str (or_text i.request_id digits)) (
        Dict.entry "agent_id" (Value.str i.agent_id) (
          Dict.entry "tool" (Value.str i.tool) (
            Dict.entry "payload" (Value.dict i.payload) (
              Dict.entry "intent" (Value.str i.intent)
                (Dict.entry "resource" (Value.str i.resource) Dict.end)))))))

-- `v == PROTOCOL`: `True` and the float 1.0 equal it too.
unfoldable pub is_protocol : Runtime → Option Value → Bool
is_protocol R none = false
is_protocol R (some (Value.int (ℤ.pos n))) = nat_eq n 1
is_protocol R (some (Value.int (ℤ.negsuc n))) = false
is_protocol R (some v) = R.same v protocol

-- Whether each key is among the texts.
unfoldable pub only_keys : List String → Dict → Bool
only_keys ks Dict.end = true
only_keys ks (Dict.entry k v d) = let rest = only_keys ks d in contains k ks && rest
only_keys ks (Dict.odd_entry k v d) = false

unfoldable pub has_keys : List String → Dict → Bool
has_keys [] d = true
has_keys (k ∷ ks) d = has_key k d && has_keys ks d

abbrev pub required_keys : List String
required_keys = "request_id" ∷ "agent_id" ∷ "tool" ∷ "payload" ∷ "intent" ∷ []

-- `ValueError(t)`
abbrev pub invalid_value : String → Exn
invalid_value t = Exn.foreign "ValueError" t

abbrev pub invalid {ℓ} : {A : Type ℓ} → String → Exc A
invalid t = raise (invalid_value t)

abbrev pub as_text : String → Option Value → Exc String
as_text k (some (Value.str s)) =
    if nonempty s then ok s else invalid (k ⧺ " must be a non-empty string")
as_text k _ = invalid (k ⧺ " must be a non-empty string")

-- a field that must be a text, and not empty
unfoldable pub text_field : String → Dict → Exc String
text_field k msg = as_text k (get k msg)

abbrev pub as_payload : Option Value → Exc Dict
as_payload (some (Value.dict d)) = ok d
as_payload _ = invalid "payload must be an object"

abbrev pub as_resource : Value → Exc String
as_resource (Value.str s) = ok s
as_resource _ = invalid "resource must be a string"

-- `from_wire`
unfoldable pub from_wire : Runtime → Dict → Exc Intent
from_wire R msg = do
  raise_if (not (is_protocol R (get "v" msg)) || not (is_text (get "type" msg) "intent"))
      (invalid_value "invalid intent wire message")
  raise_if (not (only_keys intent_keys msg)) (invalid_value "unknown intent fields")
  raise_if (not (has_keys required_keys msg)) (invalid_value "missing intent fields")
  request ← text_field "request_id" msg
  agent ← text_field "agent_id" msg
  tool ← text_field "tool" msg
  intent ← text_field "intent" msg
  raise_if (ltb max_request_id_chars (chars request)) (invalid_value "request_id too long")
  payload ← as_payload (get "payload" msg)
  resource ← as_resource (get_default "resource" (Value.str "") msg)
  ok (record {
    agent_id = agent;
    tool = tool;
    payload = payload;
    intent = intent;
    resource = resource;
    request_id = request;
  })
