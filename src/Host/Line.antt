-- ===== src/Host/Line.antt =====
-- The frames of the channel: a line of JSON in, a line of JSON out.
use decision_os_min.Prelude.{
  String, Bool, false, ◌&&◌, Option, none, some, [], ◌∷◌, ltb, utf8_size, if◌then◌else◌,
}
use decision_os_min.Py.{Value, Dict, get, get_default}
use decision_os_min.Py.Exc.{Exc, ok, raise, Exn, ◌>>=◌, ◌>>◌, raise_if}
use decision_os_min.Py.Runtime.{Runtime}
use decision_os_min.SpentStore.{SpentStore}
use decision_os_min.Execute.{AuditSink, is_text}
use decision_os_min.Sealed.{LegitimacyPolicy}
use decision_os_min.Host.Intents.{
  Intent, protocol, max_ipc_frame_bytes, invalid_value, is_protocol, only_keys, from_wire,
}
use decision_os_min.Host.Handle.{HostedEvidence, AgentHost, HostReading, error_of, handle_intent}

-- a result frame
unfoldable pub result_frame : Value → Bool → Value → Value → Dict
result_frame request fine output error = Dict.entry "v" protocol (
    Dict.entry "type" (Value.str "result") (
      Dict.entry "request_id" request (
        Dict.entry "ok" (Value.boolean fine)
          (Dict.entry "output" output (Dict.entry "error" error Dict.end)))))

abbrev pub text_or_null : Option String → Value
text_or_null none = Value.null
text_or_null (some t) = Value.str t

abbrev pub evidence_frame : HostedEvidence → Dict
evidence_frame e = result_frame (Value.str e.request_id) e.ok e.output (text_or_null e.error)

abbrev pub invalid_frame : Dict
invalid_frame = result_frame (Value.str "") false Value.null (Value.str "invalid_frame")

abbrev pub pong : Dict
pong = Dict.entry "v" protocol (Dict.entry "type" (Value.str "pong") Dict.end)

-- `msg == {"v": PROTOCOL, "type": "ping"}`
unfoldable pub is_ping : Runtime → Dict → Bool
is_ping R msg =
    only_keys ("v" ∷ "type" ∷ []) msg
    && is_protocol R (get "v" msg)
    && is_text (get "type" msg) "ping"

abbrev pub as_message : Option Value → Exc Dict
as_message none = raise (Exn.foreign "JSONDecodeError" "")
as_message (some (Value.dict d)) = ok d
as_message (some _) = raise (invalid_value "IPC frame must be a JSON object")

-- The message of a line, before anything is done for it.
unfoldable pub message_of : Runtime → String → Exc Dict
message_of R line = do
  raise_if (ltb max_ipc_frame_bytes (utf8_size line)) (invalid_value "frame too large")
  as_message (R.loads line)

abbrev pub or_invalid : Exn → Option String → Exc Dict
or_invalid e none = raise e
or_invalid e (some _) = ok invalid_frame

-- `except Exception`
unfoldable pub caught : Runtime → Exc Dict → Exc Dict
caught R (ok d) = ok d
caught R (raise e) = or_invalid e (error_of R e)

abbrev pub as_line : Runtime → Option String → Exc String
as_line R none = raise (Exn.foreign "TypeError" (R.error_text "TypeError"))
as_line R (some t) = ok t

unfoldable pub printed : Runtime → Exc Dict → Exc String
printed R answer = do d ← answer; as_line R (R.dumps_plain (Value.dict d))

module _ (S : SpentStore) (A : AuditSink) where
  abbrev framed : Exc HostedEvidence × AgentHost S A → Exc Dict × AgentHost S A
  framed (ok e, h) = (ok (evidence_frame e), h)
  framed (raise e, h) = (raise e, h)

  unfoldable pub after_wire :
      Runtime
      → LegitimacyPolicy
      → HostReading
      → Exc Intent
      → AgentHost S A
      → Exc Dict × AgentHost S A
  after_wire R policy c (raise e) h = (raise e, h)
  after_wire R policy c (ok i) h = framed (handle_intent S A R policy c i h)

  abbrev pub wire_of :
      Runtime
      → LegitimacyPolicy
      → HostReading
      → Option String
      → Dict
      → AgentHost S A
      → Exc Dict × AgentHost S A
  wire_of R policy c none msg h = (
    ok (
        result_frame (get_default "request_id" (Value.str "") msg) false Value.null
          (Value.str "channel_unbound")),
    h,
  )
  wire_of R policy c (some _) msg h = after_wire R policy c (from_wire R msg) h

  -- `handle_wire`
  unfoldable pub handle_wire :
      Runtime → LegitimacyPolicy → HostReading → Dict → AgentHost S A → Exc Dict × AgentHost S A
  handle_wire R policy c msg h = wire_of R policy c h.bound_agent_id msg h

  -- the body of the `try`
  unfoldable pub respond :
      Runtime → LegitimacyPolicy → HostReading → Exc Dict → AgentHost S A → Exc Dict × AgentHost S A
  respond R policy c (raise e) h = (raise e, h)
  respond R policy c (ok msg) h =
      if is_text (get "type" msg) "ping"
      then (if is_ping R msg then ok pong else raise (invalid_value "invalid ping frame"), h)
      else handle_wire R policy c msg h

  -- `handle_ipc_line`
  unfoldable pub handle_ipc_line :
      Runtime → LegitimacyPolicy → HostReading → String → AgentHost S A → Exc String × AgentHost S A
  handle_ipc_line R policy c line h =
      let (answer, h') = respond R policy c (message_of R line) h in
      (printed R (caught R answer), h')
