-- ===== src/Host/Frames.antt =====
-- host.py: the answer to a frame that is no message, and what may escape from the answer to a frame.
use decision_os_min.Prelude.{
  String, ◌≡◌, refl, ap, Bool, true, false, not, ◌||◌, Option, none, some, inl, inr, ◌⊎◌,
  Bool-cases, ltb, utf8_size, nonempty, chars, Option-cases,
}
use decision_os_min.Py.{Value, Dict, get, get_default}
use decision_os_min.Py.Exc.{Exc, ok, raise, Exn, ◌>>=◌, raise_if}
use decision_os_min.Py.Runtime.{Runtime}
use decision_os_min.SpentStore.{SpentStore}
use decision_os_min.Execute.{AuditSink, is_text}
use decision_os_min.Sealed.{LegitimacyPolicy}
use decision_os_min.Host.Intents.{
  max_ipc_frame_bytes, max_request_id_chars, invalid_value, intent_keys, required_keys, is_protocol,
  only_keys, has_keys, text_field, as_text, as_payload, as_resource, from_wire,
}
use decision_os_min.Host.Handle.{AgentHost, HostReading, error_of}
use decision_os_min.Host.Line.{
  invalid_frame, is_ping, as_message, message_of, after_wire, wire_of, handle_wire, respond, caught,
  or_invalid, printed, handle_ipc_line,
}

module _ (R : Runtime) where
  -- A call whose exceptions `except Exception` catches.
  abbrev IsCaught {ℓ} : {A : Type ℓ} → Exc A → Type 0
  IsCaught (ok a) = Unit {0}
  IsCaught (raise e) = (t : String) × (error_of R e ≡ some t)

  bind-IsCaught :
      {A B : Type 0} (call : Exc A) (next : A → Exc B)
      → IsCaught call
      → ((a : A) → IsCaught (next a))
      → IsCaught (call >>= next)
  bind-IsCaught (ok a) next c n = n a
  bind-IsCaught (raise e) next c n = c

  raise_if-IsCaught : (b : Bool) (t : String) → IsCaught (raise_if b (invalid_value t))
  unfolding error_of
  raise_if-IsCaught true t = (_, refl)
  raise_if-IsCaught false t = tt

  as_message-IsCaught : (o : Option Value) → IsCaught (as_message o)
  unfolding error_of
  as_message-IsCaught none = (_, refl)
  as_message-IsCaught (some (Value.dict d)) = tt
  as_message-IsCaught (some v) = (_, refl)

  message_of-IsCaught : (line : String) → IsCaught (message_of R line)
  unfolding message_of
  message_of-IsCaught line =
      bind-IsCaught (raise_if (ltb max_ipc_frame_bytes (utf8_size line)) _) _
        (raise_if-IsCaught (ltb max_ipc_frame_bytes (utf8_size line)) "frame too large")
        (λ _. as_message-IsCaught (R.loads line))

  as_text-IsCaught : (k : String) (o : Option Value) → IsCaught (as_text k o)
  unfolding error_of
  as_text-IsCaught k (some (Value.str s)) = elim (Bool-cases (nonempty s)) [
    | inl e ↦ rw e tt
    | inr e ↦ rw e (_, refl)
  ]
  as_text-IsCaught k o = (_, refl)

  text_field-IsCaught : (k : String) (msg : Dict) → IsCaught (text_field k msg)
  unfolding text_field
  text_field-IsCaught k msg = as_text-IsCaught k (get k msg)

  as_payload-IsCaught : (o : Option Value) → IsCaught (as_payload o)
  unfolding error_of
  as_payload-IsCaught (some (Value.dict d)) = tt
  as_payload-IsCaught o = (_, refl)

  as_resource-IsCaught : (v : Value) → IsCaught (as_resource v)
  unfolding error_of
  as_resource-IsCaught (Value.str s) = tt
  as_resource-IsCaught v = (_, refl)

  from_wire-IsCaught : (msg : Dict) → IsCaught (from_wire R msg)
  unfolding from_wire
  from_wire-IsCaught msg =
      bind-IsCaught _ _
        (raise_if-IsCaught
          (not (is_protocol R (get "v" msg)) || not (is_text (get "type" msg) "intent"))
          "invalid intent wire message")
        λ _.
          bind-IsCaught _ _
            (raise_if-IsCaught (not (only_keys intent_keys msg)) "unknown intent fields")
            λ _.
              bind-IsCaught _ _
                (raise_if-IsCaught (not (has_keys required_keys msg)) "missing intent fields")
                λ _. bind-IsCaught _ _ (text_field-IsCaught "request_id" msg) λ request.
                  bind-IsCaught _ _ (text_field-IsCaught "agent_id" msg) λ _.
                    bind-IsCaught _ _ (text_field-IsCaught "tool" msg) λ _.
                      bind-IsCaught _ _ (text_field-IsCaught "intent" msg) λ _.
                        bind-IsCaught _ _
                          (raise_if-IsCaught (ltb max_request_id_chars (chars request))
                            "request_id too long")
                          λ _. bind-IsCaught _ _ (as_payload-IsCaught (get "payload" msg)) λ _.
                            bind-IsCaught _ _
                              (as_resource-IsCaught (get_default "resource" (Value.str "") msg))
                              λ _. tt

  caught-invalid :
      {A : Type 0} (call : Exc A) (e : Exn)
      → IsCaught call
      → call ≡ raise e
      → caught R (raise e) ≡ ok invalid_frame
  unfolding caught
  caught-invalid (ok a) e c h = absurd cc
  caught-invalid (raise f) e (t, named) h = let same : f ≡ e = cc in rw (← same) (rw named refl)

  ok_is_no_raise : {A : Type 0} {a : A} {e : Exn} → ok a ≡ raise e → ⊥
  ok_is_no_raise h = cc

  -- A line that is no message to a channel: no JSON object of at most 65536 bytes, a ping with
  -- something else in it, or a message to a bound channel that is no intent.
  pub data IsMalformed (bound : Option String) (line : String) : Type 0 where
    no_message : (e : Exn) → message_of R line ≡ raise e → IsMalformed bound line
    bad_ping :
        (msg : Dict)
        → message_of R line ≡ ok msg
        → is_text (get "type" msg) "ping" ≡ true
        → is_ping R msg ≡ false
        → IsMalformed bound line
    bad_intent :
        (msg : Dict) (agent : String) (e : Exn)
        → message_of R line ≡ ok msg
        → is_text (get "type" msg) "ping" ≡ false
        → bound ≡ some agent
        → from_wire R msg ≡ raise e
        → IsMalformed bound line

  module _ (S : SpentStore) (A : AuditSink) (policy : LegitimacyPolicy) (c : HostReading) where
    wire_of-refused :
        (bound : Option String) (agent : String) (msg : Dict) (e : Exn) (h : AgentHost S A)
        → bound ≡ some agent
        → from_wire R msg ≡ raise e
        → wire_of S A R policy c bound msg h ≡ (raise e, h)
    unfolding after_wire
    wire_of-refused none agent msg e h b w = absurd cc
    wire_of-refused (some _) agent msg e h b w = rw w refl

    -- A malformed line is answered by the invalid frame, and changes nothing in the host.
    pub handle_ipc_line-malformed :
        (line : String) (h : AgentHost S A)
        → IsMalformed h.bound_agent_id line
        → handle_ipc_line S A R policy c line h ≡ (printed R (ok invalid_frame), h)
    unfolding handle_ipc_line respond handle_wire
    handle_ipc_line-malformed line h (IsMalformed.no_message e m) = rw m (
        ap (λ x. (printed R x, h))
          (caught-invalid (message_of R line) e (message_of-IsCaught line) m))
    handle_ipc_line-malformed line h (IsMalformed.bad_ping msg m t p) =
        rw (m, t, p)
          (ap (λ x. (printed R x, h))
            (caught-invalid (raise_if true (invalid_value "invalid ping frame")) _
              (raise_if-IsCaught true "invalid ping frame") refl))
    handle_ipc_line-malformed line h (IsMalformed.bad_intent msg agent e m t b w) =
        rw (m, t, wire_of-refused h.bound_agent_id agent msg e h b w)
          (ap (λ x. (printed R x, h))
            (caught-invalid (from_wire R msg) e (from_wire-IsCaught msg) w))

    printed-raise :
        (answer : Exc Dict) (e : Exn)
        → printed R (caught R answer) ≡ raise e
        → ((answer ≡ raise e) × (error_of R e ≡ none))
          ⊎ (d : Dict) × (caught R answer ≡ ok d) × (R.dumps_plain (Value.dict d) ≡ none)
    unfolding printed caught
    printed-raise (ok d) e h = elim (Option-cases (R.dumps_plain (Value.dict d))) [
      | inl f ↦ inr (d, refl, f)
      | inr (t, f) ↦ absurd (ok_is_no_raise (rw f at h))
    ]
    printed-raise (raise x) e h = by_error (error_of R x) refl h
      where
        by_error :
            (o : Option String)
            → error_of R x ≡ o
            → printed R (or_invalid x o) ≡ raise e
            → ((◌≡◌ {A = Exc Dict} (raise x) (raise e)) × (error_of R e ≡ none))
              ⊎ (d : Dict) × (or_invalid x o ≡ ok d) × (R.dumps_plain (Value.dict d) ≡ none)
        by_error none named h = let same : x ≡ e = cc in inl (ap raise same, rw (← same) named)
        by_error (some t) named h = elim (Option-cases (R.dumps_plain (Value.dict invalid_frame))) [
          | inl f ↦ inr (invalid_frame, refl, f)
          | inr (u, f) ↦ absurd (ok_is_no_raise (rw f at h))
        ]

    -- Nothing that `except Exception` catches escapes from the answer to a line: an error that does is
    -- the one that the answering raised and of another kind, or the frame that the line is answered by
    -- could not be printed.
    pub handle_ipc_line-escapes :
        (line : String) (h : AgentHost S A) (e : Exn)
        → (handle_ipc_line S A R policy c line h).0 ≡ raise e
        → (((respond S A R policy c (message_of R line) h).0 ≡ raise e) × (error_of R e ≡ none))
          ⊎ (d : Dict) × (caught R (respond S A R policy c (message_of R line) h).0 ≡ ok d)
            × (R.dumps_plain (Value.dict d) ≡ none)
    unfolding handle_ipc_line
    handle_ipc_line-escapes line h e raised =
        printed-raise (respond S A R policy c (message_of R line) h).0 e raised
