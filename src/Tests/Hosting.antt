-- ===== src/Tests/Hosting.antt =====
-- The host at concrete intents, lines and inputs.
use decision_os_min.Prelude.{◌≡◌, ◌≢◌, refl, [], ◌∷◌, none, some, ◌⊎◌, utf8_size, arith, chars}
use decision_os_min.Py.{Value, Dict, get}
use decision_os_min.Py.Runtime.{Runtime}
use decision_os_min.Py.Exc.{Exc, ok, raise, Exn}
use decision_os_min.SpentStore.InMemory.{in_memory_store, in_memory_store-IsAtomic}
use decision_os_min.Host.{
  to_wire, from_wire, error_of, handle_intent, handle_ipc_line, message_of, printed, serve, Served,
  is_protocol, respond, caught, handle_wire, after_wire,
}
use decision_os_min.Host.Wire.{from_wire-to_wire}
use decision_os_min.Host.Hosted.{IsHosted, handle_intent-IsHosted}
use decision_os_min.Prelude.{find?, inl, true}
use decision_os_min.Host.Answers.{IsAnswered, handle_intent-IsAnswered}
use decision_os_min.Host.Single.{HostCall, after_intent, after_intents, handle_intent-once}
use decision_os_min.Host.Frames.{handle_ipc_line-escapes}
use decision_os_min.Host.Ending.{serve-ends}
use decision_os_min.Tests.Fixtures.{plain, log_sink}
use decision_os_min.Tests.Agents.{
  agent_meta, world, approve, search_call, search_intent, host_reading, bound_host,
}
use decision_os_min.Tests.Runtime.{invoked}

from_wire-to_wire_example : from_wire plain (to_wire "ab12" search_intent) ≡ ok search_intent
unfolding chars
from_wire-to_wire_example =
    from_wire-to_wire plain "ab12" search_intent refl refl refl refl (omega arith)

handle_intent-IsHosted_example :
    ((handle_intent in_memory_store log_sink world approve host_reading search_intent
        bound_host).1.runtime.stores.effects
      ≡ bound_host.runtime.stores.effects)
    ⊎ IsHosted in_memory_store log_sink world approve host_reading search_intent bound_host
        (handle_intent in_memory_store log_sink world approve host_reading search_intent
          bound_host).1
handle_intent-IsHosted_example =
    handle_intent-IsHosted in_memory_store log_sink world approve host_reading search_intent
      bound_host

no_raise : {a : Exc Value} {v : Value} {e : Exn} → a ≡ ok v → a ≡ raise e → ⊥
no_raise h k = cc

handle_intent-IsAnswered_example :
    IsAnswered in_memory_store log_sink world approve host_reading search_intent bound_host
      (handle_intent in_memory_store log_sink world approve host_reading search_intent bound_host)
unfolding find?
handle_intent-IsAnswered_example =
    handle_intent-IsAnswered in_memory_store log_sink world approve host_reading search_intent
      bound_host agent_meta refl (inl (true, invoked.7))
      (λ e raised. absurd (no_raise invoked.6 raised))

abbrev search_request : HostCall
search_request = record { reading = host_reading; intent = search_intent }

hosted_once :
    (after_intent in_memory_store log_sink world approve search_request
      bound_host).runtime.stores.effects
    ≢ bound_host.runtime.stores.effects
unfolding after_intent
hosted_once h =
    let e : ("search", search_call.payload) ∷ [] ≡ bound_host.runtime.stores.effects =
      rw invoked.5 at h in
    absurd cc

handle_intent-once_example :
    (after_intent in_memory_store log_sink world approve search_request (
      after_intent in_memory_store log_sink world approve search_request
        bound_host)).runtime.stores.effects
    ≡ (after_intent in_memory_store log_sink world approve search_request
        bound_host).runtime.stores.effects
unfolding after_intents
handle_intent-once_example =
    handle_intent-once in_memory_store log_sink world approve in_memory_store-IsAtomic
      search_request search_request [] bound_host refl hosted_once

-- a runtime that can print nothing
abbrev mute : Runtime
mute = record plain { dumps_plain = λ v. none }

handle_ipc_line-escapes_example :
    (((respond in_memory_store log_sink mute approve host_reading
          (message_of mute "{}")
          bound_host).0
        ≡ raise (Exn.foreign "TypeError" "TypeError"))
      × (error_of mute (Exn.foreign "TypeError" "TypeError") ≡ none))
    ⊎ (d : Dict) × (caught mute
          (respond in_memory_store log_sink mute approve host_reading
            (message_of mute "{}")
            bound_host).0
        ≡ ok d)
      × (mute.dumps_plain (Value.dict d) ≡ none)
unfolding handle_ipc_line respond message_of printed caught get utf8_size handle_wire after_wire
    from_wire is_protocol error_of
handle_ipc_line-escapes_example =
    handle_ipc_line-escapes mute in_memory_store log_sink approve host_reading "{}" bound_host
      (Exn.foreign "TypeError" "TypeError") refl

serve-ends_example :
    (out : Served in_memory_store log_sink) × (serve in_memory_store log_sink 9 plain approve
        (λ k. host_reading)
        0
        "{}\n\nx"
        bound_host
      ≡ some out)
unfolding chars
serve-ends_example =
    serve-ends in_memory_store log_sink plain approve (λ k. host_reading) 9 0 "{}\n\nx" bound_host
      (omega arith)
