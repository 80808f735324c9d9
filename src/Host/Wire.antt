-- ===== src/Host/Wire.antt =====
-- host.py: what the wire form of an intent keeps.
use decision_os_min.Prelude.{
  ◌≤◌, String, ◌≡◌, refl, true, false, nonempty, chars, ltb, contains, arith,
}
use decision_os_min.Py.{get}
use decision_os_min.Py.Exc.{ok}
use decision_os_min.Py.Runtime.{Runtime}
use decision_os_min.Host.Intents.{
  Intent, or_text, to_wire, from_wire, text_field, is_protocol, only_keys, has_keys,
}

-- An intent whose agent, tool and purpose are named reads back from its wire form as itself, with the
-- name that was drawn for the request where it had none, if that name has 1 to 128 characters.
pub from_wire-to_wire :
    (R : Runtime) (digits : String) (i : Intent)
    → nonempty i.agent_id ≡ true
    → nonempty i.tool ≡ true
    → nonempty i.intent ≡ true
    → nonempty (or_text i.request_id digits) ≡ true
    → chars (or_text i.request_id digits) ≤ 128
    → from_wire R (to_wire digits i) ≡ ok (record i { request_id = or_text i.request_id digits })
unfolding from_wire to_wire text_field is_protocol only_keys has_keys get contains
from_wire-to_wire R digits i agent tool intent request short =
    let fits : ltb 128 (chars (or_text i.request_id digits)) ≡ false = ground arith in
    rw (agent, tool, intent, request, fits) refl
