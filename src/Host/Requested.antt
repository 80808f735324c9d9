-- ===== src/Host/Requested.antt =====
-- host.py: an agent's request reaches the host's `handle_intent`, and its evidence comes back.
use decision_os_min.Prelude.{
  ◌≤◌, Bool, String, ◌⧺◌, ◌≡◌, true, Option, none, some, nonempty, strip, utf8_size, ltb,
  if◌then◌else◌,
}
use decision_os_min.Py.{Value, Dict}
use decision_os_min.Py.Exc.{Exc, ok, raise}
use decision_os_min.Py.Runtime.{Runtime}
use decision_os_min.SpentStore.{SpentStore}
use decision_os_min.Execute.{AuditSink}
use decision_os_min.Sealed.{LegitimacyPolicy}
use decision_os_min.Host.Serve.{oversized}
use decision_os_min.Host.Intents.{max_ipc_frame_bytes}
use decision_os_min.Host.Handle.{AgentHost, HostReading}
use decision_os_min.Host.Line.{handle_ipc_line}
use decision_os_min.Host.Client.{Process}

-- The host at the other end of the pipe, as one turn of its loop leaves it: the last line that was
-- written to it, its answer to that, and the host itself.
pub record Connection (S : SpentStore) (A : AuditSink) : Type 0 where
  pub answer : Option String
  pub host : AgentHost S A

module _ (S : SpentStore) (A : AuditSink) (R : Runtime) (policy : LegitimacyPolicy)
    (c : HostReading) (in_time : String → Bool) where
  abbrev after_turn : Exc String × AgentHost S A → Connection S A
  after_turn (ok reply, h) = record { answer = some (reply ⧺ "\n"); host = h }
  after_turn (raise e, h) = record { answer = some ""; host = h }

  -- A process that runs the host, by one turn of `serve_stdio` for each line that is written: a line
  -- over the bound is handled as an oversized frame, a blank one has no answer, and any other is
  -- stripped and handled. The answer is what is read where it comes in time, and a host that an
  -- exception ended has closed its output.
  abbrev pub host_process : Process
  host_process = record {
    State = Connection S A;
    write = λ line s.
        if ltb max_ipc_frame_bytes (utf8_size line)
        then (ok tt, after_turn (handle_ipc_line S A R policy c (oversized S A) s.host))
        else if nonempty (strip line)
        then (ok tt, after_turn (handle_ipc_line S A R policy c (strip line) s.host))
        else (ok tt, record s { answer = none });
    read_within = λ t s. (if in_time t then s.answer else none, s);
    kill = λ s. s;
    is_running = λ s. true;
    terminate = λ s. s;
    has_ended = λ s. true;
  }

-- What the two JSON texts of a request are relied on for: the message's line, with its newline and
-- stripped, fits a frame and reads as the wire form of the intent, and the host's answer reads as
-- some value.
pub record IsCarried (R : Runtime) (dumps : Value → Option String) (message frame : Dict)
    (back : Value) : Type 0 where
  pub text : String
  pub is_dumped : dumps (Value.dict message) ≡ some text
  pub is_text : nonempty (strip (text ⧺ "\n")) ≡ true
  pub fits : utf8_size (text ⧺ "\n") ≤ 65536
  pub fits_stripped : utf8_size (strip (text ⧺ "\n")) ≤ 65536
  pub is_loaded : R.loads (strip (text ⧺ "\n")) ≡ some (Value.dict message)
  pub reply : String
  pub is_printed : R.dumps_plain (Value.dict frame) ≡ some reply
  pub is_line : nonempty (reply ⧺ "\n") ≡ true
  pub is_read : R.loads (reply ⧺ "\n") ≡ some back
