-- ===== src/Host/Serve.antt =====
-- `serve_stdio`: the loop over standard input. Input is a text, and output a list of lines.
use decision_os_min.Prelude.{
  ℕ, zero, suc, String, ◌⧺◌, Bool, true, false, not, ◌||◌, Option, none, some, List, [], ◌∷◌, ltb,
  nat_eq, chars, utf8_size, nonempty, strip, before_last, if◌then◌else◌,
}
use Prim.Native.Char.{code}
use decision_os_min.Py.Exc.{Exc, ok, raise}
use decision_os_min.Py.Runtime.{Runtime}
use decision_os_min.SpentStore.{SpentStore}
use decision_os_min.Execute.{AuditSink}
use decision_os_min.Sealed.{LegitimacyPolicy}
use decision_os_min.Host.Intents.{max_ipc_frame_bytes}
use decision_os_min.Host.Handle.{AgentHost, HostReading}
use decision_os_min.Host.Line.{handle_ipc_line}

abbrev at_newline : Bool → String × String → String × String → String × String
at_newline true stop more = stop
at_newline false stop more = more

-- `stdin.readline(n)`: the line that was read, and what is left
unfoldable pub read_line : ℕ → String → String × String
read_line zero s = (String.[], s)
read_line (suc n) String.[] = (String.[], String.[])
read_line (suc n) (String.◌∷◌ c s) =
    if nat_eq (code c) 10
    then (String.◌∷◌ c String.[], s)
    else (let (line, rest) = read_line n s in (String.◌∷◌ c line, rest))

abbrev is_present : Option String → Bool
is_present none = false
is_present (some _) = true

-- `line.endswith("\n")`
abbrev pub ends_line : String → Bool
ends_line line = is_present (before_last 10 line)

abbrev pub frame_chars : ℕ
frame_chars = suc max_ipc_frame_bytes

-- The rest of a frame that is too large: read on until a line's end, or the input's. On fuel.
unfoldable pub drain : ℕ → String → String → Option String
drain zero line rest = none
drain (suc n) line rest =
    let (more, left) = read_line frame_chars rest in
    let further = drain n more left in
    if not (nonempty line) || ends_line line then some rest else further

unfoldable pub repeat : ℕ → String → String
repeat zero s = ""
repeat (suc n) s = s ⧺ repeat n s

module _ (S : SpentStore) (A : AuditSink) where
  -- How the loop ends: normally or with an exception, the lines that it wrote, and the host.
  abbrev pub Served : Type 0
  Served = Exc (Unit {0}) × List String × AgentHost S A

  abbrev pub Turn : Type 0
  Turn = ℕ → String → AgentHost S A → Option Served

  abbrev pub writing : String → Option Served → Option Served
  writing line none = none
  writing line (some (end, lines, h)) = some (end, line ∷ lines, h)

  -- the answer is written, and the loop goes on
  unfoldable pub answered : Turn → ℕ → String → Exc String × AgentHost S A → Option Served
  answered next k rest (raise e, h) = some (raise e, [], h)
  answered next k rest (ok line, h) = writing (line ⧺ "\n") (next (suc k) rest h)

  abbrev pub oversized : String
  oversized = repeat frame_chars "x"

  unfoldable pub after_drain :
      Runtime
      → LegitimacyPolicy
      → (ℕ → HostReading)
      → Turn
      → ℕ
      → Option String
      → AgentHost S A
      → Option Served
  after_drain R policy readings next k none h = none
  after_drain R policy readings next k (some rest) h =
      answered next k rest (handle_ipc_line S A R policy (readings k) oversized h)

  -- One turn of the loop, at the line that was read.
  unfoldable pub turn :
      Runtime
      → LegitimacyPolicy
      → (ℕ → HostReading)
      → Turn
      → ℕ
      → String × String
      → AgentHost S A
      → Option Served
  turn R policy readings next k (line, rest) h =
      if not (nonempty line)
      then some (ok tt, [], h)
      else if ltb max_ipc_frame_bytes (utf8_size line)
      then after_drain R policy readings next k (drain (suc (suc (chars rest))) line rest) h
      else if not (nonempty (strip line))
      then next k rest h
      else answered next k rest (handle_ipc_line S A R policy (readings k) (strip line) h)

  -- `serve_stdio`, on fuel; the readings are taken one for each frame.
  unfoldable pub serve : ℕ → Runtime → LegitimacyPolicy → (ℕ → HostReading) → Turn
  serve zero R policy readings k input h = none
  serve (suc n) R policy readings k input h =
      turn R policy readings (serve n R policy readings) k (read_line frame_chars input) h
