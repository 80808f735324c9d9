-- ===== src/Audit.antt =====
-- decision_os_min/audit.py: the hash-chained log. The file is kept by its lines, and `json.dumps` of
-- an entry in the file's form, which sorts no keys, is a parameter.
pub mod Intact
pub mod Anchor
pub mod Anchored
pub mod Unique
pub mod Reopen
use decision_os_min.Prelude.{
  ℕ, zero, suc, ◌+◌, ◌⧺◌, prefix_of, chars, ltb, String, Bool, true, false, not, Option, none, some,
  List, [], ◌∷◌, ◌++◌, nonempty, strip, if◌then◌else◌,
}
use decision_os_min.Py.{Value, Dict, ℤ, put, without}
use decision_os_min.Py.Exc.{Exc, ok, raise, Exn, ◌>>=◌, ◌>>◌}
use decision_os_min.Py.Runtime.{Runtime}
use decision_os_min.Execute.{AuditLine, field, value_eq}

-- `GENESIS`
abbrev pub genesis : String
genesis = "0000000000000000000000000000000000000000000000000000000000000000"

-- A log: the lines of its file, whether the last one lacks its newline, and what is in memory.
pub record HashLog : Type 0 where
  pub lines : List String
  pub is_torn : Bool
  pub seq : ℕ
  pub last : String

-- `_hash`
unfoldable pub entry_hash : Runtime → Dict → String
entry_hash R row = R.sha256 (R.dumps (Value.dict (without "entry_hash" row)))

abbrev or_null : Option Bool → Value
or_null none = Value.null
or_null (some b) = Value.boolean b

abbrev text_or_null : Option String → Value
text_or_null none = Value.null
text_or_null (some s) = Value.str s

-- The entry of `record`, its hash apart.
unfoldable pub unhashed : Runtime → ℕ → AuditLine → HashLog → Dict
unhashed R now line log = Dict.entry "seq" (Value.int (ℤ.pos log.seq)) (
    Dict.entry "ts" (Value.str (R.isoformat now)) (
      Dict.entry "actor" line.actor (
        Dict.entry "tool" (Value.str line.tool) (
          Dict.entry "verdict" line.verdict (
            Dict.entry "reason" line.reason (
              Dict.entry "executed" (or_null line.executed) (
                Dict.entry "payload_digest" (text_or_null line.payload_digest)
                  (Dict.entry "prev_hash" (Value.str log.last) Dict.end))))))))

unfoldable pub hashed : Runtime → Dict → Dict
hashed R row = put "entry_hash" (Value.str (entry_hash R row)) row

-- How opening the file, `f.write`, `f.flush` and `os.fsync` end: well, or in an `OSError` by its text,
-- with so many characters of the line and its newline in the file.
pub data Write : Type 0 where
  flushed : Write
  broken : String → ℕ → Write

-- a text at the end of the file: on a line of its own, or behind the piece of a line
unfoldable pub joined : Bool → String → List String → List String
joined torn t [] = t ∷ []
joined torn t (line ∷ []) = if torn then (line ⧺ t) ∷ [] else line ∷ t ∷ []
joined torn t (line ∷ next ∷ lines) = line ∷ joined torn t (next ∷ lines)

-- what a broken write leaves of the line
unfoldable pub left_behind : String → ℕ → HashLog → HashLog
left_behind t zero log = log
left_behind t (suc n) log = record log {
  lines = joined log.is_torn (prefix_of (suc n) t) log.lines;
  is_torn = not (ltb (chars t) (suc n));
}

-- The line written, or the error: `_seq` and `_last` count on only behind the flush. Where
-- `json.dumps` raises, for the hash or for the file, there is no line, and nothing is written.
unfoldable pub written : Write → Dict → String → Option String → HashLog → Exc Dict × HashLog
unfolding joined
written w row digest none log = (raise Exn.type_error, log)
written flushed row digest (some t) log = (
  ok row,
  record {
    lines = joined log.is_torn t log.lines;
    is_torn = false;
    seq = log.seq + 1;
    last = digest;
  },
)
written (broken e n) row digest (some t) log = (raise (Exn.os_error e), left_behind t n log)

abbrev pub published : Option (ℕ → String → Exc (Unit {0})) → ℕ → String → Exc Dict → Exc Dict
published anchor n digest (raise e) = raise e
published none n digest (ok row) = ok row
published (some sink) n digest (ok row) = do sink n digest; ok row

-- `record`, with the optional anchor sink, at the way in which its write ends
unfoldable pub append_entry :
    Runtime
    → (Value → Option String)
    → Option (ℕ → String → Exc (Unit {0}))
    → Write
    → ℕ
    → AuditLine
    → HashLog
    → Exc Dict × HashLog
append_entry R dump_line anchor w now line log =
    let row = hashed R (unhashed R now line log) in
    let digest = entry_hash R (unhashed R now line log) in
    let (out, log') = written w row digest (dump_line (Value.dict row)) log in
    (published anchor log.seq digest out, log')

abbrev as_entry : Option Value → Exc Dict
as_entry none = raise Exn.value_error
as_entry (some (Value.dict d)) = ok d
as_entry (some _) = raise Exn.type_error

-- One line against the number and the hash that it must continue: its own hash, or `none`.
unfoldable pub link : Runtime → ℕ → Value → String → Exc (Option Value)
link R i prev line = do
  e ← as_entry (R.loads line)
  seq ← field "seq" e
  if not (value_eq R seq (Value.int (ℤ.pos i))) then ok none else (do
    before ← field "prev_hash" e
    if not (value_eq R before prev) then ok none else (do
      own ← field "entry_hash" e
      ok (if value_eq R own (Value.str (entry_hash R e)) then some own else none)))

abbrev pub follow {ℓ} : {A : Type ℓ} → (Value → Exc (Option A)) → Option Value → Exc (Option A)
follow next none = ok none
follow next (some own) = next own

-- The loop of `verify`: the number and the hash that the next entry must continue.
unfoldable pub walk : Runtime → ℕ → Value → List String → Exc (Option (ℕ × Value))
walk R i prev [] = ok (some (i, prev))
walk R i prev (line ∷ lines) =
    let skipped = walk R i prev lines in
    if nonempty (strip line)
    then link R i prev line >>= follow (λ own. walk R (i + 1) own lines)
    else skipped

abbrev is_walked : Option (ℕ × Value) → Bool
is_walked none = false
is_walked (some _) = true

-- `verify`
unfoldable pub verify : Runtime → HashLog → Exc Bool
verify R log = do end ← walk R 0 (Value.str genesis) log.lines; ok (is_walked end)
