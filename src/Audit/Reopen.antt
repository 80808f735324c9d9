-- ===== src/Audit/Reopen.antt =====
-- audit.py: `HashLog.__init__`, which takes up a log where its file ends.
use decision_os_min.Prelude.{
  ℕ, ◌+◌, String, ◌≡◌, refl, Bool, true, false, ◌||◌, Option, none, some, List, [], ◌∷◌, ◌++◌,
  nonempty, strip, arith, inl, inr, Bool-cases, if◌then◌else◌,
}
use decision_os_min.Py.{Value, Dict, ℤ, get, put}
use decision_os_min.Py.Exc.{Exc, ok, raise, Exn, ◌>>=◌}
use decision_os_min.Py.Runtime.{Runtime}
use decision_os_min.Execute.{AuditLine, field}
use decision_os_min.Audit
use decision_os_min.Audit.Intact.{ReadsBack, IsIntact, joined-whole}
use decision_os_min.Audit.Anchor.{last_entry}
use decision_os_min.Audit.Anchored.{link-IsLinked, followed}

-- The file's lines and the fields of a log that was opened, of which a file may make other values
-- than a number and a text.
pub record Opened : Type 0 where
  pub lines : List String
  pub seq : Value
  pub last : Value

abbrev pub as_opened : Audit.HashLog → Opened
as_opened log = record {
  lines = log.lines;
  seq = Value.int (ℤ.pos log.seq);
  last = Value.str log.last;
}

-- `v + 1`, with what it is of a value that is no integer as an argument
unfoldable pub plus_one : (Value → Exc Value) → Value → Exc Value
plus_one other (Value.int (ℤ.pos n)) = ok (Value.int (ℤ.pos (n + 1)))
plus_one other (Value.int (ℤ.negsuc Prim.Native.Nat.zero)) = ok (Value.int (ℤ.pos 0))
plus_one other (Value.int (ℤ.negsuc (Prim.Native.Nat.suc n))) = ok (Value.int (ℤ.negsuc n))
plus_one other (Value.boolean false) = ok (Value.int (ℤ.pos 1))
plus_one other (Value.boolean true) = ok (Value.int (ℤ.pos 2))
plus_one other v = other v

-- whether a line of the file is not blank, as the file then is
unfoldable pub has_content : List String → Bool
has_content [] = false
has_content (line ∷ lines) = nonempty (strip line) || has_content lines

-- `last["seq"] + 1` and `last["entry_hash"]`
unfoldable pub continued : (Value → Exc Value) → List String → Value → Exc Opened
continued other lines (Value.dict d) = do
  seq ← field "seq" d
  next ← plus_one other seq
  own ← field "entry_hash" d
  ok (record { lines = lines; seq = next; last = own })
continued other lines _ = raise Exn.type_error

-- `HashLog.__init__` on a file that exists, or on none
unfoldable pub open_log : Runtime → (Value → Exc Value) → Option (List String) → Exc Opened
open_log R other none =
    ok (record { lines = []; seq = Value.int (ℤ.pos 0); last = Value.str Audit.genesis })
open_log R other (some lines) = do
  last ← last_entry R Value.null lines
  if has_content lines
      then continued other lines last
      else ok (record { lines = lines; seq = Value.int (ℤ.pos 0); last = Value.str Audit.genesis })

-- Every line of a chain loads, so that the last one is found behind it.
last_entry-append :
    (R : Runtime) (t : String) (row : Value) (i : ℕ) (prev found : Value) (lines : List String)
    (end : ℕ × Value)
    → Audit.walk R i prev lines ≡ ok (some end)
    → nonempty (strip t) ≡ true
    → R.loads t ≡ some row
    → last_entry R found (lines ++ t ∷ []) ≡ ok row
unfolding Audit.walk last_entry
last_entry-append R t row i prev found [] end h full loads = rw (full, loads) refl
last_entry-append R t row i prev found (line ∷ lines) end h full loads =
    elim (Bool-cases (nonempty (strip line))) [
      | inl e ↦
          let (own, linked, rest) =
            followed (Audit.link R i prev line) (λ own. Audit.walk R (i + 1) own lines) end
              (rw e at h) in
          let l = link-IsLinked R i prev line own linked in
          rw (e, l.is_read)
            (last_entry-append R t row (i + 1) own (Value.dict l.row) lines end rest full loads)
      | inr e ↦ rw e (last_entry-append R t row i prev found lines end (rw e at h) full loads)
    ]

has_content-append :
    (t : String) (lines : List String)
    → nonempty (strip t) ≡ true
    → has_content (lines ++ t ∷ []) ≡ true
unfolding has_content
has_content-append t [] full = rw full refl
has_content-append t (line ∷ lines) full = ground (arith, has_content-append t lines full)

-- Where an entry was written to an intact log and its line reads back as the entry, opening the file
-- again gives the log as it stood: its lines, its number and its hash.
pub open_log-append_entry :
    (R : Runtime) (other : Value → Exc Value) (dump_line : Value → Option String)
    (anchor : Option (ℕ → String → Exc (Unit {0}))) (now : ℕ) (line : AuditLine)
    (log : Audit.HashLog) (t : String)
    → IsIntact R log
    → dump_line (Value.dict (Audit.hashed R (Audit.unhashed R now line log))) ≡ some t
    → ReadsBack R dump_line (Audit.hashed R (Audit.unhashed R now line log))
    → open_log R other
        (some (Audit.append_entry R dump_line anchor Audit.flushed now line log).1.lines)
      ≡ ok (as_opened (Audit.append_entry R dump_line anchor Audit.flushed now line log).1)
unfolding open_log Audit.append_entry Audit.written Audit.unhashed
open_log-append_entry R other dump_line anchor now line log t I printed J =
    rw (printed, I.is_whole, joined-whole t log.lines) again
  where
    row : Dict
    row = Audit.hashed R (Audit.unhashed R now line log)

    resumed :
        continued other (log.lines ++ t ∷ []) (Value.dict row)
        ≡ ok (
            as_opened (record {
              lines = log.lines ++ t ∷ [];
              is_torn = false;
              seq = log.seq + 1;
              last = Audit.entry_hash R (Audit.unhashed R now line log);
            }))
    resumed = unfold continued plus_one field Audit.hashed Audit.unhashed put get in refl

    again :
        open_log R other (some (log.lines ++ t ∷ []))
        ≡ ok (
            as_opened (record {
              lines = log.lines ++ t ∷ [];
              is_torn = false;
              seq = log.seq + 1;
              last = Audit.entry_hash R (Audit.unhashed R now line log);
            }))
    again =
        let (loads, full) = J.reads_back t printed in
        rw
          (
            last_entry-append R t (Value.dict row) 0 (Value.str Audit.genesis) Value.null log.lines
                (log.seq, Value.str log.last) I.ends full loads,
            has_content-append t log.lines full,
          )
          resumed
