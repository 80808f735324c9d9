-- ===== src/Tests/Anchors.antt =====
-- A log of one entry against its anchor.
use decision_os_min.Prelude.{
  ℕ, ◌⧺◌, String, ◌≡◌, ◌⊎◌, refl, sym, ◌∙◌, true, false, Bool, Option, some, [], ◌∷◌, strip,
  strip_left, strip_right, is_space, arith,
}
use decision_os_min.Py.{Value, Dict, ℤ, put, get, without}
use decision_os_min.Py.Laws.{get-without}
use decision_os_min.Py.Exc.{Exc, ok, raise, Exn}
use decision_os_min.Py.Runtime.{Runtime}
use decision_os_min.Execute.{field, value_eq}
use decision_os_min.Audit
use decision_os_min.Audit.Anchor.{
  int_eq, int_of, head_of, last_entry, verify_against_anchor, current_head_on_disk, against,
}
use decision_os_min.Audit.Anchored.{HasEquality}
use decision_os_min.Audit.Unique.{
  PrintsPrevious, Collision, newest_first, verify_against_anchor_unique,
}
use decision_os_min.Tests.Fixtures.{reading}
use decision_os_min.Tests.Logs.{refused_line, empty_log}

abbrev same_ints : Value → Value → Bool
same_ints (Value.int m) (Value.int n) = int_eq m n
same_ints _ _ = false

abbrev text_of : Option Value → String
text_of (some (Value.str s)) = s
text_of _ = ""

abbrev previous_text : Value → String
previous_text (Value.dict d) = text_of (get "prev_hash" d)
previous_text _ = ""

abbrev reads_only_ints : Value → Exc ℤ
reads_only_ints v = raise Exn.value_error

-- A runtime that prints an entry by the hash before it, and reads a line as the one dict.
abbrev chained : Dict → Runtime
chained row = record (reading row) {
  same = same_ints;
  dumps = previous_text;
  sha256 = λ s. s ⧺ "#";
}

abbrev one_row : Dict
one_row =
    Audit.hashed (chained Dict.end) (Audit.unhashed (chained Dict.end) 0 refused_line empty_log)

abbrev one_hash : String
one_hash = Audit.genesis ⧺ "#"

abbrev one_line : Audit.HashLog
one_line = record { lines = "row" ∷ []; is_torn = false; seq = 1; last = one_hash }

abbrev spaced : Audit.HashLog
spaced = record { lines = "" ∷ "row" ∷ " " ∷ []; is_torn = false; seq = 1; last = one_hash }

abbrev anchored : Audit.HashLog → Exc (Bool × String)
anchored log = verify_against_anchor (chained one_row) reads_only_ints one_hash (some (ℤ.pos 0)) log

equal_numbers :
    (v : Value) (n : ℕ)
    → same_ints v (Value.int (ℤ.pos n)) ≡ true
    → int_of reads_only_ints v ≡ ok (ℤ.pos n)
unfolding int_of
equal_numbers (Value.int (ℤ.pos m)) n h = let m_is_n : m ≡ n = ground arith in rw m_is_n refl
equal_numbers (Value.int (ℤ.negsuc m)) n h = absurd cc
equal_numbers _ n h = absurd cc

has_equality : HasEquality (chained one_row) reads_only_ints
has_equality = record { same-text = equal_texts; same-number = equal_numbers }
  where
    equal_texts : (v : Value) (s : String) → same_ints v (Value.str s) ≡ true → v ≡ Value.str s
    equal_texts (Value.int z) s h = absurd cc
    equal_texts _ s h = absurd cc

previous_of :
    (d : Dict) (p : String)
    → field "prev_hash" d ≡ ok (Value.str p)
    → previous_text (Value.dict (without "entry_hash" d)) ≡ p
unfolding field
previous_of d p h = rw (get-without "prev_hash" "entry_hash" d) (ground arith)

prints_previous : PrintsPrevious (chained one_row)
prints_previous = record {
  prints_previous = λ d e p q h k same. sym (previous_of d p h) ∙ same ∙ previous_of e q k;
}

one_line_passes : (anchored one_line ≡ ok (true, "ok")) × (anchored spaced ≡ ok (true, "ok"))
unfolding verify_against_anchor Audit.verify Audit.walk Audit.link current_head_on_disk last_entry
    head_of int_of against field value_eq Audit.hashed Audit.unhashed Audit.entry_hash put get
    without strip strip_left strip_right is_space
one_line_passes = (refl, refl)

verify_against_anchor_unique_example :
    (newest_first (chained one_row) [] one_line.lines
      ≡ newest_first (chained one_row) [] spaced.lines)
    ⊎ Collision (chained one_row)
verify_against_anchor_unique_example =
    verify_against_anchor_unique (chained one_row) reads_only_ints one_hash (ℤ.pos 0) one_line
      spaced has_equality prints_previous one_line_passes.0 one_line_passes.1
