-- ===== src/Tests/Logs.antt =====
-- The log at concrete inputs.
use decision_os_min.Prelude.{
  String, ◌≡◌, refl, true, false, Option, none, some, [], strip, strip_left, strip_right, is_space,
}
use decision_os_min.Py.{Value, Dict, put}
use decision_os_min.Py.Runtime.{Runtime}
use decision_os_min.Execute.{AuditLine}
use decision_os_min.Audit
use decision_os_min.Audit.Intact.{ReadsBack, IsIntact}
use decision_os_min.Tests.Fixtures.{plain, reading}

abbrev pub refused_line : AuditLine
refused_line = record {
  actor = Value.str "bot";
  tool = "search";
  verdict = Value.str "DENY";
  reason = Value.str "no grant";
  executed = some false;
  payload_digest = none;
}

abbrev pub empty_log : Audit.HashLog
empty_log = record { lines = []; is_torn = false; seq = 0; last = Audit.genesis }

abbrev first_row : Dict
first_row = Audit.hashed plain (Audit.unhashed plain 0 refused_line empty_log)

-- A runtime that reads a line back as the row, and in which all else is the same.
abbrev pub rereading : Runtime
rereading = record (reading first_row) { same = λ a b. true }

abbrev pub dump_row : Value → Option String
dump_row v = some "row"

pub reads_row :
    ReadsBack rereading dump_row
      (Audit.hashed rereading (Audit.unhashed rereading 0 refused_line empty_log))
unfolding strip strip_left strip_right is_space Audit.hashed Audit.unhashed Audit.entry_hash put
reads_row = record { reads_back = λ t e. (refl, rw (← line_of e) refl) }
  where
    line_of : {t : String} → ◌≡◌ {A = Option String} (some "row") (some t) → "row" ≡ t
    line_of e = cc

pub empty_log-IsIntact : IsIntact rereading empty_log
unfolding Audit.walk
empty_log-IsIntact = record { is_whole = refl; ends = refl }
