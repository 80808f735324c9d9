-- ===== src/Tests/Serving.antt =====
-- The service, a log that is opened again, and a key file, at concrete inputs.
use decision_os_min.Prelude.{
  ◌≡◌, refl, ◌⊎◌, true, false, Bool, none, some, Option, List, [], ◌∷◌, String, Table, find?, store,
  find?-store, eq_refl,
}
use decision_os_min.Py.{Value, Dict}
use decision_os_min.Py.Exc.{Exc, ok, raise, Exn}
use decision_os_min.Kernel.{verify, init}
use decision_os_min.Kernel.Access.{
  KeyFiles, KeepsKeys, PrivateKey, expected_ed25519, load_or_create_signing_key, public_key_hex,
  decide-verifies_later,
}
use decision_os_min.Audit
use decision_os_min.Audit.Reopen.{as_opened, open_log, open_log-append_entry}
use decision_os_min.Service.{hash_log, App, ActionIn, post_decide}
use decision_os_min.Service.Recorded.{IsRecorded, IsWithheld, post_decide-Handled}
use decision_os_min.Service.Counted.{Call, serve, IsNumbered, total, serve-IsNumbered}
use decision_os_min.Tests.Fixtures.{
  plain, search_kernel, moment, request, search_action, search_ruling,
}
use decision_os_min.Tests.Executor.{search_ruled}
use decision_os_min.Tests.Logs.{
  rereading, dump_row, refused_line, empty_log, reads_row, empty_log-IsIntact,
}

abbrev refuse_value : Value → Exc Value
refuse_value v = raise Exn.type_error

open_log-append_entry_example :
    open_log rereading refuse_value (
      some
        (Audit.append_entry rereading dump_row none Audit.flushed 0 refused_line empty_log).1.lines)
    ≡ ok (
        as_opened
          (Audit.append_entry rereading dump_row none Audit.flushed 0 refused_line empty_log).1)
open_log-append_entry_example =
    open_log-append_entry rereading refuse_value dump_row none 0 refused_line empty_log "row"
      empty_log-IsIntact refl reads_row

abbrev search_in : ActionIn
search_in = record {
  actor = "bot";
  tool = "search";
  capability = none;
  action_purpose = none;
  data_labels = [];
  payload = Dict.entry "q" (Value.str "rates") Dict.end;
  nonce = none;
  threat_class = none;
}

-- a service that has answered nothing
abbrev service : App (hash_log plain dump_row)
service = record {
  kernel = search_kernel;
  log = record { log = empty_log; disk = Audit.flushed ∷ Audit.broken "disk full" 3 ∷ [] };
  metrics = [];
  expose_audit = false;
  key_persisted = true;
}

post_decide-Handled_example :
    IsRecorded
      (hash_log plain dump_row)
      plain
      moment
      5
      search_in
      service
      (post_decide (hash_log plain dump_row) plain moment 5 search_in service).0
      (post_decide (hash_log plain dump_row) plain moment 5 search_in service).1
    ⊎ IsWithheld
        (hash_log plain dump_row)
        plain
        moment
        5
        search_in
        service
        (post_decide (hash_log plain dump_row) plain moment 5 search_in service).0
        (post_decide (hash_log plain dump_row) plain moment 5 search_in service).1
post_decide-Handled_example =
    post_decide-Handled (hash_log plain dump_row) plain moment 5 search_in service

abbrev search_calls : List Call
search_calls =
    record { moment = moment; now = 5; action = search_in }
    ∷ record { moment = moment; now = 6; action = search_in }
    ∷ []

serve-IsNumbered_example :
    IsNumbered
      (serve (hash_log plain dump_row) plain search_calls service).0
      0
      (total [])
      (serve (hash_log plain dump_row) plain search_calls service).1.log.log.seq
      (total (serve (hash_log plain dump_row) plain search_calls service).1.metrics)
serve-IsNumbered_example = serve-IsNumbered plain dump_row search_calls service

-- key files as a table from paths to keys
abbrev or_missing : Option String → Exc PrivateKey
or_missing none = raise (Exn.os_error "missing")
or_missing (some key) = ok (PrivateKey.ed25519 key)

abbrev is_there : Option String → Bool
is_there none = false
is_there (some _) = true

abbrev key_table : KeyFiles
key_table = record {
  State = Table String;
  is_file = λ path s. is_there (find? path s);
  load = λ path s. or_missing (find? path s);
  save = λ path key s. (ok tt, store path key s);
}

found_again : (path key : String) (s : Table String) → find? path (store path key s) ≡ some key
found_again path key s = rw (find?-store path path key s, eq_refl path) refl

key_table-KeepsKeys : KeepsKeys key_table
key_table-KeepsKeys = record {
  is_there = λ path key s h. rw (found_again path key s) refl;
  is_same = λ path key s h. rw (found_again path key s) refl;
}

started :
    ((load_or_create_signing_key key_table (some "key.pem") "key" []).0 ≡ ok "key")
    × ((load_or_create_signing_key key_table
          (some "key.pem")
          "other"
          (load_or_create_signing_key key_table (some "key.pem") "key" []).1).0
        ≡ ok "key")
unfolding load_or_create_signing_key expected_ed25519 find? store
started = (refl, refl)

decide-verifies_later_example :
    verify plain search_ruling.decision search_ruling.signature (public_key_hex plain search_kernel)
    ≡ true
unfolding init
decide-verifies_later_example =
    decide-verifies_later key_table plain "key.pem" "key" "other" [] search_kernel search_kernel
      moment request search_action search_ruling key_table-KeepsKeys
      (λ key text. eq_refl (plain.sign key text)) refl started.0 started.1 search_ruled
