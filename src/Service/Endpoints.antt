-- ===== src/Service/Endpoints.antt =====
-- service.py: `create_app` and POST /v1/decide. What they share, the kernel, the log and the counters, is
-- the service's state. A log is anything that writes a line and says its number; `HashLog` is one.
use decision_os_min.Prelude.{
  ℕ, ◌+◌, String, ◌⧺◌, Bool, false, Option, none, some, List, [], ◌∷◌, nonempty, strip, contains,
  Table, find, find?, store,
}
use decision_os_min.Py.{Value, Dict, of_texts}
use decision_os_min.Py.Exc.{Exc, ok, raise, Exn, ◌>>=◌}
use decision_os_min.Py.Runtime.{Runtime}
use decision_os_min.Compose.{text}
use decision_os_min.AuthorityPdp.Opa.{Web, Seconds}
use decision_os_min.AuthorityPdp.Cedar.{Cli}
use decision_os_min.Kernel.{Kernel, Moment, Request, Ruling, init, decide}
use decision_os_min.Execute.{AuditLine, field}
use decision_os_min.Audit
use decision_os_min.Service.Config.{
  Environ, Libs, load_policy, env_timeout, load_authority_pdp, adapter_pdp,
}

-- What the handlers need of the log: `record`, at the time of its entry, with the entry's number.
pub record Recorder : Type 1 where
  pub State : Type 0
  pub write : ℕ → AuditLine → State → Exc Value × State

-- A `HashLog`, and how its next writes end: well, where nothing is said of them.
pub record LogFile : Type 0 where
  pub log : Audit.HashLog
  pub disk : List Audit.Write

abbrev pub next_write : List Audit.Write → Audit.Write × List Audit.Write
next_write [] = (Audit.flushed, [])
next_write (w ∷ ws) = (w, ws)

abbrev pub numbered : Exc Dict × Audit.HashLog → List Audit.Write → Exc Value × LogFile
numbered (ok row, log) disk = (field "seq" row, record { log = log; disk = disk })
numbered (raise e, log) disk = (raise e, record { log = log; disk = disk })

-- `HashLog` without an anchor
abbrev pub hash_log : Runtime → (Value → Option String) → Recorder
hash_log R dump_line = record {
  State = LogFile;
  write = λ now line s.
      let (w, disk) = next_write s.disk in
      numbered (Audit.append_entry R dump_line none w now line s.log) disk;
}

pub record App (A : Recorder) : Type 0 where
  pub kernel : Kernel
  pub log : A.State
  pub metrics : Table ℕ
  pub expose_audit : Bool
  pub key_persisted : Bool

abbrev seconds_text : Option Seconds → Option String
seconds_text none = none
seconds_text (some t) = some t.text

abbrev is_named : Option String → Bool
is_named none = false
is_named (some path) = nonempty path

-- `create_app`, at the signing key that the key file gives, the graph's root key, the path of Cedar's
-- request file and the log that was opened
unfoldable pub create_app :
    (A : Recorder)
    → Runtime
    → Web
    → Cli
    → Libs
    → Environ
    → Exc String
    → String
    → String
    → Exc A.State
    → Exc (App A)
create_app A R W C L env key root_key path opened = do
  timeout ← env_timeout L env "DECISION_OS_EVALUATOR_TIMEOUT_S"
  authority_timeout ← env_timeout L env "DECISION_OS_AUTHORITY_TIMEOUT_S"
  adapter ← load_authority_pdp R W C L env
  policy ← load_policy L env
  signing ← key
  log ← opened
  ok (record {
    kernel =
        init policy signing root_key (seconds_text timeout) (adapter_pdp R W C path adapter)
          (seconds_text authority_timeout);
    log = log;
    metrics = [];
    expose_audit =
        contains (L.lower (strip (find "" "DECISION_OS_EXPOSE_AUDIT" env)))
          ("1" ∷ "true" ∷ "yes" ∷ "on" ∷ []);
    key_persisted = is_named (find? "DECISION_OS_KEY_FILE" env);
  })

pub record ActionIn : Type 0 where
  pub actor : String
  pub tool : String
  pub capability : Option String
  pub action_purpose : Option String
  pub data_labels : List String
  pub payload : Dict
  pub nonce : Option String
  pub threat_class : Option String

abbrev entry_if : String → Option String → Dict → Dict
entry_if k none d = d
entry_if k (some s) d = Dict.entry k (Value.str s) d

-- `model_dump(exclude_none=True)`, without the threat class that is then taken out
unfoldable pub dumped : ActionIn → Dict
dumped a = Dict.entry "actor" (Value.str a.actor) (
    Dict.entry "tool" (Value.str a.tool) (
      entry_if "capability" a.capability (
        entry_if "action_purpose" a.action_purpose (
          Dict.entry "data_labels" (Value.list (of_texts a.data_labels))
            (Dict.entry "payload" (Value.dict a.payload) (entry_if "nonce" a.nonce Dict.end))))))

abbrev pub request_for : ActionIn → Request
request_for a = record {
  threat_class = a.threat_class;
  advisor = none;
  evaluators = [];
  evaluator_timeout = none;
  authority_timeout = none;
}

-- What a handler answers: a value, an `HTTPException` by its status and detail, or an error that it
-- does not catch.
pub data Response (B : Type 0) : Type 0 where
  answered : B → Response B
  http_error : ℕ → String → Response B
  failed : Exn → Response B

pub record DecisionOut : Type 0 where
  pub decision : Dict
  pub signature : String
  pub token : Option Dict
  pub audit_seq : Value

-- `metrics[verdict] += 1`
unfoldable pub count : String → Table ℕ → Table ℕ
count verdict metrics = store verdict (find 0 verdict metrics + 1) metrics

unfoldable pub decision_out : Ruling → Value → DecisionOut
decision_out ruling seq = record {
  decision = ruling.decision;
  signature = ruling.signature;
  token = ruling.token;
  audit_seq = seq;
}

-- After the line: a sink that cannot write is answered by 503.
unfoldable pub after_line :
    {A : Recorder} → App A → Ruling → String → Exc Value × A.State → Response DecisionOut × App A
after_line s ruling verdict (ok seq, log) =
    (answered (decision_out ruling seq), record s { log = log; metrics = count verdict s.metrics })
after_line s ruling verdict (raise (Exn.os_error e), log) =
    (http_error 503 ("audit sink unavailable: " ⧺ e), record s { log = log })
after_line s ruling verdict (raise e, log) = (failed e, record s { log = log })

-- the line of a ruling, on the tool that the caller named
unfoldable pub line_of : ActionIn → Value → Value → AuditLine
line_of a verdict reason = record {
  actor = Value.str a.actor;
  tool = a.tool;
  verdict = verdict;
  reason = reason;
  executed = none;
  payload_digest = none;
}

-- the fields of a ruling that the line names
unfoldable pub verdict_and_reason : Dict → Exc (Value × Value)
verdict_and_reason d = do
  verdict ← field "verdict" d
  reason ← field "reason" d
  ok (verdict, reason)

unfoldable pub after_ruling :
    (A : Recorder)
    → Runtime
    → ℕ
    → ActionIn
    → App A
    → Ruling
    → Exc (Value × Value)
    → Response DecisionOut × App A
after_ruling A R now a s ruling (raise e) = (failed e, s)
after_ruling A R now a s ruling (ok (verdict, reason)) =
    after_line s ruling (text R verdict) (A.write now (line_of a verdict reason) s.log)

unfoldable pub settle :
    (A : Recorder) → Runtime → ℕ → ActionIn → App A → Exc Ruling → Response DecisionOut × App A
settle A R now a s (raise e) = (failed e, s)
settle A R now a s (ok ruling) =
    after_ruling A R now a s ruling (verdict_and_reason ruling.decision)

-- `POST /v1/decide`, at the moment of the ruling and the time of the line
unfoldable pub post_decide :
    (A : Recorder) → Runtime → Moment → ℕ → ActionIn → App A → Response DecisionOut × App A
post_decide A R m now a s = settle A R now a s (decide R s.kernel m (request_for a) (dumped a))
