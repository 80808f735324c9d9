-- ===== src/Host/Client.antt =====
-- host.py and _agent_host_main.py: the agent's side of the channel, what starts the host, and the
-- demo host's policy. A process is a parameter: what is written to it, read from it, and done to it.
use decision_os_min.Prelude.{
  String, ◌⧺◌, Bool, true, false, not, ◌&&◌, ◌||◌, Option, none, some, List, [], ◌∷◌, nonempty,
  after_prefix, Table, find, find?, store, if◌then◌else◌,
}
use decision_os_min.Py.{Value, Items, Dict, get_default, get_or_else, truthy}
use decision_os_min.Py.Exc.{Exc, ok, raise, Exn, ◌>>=◌}
use decision_os_min.Py.Runtime.{Runtime}
use decision_os_min.Py.Plugin.{Ran, returned, raised}
use decision_os_min.Sealed.{LegitimacyPolicy, Callable}
use decision_os_min.Host.Intents.{Intent, to_wire}

-- A child process: a line to its input, a line of its output within a time, or none, and its end.
pub record Process : Type 1 where
  pub State : Type 0
  pub write : String → State → Exc (Unit {0}) × State
  pub read_within : String → State → Option String × State
  pub kill : State → State
  -- `wait(timeout=5)` of `close`, which is false where the time is over
  pub is_running : State → Bool
  pub terminate : State → State
  pub has_ended : State → Bool

pub record AgentClient (P : Process) : Type 0 where
  pub proc : P.State
  pub agent_id : String
  pub request_timeout : String

abbrev on : {P : Process} → AgentClient P → P.State → AgentClient P
on c s = record c { proc = s }

abbrev parsed : Option Value → Exc Value
parsed none = raise Exn.value_error
parsed (some v) = ok v

-- What a reply line is: one that does not come kills the host, and an empty one is the input's end.
unfoldable pub replied :
    {P : Process} → Runtime → AgentClient P → Option String × P.State → Exc Value × AgentClient P
replied {P} R c (none, s) =
    (raise (Exn.foreign "TimeoutError" "host IPC response timed out"), on c (P.kill s))
replied R c (some line, s) =
    if nonempty line
    then (parsed (R.loads line), on c s)
    else (raise (Exn.foreign "RuntimeError" "host closed IPC"), on c s)

unfoldable pub after_write :
    {P : Process} → Runtime → AgentClient P → Exc (Unit {0}) × P.State → Exc Value × AgentClient P
after_write R c (raise e, s) = (raise e, on c s)
after_write {P} R c (ok sent, s) = replied R c (P.read_within c.request_timeout s)

abbrev pub intent_of : {P : Process} → AgentClient P → String → Dict → String → String → Intent
intent_of c tool payload intent resource = record {
  agent_id = c.agent_id;
  tool = tool;
  payload = payload;
  intent = intent;
  resource = resource;
  request_id = "";
}

unfoldable pub sent :
    {P : Process} → Runtime → AgentClient P → Option String → Exc Value × AgentClient P
sent R c none = (raise Exn.type_error, c)
sent {P} R c (some message) = after_write R c (P.write (message ⧺ "\n") c.proc)

-- `AgentClient.request`, with `json.dumps` and the digits that `uuid4` gives
unfoldable pub request :
    {P : Process}
    → Runtime
    → (Value → Option String)
    → String
    → String
    → Dict
    → String
    → String
    → AgentClient P
    → Exc Value × AgentClient P
request R dumps digits tool payload intent resource c =
    sent R c (dumps (Value.dict (to_wire digits (intent_of c tool payload intent resource))))

-- `AgentClient.close`
unfoldable pub close : {P : Process} → AgentClient P → AgentClient P
close {P} c =
    let ended = P.terminate c.proc in
    if not (P.is_running c.proc)
    then c
    else if P.has_ended ended
    then on c ended
    else on c (P.kill ended)

abbrev updated : Table String → Table String → Table String
updated env [] = env
updated env ((k, v) ∷ more) = updated (store k v env) more

-- the environment that `spawn_host` gives the child, from its own, the caller's and the policy's text
unfoldable pub child_env :
    Table String → Table String → String → String → String → String → Table String
child_env own given agent_id actor stakeholder policy = store "DECISION_OS_HOST_POLICY" policy (
    store "DECISION_OS_HOST_STAKEHOLDER" stakeholder (
      store "DECISION_OS_HOST_ACTOR" actor
        (store "DECISION_OS_HOST_AGENT_ID" agent_id (updated own given))))

-- What `main` of the host reads of its environment; a missing one raises `KeyError`.
pub record Bootstrap : Type 0 where
  pub policy : Value
  pub agent_id : String
  pub actor : String
  pub stakeholder : String
  pub audit : String

abbrev required : Option String → Exc String
required none = raise Exn.key_error
required (some v) = ok v

abbrev or_default : String → String → String
or_default given fallback = if nonempty given then given else fallback

-- the first lines of `main`, at the path that the log has by default
unfoldable pub bootstrap : Runtime → String → Table String → Exc Bootstrap
bootstrap R default_audit env = do
  text ← required (find? "DECISION_OS_HOST_POLICY" env)
  policy ← parsed (R.loads text)
  agent_id ← required (find? "DECISION_OS_HOST_AGENT_ID" env)
  actor ← required (find? "DECISION_OS_HOST_ACTOR" env)
  stakeholder ← required (find? "DECISION_OS_HOST_STAKEHOLDER" env)
  ok (record {
    policy = policy;
    agent_id = agent_id;
    actor = actor;
    stakeholder = stakeholder;
    audit = or_default (find "" "DECISION_OS_HOST_AUDIT" env) default_audit;
  })

-- `locked_agent_docker_cmd`, at the image and the paths, resolved
unfoldable pub locked_agent_docker_cmd : String → String → String → String → List String
locked_agent_docker_cmd image agent lock seccomp =
    "docker"
    ∷ "run"
    ∷ "--rm"
    ∷ "-i"
    ∷ "--read-only"
    ∷ "--network=none"
    ∷ "--cap-drop=ALL"
    ∷ "--pids-limit=64"
    ∷ "--memory=128m"
    ∷ "--cpus=1.0"
    ∷ "--ulimit=nofile=64:64"
    ∷ "--security-opt=no-new-privileges"
    ∷ ("--security-opt=seccomp=" ⧺ seccomp)
    ∷ "--tmpfs"
    ∷ "/tmp:rw,noexec,nosuid,size=8m"
    ∷ "-v"
    ∷ (agent ⧺ ":/agent.py:ro")
    ∷ "-v"
    ∷ (lock ⧺ ":/lock_and_run.py:ro")
    ∷ image
    ∷ "python"
    ∷ "/lock_and_run.py"
    ∷ "/agent.py"
    ∷ []

-- What a name of a namespace is bound to.
pub record Bound : Type 0 where
  pub is_callable : Bool
  pub name : String

-- a name that is bound to a function
abbrev pub bound_to : Callable → Bound
bound_to fn = record { is_callable = true; name = fn.name }

abbrev is_prefixed : Option String → Bool
is_prefixed none = false
is_prefixed (some _) = true

-- `s.startswith(p)`
abbrev begins : String → String → Bool
begins p s = is_prefixed (after_prefix p s)

abbrev pub is_live : Option Bound → Bool
is_live none = false
is_live (some b) = b.is_callable && not (begins "host_only_" b.name || begins "poisoned_" b.name)

abbrev pub banned : List String
banned = "deploy_ranking" ∷ "set_price" ∷ "send_email" ∷ "wire_money" ∷ "httpx" ∷ "requests" ∷ []

unfoldable pub none_live : List String → Table Bound → Bool
none_live [] namespace = true
none_live (k ∷ ks) namespace =
    let rest = none_live ks namespace in if is_live (find? k namespace) then false else rest

-- `agent_has_no_effect_handles`
unfoldable pub agent_has_no_effect_handles : Table Bound → Bool
agent_has_no_effect_handles namespace = none_live banned namespace

-- the axioms of one text
abbrev one_axiom : String → Value
one_axiom s = Value.tuple (Items.cons (Value.str s) Items.nil)

abbrev is_set : String → Dict → Bool
is_set k d = truthy (get_default k Value.null d)

abbrev demo_ruling : Runtime → Value → Ran (Value × Value × Value)
demo_ruling R (Value.dict p) =
    if is_set "dark_pattern" p
    then returned (Value.boolean false, Value.str "C1: deceptive", one_axiom "C1")
    else if is_set "unresolved" p
    then returned (Value.null, Value.str "C6: defer", one_axiom "C6")
    else returned (Value.boolean true, Value.str "ok", Value.tuple Items.nil)
demo_ruling R _ = raised "AttributeError" (R.error_text "AttributeError")

-- `_legit`, the policy of the demo host
unfoldable pub demo_legitimacy : Runtime → LegitimacyPolicy
demo_legitimacy R action = demo_ruling R (get_or_else "payload" (Value.dict Dict.end) action)
