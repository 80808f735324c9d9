-- ===== src/AuthorityPdp/Cedar.antt =====
-- authority_pdp.py: `CedarCLIAuthorityPDP`, the adapter for the command line of Cedar. The file system
-- and the processes are parameters.
use decision_os_min.Prelude.{
  ℕ, String, ◌⧺◌, Bool, true, false, not, ◌||◌, Option, none, some, List, [], ◌∷◌, ◌++◌, split,
  prefix_of, strip, ltb, nat_eq, ◌==◌, Table, if◌then◌else◌,
}
use decision_os_min.Py.{Value, Dict, ℤ, get, get_default, get_or_else}
use decision_os_min.Py.Exc.{Exc, ok, Exn, ◌>>◌, raise_if}
use decision_os_min.Py.Runtime.{Runtime}
use decision_os_min.Py.Plugin.{Ran, returned, raised, based, closed, silent, after_call, unguarded}
use decision_os_min.Compose.{allow, deny, text}
use decision_os_min.AuthorityPdp.Defs.{AuthorityPdp, Output, plain_bounded, max_reason_chars}
use decision_os_min.AuthorityPdp.Opa.{pdp_error, present}

pub record Completed : Type 0 where
  pub returncode : ℤ
  pub stdout : String
  pub stderr : String

-- Whether a path is a file; `json.dumps` of a value, `none` where it raises `TypeError`, and of a
-- text; and a process with a command, the text of its request file, and a time.
pub record Cli : Type 0 where
  pub is_file : String → Bool
  pub dumps : Value → Option String
  pub dumps_text : String → String
  pub run : List String → Option String → String → Ran Completed

pub record Cedar : Type 0 where
  pub cedar_bin : String
  pub policies : String
  pub entities : String
  pub schema : Option String
  pub policy_revision : String
  pub timeout : String
  pub principal_type : String
  pub resource_type : String
  pub default_resource : String
  pub context_map : Table String
  pub max_output_chars : ℕ

-- the check of one path
abbrev require_file : Cli → String → Exc (Unit {0})
require_file C path = raise_if (not (C.is_file path)) (Exn.foreign "FileNotFoundError" path)

abbrev require_schema : Cli → Option String → Exc (Unit {0})
require_schema C none = ok tt
require_schema C (some path) = require_file C path

abbrev or_purpose : Table String → Table String
or_purpose [] = ("purpose", "action_purpose") ∷ []
or_purpose (e ∷ es) = e ∷ es

-- `__init__`, of the fields as they are given
unfoldable pub init : Runtime → Cli → Bool → Value → Cedar → Exc Cedar
init R C timeout_is_positive policy_revision c = do
  raise_if (not timeout_is_positive || ltb c.max_output_chars 1) Exn.value_error
  require_file C c.policies
  require_file C c.entities
  require_schema C c.schema
  ok (record c {
    policy_revision = plain_bounded R policy_revision "unknown" 256;
    context_map = or_purpose c.context_map;
  })

-- `_uid`
abbrev uid : Cli → String → String → String
uid C entity_type entity_id = entity_type ⧺ "::" ⧺ C.dumps_text entity_id

-- `_lookup`, along the parts of a dotted name
unfoldable pub lookup_parts : String → List String → Value → Ran Value
lookup_parts dotted [] current = returned current
lookup_parts dotted (part ∷ parts) (Value.dict d) = elim (get part d) [
  | none ↦ pdp_error ("Cedar context source missing: " ⧺ dotted)
  | some v ↦ lookup_parts dotted parts v
]
lookup_parts dotted (part ∷ parts) _ = pdp_error ("Cedar context source missing: " ⧺ dotted)

unfoldable pub context_of : Table String → Dict → Ran Dict
context_of [] action = returned Dict.end
context_of ((target, source) ∷ sources) action =
    after_call (lookup_parts source (split 46 source) (Value.dict action))
      λ v. after_call (context_of sources action) λ rest. returned (Dict.entry target v rest)

unfoldable pub request_of : Runtime → Cli → Cedar → Dict → Dict → Dict
request_of R C c action context =
    Dict.entry "principal"
      (Value.str (uid C c.principal_type (text R (get_default "actor" (Value.str "") action))))
      (Dict.entry "action"
        (Value.str (uid C "Action" (text R (get_default "tool" (Value.str "") action))))
        (Dict.entry "resource"
          (Value.str (
            uid C c.resource_type
              (text R (get_or_else "resource" (Value.str c.default_resource) action))))
          (Dict.entry "context" (Value.dict context) Dict.end)))

abbrev with_schema : Option String → List String → List String
with_schema none command = command
with_schema (some path) command = command ++ "--schema" ∷ path ∷ []

-- the command, with the path of the request file
unfoldable pub command : Cedar → String → List String
command c request_path = with_schema c.schema (
    c.cedar_bin ∷ "authorize" ∷ "--policies" ∷ c.policies ∷ "--entities" ∷ c.entities
    ∷ "--request-json" ∷ request_path ∷ [])

abbrev cedar_output : Cedar → Completed → String
cedar_output c done = prefix_of c.max_output_chars (done.stdout ⧺ "\n" ⧺ done.stderr)

-- The exit status: 0 permits, 2 denies, and any other is an error.
unfoldable pub judged : Runtime → Cedar → Completed → Ran Output
judged R c done = elim done.returncode [
  | ℤ.pos n ↦
      if nat_eq n 0
      then returned (Output.result (Value.str allow) (Value.str "Cedar permit"))
      else if nat_eq n 2
      then returned (Output.result (Value.str deny) (Value.str "Cedar deny"))
      else pdp_error
          ("Cedar CLI failure (" ⧺ R.show (Value.int (ℤ.pos n)) ⧺ "): " ⧺ cedar_output c done)
  | ℤ.negsuc n ↦
      pdp_error
        ("Cedar CLI failure (" ⧺ R.show (Value.int (ℤ.negsuc n)) ⧺ "): " ⧺ cedar_output c done)
]

-- The process, with its time bound as the error that it becomes.
unfoldable pub completed : Ran Completed → Ran Completed
completed (returned done) = returned done
completed (raised c t) =
    if c == "TimeoutExpired" then pdp_error "Cedar CLI timed out" else raised c t
completed (based c t) = based c t
completed closed = closed
completed silent = silent

-- `evaluate`, at the path of the request file
unfoldable pub evaluate : Runtime → Cli → String → Cedar → Dict → Ran Output
evaluate R C request_path c action = after_call (context_of c.context_map action) λ context.
    after_call (present R "TypeError" (C.dumps (Value.dict (request_of R C c action context))))
      λ request.
        after_call (completed (C.run (command c request_path) (some request) c.timeout))
          λ done. judged R c done

unfoldable pub provider : Runtime → Cli → String → Cedar → AuthorityPdp
provider R C request_path c = record {
  name = returned (Value.str "cedar");
  policy_revision = returned (Value.str c.policy_revision);
  evaluate = evaluate R C request_path c;
}

abbrev is_success : ℤ → Bool
is_success (ℤ.pos n) = nat_eq n 0
is_success (ℤ.negsuc n) = false

unfoldable pub health_of : Runtime → (String → Bool) → Ran Completed → Exc (Bool × String)
health_of R caught (returned done) = ok (
    if is_success done.returncode
    then (true, prefix_of 256 (strip done.stdout))
    else (false, "Cedar version check failed: " ⧺ R.show (Value.int done.returncode)))
health_of R caught (raised c t) =
    if caught c
    then ok (false, prefix_of max_reason_chars ("Cedar unavailable: " ⧺ t))
    else unguarded (raised c t)
health_of R caught (based c t) = unguarded (based c t)
health_of R caught closed = unguarded closed
health_of R caught silent = unguarded silent

-- `healthcheck`, at the classes that are an `OSError` or a `TimeoutExpired`
unfoldable pub healthcheck : Runtime → Cli → (String → Bool) → Cedar → Exc (Bool × String)
healthcheck R C caught c =
    health_of R caught (C.run (c.cedar_bin ∷ "--version" ∷ []) none c.timeout)
