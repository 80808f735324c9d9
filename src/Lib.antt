-- ===== src/Lib.antt =====
-- A model of the core of decision-os-min, a kernel that rules on the actions of agents, and of the
-- executor that runs what it permits, with proofs.
--
-- The parts, and the files that model them:
-- - Compose (decision_os_min/compose.py): the verdicts ALLOW, LIMIT, CONTAIN, DEFER, DENY with
--   `_rank`, `normalize`, `meet`, `compose`, and `as_decision`, `sanitize`, `more_restrictive`, by
--   which an evaluator's output is folded into a decision.
-- - Evaluators (decision_os_min/evaluators.py): `legitimacy` and `authority`.
-- - Attenuation (decision_os_min/attenuation.py): Caveats has the readers of caveat texts, Graph the
--   `AuthorityGraph`: `grant`, `revoke`, `_mint`, `_verify_sig`, `_live_credentials`,
--   `_parent_authority`, `delegate`, `holds`; Granted is about the macaroon that `delegate` gives.
-- - AuthorityPdp (decision_os_min/authority_pdp.py): Defs has `canonicalize_authority_output` and
--   `evaluate_authority`, Builtin the `BuiltinAuthorityPDP`, whose graph is that of Attenuation, Opa
--   and Cedar the adapters `OPAHTTPAuthorityPDP` and `CedarCLIAuthorityPDP`.
-- - Kernel (decision_os_min/kernel.py): Fingerprint has `_strict_encode`, `action_fingerprint` and
--   `verify`, State the state, `grant`, `revoke` and `delegate`, Evaluate `_evaluate`, Decide the rest of
--   `decide`: the loop over the evaluators, the binding, the mint and the signature. Access has
--   `load_or_create_signing_key` and the accessors, Advice, Compared, Advised and Contained what a
--   threat class changes in a ruling.
-- - SpentStore (decision_os_min/spentstore.py): the protocol, and the stores in memory, in files and
--   in sqlite.
-- - Execute (decision_os_min/execute.py): `Executor`, with `_prepare` as the gates and the spend.
--   What tools do to the world is kept as the list of their calls.
-- - Audit (decision_os_min/audit.py): `HashLog`, with `record` as `append_entry`, `verify`,
--   and `verify_against_anchor`, with `int` of a text or a float as an argument; Reopen has
--   its `__init__` on a file that exists. How a write ends, with what it leaves in the file, is an
--   argument. The executor takes any audit sink.
-- - System (decision_os_min/__init__.py): `DecisionOS`, whose `handle` is `decide` and then `execute`.
-- - Sealed (decision_os_min/sealed.py): Admission has the tickets of `AdmissionOffice`, ToolRegistry
--   `seal` and `_assert_registry_integrity`, Legitimacy `tri_state_legitimacy`, Armed
--   `_SealedExecutor`, and Invoke `SealedRuntime` with `invoke` and `_emit`.
-- - Host (decision_os_min/host.py): Intents has `Intent` with `to_wire` and `from_wire`, Handle the
--   `AgentHost` with `handle_intent`, Line `handle_wire` and `handle_ipc_line`, Serve the loop
--   `serve_stdio` over a text as its input, Client the `AgentClient`, what `spawn_host` hands the
--   child, `_legit` and the environment of decision_os_min/_agent_host_main.py, the container command
--   and `agent_has_no_effect_handles`.
-- - Receipt (decision_os_min/interop_receipt.py): the check of a foreign receipt, with `json.dumps`
--   and the hash as parameters.
-- - Paradigm (decision_os_min/paradigm.py): `LegitimacyAuthorityPipeline.handle`.
-- - Govern (decision_os_min/govern.py): the wrapper that `Governor.tool` makes, and `wrap`.
-- - Plugins (decision_os_min/plugins.py and advisors.py): `risk_advisor` and `apply_context`, with
--   the operations on floats as parameters; Reference has the two reference plugins and
--   `simple_threat_advisor`.
-- - Service (decision_os_min/service.py): Config has the readers of the environment, Endpoints
--   `create_app` and POST /v1/decide, Queries the other handlers, over the kernel, the log and the counters that they share.
-- - Py: Python values, dicts, exceptions, times, and a record of what the program takes from the
--   standard library and from `cryptography` (JSON, SHA-256, HMAC, Ed25519, `datetime`); `prints` says
--   whether `json.dumps` raises not, which a signature of the kernel needs. The theorems
--   hold for every such record; a law of one that a theorem needs is among its hypotheses.
-- - Prelude: shared names, lists, texts and tables. Tests: runs at concrete inputs.
--
-- The kernel calls a provider and evaluators that it does not own. `Py.Plugin.Ran` is how such a call
-- can end: a value, an exception, another `BaseException`, `GeneratorExit`, or no answer in time.
-- `decide` gives a signed decision; `execute` takes it with the action, verifies it, spends its
-- token in a spent store, writes a line to an audit sink, and then calls the tool. An exception is
-- a value of `Py.Exc`, so that the state an operation leaves behind when it raises is in the model.
-- Clocks, `uuid4` and the random root key are arguments.
--
-- Every definition is total by structural recursion. Only `serve` and `drain` take fuel: the loop needs
-- more than the characters of its input, which is proved to be enough. A call of foreign code
-- without a time bound may not return, which is the value `hangs`.
--
-- Not modelled: the PEM text of a key, FastAPI and the HTTP server, the start of processes and
-- containers, the demo tools of the host's entry script, contracts.py, which declares types only, and
-- the scripts under bench, examples and sandbox. HTTP answers, files and the results of processes are
-- parameters. `str()` of a foreign object is taken not to raise. Deep copies are what a function's
-- argument is. Threads are not modelled: the calls of `try_spend`, and those of the service's
-- handlers, are taken one after the other.
pub mod Prelude
pub mod Py
pub mod Compose
pub mod Attenuation
pub mod Evaluators
pub mod AuthorityPdp
pub mod Kernel
pub mod SpentStore
pub mod Execute
pub mod Audit
pub mod System
pub mod Sealed
pub mod Host
pub mod Paradigm
pub mod Govern
pub mod Receipt
pub mod Plugins
pub mod Service
mod Tests
