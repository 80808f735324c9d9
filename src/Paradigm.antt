-- ===== src/Paradigm.antt =====
-- decision_os_min/paradigm.py: the pipeline of the two questions, legitimacy and authority.
pub mod Perpendicular
use decision_os_min.Prelude.{ℕ, Option, none, some, List, [], ◌∷◌, Table}
use decision_os_min.Py.{Value, Dict}
use decision_os_min.Py.Exc.{Exc}
use decision_os_min.Py.Runtime.{Runtime}
use decision_os_min.Py.Plugin.{Ran}
use decision_os_min.Evaluators.{Evaluator, legitimacy}
use decision_os_min.Kernel.{Moment, Request}
use decision_os_min.SpentStore.{SpentStore}
use decision_os_min.Execute.{AuditSink, Tool}
use decision_os_min.System.{DecisionOs, Outcome, handle}

-- A policy may only deny: whether the action is legitimate, and the reason.
abbrev pub Policy : Type 0
Policy = Dict → Ran (Value × Value)

abbrev pub evaluators_of : Option Policy → List Evaluator
evaluators_of none = []
evaluators_of (some policy) = legitimacy policy ∷ []

abbrev pub pipeline_request : Option Policy → Request
pipeline_request policy = record {
  threat_class = none;
  advisor = none;
  evaluators = evaluators_of policy;
  evaluator_timeout = none;
  authority_timeout = none;
}

-- `LegitimacyAuthorityPipeline.handle`
unfoldable pub pipeline_handle :
    (S : SpentStore) (A : AuditSink)
    → Runtime
    → Option Policy
    → Moment
    → ℕ
    → Dict
    → Table Tool
    → DecisionOs S A
    → Exc Outcome × DecisionOs S A
pipeline_handle S A R policy m now action tools s =
    handle S A R m (pipeline_request policy) now action tools s
