-- ===== src/Sealed/Armed.antt =====
-- `_SealedExecutor`: an executor that runs once for each time that `invoke` arms it.
use decision_os_min.Prelude.{
  ℕ, String, Bool, true, false, not, ◌&&◌, Option, none, some, [], ◌∷◌, ◌==◌, nat_eq, Table, find?,
}
use decision_os_min.Py.{Value, Dict, get}
use decision_os_min.Py.Exc.{Exc, ok, raise, Exn, ◌>>◌, raise_if}
use decision_os_min.Py.Runtime.{Runtime}
use decision_os_min.SpentStore.{SpentStore}
use decision_os_min.Execute.{AuditSink, Tool, Presented, State, is_text, execute}
use decision_os_min.Sealed.ToolRegistry.{Callable}

-- What the executor is armed with: the binding of the action, and the tools.
pub record Arm : Type 0 where
  pub binding : String
  pub tools : Table Callable

unfoldable pub same_names : Table Callable → Table Callable → Bool
same_names [] [] = true
same_names ((a, _) ∷ s) ((b, _) ∷ t) = (a == b) && same_names s t
same_names _ _ = false

abbrev is_same : Option Callable → Callable → Bool
is_same none fn = false
is_same (some g) fn = nat_eq g.identity fn.identity

-- `tools.get(name) is fn` for every tool that was armed
unfoldable pub same_callables : Table Callable → Table Callable → Bool
same_callables tools [] = true
same_callables tools ((name, fn) ∷ armed) =
    is_same (find? name tools) fn && same_callables tools armed

abbrev is_bound : Value → String → Bool
is_bound (Value.dict d) binding = is_text (get "action_binding" d) binding
is_bound _ binding = false

unfoldable pub check_arm : Option Arm → Presented → Table Callable → Exc (Unit {0})
check_arm none p tools =
    raise (Exn.execution_refused "sealed executor: not armed by invoke (fail-closed)")
check_arm (some arm) p tools = do
  raise_if (not (is_bound p.decision arm.binding))
      (Exn.execution_refused "sealed executor: arm binding mismatch")
  raise_if (not (same_names tools arm.tools))
      (Exn.execution_refused "sealed executor: tool map not armed")
  raise_if (not (same_callables tools arm.tools))
      (Exn.execution_refused "sealed executor: tool callable substitution")

-- the tools as the executor calls them
unfoldable pub tool_table : Table Callable → Table Tool
tool_table [] = []
tool_table ((name, fn) ∷ tools) = (name, fn.body) ∷ tool_table tools

module _ (S : SpentStore) (A : AuditSink) where
  unfoldable pub execute_armed :
      Runtime
      → String
      → ℕ
      → Dict
      → Presented
      → Table Callable
      → Exc (Unit {0})
      → State S A
      → Exc Value × State S A
  execute_armed R key now action p tools (raise e) s = (raise e, s)
  execute_armed R key now action p tools (ok _) s =
      execute S A R key now action p (tool_table tools) s

  -- `execute`: the executor is disarmed first, whatever follows.
  unfoldable pub sealed_execute :
      Runtime
      → String
      → ℕ
      → Dict
      → Presented
      → Table Callable
      → Option Arm
      → State S A
      → Exc Value × Option Arm × State S A
  sealed_execute R key now action p tools arm s =
      let (out, s') = execute_armed R key now action p tools (check_arm arm p tools) s in
      (out, none, s')
