-- ===== src/Sealed/ToolRegistry.antt =====
-- The sealed registry: the public table holds inert functions, and each live body stands in a cell
-- with its identity. A callable is known by `id()`, its `__name__` and its body.
use decision_os_min.Prelude.{
  ℕ, String, ◌⧺◌, Bool, true, false, not, ◌||◌, Option, none, some, [], ◌∷◌, nat_eq, Table, find?,
  store, after_prefix, if◌then◌else◌,
}
use decision_os_min.Py.{Value, Dict}
use decision_os_min.Py.Exc.{Exc, ok, raise, Exn, ◌>>=◌, ◌>>◌, raise_if}
use decision_os_min.Py.Runtime.{Runtime}
use decision_os_min.Py.Plugin.{Ran, raised}

pub record Callable : Type 0 where
  pub identity : ℕ
  pub name : String
  pub body : Dict → Ran Value

-- `_BodyCell`, with the identity that it recorded, or what may have been put in its place.
pub data Cell : Type 0 where
  cell : Callable → ℕ → Cell
  other : Cell

-- The fields of `SealedRuntime` that `seal` writes. Code in the same process may write them too.
pub record Registry : Type 0 where
  pub tools : Table Callable
  pub bodies : Table Cell
  pub tool_ids : Table ℕ
  pub source : Option (Table Callable)
  pub frozen : Bool

-- `poison`, at the identity that the new function has
unfoldable pub poison : Runtime → ℕ → String → Callable
poison R identity name = record {
  identity = identity;
  name = "poisoned_" ⧺ name;
  body = λ payload.
      raised "SealedBreach" (
        "tool "
        ⧺ R.repr (Value.str name)
        ⧺ " sealed: direct call is non-executable (PEP required)");
}

-- the inert function that `seal` hands out
unfoldable pub inert : Runtime → ℕ → String → Callable
inert R identity name = record {
  identity = identity;
  name = "_export";
  body = λ payload.
      raised "SealedBreach"
        (R.repr (Value.str name) ⧺ " export is inert; use SealedRuntime.invoke()");
}

unfoldable pub seal_one : Runtime → (String → ℕ) → String → Callable → Registry → Registry
seal_one R fresh name fn reg = record reg {
  tools = store name (poison R (fresh name) name) reg.tools;
  bodies = store name (Cell.cell fn fn.identity) reg.bodies;
  tool_ids = store name fn.identity reg.tool_ids;
}

-- the loop of `seal`
unfoldable pub seal_all : Runtime → (String → ℕ) → Table Callable → Registry → Registry
seal_all R fresh [] reg = reg
seal_all R fresh ((name, fn) ∷ tools) reg = seal_all R fresh tools (seal_one R fresh name fn reg)

unfoldable pub poisoned : Runtime → (String → ℕ) → Table Callable → Table Callable
poisoned R fresh [] = []
poisoned R fresh ((name, fn) ∷ tools) = (name, poison R (fresh name) name) ∷ poisoned R fresh tools

unfoldable pub exports : Runtime → (String → ℕ) → Table Callable → Table Callable
exports R fresh [] = []
exports R fresh ((name, fn) ∷ tools) = (name, inert R (fresh name) name) ∷ exports R fresh tools

-- `seal`: the exports, and the registry, whose source is the caller's table, poisoned
unfoldable pub seal :
    Runtime → (String → ℕ) → Table Callable → Registry → Exc (Table Callable × Registry)
seal R fresh tools reg =
    if reg.frozen
    then raise (Exn.sealed_breach "tool registry frozen; seal() refused")
    else ok (
      exports R fresh tools,
      record (seal_all R fresh tools reg) { source = some (poisoned R fresh tools); frozen = true },
    )

abbrev is_prefix : Option String → Bool
is_prefix none = false
is_prefix (some _) = true

-- `__name__.startswith("poisoned_")`
abbrev pub is_poisoned : Callable → Bool
is_poisoned fn = is_prefix (after_prefix "poisoned_" fn.name)

abbrev pub is_slot_poisoned : Option Callable → Bool
is_slot_poisoned none = false
is_slot_poisoned (some fn) = is_poisoned fn

abbrev pub is_live : Option Callable → Bool
is_live none = false
is_live (some fn) = not (is_poisoned fn)

abbrev pub is_source_live : Option (Table Callable) → String → Bool
is_source_live none name = false
is_source_live (some source) name = is_live (find? name source)

abbrev pub is_id : Option ℕ → ℕ → Bool
is_id none n = false
is_id (some m) n = nat_eq m n

-- The body of the cell, and the identity that it recorded.
unfoldable pub open_cell : Runtime → String → Option Cell → Exc (Callable × ℕ)
open_cell R tool none =
    raise (Exn.sealed_breach ("tool " ⧺ R.repr (Value.str tool) ⧺ " not in sealed registry"))
open_cell R tool (some Cell.other) =
    raise (Exn.sealed_breach "registry mutation detected; body cell replaced")
open_cell R tool (some (Cell.cell fn fn_id)) = ok (fn, fn_id)

-- `_assert_registry_integrity`
unfoldable pub live_body : Runtime → Registry → String → Exc Callable
live_body R reg tool = do
  (fn, fn_id) ← open_cell R tool (find? tool reg.bodies)
  raise_if (not (is_id (find? tool reg.tool_ids) fn.identity) || not (nat_eq fn.identity fn_id))
      (Exn.sealed_breach "registry mutation detected; execution refused")
  raise_if (is_source_live reg.source tool)
      (Exn.sealed_breach "source registry un-poisoned; execution refused")
  raise_if (not (is_slot_poisoned (find? tool reg.tools)))
      (Exn.sealed_breach "_tools slot is not poisoned; execution refused")
  ok fn
