-- ===== src/Plugins.antt =====
-- decision_os_min/plugins.py and advisors.py: risk plugins composed into one advisor, context plugins
-- that enrich an action; Reference has the reference plugins and the example advisor. A float is its bit pattern,
-- and what the code does with floats is a record of functions. A plugin may do anything but write to
-- the action that it is handed.
pub mod Reference
pub mod Worst
pub mod Additive
pub mod Tightens
pub mod Permitted
use decision_os_min.Prelude.{
  ℕ, String, ◌⧺◌, Bool, true, false, not, ◌&&◌, ◌||◌, Option, none, some, List, [], ◌∷◌, ◌++◌, ◌==◌,
  contains, sorted, dedup, inter, Table, find, if◌then◌else◌,
}
use decision_os_min.Py.{
  Value, Items, Dict, get, get_default, get_or_else, or_value, put, truthy, has_key, of_texts,
  hashable, all_hashable,
}
use decision_os_min.Py.Exc.{Exc, ok, raise, Exn, ◌>>=◌}
use decision_os_min.Py.Runtime.{Runtime}
use decision_os_min.Py.Plugin.{Ran, returned, raised, based, closed, silent, after_call, ran_of}
use decision_os_min.Compose.{text}
use decision_os_min.AuthorityPdp.Builtin.{iterate, differs}
use decision_os_min.Kernel.{to_dict}

pub record RiskAssessment : Type 0 where
  pub score : ℕ
  pub evidence : List Value
  pub recommended : Option String

pub record Enrichment : Type 0 where
  pub data_labels : List String
  pub metadata : Table Value

-- What the plugins need of floats: `a > b`, `a >= b`, `sum(xs)` and `round(a, 3)`. The sum of no
-- floats, which is the integer 0, is kept as 0.0.
pub record Floats : Type 0 where
  pub greater : ℕ → ℕ → Bool
  pub at_least : ℕ → ℕ → Bool
  pub sum : List ℕ → ℕ
  pub round3 : ℕ → ℕ

abbrev pub RiskPlugin : Type 0
RiskPlugin = Dict → Ran RiskAssessment

abbrev pub ContextPlugin : Type 0
ContextPlugin = Dict → Ran Enrichment

-- The worst score after one plugin: `max` keeps the first of two that compare as equal or not at
-- all, and an `Exception` is passed over.
unfoldable pub scored : Floats → ℕ → Ran RiskAssessment → Ran ℕ
scored F worst (returned a) = returned (if F.greater a.score worst then a.score else worst)
scored F worst (raised c t) = returned worst
scored F worst (based c t) = based c t
scored F worst closed = closed
scored F worst silent = silent

-- the loop of `advise`
unfoldable pub worst_score : Floats → Dict → ℕ → List RiskPlugin → Ran ℕ
worst_score F action worst [] = returned worst
worst_score F action worst (p ∷ ps) =
    after_call (scored F worst (p action)) λ w. worst_score F action w ps

unfoldable pub threat_of : Floats → ℕ → ℕ → ℕ → Option String
threat_of F contain_at suspect_at worst =
    if F.at_least worst contain_at
    then some "malicious"
    else if F.at_least worst suspect_at
    then some "suspicious"
    else none

-- `risk_advisor(*plugins, contain_at=…, suspect_at=…)`
unfoldable pub risk_advisor : Floats → List RiskPlugin → ℕ → ℕ → Dict → Ran (Option String)
risk_advisor F plugins contain_at suspect_at action =
    after_call (worst_score F action 0 plugins)
      λ worst. returned (threat_of F contain_at suspect_at worst)

-- What the context plugins have added so far.
pub record Context : Type 0 where
  pub labels : List String
  pub metadata : Dict

-- `meta.update(e.metadata)`
unfoldable pub update : Dict → Table Value → Dict
update d [] = d
update d ((k, v) ∷ t) = update (put k v d) t

unfoldable pub added : Ran Enrichment → Context → Exc Context
added (returned e) c =
    ok (record { labels = c.labels ++ e.data_labels; metadata = update c.metadata e.metadata })
added (raised k t) c = ok c
added (based k t) c = raise (Exn.base_exception k t)
added closed c = raise Exn.generator_exit
added silent c = raise Exn.hangs

-- the loop over the context plugins
unfoldable pub enriched_by : Dict → List ContextPlugin → Context → Exc Context
enriched_by action [] c = ok c
enriched_by action (p ∷ ps) c = added (p action) c >>= enriched_by action ps

-- The values of a list, if they are all texts.
unfoldable pub texts? : List Value → Option (List String)
texts? [] = some []
texts? (Value.str s ∷ vs) = elim (texts? vs) [ none ↦ none | some ss ↦ some (s ∷ ss) ]
texts? (_ ∷ vs) = none

unfoldable pub hashed : List Value → Exc (List Value)
unfolding hashable
hashed [] = ok []
hashed (v ∷ vs) =
    let rest = hashed vs in
    if hashable v then rest >>= (λ us. ok (v ∷ us)) else raise Exn.type_error

abbrev as_list : Option Items → Exc Value
as_list none = raise Exn.type_error
as_list (some xs) = ok (Value.list xs)

-- `sorted(labels)` of the action's own labels and of those that were added. For own labels that are
-- not all texts the order is `mixed`, which is `none` where `sorted` raises.
unfoldable pub sorted_labels :
    (List Value → List String → Option Items) → List Value → List String → Exc Value
sorted_labels mixed own others = elim (texts? own) [
  | none ↦ as_list (mixed own others)
  | some labels ↦ ok (Value.list (of_texts (sorted (dedup (labels ++ others)))))
]

-- `apply_context(action, *plugins)`
unfoldable pub apply_context :
    Runtime → (List Value → List String → Option Items) → List ContextPlugin → Dict → Exc Dict
apply_context R mixed plugins action = do
  given ← iterate R (get_or_else "data_labels" (Value.list Items.nil) action)
  own ← hashed given
  meta ← to_dict R (get_or_else "context" (Value.dict Dict.end) action)
  c ← enriched_by action plugins (record { labels = []; metadata = meta })
  labels ← sorted_labels mixed own c.labels
  ok (put "context" (Value.dict c.metadata) (put "data_labels" labels action))
