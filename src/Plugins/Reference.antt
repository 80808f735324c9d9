-- ===== src/Plugins/Reference.antt =====
-- plugins.py and advisors.py: the reference plugins and the example advisor.
use decision_os_min.Prelude.{
  ℕ, String, ◌⧺◌, Bool, false, not, ◌&&◌, Option, none, some, List, [], ◌∷◌, contains, inter, Table,
  find, if◌then◌else◌,
}
use decision_os_min.Py.{Value, Items, Dict, get_default, get_or_else, truthy, of_texts, hashable}
use decision_os_min.Py.Exc.{Exc, ok, ◌>>=◌}
use decision_os_min.Py.Runtime.{Runtime}
use decision_os_min.Py.Plugin.{Ran, returned, raised, ran_of}
use decision_os_min.Compose.{text}
use decision_os_min.AuthorityPdp.Builtin.{iterate, differs}
use decision_os_min.Plugins.{RiskAssessment, Enrichment, Floats, RiskPlugin, ContextPlugin, hashed}

-- 0.05, 0.4, 0.6, 0.8, 0.9 and 1.0
abbrev small_weight : ℕ
small_weight = 0x3fa999999999999a

abbrev pub suspect_bound : ℕ
suspect_bound = 0x3fd999999999999a

abbrev pub contain_bound : ℕ
contain_bound = 0x3fe999999999999a

abbrev one : ℕ
one = 0x3ff0000000000000

-- `_WEIGHTS`
abbrev weights : Table ℕ
weights =
    ("known_bad_actor", 0x3feccccccccccccd)
    ∷ ("capability_probing", 0x3fd999999999999a)
    ∷ ("irreversible", 0x3fe3333333333333)
    ∷ []

abbrev weight : Value → ℕ
weight (Value.str s) = find small_weight s weights
weight _ = small_weight

unfoldable pub weights_of : List Value → List ℕ
weights_of [] = []
weights_of (v ∷ vs) = weight v ∷ weights_of vs

abbrev hint : Floats → ℕ → Option String
hint F score =
    if F.at_least score contain_bound
    then some "CONTAIN"
    else if F.at_least score suspect_bound
    then some "LIMIT"
    else none

unfoldable pub assessed : Floats → List Value → RiskAssessment
assessed F signals =
    let total = F.sum (weights_of signals) in
    let score = if F.greater one total then total else one in
    record { score = F.round3 score; evidence = signals; recommended = hint F score }

-- `HeuristicRiskPlugin.analyze`
unfoldable pub heuristic_risk : Runtime → Floats → RiskPlugin
heuristic_risk R F action = ran_of R (do
  signals ←
      iterate R
        (get_or_else "signals" (get_or_else "_signals" (Value.list Items.nil) action) action)
  known ← hashed signals
  ok (assessed F known))

-- `_PII`, sorted
abbrev pub pii_fields : List String
pii_fields = "card" ∷ "dob" ∷ "passport" ∷ "ssn" ∷ []

unfoldable pub text_keys : Dict → List String
text_keys Dict.end = []
text_keys (Dict.entry k _ d) = k ∷ text_keys d
text_keys (Dict.odd_entry _ _ d) = text_keys d

unfoldable pub only_texts : List Value → List String
only_texts [] = []
only_texts (Value.str s ∷ vs) = s ∷ only_texts vs
only_texts (_ ∷ vs) = only_texts vs

-- The texts in `set(payload)`.
unfoldable pub members : Runtime → Value → Exc (List String)
members R (Value.dict d) = ok (text_keys d)
members R v = do given ← iterate R v; known ← hashed given; ok (only_texts known)

abbrev flagged : List String → Enrichment
flagged [] = record { data_labels = []; metadata = [] }
flagged (f ∷ fs) = record {
  data_labels = "pii" ∷ [];
  metadata = ("pii_fields", Value.list (of_texts (f ∷ fs))) ∷ [];
}

-- `PIIContextPlugin.enrich`
unfoldable pub pii_context : Runtime → ContextPlugin
pii_context R action = ran_of R (do
  names ← members R (get_or_else "payload" (Value.dict Dict.end) action)
  ok (flagged (inter pii_fields names)))

-- `_KNOWN_BAD` of advisors.py
abbrev pub known_bad : List String
known_bad = "agent:evil" ∷ "agent:known-bad" ∷ []

abbrev is_known_bad : Value → Bool
is_known_bad (Value.str s) = contains s known_bad
is_known_bad _ = false

-- The test of `cap and action.get("tool") and cap != f"tool:{action['tool']}"`
unfoldable pub probes : Runtime → Value → Value → Bool
probes R cap tool = truthy cap && truthy tool && differs cap ("tool:" ⧺ text R tool)

-- `simple_threat_advisor`
unfoldable pub simple_threat_advisor : Runtime → Dict → Ran (Option String)
simple_threat_advisor R action =
    let actor = get_default "actor" (Value.str "") action in
    if not (hashable actor)
    then raised "TypeError" (R.error_text "TypeError")
    else if is_known_bad actor
    then returned (some "malicious")
    else if probes R (get_default "capability" (Value.str "") action)
        (get_default "tool" Value.null action)
    then returned (some "suspicious")
    else returned none
