-- ===== src/Compose/Output.antt =====
-- compose.py: what an evaluator's output can change in a decision.
use Prim.Native.Nat.{max}
use decision_os_min.Prelude.{
  ◌≡◌, refl, ◌∙◌, false, String, Option, none, some, arith, ◌==◌, eq_iff, contains, inl, inr,
  Bool-cases, Option-cases, ltb, if◌then◌else◌,
}
use decision_os_min.Py.{Value, Dict, get, get_default, put, set_default}
use decision_os_min.Py.Laws.{get-put}
use decision_os_min.Py.Runtime.{Runtime}
use decision_os_min.Compose.Defs.{
  deny, rank, normalize_text, normalize, contributable, keep_contributable, plain_reason, sanitize,
  text, verdict_of, as_decision, as_decision_dict, more_restrictive, action_ref_of,
}
use decision_os_min.Compose.Lattice.{normalize-normalize}

get-keep_contributable :
    (k : String) (d : Dict)
    → get k (keep_contributable d) ≡ (if contains k contributable then get k d else none)
unfolding keep_contributable get
get-keep_contributable k Dict.end = ground arith
get-keep_contributable k (Dict.entry j v d) = elim (Bool-cases (contains j contributable)) [
  | inl e ↦ rw e (ground (arith, eq_iff j k, get-keep_contributable k d))
  | inr e ↦ rw e (ground (arith, eq_iff j k, get-keep_contributable k d))
]
get-keep_contributable k (Dict.odd_entry j v d) = get-keep_contributable k d

-- the field `k` of what `sanitize` returns
abbrev pub sanitized : Runtime → String → Option Value → Option Value
sanitized R k none = none
sanitized R k (some v) = if "reason" == k then some (Value.str (text R v)) else some v

get-plain_reason :
    (R : Runtime) (k : String) (d : Dict)
    → get k (plain_reason R (get "reason" d) d) ≡ sanitized R k (get k d)
unfolding plain_reason
get-plain_reason R k d = elim (Option-cases (get "reason" d)) [
  | inl e ↦ rw e (ground (arith, eq_iff "reason" k))
  | inr (v, e) ↦ rw e (rw get-put (ground (arith, eq_iff "reason" k)))
]

-- A field of a sanitized output is the evaluator's only where it may contribute one, the reason
-- then being a plain text; every other field is missing.
pub get-sanitize :
    (R : Runtime) (k : String) (d : Dict)
    → get k (sanitize R d) ≡ (if contains k contributable then sanitized R k (get k d) else none)
unfolding sanitize
get-sanitize R k d = get-plain_reason R k (keep_contributable d) ∙ split
  where
    split :
        sanitized R k (get k (keep_contributable d))
        ≡ (if contains k contributable then sanitized R k (get k d) else none)
    split = rw get-keep_contributable (ground arith)

-- The verdict that an evaluator's output stands for.
unfoldable pub output_verdict : Value → String
output_verdict (Value.str v) = normalize_text v
output_verdict (Value.dict d) = verdict_of d
output_verdict _ = deny

get-sanitize_verdict : (R : Runtime) (d : Dict) → get "verdict" (sanitize R d) ≡ get "verdict" d
unfolding contains
get-sanitize_verdict R d = get-sanitize R "verdict" d ∙ same (get "verdict" d)
  where
    same : (o : Option Value) → sanitized R "verdict" o ≡ o
    same none = refl
    same (some v) = refl

pub verdict_of-sanitize : (R : Runtime) (d : Dict) → verdict_of (sanitize R d) ≡ verdict_of d
unfolding verdict_of
verdict_of-sanitize R d = rw get-sanitize_verdict

get-set_default_ne :
    (j k : String) (v : Value) (d : Dict) → (k == j) ≡ false → get j (set_default k v d) ≡ get j d
unfolding set_default
get-set_default_ne j k v d h = elim (Option-cases (get k d)) [
  | inl e ↦ rw (e, get-put, h)
  | inr (w, e) ↦ rw e
]

get-as_decision_dict_verdict :
    (d : Dict) (ref : Value)
    → get "verdict" (as_decision_dict d ref) ≡ some (Value.str (verdict_of d))
unfolding as_decision_dict
get-as_decision_dict_verdict d ref = rw get-put (
    get-set_default_ne "verdict" "reason" (Value.str "")
      (put "verdict" (Value.str (verdict_of d)) d) refl
    ∙ rw get-put)

as_decision_verdict :
    (R : Runtime) (out : Value) (action : Dict)
    → verdict_of (as_decision R out action) ≡ output_verdict out
unfolding as_decision output_verdict verdict_of normalize get
as_decision_verdict R (Value.dict d) action =
    rw (get-as_decision_dict_verdict d (action_ref_of action))
      (normalize-normalize (get_default "verdict" (Value.str deny) d))
as_decision_verdict R (Value.str v) action = normalize-normalize (Value.str v)
as_decision_verdict R _ action = unfold normalize_text in refl

-- `as_decision` and `sanitize` keep the verdict that the output stands for.
pub verdict_of-as_decision :
    (R : Runtime) (out : Value) (action : Dict)
    → verdict_of (sanitize R (as_decision R out action)) ≡ output_verdict out
verdict_of-as_decision R out action =
    verdict_of-sanitize R (as_decision R out action) ∙ as_decision_verdict R out action

pub rank-more_restrictive :
    (d e : Dict)
    → rank (verdict_of (more_restrictive d e)) ≡ max (rank (verdict_of d)) (rank (verdict_of e))
unfolding more_restrictive
rank-more_restrictive d e = elim (Bool-cases (ltb (rank (verdict_of d)) (rank (verdict_of e)))) [
  | inl h ↦ rw h (ground arith)
  | inr h ↦ rw h (ground arith)
]
