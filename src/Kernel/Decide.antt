-- ===== src/Kernel/Decide.antt =====
-- `Kernel.decide`: the authority's ruling, the evaluators' by meet, then one signature and, on a
-- permitting verdict, one token. The clocks and `uuid4` are arguments.
use decision_os_min.Prelude.{
  ℕ, ◌+◌, String, ◌⧺◌, Bool, true, false, not, Option, none, some, List, [], ◌∷◌, ◌++◌, nonempty,
  ◌||◌, sorted, dedup, if◌then◌else◌,
}
use decision_os_min.Py.{Value, Items, Dict, get, get_default, put, of_texts}
use decision_os_min.Py.Exc.{Exc, ok, raise, Exn, ◌>>=◌, ◌>>◌, raise_if}
use decision_os_min.Py.Runtime.{Runtime}
use decision_os_min.Py.Plugin.{Ran, returned, raised, based, closed, silent, unguarded, is_timeout}
use decision_os_min.Compose.{
  deny, is_permitting, text, as_decision, sanitize, more_restrictive, verdict_of,
}
use decision_os_min.Evaluators.{Evaluator, ruling}
use decision_os_min.AuthorityPdp.{CanonicalAuthorityResult}
use decision_os_min.AuthorityPdp.Builtin.{capability_of}
use decision_os_min.Kernel.Fingerprint.{kernel_identity, canonical, signable, action_fingerprint}
use decision_os_min.Kernel.State.{Kernel}
use decision_os_min.Kernel.Evaluate.{evaluate}

abbrev denial : String → Value
denial reason = ruling (Value.str deny) (Value.str reason)

abbrev timed_out : String → Value
timed_out bound = denial ("evaluator timeout (fail-closed): " ⧺ bound ⧺ "s")

abbrev failed : String → Value
failed t = denial ("evaluator error (fail-closed): " ⧺ t)

-- An evaluator's output, from the way in which its call ended under a bound in seconds, or none.
unfoldable pub settled : Option String → Ran Value → Exc Value
settled bound (returned out) = ok out
settled none (raised c t) = ok (failed t)
settled (some s) (raised c t) = ok (if is_timeout c then timed_out s else failed t)
settled bound (based c t) = ok (denial ("evaluator BaseException (fail-closed): " ⧺ c ⧺ ": " ⧺ t))
settled bound closed = raise Exn.generator_exit
settled none silent = raise Exn.hangs
settled (some s) silent = ok (timed_out s)

-- The decision so far, and the evidence that the evaluators gave with their verdicts.
pub record Folded : Type 0 where
  pub decision : Dict
  pub digests : List String
  pub axioms : List String

abbrev digest_in : Option Value → List String
digest_in (some (Value.str s)) = if nonempty s then s ∷ [] else []
digest_in _ = []

-- `str(a) for a in ax`
unfoldable pub item_texts : Runtime → Items → List String
item_texts R Items.nil = []
item_texts R (Items.cons x xs) = text R x ∷ item_texts R xs

abbrev axioms_in : Runtime → Option Value → List String
axioms_in R (some (Value.list xs)) = item_texts R xs
axioms_in R (some (Value.tuple xs)) = item_texts R xs
axioms_in R _ = []

unfoldable pub output_digests : Value → List String
output_digests (Value.dict d) = digest_in (get "legitimacy_digest" d)
output_digests _ = []

unfoldable pub output_axioms : Runtime → Value → List String
output_axioms R (Value.dict d) = axioms_in R (get "axiom_ids" d)
output_axioms R _ = []

-- one output folded in
unfoldable pub fold_in : Runtime → Dict → Value → Folded → Folded
fold_in R action out f = record {
  decision = more_restrictive f.decision (sanitize R (as_decision R out action));
  digests = f.digests ++ output_digests out;
  axioms = f.axioms ++ output_axioms R out;
}

-- the loop over the evaluators
unfoldable pub fold_evaluators :
    Runtime → Option String → Dict → List Evaluator → Folded → Exc Folded
fold_evaluators R bound action [] f = ok f
fold_evaluators R bound action (e ∷ es) f = do
  out ← settled bound (e action)
  fold_evaluators R bound action es (fold_in R action out f)

abbrev last_or_empty : List String → String
last_or_empty [] = ""
last_or_empty (s ∷ ss) = elim ss [ [] ↦ s | _ ∷ _ ↦ last_or_empty ss ]

abbrev is_nonempty : List String → Bool
is_nonempty [] = false
is_nonempty (_ ∷ _) = true

-- What the kernel states itself.
abbrev pub stamped : CanonicalAuthorityResult → String → Dict → Dict
stamped r binding decision = put "action_binding" (Value.str binding) (
    put "issued_by" (Value.str kernel_identity) (
      put "authority_verdict" (Value.str r.verdict) (
        put "authority_policy_revision" (Value.str r.policy_revision)
          (put "authority_provider" (Value.str r.provider) decision))))

-- the dict that `legitimacy_binding` is the digest of
abbrev pub evidence : Value → Value → Value → Value → Dict
evidence binding digest axioms verdict = Dict.entry "action_binding" binding (
    Dict.entry "legitimacy_digest" digest
      (Dict.entry "axiom_ids" axioms (Dict.entry "verdict" verdict Dict.end)))

abbrev bound_with : Runtime → Value → Value → String → Dict → Dict
bound_with R digest axioms binding decision =
    put "legitimacy_binding"
      (Value.str (
        R.sha256 (
          canonical R (
            evidence (Value.str binding) digest axioms
              (get_default "verdict" Value.null decision)))))
      (put "axiom_ids" axioms (put "legitimacy_digest" digest decision))

-- The evidence bound into the decision, where there is some.
unfoldable pub bind_legitimacy : Runtime → List String → List String → String → Dict → Dict
bind_legitimacy R digests axioms binding decision =
    if is_nonempty digests || is_nonempty axioms
    then bound_with R (Value.str (last_or_empty digests))
        (Value.list (of_texts (sorted (dedup axioms)))) binding decision
    else decision

-- What a call reads from outside: the built-in provider's clock, the clock at the mint, and the
-- digits of `uuid4`.
pub record Moment : Type 0 where
  pub asked_at : ℕ
  pub minted_at : ℕ
  pub digits : String

-- `timedelta(seconds=30)`, in microseconds
abbrev pub token_lifetime : ℕ
token_lifetime = 30000000

-- The grant that a permitting decision carries.
unfoldable pub granted : Runtime → Moment → Dict → Dict → Dict
granted R m action decision =
    put "token_expires_at" (Value.str (R.isoformat (m.minted_at + token_lifetime))) (
      put "token_id" (Value.str ("tok-" ⧺ m.digits))
        (put "capability" (capability_of R action) decision))

-- `token`: a view of the signed fields
unfoldable pub token_view : Dict → Dict → Dict
token_view action decision = Dict.entry "token_id" (get_default "token_id" Value.null decision) (
    Dict.entry "actor" (get_default "actor" (Value.str "") action) (
      Dict.entry "capability" (get_default "capability" Value.null decision) (
        Dict.entry "action_ref" (get_default "action_ref" Value.null decision) (
          Dict.entry "action_binding" (get_default "action_binding" Value.null decision) (
            Dict.entry "issued_by" (Value.str kernel_identity) (
              Dict.entry "expires_at" (get_default "token_expires_at" Value.null decision) (
                Dict.entry "legitimacy_binding"
                  (get_default "legitimacy_binding" Value.null decision) Dict.end)))))))

-- `{"decision": …, "signature": …, "token": …}`
pub record Ruling : Type 0 where
  pub decision : Dict
  pub signature : String
  pub token : Option Dict

unfoldable pub signed : Runtime → Kernel → Option Dict → Dict → Ruling
signed R k token decision = record {
  decision = decision;
  signature = R.sign k.key (canonical R decision);
  token = token;
}

-- The mint gate and the signature.
unfoldable pub sealed : Runtime → Kernel → Moment → Dict → Dict → Ruling
sealed R k m action decision =
    if is_permitting (verdict_of decision)
    then (let minted = granted R m action decision in
        signed R k (some (token_view action minted)) minted)
    else signed R k none decision

-- The steps after the evaluators.
unfoldable pub concluded :
    Runtime → Kernel → Moment → Dict → CanonicalAuthorityResult → Folded → String → Ruling
concluded R k m action r f binding =
    sealed R k m action
      (bind_legitimacy R f.digests f.axioms binding (stamped r binding f.decision))

-- An argument that may be left out, `...` in the source.
abbrev pub overridden : Option (Option String) → Option String → Option String
overridden none own = own
overridden (some given) own = given

-- The threat class: an advisor's word goes before the caller's, and its errors propagate.
unfoldable pub advised :
    Option (Dict → Ran (Option String)) → Option String → Dict → Exc (Option String)
advised none threat action = ok threat
advised (some advisor) threat action = unguarded (advisor action)

-- What a caller of `decide` may pass beside the action.
pub record Request : Type 1 where
  pub threat_class : Option String
  pub advisor : Option (Dict → Ran (Option String))
  pub evaluators : List Evaluator
  pub evaluator_timeout : Option (Option String)
  pub authority_timeout : Option (Option String)

-- `decide`; the signature raises where the decision cannot be printed.
unfoldable pub decide : Runtime → Kernel → Moment → Request → Dict → Exc Ruling
decide R k m q action = do
  threat ← advised q.advisor q.threat_class action
  (first, r) ←
      evaluate R k m.asked_at (overridden q.authority_timeout k.authority_timeout) threat action
  f ←
      fold_evaluators R (overridden q.evaluator_timeout k.evaluator_timeout) action q.evaluators
        (record { decision = first; digests = []; axioms = [] })
  binding ← action_fingerprint R action
  let ruling = concluded R k m action r f binding
  raise_if (not (signable R ruling.decision)) Exn.type_error
  ok ruling
