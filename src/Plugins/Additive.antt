-- ===== src/Plugins/Additive.antt =====
-- plugins.py: enrichment adds labels and metadata, and can only tighten.
use decision_os_min.Prelude.{
  ◌≡◌, refl, sym, ◌∙◌, ap, true, false, inl, inr, String, Option, none, some, List, [], ◌∷◌, ◌++◌,
  arith, ◌==◌, eq_iff, eq_refl, contains, sorted, dedup, find?, contains-sorted, contains-dedup,
  contains-append, Bool-cases, Option-cases,
}
use decision_os_min.Py.{Value, Items, Dict, get, get_or_else, of_texts, truthy}
use decision_os_min.Py.Laws.{get-put}
use decision_os_min.Py.Exc.{Exc, ok, ok_of_bind, ok_inj}
use decision_os_min.Py.Runtime.{Runtime}
use decision_os_min.AuthorityPdp.Builtin.{
  Builtin, iterate, label_bound, label_objection, labels_objection,
}
use decision_os_min.Kernel.{to_dict}
use decision_os_min.Plugins.{
  ContextPlugin, apply_context, enriched_by, hashed, texts?, sorted_labels,
}

-- A key that no enrichment writes.
abbrev pub IsKept : String → Type 0
IsKept k = (("data_labels" == k) ≡ false) × (("context" == k) ≡ false)

-- Every field but the labels and the context is the action's own.
pub get-apply_context :
    (R : Runtime) (mixed : List Value → List String → Option Items) (plugins : List ContextPlugin)
    (action enriched : Dict) (k : String)
    → IsKept k
    → apply_context R mixed plugins action ≡ ok enriched
    → get k enriched ≡ get k action
unfolding apply_context
get-apply_context R mixed plugins action enriched k (a, b) h =
    ok_of_bind (iterate R (get_or_else "data_labels" (Value.list Items.nil) action)) _ h
      λ given _ h1. ok_of_bind (hashed given) _ h1 λ own _ h2.
        ok_of_bind (to_dict R (get_or_else "context" (Value.dict Dict.end) action)) _ h2
          λ meta _ h3. ok_of_bind (enriched_by action plugins _) _ h3 λ c _ h4.
            ok_of_bind (sorted_labels mixed own c.labels) _ h4
              λ labels _ h5. rw (← ok_inj h5) (rw (get-put, b) (rw (get-put, a) refl))

-- The labels of an action, where they are texts: those that are named, or none where the field is
-- missing.
pub data Labelled (action : Dict) : List String → Type 0 where
  named :
      (ls : List String)
      → get "data_labels" action ≡ some (Value.list (of_texts ls))
      → Labelled action ls
  missing : get "data_labels" action ≡ none → Labelled action []

pub strs : List String → List Value
strs [] = []
strs (s ∷ ss) = Value.str s ∷ strs ss

pub iterate-of_texts :
    (R : Runtime) (ls : List String) → iterate R (Value.list (of_texts ls)) ≡ ok (strs ls)
unfolding iterate strs of_texts
iterate-of_texts R [] = refl
iterate-of_texts R (l ∷ ls) = ap (λ vs. ok (Value.str l ∷ vs)) (ok_inj (iterate-of_texts R ls))

hashed-strs : (ls : List String) → hashed (strs ls) ≡ ok (strs ls)
unfolding hashed strs
hashed-strs [] = refl
hashed-strs (l ∷ ls) = rw (hashed-strs ls) refl

texts?-strs : (ls : List String) → texts? (strs ls) ≡ some ls
unfolding texts? strs
texts?-strs [] = refl
texts?-strs (l ∷ ls) = rw (texts?-strs ls) refl

sorted_labels-strs :
    (mixed : List Value → List String → Option Items) (ls more : List String)
    → sorted_labels mixed (strs ls) more ≡ ok (Value.list (of_texts (sorted (dedup (ls ++ more)))))
unfolding sorted_labels
sorted_labels-strs mixed ls more = rw (texts?-strs ls, sorted_labels) refl

pub iterate-Labelled :
    (R : Runtime) (action : Dict) (ls : List String)
    → Labelled action ls
    → iterate R (get_or_else "data_labels" (Value.list Items.nil) action) ≡ ok (strs ls)
unfolding get_or_else
iterate-Labelled R action ls (named [] e) = rw e (unfold truthy of_texts in iterate-of_texts R [])
iterate-Labelled R action ls (named (k ∷ ks) e) =
    rw e (unfold truthy of_texts in iterate-of_texts R (k ∷ ks))
iterate-Labelled R action ls (missing e) = rw e (unfold of_texts in iterate-of_texts R [])

-- The labels of what comes out: the action's own and some more, in order and each once.
pub labels_after :
    (R : Runtime) (mixed : List Value → List String → Option Items) (plugins : List ContextPlugin)
    (action enriched : Dict) (ls : List String)
    → Labelled action ls
    → apply_context R mixed plugins action ≡ ok enriched
    → (more : List String) × (get "data_labels" enriched
        ≡ some (Value.list (of_texts (sorted (dedup (ls ++ more))))))
unfolding apply_context
labels_after R mixed plugins action enriched ls l h =
    ok_of_bind (iterate R (get_or_else "data_labels" (Value.list Items.nil) action)) _ h
      λ given e1 h1. ok_of_bind (hashed given) _ h1 λ own e2 h2.
        ok_of_bind (to_dict R (get_or_else "context" (Value.dict Dict.end) action)) _ h2
          λ meta _ h3. ok_of_bind (enriched_by action plugins _) _ h3 λ c _ h4.
            ok_of_bind (sorted_labels mixed own c.labels) _ h4 λ labels e5 h5.
              let is_given : given ≡ strs ls = ok_inj (sym e1 ∙ iterate-Labelled R action ls l) in
              let is_own : own ≡ strs ls = ok_inj (sym e2 ∙ ap hashed is_given ∙ hashed-strs ls) in
              (
                c.labels,
                rw (← ok_inj h5)
                    (rw (get-put, get-put) (ap some (is_sorted own c.labels labels is_own e5))),
              )
  where
    is_sorted :
        (own : List Value) (more : List String) (labels : Value)
        → own ≡ strs ls
        → sorted_labels mixed own more ≡ ok labels
        → labels ≡ Value.list (of_texts (sorted (dedup (ls ++ more))))
    is_sorted own more labels e came =
        let computed : sorted_labels mixed own more
            ≡ ok (Value.list (of_texts (sorted (dedup (ls ++ more))))) =
          rw e (sorted_labels-strs mixed ls more) in
        ok_inj (sym came ∙ computed)

-- No label of the list is objected to.
abbrev pub AreAllowed : Runtime → Builtin → Value → List String → Type 0
AreAllowed R b purpose ls =
    (a : String) → contains a ls ≡ true → label_bound R b purpose a (find? a b.bindings) ≡ none

module _ (R : Runtime) (b : Builtin) (purpose : Value) where
  pub labels_objection-allowed :
      (ls : List String)
      → labels_objection R b purpose (strs ls) ≡ ok none
      → AreAllowed R b purpose ls
  unfolding labels_objection label_objection strs contains
  labels_objection-allowed [] h a m = absurd (cc)
  labels_objection-allowed (l ∷ ls) h a m =
      elim (Option-cases (label_bound R b purpose l (find? l b.bindings))) [
        | inl e ↦ elim (Bool-cases (a == l)) [
          | inl same ↦ rw ((eq_iff a l).0 same) e
          | inr other ↦ labels_objection-allowed ls (rw e at h) a (rw other at m)
        ]
        | inr (reason, e) ↦ absurd (objected reason (rw e at h))
      ]
    where
      objected : (reason : String) → ◌≡◌ {A = Exc (Option String)} (ok (some reason)) (ok none) → ⊥
      objected reason e = cc

  pub allowed-labels_objection :
      (ls : List String)
      → AreAllowed R b purpose ls
      → labels_objection R b purpose (strs ls) ≡ ok none
  unfolding labels_objection label_objection strs contains
  allowed-labels_objection [] h = refl
  allowed-labels_objection (l ∷ ls) h =
      rw (h l (rw (eq_refl l) refl)) (allowed-labels_objection ls λ a m. h a (rw m (ground arith)))

-- The labels of the action are among those of what comes out.
pub contains-after :
    (a : String) (ls more : List String)
    → contains a ls ≡ true
    → contains a (sorted (dedup (ls ++ more))) ≡ true
contains-after a ls more h = rw (contains-sorted, contains-dedup, contains-append, h) refl
