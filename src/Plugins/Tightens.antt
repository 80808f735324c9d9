-- ===== src/Plugins/Tightens.antt =====
-- plugins.py and kernel.py: what the built-in authority permits of an enriched action, it permits of
-- the action itself.
use decision_os_min.Prelude.{
  ℕ, ◌≡◌, refl, false, inl, inr, String, Option, none, some, List, [], ◌++◌, ◌==◌, sorted, dedup,
  Bool-cases, Option-cases, if◌then◌else◌,
}
use decision_os_min.Py.{Value, Items, Dict, get, get_default, get_or_else, of_texts}
use decision_os_min.Py.Exc.{Exc, ok, ◌>>=◌, ok_of_bind}
use decision_os_min.Py.Runtime.{Runtime}
use decision_os_min.AuthorityPdp.Builtin
use decision_os_min.AuthorityPdp.Builtin.{
  Builtin, iterate, purpose_objection, grant_objection, objection, capability_of, ambiguous,
  holds_value, labels_objection,
}
use decision_os_min.Plugins.{ContextPlugin, apply_context}
use decision_os_min.Plugins.Additive.{
  Labelled, named, missing, get-apply_context, labels_after, strs, iterate-of_texts, contains-after,
  labels_objection-allowed, allowed-labels_objection,
}

module _ (R : Runtime) (b : Builtin) (mixed : List Value → List String → Option Items)
    (plugins : List ContextPlugin) (action enriched : Dict) (ls : List String)
    (labelled : Labelled action ls)
    (came : apply_context R mixed plugins action ≡ ok enriched) where
  kept :
      (k : String)
      → ("data_labels" == k) ≡ false
      → ("context" == k) ≡ false
      → get k enriched ≡ get k action
  kept k a c = get-apply_context R mixed plugins action enriched k (a, c) came

  iterate-default :
      iterate R (get_default "data_labels" (Value.list Items.nil) action) ≡ ok (strs ls)
  iterate-default = by_label labelled
    where
      by_label :
          {ks : List String}
          → Labelled action ks
          → iterate R (get_default "data_labels" (Value.list Items.nil) action) ≡ ok (strs ks)
      by_label (named ks e) = rw e (iterate-of_texts R ks)
      by_label (missing e) = rw e (unfold of_texts in iterate-of_texts R [])

  purpose_objection-enriched :
      purpose_objection R b enriched ≡ ok none → purpose_objection R b action ≡ ok none
  unfolding purpose_objection
  purpose_objection-enriched h =
      let (more, e) = labels_after R mixed plugins action enriched ls labelled came in
      let purpose = get_default "action_purpose" Value.null action in
      let all : labels_objection R b purpose (strs (sorted (dedup (ls ++ more)))) ≡ ok none =
        rw (e, iterate-of_texts R, kept "action_purpose" refl refl) at h in
      rw iterate-default (
        allowed-labels_objection R b purpose ls λ a m.
          labels_objection-allowed R b purpose (sorted (dedup (ls ++ more))) all a
            (contains-after a ls more m))

  grant_objection-enriched :
      (now : ℕ)
      → grant_objection R b now enriched ≡ ok none
      → grant_objection R b now action ≡ ok none
  unfolding grant_objection capability_of get_or_else
  grant_objection-enriched now h =
      let h' : (holds_value R b.graph (get_default "actor" (Value.str "") action)
              (capability_of R action) now
            >>= λ held.
                if held
                then purpose_objection R b enriched
                else ok (
                    some (
                      Builtin.lacks R (get_default "actor" (Value.str "") action)
                        (capability_of R action))))
          ≡ ok none =
        rw (kept "actor" refl refl, kept "capability" refl refl, kept "tool" refl refl) at h in
      ok_of_bind
        (holds_value R b.graph (get_default "actor" (Value.str "") action) (capability_of R action)
          now)
        _ h'
        λ held e rest. elim (Bool-cases held) [
          | inl yes_held ↦ rw (e, yes_held) (purpose_objection-enriched (rw yes_held at rest))
          | inr not_held ↦ absurd (refused _ (rw not_held at rest))
        ]
    where
      refused : (reason : String) → ◌≡◌ {A = Exc (Option String)} (ok (some reason)) (ok none) → ⊥
      refused reason e = cc

  pub objection-enriched :
      (now : ℕ) → objection R b now enriched ≡ ok none → objection R b now action ≡ ok none
  unfolding objection
  objection-enriched now h =
      elim (Option-cases (ambiguous R (get "capability" action) (get "tool" action))) [
        | inl e ↦
            rw (e, objection)
              (grant_objection-enriched now
                (rw (kept "capability" refl refl, kept "tool" refl refl, e, objection) at h))
        | inr (reason, e) ↦ absurd (
            refused reason
              (rw (kept "capability" refl refl, kept "tool" refl refl, e, objection) at h))
      ]
    where
      refused : (reason : String) → ◌≡◌ {A = Exc (Option String)} (ok (some reason)) (ok none) → ⊥
      refused reason e = cc
