-- ===== src/Host/Disarmed.antt =====
-- host.py: a namespace has no effect handles exactly where none of the banned names is live in it, and
-- what `poison_ref` puts there is not live.
use decision_os_min.Prelude.{
  ℕ, ◌≡◌, refl, ◌↔◌, String, Bool, true, false, some, List, [], ◌∷◌, All, Table, find?, store,
  find?-store, Bool-cases, inl, inr, after_prefix-append, ◌==◌, if◌then◌else◌,
}
use decision_os_min.Py.Runtime.{Runtime}
use decision_os_min.Host.Client.{
  Bound, is_live, banned, none_live, agent_has_no_effect_handles, bound_to,
}
use decision_os_min.Host.Handle.{poison_ref}

none_live_iff :
    (ks : List String) (namespace : Table Bound)
    → (none_live ks namespace ≡ true) ↔ All (λ k. is_live (find? k namespace) ≡ false) ks
unfolding none_live
none_live_iff [] namespace = (λ _. tt, λ _. refl)
none_live_iff (k ∷ ks) namespace = elim (Bool-cases (is_live (find? k namespace))) [
  | inl e ↦ (λ h. absurd (clash (rw e at h)), λ h. absurd (clash' (rw e at (h.0))))
  | inr e ↦ (
    λ h. (e, (none_live_iff ks namespace).0 (rw e at h)),
    λ h. rw e ((none_live_iff ks namespace).1 h.1),
  )
]
  where
    clash : false ≡ true → ⊥
    clash h = cc

    clash' : true ≡ false → ⊥
    clash' h = cc

poisoned-dead :
    (R : Runtime) (i : ℕ) (name : String) → is_live (some (bound_to (poison_ref R i name))) ≡ false
unfolding poison_ref
poisoned-dead R i name = rw (after_prefix-append "host_only_" name) refl

-- A namespace has no effect handles exactly where no banned name is live in it.
pub agent_has_no_effect_handles_iff :
    (namespace : Table Bound)
    → (agent_has_no_effect_handles namespace ≡ true)
      ↔ All (λ k. is_live (find? k namespace) ≡ false) banned
unfolding agent_has_no_effect_handles
agent_has_no_effect_handles_iff namespace = none_live_iff banned namespace

-- Putting what `poison_ref` makes under a name leaves that name dead, whatever it was bound to, and
-- the others as they were.
pub poison_ref-disarms :
    (R : Runtime) (i : ℕ) (j k : String) (namespace : Table Bound)
    → is_live (find? j (store k (bound_to (poison_ref R i k)) namespace))
      ≡ (if k == j then false else is_live (find? j namespace))
poison_ref-disarms R i j k namespace =
    rw (find?-store j k (bound_to (poison_ref R i k)) namespace) (split (k == j))
  where
    split :
        (b : Bool)
        → is_live (if b then some (bound_to (poison_ref R i k)) else find? j namespace)
          ≡ (if b then false else is_live (find? j namespace))
    split true = poisoned-dead R i k
    split false = refl
