-- ===== src/Host/Single.antt =====
-- host.py: over any sequence of intents, one request has at most one effect.
use decision_os_min.Prelude.{
  String, ◌≡◌, ◌≢◌, refl, ap, sym, ◌∙◌, subst, Bool, true, false, List, [], ◌∷◌, inl, inr,
  Bool-cases,
}
use decision_os_min.Py.{Dict}
use decision_os_min.Py.Exc.{Exc, ok, raise, Exn}
use decision_os_min.Py.Runtime.{Runtime}
use decision_os_min.SpentStore.{SpentStore, IsAtomic}
use decision_os_min.Execute.{AuditSink}
use decision_os_min.Sealed.{LegitimacyPolicy, invoke, admit}
use decision_os_min.Sealed.Single.{IsKept, invoke-IsKept}
use decision_os_min.Host.Intents.{Intent}
use decision_os_min.Host.Handle.{
  AgentHost, HostReading, is_foreign, replay_key, invocation_of, recorded, after_admit,
  after_request, with_spent, handle_own, handle_intent,
}
use decision_os_min.Host.Hosted.{IsHosted, name_of, key_of, concluded-kept, handle_intent-IsHosted}

-- One call of `handle_intent`.
pub record HostCall : Type 0 where
  pub reading : HostReading
  pub intent : Intent

module _ (S : SpentStore) (A : AuditSink) (R : Runtime) (policy : LegitimacyPolicy) where
  -- the host that a call leaves, and that a sequence of calls leaves
  unfoldable pub after_intent : HostCall → AgentHost S A → AgentHost S A
  after_intent c h = (handle_intent S A R policy c.reading c.intent h).1

  unfoldable pub after_intents : List HostCall → AgentHost S A → AgentHost S A
  after_intents [] h = h
  after_intents (c ∷ cs) h = after_intents cs (after_intent c h)

  -- the key of a call's request
  abbrev pub call_key : HostCall → AgentHost S A → String
  call_key c h = key_of S A R policy c.reading c.intent h

  module _ (c : HostReading) (i : Intent) where
    after_request-bound :
        (request : String) (first : Exc Bool) (h : AgentHost S A)
        → (after_request S A R policy c request i first h).1.bound_agent_id ≡ h.bound_agent_id
    unfolding after_request after_admit recorded
    after_request-bound request (ok true) h =
        by_ticket (admit S A R c.issued_at c.ticket_digits i.agent_id h.runtime)
      where
        by_ticket :
            (o : Exc Dict)
            → (after_admit S A R policy c request i o h).1.bound_agent_id ≡ h.bound_agent_id
        by_ticket (raise e) = refl
        by_ticket (ok ticket) =
            let (out, runtime) = invoke S A R policy c.invoked (invocation_of ticket i) h.runtime in
            (concluded-kept S A R policy c i request out (record h { runtime = runtime })).1
    after_request-bound request (ok false) h = refl
    after_request-bound request (raise (Exn.spent_store_unavailable e)) h = refl
    after_request-bound request (raise Exn.type_error) h = refl
    after_request-bound request (raise e) h = refl

    handle_intent-bound :
        (h : AgentHost S A) → (handle_intent S A R policy c i h).1.bound_agent_id ≡ h.bound_agent_id
    unfolding handle_intent handle_own recorded
    handle_intent-bound h =
        let (first, spent) = S.try_spend (key_of S A R policy c i h) h.runtime.stores.spent in
        let rest = after_request-bound (name_of S A R policy c i) first (with_spent S A spent h) in
        elim (Bool-cases (is_foreign h.bound_agent_id i.agent_id)) [
          | inl e ↦ rw e refl
          | inr e ↦ rw e rest
        ]

  after_intents-bound :
      (cs : List HostCall) (h : AgentHost S A)
      → (after_intents cs h).bound_agent_id ≡ h.bound_agent_id
  unfolding after_intents after_intent
  after_intents-bound [] h = refl
  after_intents-bound (c ∷ cs) h =
      after_intents-bound cs (after_intent c h) ∙ handle_intent-bound c.reading c.intent h

  -- The key of a request is the same at every host that follows.
  call_key-kept :
      (cs : List HostCall) (c d : HostCall) (h : AgentHost S A)
      → call_key d (after_intents cs (after_intent c h)) ≡ call_key d h
  unfolding after_intent
  call_key-kept cs c d h =
      ap (λ b. replay_key b d.intent.agent_id (name_of S A R policy d.reading d.intent))
        (after_intents-bound cs (after_intent c h) ∙ handle_intent-bound c.reading c.intent h)

  module _ (I : IsAtomic S) where
    abbrev spent_in : AgentHost S A → String → Bool
    spent_in h j = I.is_spent h.runtime.stores.spent j

    module _ (j : String) (c : HostReading) (i : Intent) where
      after_admit-kept :
          (request : String) (o : Exc Dict) (h : AgentHost S A)
          → spent_in h j ≡ true
          → spent_in (after_admit S A R policy c request i o h).1 j ≡ true
      unfolding after_admit
      after_admit-kept request (raise e) h b = b
      after_admit-kept request (ok ticket) h b =
          let (out, runtime) = invoke S A R policy c.invoked (invocation_of ticket i) h.runtime in
          subst (λ r. I.is_spent r.stores.spent j ≡ true)
            (sym (concluded-kept S A R policy c i request out (record h { runtime = runtime })).0)
            (IsKept.spent
              (invoke-IsKept S A R policy I j c.invoked (invocation_of ticket i) h.runtime) b)

      after_request-kept :
          (request : String) (first : Exc Bool) (h : AgentHost S A)
          → spent_in h j ≡ true
          → spent_in (after_request S A R policy c request i first h).1 j ≡ true
      unfolding after_request recorded
      after_request-kept request (ok true) h b =
          after_admit-kept request (admit S A R c.issued_at c.ticket_digits i.agent_id h.runtime) h
            b
      after_request-kept request (ok false) h b = b
      after_request-kept request (raise (Exn.spent_store_unavailable e)) h b = b
      after_request-kept request (raise Exn.type_error) h b = b
      after_request-kept request (raise e) h b = b

      handle_intent-kept :
          (h : AgentHost S A)
          → spent_in h j ≡ true
          → spent_in (handle_intent S A R policy c i h).1 j ≡ true
      unfolding handle_intent handle_own recorded
      handle_intent-kept h b =
          let key = key_of S A R policy c i h in
          let (first, spent) = S.try_spend key h.runtime.stores.spent in
          let rest =
            after_request-kept (name_of S A R policy c i) first (with_spent S A spent h)
              (I.kept key j h.runtime.stores.spent b) in
          elim (Bool-cases (is_foreign h.bound_agent_id i.agent_id)) [
            | inl e ↦ rw e b
            | inr e ↦ rw e rest
          ]

    after_intents-kept :
        (cs : List HostCall) (j : String) (h : AgentHost S A)
        → spent_in h j ≡ true
        → spent_in (after_intents cs h) j ≡ true
    unfolding after_intents after_intent
    after_intents-kept [] j h b = b
    after_intents-kept (c ∷ cs) j h b =
        after_intents-kept cs j (after_intent c h) (handle_intent-kept j c.reading c.intent h b)

    -- An intent that had an effect left its request's key spent.
    effect-spends :
        (c : HostReading) (i : Intent) (h : AgentHost S A)
        → IsHosted S A R policy c i h (handle_intent S A R policy c i h).1
        → spent_in (handle_intent S A R policy c i h).1 (key_of S A R policy c i h) ≡ true
    unfolding handle_intent handle_own recorded
    effect-spends c i h hosted =
        let key = key_of S A R policy c i h in
        let (first, spent) = S.try_spend key h.runtime.stores.spent in
        let left =
          after_request-kept key c i (name_of S A R policy c i) first (with_spent S A spent h)
            (I.first key h.runtime.stores.spent hosted.is_first).1 in
        rw hosted.is_own left

    -- On an atomic spent store, once an intent has had its effect, no later intent of the same
    -- request, by name and channel, has one, whatever intents come between.
    pub handle_intent-once :
        (c d : HostCall) (between : List HostCall) (h : AgentHost S A)
        → call_key c h ≡ call_key d h
        → (after_intent c h).runtime.stores.effects ≢ h.runtime.stores.effects
        → (after_intent d (after_intents between (after_intent c h))).runtime.stores.effects
          ≡ (after_intents between (after_intent c h)).runtime.stores.effects
    unfolding after_intent
    handle_intent-once c d between h e changed =
        elim (handle_intent-IsHosted S A R policy c.reading c.intent h) [
          | inl same ↦ absurd (changed same)
          | inr hosted ↦
              let k = after_intents between (after_intent c h) in
              let spent =
                after_intents-kept between (call_key c h) (after_intent c h)
                  (effect-spends c.reading c.intent h hosted) in
              elim (handle_intent-IsHosted S A R policy d.reading d.intent k) [
                | inl same ↦ same
                | inr again ↦ absurd (
                    I.replay (call_key d k) k.runtime.stores.spent
                      (subst (λ j. spent_in k j ≡ true) (e ∙ sym (call_key-kept between c d h))
                        spent)
                      again.is_first)
              ]
        ]
