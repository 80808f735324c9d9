-- ===== src/Host/Hosted.antt =====
-- host.py: what stands behind an effect of the host, and that a request has at most one.
use decision_os_min.Prelude.{
  String, ◌≡◌, refl, ap, sym, subst, ◌∙◌, Bool, true, false, Option, none, some, List, inl, inr,
  ◌⊎◌, Bool-cases,
}
use decision_os_min.Py.{Value, Dict}
use decision_os_min.Py.Exc.{Exc, ok, raise, Exn}
use decision_os_min.Py.Runtime.{Runtime}
use decision_os_min.SpentStore.{SpentStore}
use decision_os_min.Execute.{AuditSink}
use decision_os_min.Sealed.{LegitimacyPolicy, invoke, admit}
use decision_os_min.Sealed.Mediated.{IsMediated, invoke-IsMediated}
use decision_os_min.Host.Intents.{Intent, or_text}
use decision_os_min.Host.Handle.{
  AgentHost, HostReading, error_of, replay_key, is_foreign, invocation_of, recorded, concluded,
  or_escape, after_admit, after_request, with_spent, handle_own, handle_intent,
}

module _ (S : SpentStore) (A : AuditSink) (R : Runtime) (policy : LegitimacyPolicy)
    (c : HostReading) (i : Intent) where
  -- What follows `invoke` leaves the runtime and the channel as they are.
  pub concluded-kept :
      (request : String) (out : Exc Value) (h : AgentHost S A)
      → ((concluded S A R request i out h).1.runtime ≡ h.runtime)
        × ((concluded S A R request i out h).1.bound_agent_id ≡ h.bound_agent_id)
  unfolding concluded recorded
  concluded-kept request (ok output) h = (refl, refl)
  concluded-kept request (raise e) h = by_error (error_of R e)
    where
      by_error :
          (t : Option String)
          → ((or_escape S A request i e t h).1.runtime ≡ h.runtime)
            × ((or_escape S A request i e t h).1.bound_agent_id ≡ h.bound_agent_id)
      by_error none = (refl, refl)
      by_error (some t) = (refl, refl)

  -- the name of the request, and its key in the store
  abbrev pub name_of : String
  name_of = or_text i.request_id c.request_digits

  abbrev pub key_of : AgentHost S A → String
  key_of h = replay_key h.bound_agent_id i.agent_id name_of

  -- What stands behind an effect that led the host from `h` to `k`.
  pub record IsHosted (h k : AgentHost S A) : Type 0 where
    pub is_own : is_foreign h.bound_agent_id i.agent_id ≡ false
    pub is_first : (S.try_spend (key_of h) h.runtime.stores.spent).0 ≡ ok true
    pub ticket : Dict
    pub is_admitted :
        admit S A R c.issued_at c.ticket_digits i.agent_id
          (with_spent S A (S.try_spend (key_of h) h.runtime.stores.spent).1 h).runtime
        ≡ ok ticket
    pub is_mediated :
        IsMediated S A R policy c.invoked
          (invocation_of ticket i)
          (with_spent S A (S.try_spend (key_of h) h.runtime.stores.spent).1 h).runtime
          k.runtime

  -- the effects of a host
  abbrev pub effects_of : AgentHost S A → List (String × Dict)
  effects_of h = h.runtime.stores.effects

  after_admit-effects :
      (request : String) (o : Exc Dict) (h : AgentHost S A)
      → (effects_of (after_admit S A R policy c request i o h).1 ≡ effects_of h)
        ⊎ (ticket : Dict) × (o ≡ ok ticket)
          × IsMediated S A R policy c.invoked
              (invocation_of ticket i)
              h.runtime
              (after_admit S A R policy c request i o h).1.runtime
  unfolding after_admit
  after_admit-effects request (raise e) h = inl refl
  after_admit-effects request (ok ticket) h =
      let (out, runtime) = invoke S A R policy c.invoked (invocation_of ticket i) h.runtime in
      let (same, _) = concluded-kept request out (record h { runtime = runtime }) in
      elim (invoke-IsMediated S A R policy c.invoked (invocation_of ticket i) h.runtime) [
        | inl kept ↦ inl (ap (λ r. r.stores.effects) same ∙ kept)
        | inr mediated ↦ inr (
          ticket,
          refl,
          subst (λ r. IsMediated S A R policy c.invoked (invocation_of ticket i) h.runtime r)
              (sym same) mediated,
        )
      ]

  after_request-effects :
      (request : String) (first : Exc Bool) (h : AgentHost S A)
      → (effects_of (after_request S A R policy c request i first h).1 ≡ effects_of h)
        ⊎ (first ≡ ok true)
          × (ticket : Dict) × (admit S A R c.issued_at c.ticket_digits i.agent_id h.runtime
              ≡ ok ticket)
          × IsMediated S A R policy c.invoked
              (invocation_of ticket i)
              h.runtime
              (after_request S A R policy c request i first h).1.runtime
  unfolding after_request recorded
  after_request-effects request (ok true) h =
      elim (after_admit-effects request
        (admit S A R c.issued_at c.ticket_digits i.agent_id h.runtime) h) [
          | inl kept ↦ inl kept
          | inr (ticket, admitted, mediated) ↦ inr (refl, ticket, admitted, mediated)
        ]
  after_request-effects request (ok false) h = inl refl
  after_request-effects request (raise (Exn.spent_store_unavailable e)) h = inl refl
  after_request-effects request (raise Exn.type_error) h = inl refl
  after_request-effects request (raise e) h = inl refl

  -- An intent leaves the host's effects as they were, or it comes from the channel's own agent, its
  -- request's name is newly spent, and its effect is one that the sealed runtime mediates, under a
  -- ticket that was issued to that agent.
  pub handle_intent-IsHosted :
      (h : AgentHost S A)
      → (effects_of (handle_intent S A R policy c i h).1 ≡ effects_of h)
        ⊎ IsHosted h (handle_intent S A R policy c i h).1
  unfolding handle_intent handle_own recorded
  handle_intent-IsHosted h = elim (Bool-cases (is_foreign h.bound_agent_id i.agent_id)) [
    | inl e ↦ inl (rw e refl)
    | inr e ↦
        let (first, spent) = S.try_spend (key_of h) h.runtime.stores.spent in
        elim (after_request-effects name_of first (with_spent S A spent h)) [
          | inl kept ↦ inl (rw e kept)
          | inr (is_first, ticket, admitted, mediated) ↦ inr (record {
            is_own = e;
            is_first = is_first;
            ticket = ticket;
            is_admitted = admitted;
            is_mediated = rw e mediated;
          })
        ]
  ]
