-- ===== src/Host/Answers.antt =====
-- host.py: every intent of an enrolled agent is answered, and its answer is on record.
use decision_os_min.Prelude.{
  String, ◌≡◌, refl, Bool, true, false, some, [], ◌∷◌, ◌++◌, Bool-cases, inl, inr, ◌⊎◌, find?,
}
use decision_os_min.Py.{Value, Dict}
use decision_os_min.Py.Exc.{Exc, ok, raise, Exn}
use decision_os_min.Py.Runtime.{Runtime}
use decision_os_min.SpentStore.{SpentStore}
use decision_os_min.Execute.{AuditSink}
use decision_os_min.Sealed.{LegitimacyPolicy, AgentMeta, SealedRuntime, invoke, admit, issue}
use decision_os_min.Host.Intents.{Intent}
use decision_os_min.Host.Handle.{
  HostedEvidence, AgentHost, HostReading, error_of, is_foreign, invocation_of, recorded, concluded,
  after_admit, after_request, with_spent, handle_own, handle_intent,
}
use decision_os_min.Host.Hosted.{name_of, key_of}

-- An answer that a store gives, or its documented error.
abbrev pub IsStoreAnswer : Exc Bool → Type 0
IsStoreAnswer a =
    ((first : Bool) × (a ≡ ok first)) ⊎ (t : String) × (a ≡ raise (Exn.spent_store_unavailable t))

module _ (S : SpentStore) (A : AuditSink) (R : Runtime) (policy : LegitimacyPolicy)
    (c : HostReading) (i : Intent) where
  -- The answer to an intent, which is the last of the host's evidence.
  abbrev pub IsAnswered : AgentHost S A → Exc HostedEvidence × AgentHost S A → Type 0
  IsAnswered h out = (e : HostedEvidence) × (out.0 ≡ ok e) × (out.1.evidence ≡ h.evidence ++ e ∷ [])

  -- the ticket that the host issues to an enrolled agent
  abbrev pub own_ticket : AgentMeta → SealedRuntime S A → Dict
  own_ticket meta s =
      issue R s.office c.issued_at c.ticket_digits meta.actor meta.stakeholder i.agent_id

  -- what the sealed runtime answers to that ticket
  abbrev pub own_call : AgentMeta → SealedRuntime S A → Exc Value
  own_call meta s = (invoke S A R policy c.invoked (invocation_of (own_ticket meta s) i) s).0

  -- An exception, if there is one, is an `Exception`.
  abbrev pub RaisesException : Exc Value → Type 0
  RaisesException out = (e : Exn) → out ≡ raise e → (t : String) × (error_of R e ≡ some t)

  recorded-IsAnswered : (e : HostedEvidence) (h : AgentHost S A) → IsAnswered h (recorded S A e h)
  unfolding recorded
  recorded-IsAnswered e h = (e, refl, refl)

  concluded-IsAnswered :
      (request : String) (out : Exc Value) (h : AgentHost S A)
      → RaisesException out
      → IsAnswered h (concluded S A R request i out h)
  unfolding concluded
  concluded-IsAnswered request (ok output) h b = recorded-IsAnswered _ h
  concluded-IsAnswered request (raise e) h b =
      let (t, named) = b e refl in rw named (recorded-IsAnswered _ h)

  after_admit-IsAnswered :
      (request : String) (meta : AgentMeta) (h : AgentHost S A)
      → find? i.agent_id h.runtime.agents ≡ some meta
      → RaisesException (own_call meta h.runtime)
      → IsAnswered h (
          after_admit S A R policy c request i
            (admit S A R c.issued_at c.ticket_digits i.agent_id h.runtime)
            h)
  unfolding after_admit admit
  after_admit-IsAnswered request meta h e b =
      let (out, runtime) =
        invoke S A R policy c.invoked (invocation_of (own_ticket meta h.runtime) i) h.runtime in
      rw e (concluded-IsAnswered request out (record h { runtime = runtime }) b)

  after_request-IsAnswered :
      (request : String) (first : Exc Bool) (h : AgentHost S A) (meta : AgentMeta)
      → find? i.agent_id h.runtime.agents ≡ some meta
      → IsStoreAnswer first
      → RaisesException (own_call meta h.runtime)
      → IsAnswered h (after_request S A R policy c request i first h)
  unfolding after_request
  after_request-IsAnswered request (ok true) h meta e a b =
      after_admit-IsAnswered request meta h e b
  after_request-IsAnswered request (ok false) h meta e a b = recorded-IsAnswered _ h
  after_request-IsAnswered request (raise (Exn.spent_store_unavailable t)) h meta e a b =
      recorded-IsAnswered _ h
  after_request-IsAnswered request (raise x) h meta e (inl (first, same)) b = absurd cc
  after_request-IsAnswered request (raise x) h meta e (inr (t, same)) b = absurd cc

  -- the host once the request's name is spent
  abbrev pub once_spent : AgentHost S A → AgentHost S A
  once_spent h = with_spent S A (S.try_spend (key_of S A R policy c i h) h.runtime.stores.spent).1 h

  -- Where the store answers or is unavailable, and its call of `invoke` raises nothing but an
  -- `Exception`, every intent that names an enrolled agent is answered, whatever becomes of it, and its answer is on
  -- record as the last of the host's evidence.
  pub handle_intent-IsAnswered :
      (h : AgentHost S A) (meta : AgentMeta)
      → find? i.agent_id h.runtime.agents ≡ some meta
      → IsStoreAnswer (S.try_spend (key_of S A R policy c i h) h.runtime.stores.spent).0
      → RaisesException (own_call meta (once_spent h).runtime)
      → IsAnswered h (handle_intent S A R policy c i h)
  unfolding handle_intent handle_own
  handle_intent-IsAnswered h meta e a b =
      let (first, spent) = S.try_spend (key_of S A R policy c i h) h.runtime.stores.spent in
      let rest =
        after_request-IsAnswered (name_of S A R policy c i) first (with_spent S A spent h) meta e a
          b in
      elim (Bool-cases (is_foreign h.bound_agent_id i.agent_id)) [
        | inl f ↦ rw f (recorded-IsAnswered _ h)
        | inr f ↦ rw f rest
      ]
