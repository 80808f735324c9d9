-- ===== src/Sealed/Mediated.antt =====
-- sealed.py: what stands behind an effect of `SealedRuntime.invoke`.
use decision_os_min.Prelude.{◌≡◌, inl, inr, ◌⊎◌, refl, ◌∙◌, ap, sym, subst, Bool, true, false, some}
use decision_os_min.Py.{Value, Dict, get_default}
use decision_os_min.Py.Exc.{Exc, ok, raise, Exn, ok_of_bind, ok_inj}
use decision_os_min.Py.Runtime.{Runtime}
use decision_os_min.Kernel.{decide}
use decision_os_min.SpentStore.{SpentStore}
use decision_os_min.Execute.{AuditSink}
use decision_os_min.Sealed.Admission.{
  verify_ticket, body_of, check_agent, checked_body, spend_key, spend_ticket, consume, admitted,
}
use decision_os_min.Sealed.ToolRegistry.{Callable}
use decision_os_min.Sealed.Legitimacy.{LegitimacyPolicy}
use decision_os_min.Sealed.Defs.{SealedRuntime, Invocation, Reading}
use decision_os_min.Sealed.Checks.{action_of, screened}
use decision_os_min.Sealed.Invoke.{request_of, after_consume, after_screen, invoke}
use decision_os_min.Sealed.Screened.{IsScreened, screened-IsScreened, verified-body}
use decision_os_min.Sealed.Effects.{HasRun, after_decide-HasRun}

module _ (S : SpentStore) (A : AuditSink) (R : Runtime) (policy : LegitimacyPolicy) (c : Reading)
    (v : Invocation) where
  -- What stands behind an effect of `invoke` that led from `s` to `t`.
  pub record IsMediated (s t : SealedRuntime S A) : Type 0 where
    pub fn : Callable
    pub is_passed : screened R s.office s.registry s.agents c v ≡ ok fn
    pub is_screened : IsScreened R s.office s.registry s.agents c v fn
    -- the ticket still verifies when it is spent, and this is the first time
    pub is_checked :
        checked_body R s.office c.consumed_at v.ticket (some v.agent_id) ≡ ok (body_of v.ticket)
    pub is_spent : (S.try_spend (spend_key R (body_of v.ticket)) s.stores.spent).0 ≡ ok true
    pub has_run :
        HasRun S A R policy c v fn
          (action_of c v
            (Value.str is_screened.meta.actor)
            (Value.str is_screened.meta.stakeholder))
          (record s {
            stores = record s.stores {
              spent = (S.try_spend (spend_key R (body_of v.ticket)) s.stores.spent).1;
            };
          })
          t

  -- the state that the spend of the ticket leaves
  abbrev spent_at : S.State → SealedRuntime S A → SealedRuntime S A
  spent_at spent s = record s { stores = record s.stores { spent = spent } }

  abbrev ticket_action : Dict → Dict
  ticket_action body =
      action_of c v (get_default "actor" Value.null body)
        (get_default "stakeholder" Value.null body)

  after_spend-HasRun :
      (fn : Callable) (body : Dict) (first : Exc Bool) (s : SealedRuntime S A)
      → ((after_consume S A R policy c v fn (admitted body first) s).1.stores.effects
          ≡ s.stores.effects)
        ⊎ (first ≡ ok true)
          × HasRun S A R policy c v fn
              (ticket_action body)
              s
              (after_consume S A R policy c v fn (admitted body first) s).1
  unfolding after_consume admitted
  after_spend-HasRun fn body (ok true) s =
      elim (after_decide-HasRun S A R policy c v fn (ticket_action body)
        (decide R s.kernel c.decided_at (request_of R policy) (ticket_action body)) s refl) [
          | inl same ↦ inl same
          | inr run ↦ inr (refl, run)
        ]
  after_spend-HasRun fn body (ok false) s = inl refl
  after_spend-HasRun fn body (raise (Exn.spent_store_unavailable e)) s = inl refl
  after_spend-HasRun fn body (raise Exn.type_error) s = inl refl
  after_spend-HasRun fn body (raise e) s = inl refl

  checked_body-eq :
      (s : SealedRuntime S A) (body : Dict)
      → checked_body R s.office c.consumed_at v.ticket (some v.agent_id) ≡ ok body
      → body ≡ body_of v.ticket
  checked_body-eq s body h =
      ok_of_bind (verify_ticket R s.office c.consumed_at v.ticket) _ h λ b verified rest.
        ok_of_bind (check_agent R v.agent_id b) _ rest
          λ _ _ same. sym (ok_inj same) ∙ verified-body R s.office c.consumed_at v.ticket b verified

  -- the first answer of the store to the spend of a ticket, and the state that it leaves
  abbrev spent_first : Dict → SealedRuntime S A → Exc Bool × S.State
  spent_first body s = S.try_spend (spend_key R body) s.stores.spent

  spent-IsMediated :
      (fn : Callable) (s t : SealedRuntime S A)
      → screened R s.office s.registry s.agents c v ≡ ok fn
      → checked_body R s.office c.consumed_at v.ticket (some v.agent_id) ≡ ok (body_of v.ticket)
      → ((spent_first (body_of v.ticket) s).0 ≡ ok true)
        × HasRun S A R policy c v fn
            (ticket_action (body_of v.ticket))
            (spent_at (spent_first (body_of v.ticket) s).1 s)
            t
      → IsMediated s t
  spent-IsMediated fn s t passed checked (first, run) =
      let i = screened-IsScreened R s.office s.registry s.agents c v fn passed in
      let same : ticket_action (body_of v.ticket)
          ≡ action_of c v (Value.str i.meta.actor) (Value.str i.meta.stakeholder) =
        rw i.is_actor (rw i.is_stakeholder refl) in
      record {
        fn = fn;
        is_passed = passed;
        is_screened = i;
        is_checked = checked;
        is_spent = first;
        has_run =
            subst
              (λ a.
                HasRun S A R policy c v fn a (spent_at (spent_first (body_of v.ticket) s).1 s) t)
              same run;
      }

  -- Every effect of `invoke` is mediated: a call leaves the effects as they were, or the agent is
  -- registered and the ticket verifies for it, its actor and its stakeholder; the ticket was newly
  -- spent; the registry was intact; the kernel decided on the ticket's action, with a bound and
  -- signed decision; the gates let it through; and there is exactly one effect more.
  pub invoke-IsMediated :
      (s : SealedRuntime S A)
      → ((invoke S A R policy c v s).1.stores.effects ≡ s.stores.effects)
        ⊎ IsMediated s (invoke S A R policy c v s).1
  unfolding invoke after_screen consume after_consume spend_ticket
  invoke-IsMediated s = by_screen (screened R s.office s.registry s.agents c v) refl
    where
      -- the runtime after the spend of a ticket with that body
      after_spend : Callable → Dict → SealedRuntime S A
      after_spend fn d =
          (after_consume S A R policy c v fn (admitted d (spent_first d s).0)
            (spent_at (spent_first d s).1 s)).1

      by_body :
          (fn : Callable) (o : Exc Dict)
          → screened R s.office s.registry s.agents c v ≡ ok fn
          → checked_body R s.office c.consumed_at v.ticket (some v.agent_id) ≡ o
          → ((after_consume S A R policy c v fn
                (spend_ticket S R o s.stores.spent).0
                (spent_at (spend_ticket S R o s.stores.spent).1 s)).1.stores.effects
              ≡ s.stores.effects)
            ⊎ IsMediated s
                (after_consume S A R policy c v fn
                  (spend_ticket S R o s.stores.spent).0
                  (spent_at (spend_ticket S R o s.stores.spent).1 s)).1
      by_body fn (raise e) i b = inl refl
      by_body fn (ok body) i b =
          let own = body_of v.ticket in
          let same = checked_body-eq s body b in
          subst
            (λ d.
              ((after_spend fn d).stores.effects ≡ s.stores.effects)
              ⊎ IsMediated s (after_spend fn d))
            (sym same)
            (elim (after_spend-HasRun fn own (spent_first own s).0
              (spent_at (spent_first own s).1 s)) [
                | inl kept ↦ inl kept
                | inr run ↦ inr (spent-IsMediated fn s (after_spend fn own) i (b ∙ ap ok same) run)
              ])

      by_screen :
          (o : Exc Callable)
          → screened R s.office s.registry s.agents c v ≡ o
          → ((after_screen S A R policy c v o s).1.stores.effects ≡ s.stores.effects)
            ⊎ IsMediated s (after_screen S A R policy c v o s).1
      by_screen (raise e) i = inl refl
      by_screen (ok fn) i =
          by_body fn (checked_body R s.office c.consumed_at v.ticket (some v.agent_id)) i refl
