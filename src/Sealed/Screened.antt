-- ===== src/Sealed/Screened.antt =====
-- sealed.py: what the checks of `invoke` before the spend of the ticket establish.
use decision_os_min.Prelude.{
  ℕ, String, ◌≡◌, ◌∙◌, ap, sym, true, Option, none, some, arith, eq_iff, Table, find?,
}
use decision_os_min.Py.{Value, Dict, get_default}
use decision_os_min.Py.Exc.{ok, ok_of_bind, ok_inj}
use decision_os_min.Py.Runtime.{Runtime}
use decision_os_min.Sealed.Admission.{
  AdmissionOffice, verify_ticket, body_of, equals, check_agent, check_ticket_expiry,
  check_ticket_signature,
}
use decision_os_min.Sealed.ToolRegistry.{Callable, Registry, live_body}
use decision_os_min.Sealed.Defs.{AgentMeta, Invocation, Reading}
use decision_os_min.Sealed.Checks.{check_meta, known_agent, screened}

pub equals-eq : (v : Value) (t : String) → equals v t ≡ true → v ≡ Value.str t
equals-eq (Value.str s) t h = ground (arith, eq_iff s t)
equals-eq _ t h = cc

pub agent-eq :
    (R : Runtime) (agent : String) (body : Dict)
    → check_agent R agent body ≡ ok tt
    → get_default "agent_id" (Value.str "") body ≡ Value.str agent
unfolding check_agent
agent-eq R agent body h =
    ground (arith, equals-eq (get_default "agent_id" (Value.str "") body) agent)

pub verified-body :
    (R : Runtime) (office : AdmissionOffice) (now : ℕ) (ticket body : Dict)
    → verify_ticket R office now ticket ≡ ok body
    → body ≡ body_of ticket
unfolding verify_ticket
verified-body R office now ticket body h =
    ok_of_bind (check_ticket_expiry R now (get_default "expires_at" (Value.str "") ticket)) _ h
      λ _ _ rest.
        ok_of_bind
          (check_ticket_signature R office (body_of ticket)
            (get_default "signature" (Value.str "") ticket))
          _ rest λ _ _ same. sym (ok_inj same)

-- What the checks before the spend establish.
pub record IsScreened (R : Runtime) (office : AdmissionOffice) (registry : Registry)
    (agents : Table AgentMeta) (c : Reading) (v : Invocation) (fn : Callable) : Type 0 where
  pub meta : AgentMeta
  pub is_registered : find? v.agent_id agents ≡ some meta
  pub is_verified : verify_ticket R office c.verified_at v.ticket ≡ ok (body_of v.ticket)
  pub is_agent : get_default "agent_id" (Value.str "") (body_of v.ticket) ≡ Value.str v.agent_id
  pub is_actor : get_default "actor" Value.null (body_of v.ticket) ≡ Value.str meta.actor
  pub is_stakeholder :
      get_default "stakeholder" Value.null (body_of v.ticket) ≡ Value.str meta.stakeholder
  pub is_live : live_body R registry v.tool ≡ ok fn

known_agent-eq :
    (R : Runtime) (agent : String) (o : Option AgentMeta) (meta : AgentMeta)
    → known_agent R agent o ≡ ok meta
    → o ≡ some meta
known_agent-eq R agent none meta h = cc
known_agent-eq R agent (some m) meta h = ap some (ok_inj h)

meta-eqs :
    (R : Runtime) (agent : String) (meta : AgentMeta) (body : Dict)
    → check_meta R agent meta body ≡ ok tt
    → (get_default "agent_id" (Value.str "") body ≡ Value.str agent)
      × (get_default "actor" Value.null body ≡ Value.str meta.actor)
      × (get_default "stakeholder" Value.null body ≡ Value.str meta.stakeholder)
unfolding check_meta
meta-eqs R agent meta body h = ok_of_bind (check_agent R agent body) _ h λ _ e rest. (
  agent-eq R agent body e,
  ground (arith, equals-eq (get_default "actor" Value.null body) meta.actor),
  ground (arith, equals-eq (get_default "stakeholder" Value.null body) meta.stakeholder),
)

pub screened-IsScreened :
    (R : Runtime) (office : AdmissionOffice) (registry : Registry) (agents : Table AgentMeta)
    (c : Reading) (v : Invocation) (fn : Callable)
    → screened R office registry agents c v ≡ ok fn
    → IsScreened R office registry agents c v fn
unfolding screened
screened-IsScreened R office registry agents c v fn h =
    ok_of_bind (known_agent R v.agent_id (find? v.agent_id agents)) _ h λ meta known h1.
      ok_of_bind (verify_ticket R office c.verified_at v.ticket) _ h1 λ body verified h2.
        ok_of_bind (check_meta R v.agent_id meta body) _ h2 λ _ checked live.
          let same = verified-body R office c.verified_at v.ticket body verified in
          let (agent, actor, stakeholder) = meta-eqs R v.agent_id meta body checked in
          record {
            meta = meta;
            is_registered = known_agent-eq R v.agent_id (find? v.agent_id agents) meta known;
            is_verified = verified ∙ ap ok same;
            is_agent = rw (← same) agent;
            is_actor = rw (← same) actor;
            is_stakeholder = rw (← same) stakeholder;
            is_live = live;
          }
