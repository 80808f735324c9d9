-- ===== src/Sealed/Admission.antt =====
-- `AdmissionOffice`: signed tickets of one use. A ticket is the dict that `verify` makes of it.
use decision_os_min.Prelude.{
  ℕ, ◌+◌, String, ◌⧺◌, Bool, true, false, not, ◌||◌, Option, none, some, ◌==◌, if◌then◌else◌,
}
use decision_os_min.Py.{Value, Dict, get_default}
use decision_os_min.Py.Exc.{Exc, ok, raise, Exn, ◌>>=◌, ◌>>◌, raise_if}
use decision_os_min.Py.Runtime.{Runtime, DateTime}
use decision_os_min.Py.Times.{reached}
use decision_os_min.Compose.{text}
use decision_os_min.SpentStore.{SpentStore}

-- The private key of the office and the lifetime of a ticket, in microseconds.
pub record AdmissionOffice : Type 0 where
  pub key : String
  pub ttl : ℕ

-- `_canon`
unfoldable pub canon : Runtime → Dict → String
canon R obj = R.dumps (Value.dict obj)

-- The dict that is signed.
abbrev pub ticket_body : Value → Value → Value → Value → Value → Dict
ticket_body actor stakeholder agent expires nonce = Dict.entry "actor" actor (
    Dict.entry "stakeholder" stakeholder (
      Dict.entry "agent_id" agent
        (Dict.entry "expires_at" expires (Dict.entry "nonce" nonce Dict.end))))

-- `AdmissionTicket.as_dict`
abbrev pub ticket_of : Value → Value → Value → Value → Value → Value → Dict
ticket_of actor stakeholder expires nonce signature agent = Dict.entry "actor" actor (
    Dict.entry "stakeholder" stakeholder (
      Dict.entry "expires_at" expires (
        Dict.entry "nonce" nonce
          (Dict.entry "signature" signature (Dict.entry "agent_id" agent Dict.end)))))

-- `issue`, at the hex digits that `uuid4` gave
unfoldable pub issue : Runtime → AdmissionOffice → ℕ → String → String → String → String → Dict
issue R office now digits actor stakeholder agent =
    let expires = Value.str (R.isoformat (now + office.ttl)) in
    let body =
      ticket_body (Value.str actor) (Value.str stakeholder) (Value.str agent) expires
        (Value.str digits) in
    ticket_of (Value.str actor) (Value.str stakeholder) expires (Value.str digits)
      (Value.str (R.sign office.key (canon R body))) (Value.str agent)

abbrev invalid_ticket {ℓ} : {A : Type ℓ} → Runtime → String → Exc A
invalid_ticket R c = raise (Exn.admission_error ("admission ticket invalid: " ⧺ R.error_text c))

abbrev pub expired_ticket : Runtime → Exc Bool → Exc (Unit {0})
expired_ticket R (ok true) = raise (Exn.admission_error "admission ticket expired")
expired_ticket R (ok false) = ok tt
expired_ticket R (raise _) = invalid_ticket R "TypeError"

abbrev pub ticket_time : Runtime → ℕ → Option DateTime → Exc (Unit {0})
ticket_time R now none = invalid_ticket R "ValueError"
ticket_time R now (some t) = expired_ticket R (reached now t)

unfoldable pub check_ticket_expiry : Runtime → ℕ → Value → Exc (Unit {0})
check_ticket_expiry R now (Value.str s) = ticket_time R now (R.fromisoformat s)
check_ticket_expiry R now _ = invalid_ticket R "TypeError"

-- Every value is a text.
unfoldable pub all_texts : Dict → Bool
all_texts Dict.end = true
all_texts (Dict.entry k (Value.str s) d) = all_texts d
all_texts (Dict.entry k v d) = false
all_texts (Dict.odd_entry k v d) = false

-- `_canon` raises not: a dict of texts can always be printed.
unfoldable pub canonizes : Runtime → Dict → Bool
canonizes R d = all_texts d || R.prints (Value.dict d)

unfoldable pub check_ticket_signature : Runtime → AdmissionOffice → Dict → Value → Exc (Unit {0})
check_ticket_signature R office body (Value.str s) =
    if not (canonizes R body)
    then invalid_ticket R "TypeError"
    else if R.verify_signature (R.public_key office.key) s (canon R body)
    then ok tt
    else invalid_ticket R "InvalidSignature"
check_ticket_signature R office body _ = invalid_ticket R "TypeError"

-- the fields of a ticket that are signed
unfoldable pub body_of : Dict → Dict
body_of ticket =
    ticket_body (get_default "actor" (Value.str "") ticket)
      (get_default "stakeholder" (Value.str "") ticket)
      (get_default "agent_id" (Value.str "") ticket)
      (get_default "expires_at" (Value.str "") ticket) (get_default "nonce" (Value.str "") ticket)

-- `verify`
unfoldable pub verify_ticket : Runtime → AdmissionOffice → ℕ → Dict → Exc Dict
verify_ticket R office now ticket = do
  let body = body_of ticket
  check_ticket_expiry R now (get_default "expires_at" (Value.str "") ticket)
  check_ticket_signature R office body (get_default "signature" (Value.str "") ticket)
  ok body

-- `a == t` for a text `t`
abbrev pub equals : Value → String → Bool
equals (Value.str s) t = s == t
equals _ t = false

abbrev agent_of : Dict → Value
agent_of body = get_default "agent_id" (Value.str "") body

-- `ticket agent_id … does not match …`
unfoldable pub check_agent : Runtime → String → Dict → Exc (Unit {0})
check_agent R agent body = raise_if (not (equals (agent_of body) agent)) (
    Exn.admission_error
      ("ticket agent_id " ⧺ R.repr (agent_of body) ⧺ " does not match " ⧺ R.repr (Value.str agent)))

abbrev pub check_expected : Runtime → Option String → Dict → Exc (Unit {0})
check_expected R none body = ok tt
check_expected R (some agent) body = check_agent R agent body

-- the key under which a ticket is spent
unfoldable pub spend_key : Runtime → Dict → String
spend_key R body = "adm:" ⧺ text R (get_default "nonce" Value.null body)

unfoldable pub admitted : Dict → Exc Bool → Exc (Value × Value)
admitted body (ok true) =
    ok (get_default "actor" Value.null body, get_default "stakeholder" Value.null body)
admitted body (ok false) = raise (Exn.admission_error "admission ticket already spent (replay)")
admitted body (raise (Exn.spent_store_unavailable e)) =
    raise (Exn.admission_error ("admission spent-store unavailable (fail-closed): " ⧺ e))
admitted body (raise e) = raise e

abbrev pub checked_body : Runtime → AdmissionOffice → ℕ → Dict → Option String → Exc Dict
checked_body R office now ticket expected = do
  body ← verify_ticket R office now ticket
  check_expected R expected body
  ok body

-- The spend of a ticket that was checked.
unfoldable pub spend_ticket :
    (S : SpentStore) → Runtime → Exc Dict → S.State → Exc (Value × Value) × S.State
spend_ticket S R (raise e) s = (raise e, s)
spend_ticket S R (ok body) s =
    (admitted body (S.try_spend (spend_key R body) s).0, (S.try_spend (spend_key R body) s).1)

-- `consume`
unfoldable pub consume :
    (S : SpentStore)
    → Runtime
    → AdmissionOffice
    → ℕ
    → Dict
    → Option String
    → S.State
    → Exc (Value × Value) × S.State
consume S R office now ticket expected s =
    spend_ticket S R (checked_body R office now ticket expected) s
