-- ===== src/Service/Counted.antt =====
-- service.py: the rulings that a service with a `HashLog` hands out are numbered without a gap, and
-- counted.
use mathlib.Core.Path.{ap₂}
use decision_os_min.Prelude.{
  ℕ, ◌+◌, ◌≡◌, ◌≢◌, refl, sym, ◌∙◌, ap, ◌⊎◌, inl, inr, String, Option, none, some, List, [], ◌∷◌,
  arith, ◌==◌, Bool-cases, Table, find, store, length,
}
use decision_os_min.Py.{Value, Dict, ℤ, get, put}
use decision_os_min.Py.Exc.{Exc, ok, raise, Exn, ok_inj}
use decision_os_min.Py.Runtime.{Runtime}
use decision_os_min.Compose.{text}
use decision_os_min.Kernel.{Moment}
use decision_os_min.Execute.{AuditLine, field}
use decision_os_min.Audit
use decision_os_min.Service.Endpoints.{
  Recorder, LogFile, next_write, numbered, hash_log, App, ActionIn, Response, answered, http_error,
  failed, DecisionOut, count, decision_out, line_of, post_decide,
}
use decision_os_min.Service.Recorded.{IsRecorded, IsWithheld, post_decide-Handled}

-- The sum of the counters.
unfoldable pub total : Table ℕ → ℕ
total [] = 0
total ((k, n) ∷ t) = n + total t

total-store : (k : String) (w : ℕ) (t : Table ℕ) → total (store k w t) + find 0 k t ≡ total t + w
unfolding total store find
total-store k w [] = omega arith
total-store k w ((j, n) ∷ t) = elim (Bool-cases (j == k)) [
  | inl e ↦ rw e (omega arith)
  | inr e ↦ rw e (omega (arith, total-store k w t))
]

total-count : (verdict : String) (t : Table ℕ) → total (count verdict t) ≡ total t + 1
unfolding count
total-count verdict t = omega (arith, total-store verdict (find 0 verdict t + 1) t)

-- A write gives the log's number and counts on, or it fails, and the number stays.
abbrev Counts : ℕ → Exc Value × LogFile → Type 0
Counts seq (out, s) =
    (out ≡ ok (Value.int (ℤ.pos seq))) × (s.log.seq ≡ seq + 1)
    ⊎ ((e : Exn) × (out ≡ raise e) × (s.log.seq ≡ seq))

hash_log-write :
    (R : Runtime) (dump_line : Value → Option String) (now : ℕ) (line : AuditLine) (s : LogFile)
    → Counts s.log.seq ((hash_log R dump_line).write now line s)
unfolding Audit.append_entry Audit.written Audit.left_behind
hash_log-write R dump_line now line s = by_line (dump_line (Value.dict row)) (next_write s.disk).0
  where
    row : Dict
    row = Audit.hashed R (Audit.unhashed R now line s.log)

    digest : String
    digest = Audit.entry_hash R (Audit.unhashed R now line s.log)

    left_behind-seq : (t : String) (n : ℕ) → (Audit.left_behind t n s.log).seq ≡ s.log.seq
    left_behind-seq t Prim.Native.Nat.zero = refl
    left_behind-seq t (Prim.Native.Nat.suc n) = refl

    by_line :
        (o : Option String) (w : Audit.Write)
        → Counts s.log.seq (
            numbered
              (
                Audit.published none s.log.seq digest (Audit.written w row digest o s.log).0,
                (Audit.written w row digest o s.log).1,
              )
              (next_write s.disk).1)
    by_line none w = inr (Exn.type_error, refl, refl)
    by_line (some t) Audit.flushed =
        inl ((unfold field Audit.hashed Audit.unhashed put get in refl), refl)
    by_line (some t) (Audit.broken e n) = inr (Exn.os_error e, refl, left_behind-seq t n)

-- One call of POST /v1/decide.
pub record Call : Type 0 where
  pub moment : Moment
  pub now : ℕ
  pub action : ActionIn

-- The answers to some calls in their order, and the service after them.
unfoldable pub serve :
    (A : Recorder) → Runtime → List Call → App A → List (Response DecisionOut) × App A
serve A R [] s = ([], s)
serve A R (c ∷ cs) s =
    let (response, after) = post_decide A R c.moment c.now c.action s in
    let (responses, last) = serve A R cs after in (response ∷ responses, last)

-- The numbers that the answers name.
unfoldable pub numbers : List (Response DecisionOut) → List Value
numbers [] = []
numbers (answered d ∷ rs) = d.audit_seq ∷ numbers rs
numbers (http_error _ _ ∷ rs) = numbers rs
numbers (failed _ ∷ rs) = numbers rs

-- `n`, `n + 1` and so on, as many as there are calls answered.
unfoldable pub numbers_from : ℕ → ℕ → List Value
numbers_from n Prim.Native.Nat.zero = []
numbers_from n (Prim.Native.Nat.suc k) = Value.int (ℤ.pos n) ∷ numbers_from (n + 1) k

-- The answers are numbered from the log's number on, and the log and the counters count them.
pub record IsNumbered (responses : List (Response DecisionOut)) (seq counted seq' counted' : ℕ)
    : Type 0 where
  pub is_consecutive : numbers responses ≡ numbers_from seq (length (numbers responses))
  pub is_logged : seq' ≡ seq + length (numbers responses)
  pub is_counted : counted' ≡ counted + length (numbers responses)

-- What one call does to the numbers: an answer takes the log's, and all else leaves them.
abbrev Steps : Response DecisionOut → ℕ → ℕ → ℕ → ℕ → Type 0
Steps response seq counted seq' counted' =
    ((d : DecisionOut) × (response ≡ answered d)
      × (d.audit_seq ≡ Value.int (ℤ.pos seq))
      × (seq' ≡ seq + 1)
      × (counted' ≡ counted + 1))
    ⊎ (((d : DecisionOut) → response ≢ answered d) × (seq' ≡ seq) × (counted' ≡ counted))

numbers-unanswered :
    (r : Response DecisionOut) (rs : List (Response DecisionOut))
    → ((d : DecisionOut) → r ≢ answered d)
    → numbers (r ∷ rs) ≡ numbers rs
unfolding numbers
numbers-unanswered (answered d) rs h = absurd (h d refl)
numbers-unanswered (http_error n t) rs h = refl
numbers-unanswered (failed e) rs h = refl

Steps-IsNumbered :
    (r : Response DecisionOut) (rs : List (Response DecisionOut)) (n m n' m' n'' m'' : ℕ)
    → Steps r n m n' m'
    → IsNumbered rs n' m' n'' m''
    → IsNumbered (r ∷ rs) n m n'' m''
unfolding numbers numbers_from
Steps-IsNumbered r rs n m n' m' n'' m'' (inl (d, same, first, seq, counted)) rest = rw same record {
  is_consecutive =
      ap₂ ◌∷◌ first (rest.is_consecutive ∙ ap (λ x. numbers_from x (length (numbers rs))) seq);
  is_logged = omega (arith, rest.is_logged, seq);
  is_counted = omega (arith, rest.is_counted, counted);
}
Steps-IsNumbered r rs n m n' m' n'' m'' (inr (unanswered, seq, counted)) rest = record {
  is_consecutive = rw (numbers-unanswered r rs unanswered, ← seq) rest.is_consecutive;
  is_logged = rw (numbers-unanswered r rs unanswered, ← seq) rest.is_logged;
  is_counted = rw (numbers-unanswered r rs unanswered, ← counted) rest.is_counted;
}

module _ (R : Runtime) (dump_line : Value → Option String) where
  recorded-Steps :
      (m : Moment) (now : ℕ) (a : ActionIn) (s s' : App (hash_log R dump_line))
      (response : Response DecisionOut)
      → IsRecorded (hash_log R dump_line) R m now a s response s'
      → Steps response s.log.log.seq (total s.metrics) s'.log.log.seq (total s'.metrics)
  recorded-Steps m now a s s' response x =
      elim (hash_log-write R dump_line now (line_of a x.verdict x.reason) s.log) [
        | inl (given, next) ↦ inl (
          decision_out x.ruling x.seq,
          x.is_answered,
          (unfold decision_out in ok_inj (sym x.is_written ∙ given)),
          ap (λ y. y.log.log.seq) x.is_after ∙ next,
          ap (λ y. total y.metrics) x.is_after ∙ total-count (text R x.verdict) s.metrics,
        )
        | inr (e, raised_e, same) ↦ absurd (clash (sym x.is_written ∙ raised_e))
      ]
    where
      clash : {v : Value} {e : Exn} → ◌≡◌ {A = Exc Value} (ok v) (raise e) → ⊥
      clash h = cc

  withheld-Steps :
      (m : Moment) (now : ℕ) (a : ActionIn) (s s' : App (hash_log R dump_line))
      (response : Response DecisionOut)
      → IsWithheld (hash_log R dump_line) R m now a s response s'
      → Steps response s.log.log.seq (total s.metrics) s'.log.log.seq (total s'.metrics)
  withheld-Steps m now a s s' response x = elim x.is_after [
    | inl (same, _, _, _) ↦
        inr (x.is_unanswered, ap (λ y. y.log.log.seq) same, ap (λ y. total y.metrics) same)
    | inr (verdict, reason, e, _, failed_e, after, _) ↦
        elim (hash_log-write R dump_line now (line_of a verdict reason) s.log) [
          | inl (given, next) ↦ absurd (clash (sym given ∙ failed_e))
          | inr (e', _, same) ↦ inr (
            x.is_unanswered,
            ap (λ y. y.log.log.seq) after ∙ same,
            ap (λ y. total y.metrics) after,
          )
        ]
  ]
    where
      clash : {v : Value} {e : Exn} → ◌≡◌ {A = Exc Value} (ok v) (raise e) → ⊥
      clash h = cc

-- Whatever calls come, and however the writes of their lines end, a service with a `HashLog` numbers
-- its answers without a gap from the number that the log had, and the log's number and the sum of the
-- counters grow by the number of answers.
pub serve-IsNumbered :
    (R : Runtime) (dump_line : Value → Option String) (calls : List Call)
    (s : App (hash_log R dump_line))
    → IsNumbered
        (serve (hash_log R dump_line) R calls s).0
        s.log.log.seq
        (total s.metrics)
        (serve (hash_log R dump_line) R calls s).1.log.log.seq
        (total (serve (hash_log R dump_line) R calls s).1.metrics)
unfolding serve
serve-IsNumbered R dump_line [] s = record {
  is_consecutive = unfold numbers numbers_from in refl;
  is_logged = unfold numbers in omega arith;
  is_counted = unfold numbers in omega arith;
}
serve-IsNumbered R dump_line (c ∷ cs) s =
    let (response, after) = post_decide (hash_log R dump_line) R c.moment c.now c.action s in
    Steps-IsNumbered response _ _ _ _ _ _ _
      (elim (post_decide-Handled (hash_log R dump_line) R c.moment c.now c.action s) [
        | inl x ↦ recorded-Steps R dump_line c.moment c.now c.action s _ _ x
        | inr x ↦ withheld-Steps R dump_line c.moment c.now c.action s _ _ x
      ])
      (serve-IsNumbered R dump_line cs after)
