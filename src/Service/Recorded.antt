-- ===== src/Service/Recorded.antt =====
-- service.py: no ruling leaves the service without its line, and the counters count what left.
use decision_os_min.Prelude.{
  ℕ, ◌≡◌, ◌≢◌, refl, ◌∙◌, ap, ◌⊎◌, inl, inr, String, ◌⧺◌, some, Option-cases,
}
use decision_os_min.Py.{Value, Dict, get}
use decision_os_min.Py.Exc.{Exc, ok, raise, Exn, ok_of_bind, ok_inj}
use decision_os_min.Py.Runtime.{Runtime}
use decision_os_min.Compose.{text}
use decision_os_min.Kernel.{Moment, Ruling, decide}
use decision_os_min.Execute.{field}
use decision_os_min.Service.Endpoints.{
  Recorder, App, ActionIn, dumped, request_for, Response, answered, http_error, failed, DecisionOut,
  count, decision_out, after_line, line_of, verdict_and_reason, after_ruling, settle, post_decide,
}

-- The call is answered by the kernel's ruling, whose line the log took and gave the number of, and
-- the counter of its verdict is one higher.
pub record IsRecorded (A : Recorder) (R : Runtime) (m : Moment) (now : ℕ) (a : ActionIn) (s : App A)
    (response : Response DecisionOut) (after : App A) : Type 0 where
  pub ruling : Ruling
  pub is_ruled : decide R s.kernel m (request_for a) (dumped a) ≡ ok ruling
  pub verdict : Value
  pub reason : Value
  pub has_verdict : get "verdict" ruling.decision ≡ some verdict
  pub has_reason : get "reason" ruling.decision ≡ some reason
  pub seq : Value
  pub is_written : (A.write now (line_of a verdict reason) s.log).0 ≡ ok seq
  pub is_answered : response ≡ answered (decision_out ruling seq)
  pub is_after : after ≡ record s {
    log = (A.write now (line_of a verdict reason) s.log).1;
    metrics = count (text R verdict) s.metrics;
  }

-- No line is tried: the kernel raised, or its ruling lacks a verdict or a reason.
abbrev pub IsUnruled : {A : Recorder} → Runtime → Moment → ActionIn → App A → Exn → Type 0
IsUnruled R m a s e =
    (decide R s.kernel m (request_for a) (dumped a) ≡ raise e)
    ⊎ (ruling : Ruling) × (decide R s.kernel m (request_for a) (dumped a) ≡ ok ruling)
      × (verdict_and_reason ruling.decision ≡ raise e)

-- The kernel's ruling has the verdict and the reason.
abbrev pub IsRuled : {A : Recorder} → Runtime → Moment → ActionIn → App A → Value → Value → Type 0
IsRuled R m a s verdict reason =
    (ruling : Ruling) × (decide R s.kernel m (request_for a) (dumped a) ≡ ok ruling)
    × (get "verdict" ruling.decision ≡ some verdict)
    × (get "reason" ruling.decision ≡ some reason)

-- Nothing is handed out, as there was no line to write and all stays, or as the write of the kernel's
-- line failed, when only the log may have changed, which a sink that is out of order makes a 503.
pub record IsWithheld (A : Recorder) (R : Runtime) (m : Moment) (now : ℕ) (a : ActionIn) (s : App A)
    (response : Response DecisionOut) (after : App A) : Type 0 where
  pub is_unanswered : (d : DecisionOut) → response ≢ answered d
  pub is_after :
      ((after ≡ s) × (e : Exn) × (response ≡ failed e) × IsUnruled R m a s e)
      ⊎ ((verdict reason : Value) × (e : Exn) × IsRuled R m a s verdict reason
          × ((A.write now (line_of a verdict reason) s.log).0 ≡ raise e)
          × (after ≡ record s { log = (A.write now (line_of a verdict reason) s.log).1 })
          × ((t : String)
              → e ≡ Exn.os_error t
              → response ≡ http_error 503 ("audit sink unavailable: " ⧺ t)))

abbrev Handled :
    (A : Recorder) → Runtime → Moment → ℕ → ActionIn → App A → Response DecisionOut × App A → Type 0
Handled A R m now a s out =
    IsRecorded A R m now a s out.0 out.1 ⊎ IsWithheld A R m now a s out.0 out.1

failed-Withheld :
    (A : Recorder) (R : Runtime) (m : Moment) (now : ℕ) (a : ActionIn) (s : App A) (e : Exn)
    → IsUnruled R m a s e
    → IsWithheld A R m now a s (failed e) s
failed-Withheld A R m now a s e unruled = record {
  is_unanswered = λ d h. cc;
  is_after = inl (refl, e, refl, unruled);
}

field-get : (k : String) (d : Dict) (v : Value) → field k d ≡ ok v → get k d ≡ some v
unfolding field
field-get k d v h = elim (Option-cases (get k d)) [
  | inl e ↦ absurd (missing (rw (e, field) at h))
  | inr (w, e) ↦ e ∙ ap some (ok_inj (rw (e, field) at h))
]
  where
    missing : ◌≡◌ {A = Exc Value} (raise Exn.key_error) (ok v) → ⊥
    missing h = cc

module _ (A : Recorder) (R : Runtime) (m : Moment) (now : ℕ) (a : ActionIn) (s : App A) where
  by_line :
      (ruling : Ruling) (verdict reason : Value) (out : Exc Value × A.State)
      → decide R s.kernel m (request_for a) (dumped a) ≡ ok ruling
      → get "verdict" ruling.decision ≡ some verdict
      → get "reason" ruling.decision ≡ some reason
      → A.write now (line_of a verdict reason) s.log ≡ out
      → Handled A R m now a s (after_line s ruling (text R verdict) out)
  unfolding after_line
  by_line ruling verdict reason (ok seq, log) ruled v r written = inl record {
    ruling = ruling;
    is_ruled = ruled;
    verdict = verdict;
    reason = reason;
    has_verdict = v;
    has_reason = r;
    seq = seq;
    is_written = ap (λ x. x.0) written;
    is_answered = refl;
    is_after = rw written refl;
  }
  by_line ruling verdict reason (raise (Exn.os_error t), log) ruled v r written = inr record {
    is_unanswered = λ d h. cc;
    is_after = inr (
      verdict,
      reason,
      Exn.os_error t,
      (ruling, ruled, v, r),
      ap (λ x. x.0) written,
      rw written refl,
      λ u same. ap (λ x. http_error 503 ("audit sink unavailable: " ⧺ x)) (same_text same),
    );
  }
    where
      same_text : {t u : String} → Exn.os_error t ≡ Exn.os_error u → t ≡ u
      same_text h = cc
  by_line ruling verdict reason (raise e, log) ruled v r written = inr record {
    is_unanswered = λ d h. cc;
    is_after = inr (
      verdict,
      reason,
      e,
      (ruling, ruled, v, r),
      ap (λ x. x.0) written,
      rw written refl,
      λ u same. absurd (cc),
    );
  }

  by_fields :
      (ruling : Ruling) (o : Exc (Value × Value))
      → decide R s.kernel m (request_for a) (dumped a) ≡ ok ruling
      → verdict_and_reason ruling.decision ≡ o
      → Handled A R m now a s (after_ruling A R now a s ruling o)
  unfolding after_ruling verdict_and_reason
  by_fields ruling (ok (verdict, reason)) ruled found =
      ok_of_bind (field "verdict" ruling.decision) _ found λ v e1 h1.
        ok_of_bind (field "reason" ruling.decision) _ h1 λ r e2 h2.
          by_line ruling verdict reason (A.write now (line_of a verdict reason) s.log) ruled
            (field-get "verdict" ruling.decision verdict (e1 ∙ ap (λ x. ok x.0) (ok_inj h2)))
            (field-get "reason" ruling.decision reason (e2 ∙ ap (λ x. ok x.1) (ok_inj h2))) refl
  by_fields ruling (raise e) ruled found =
      inr (failed-Withheld A R m now a s e (inr (ruling, ruled, found)))

  by_ruling :
      (o : Exc Ruling)
      → decide R s.kernel m (request_for a) (dumped a) ≡ o
      → Handled A R m now a s (settle A R now a s o)
  unfolding settle
  by_ruling (ok ruling) ruled = by_fields ruling (verdict_and_reason ruling.decision) ruled refl
  by_ruling (raise e) ruled = inr (failed-Withheld A R m now a s e (inl ruled))

-- Every call of POST /v1/decide ends in one of two ways. It is answered by the kernel's own ruling,
-- after the log took the line with that ruling's verdict and reason and gave its number, and the
-- counter of the verdict is one higher. Or nothing is handed out: because the kernel raised or its
-- ruling has no verdict or reason, and then all stays; or because the write of that line failed, and
-- then all stays but the log, and the answer is 503 where the sink is out of order.
pub post_decide-Handled :
    (A : Recorder) (R : Runtime) (m : Moment) (now : ℕ) (a : ActionIn) (s : App A)
    → IsRecorded A R m now a s (post_decide A R m now a s).0 (post_decide A R m now a s).1
      ⊎ IsWithheld A R m now a s (post_decide A R m now a s).0 (post_decide A R m now a s).1
unfolding post_decide
post_decide-Handled A R m now a s = by_ruling A R m now a s _ refl
