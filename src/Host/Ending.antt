-- ===== src/Host/Ending.antt =====
-- host.py: the loop over standard input ends, whatever the input.
use decision_os_min.Prelude.{
  ℕ, zero, suc, ◌+◌, ◌<◌, ◌≤◌, String, ◌⧺◌, ◌≡◌, refl, true, false, Option, none, some, [], ◌∷◌,
  ltb, chars, utf8_size, nonempty, strip, arith, Bool-cases, inl, inr,
}
use decision_os_min.Py.Exc.{Exc, ok, raise}
use decision_os_min.Py.Runtime.{Runtime}
use decision_os_min.SpentStore.{SpentStore}
use decision_os_min.Execute.{AuditSink}
use decision_os_min.Sealed.{LegitimacyPolicy}
use decision_os_min.Host.Intents.{max_ipc_frame_bytes}
use decision_os_min.Host.Handle.{AgentHost, HostReading}
use decision_os_min.Host.Line.{handle_ipc_line}
use decision_os_min.Host.Serve.{
  read_line, drain, ends_line, frame_chars, Served, Turn, writing, answered, oversized, after_drain,
  turn, serve,
}

-- `readline` takes nothing away but what it returns.
read_line-chars : (n : ℕ) (s : String) → chars (read_line n s).0 + chars (read_line n s).1 ≡ chars s
unfolding read_line chars
read_line-chars zero s = omega arith
read_line-chars (suc n) String.[] = omega arith
read_line-chars (suc n) (String.◌∷◌ c s) = ground (arith, read_line-chars n s)

chars-nonempty : (s : String) → nonempty s ≡ true → 0 < chars s
unfolding chars
chars-nonempty String.[] h = absurd cc
chars-nonempty (String.◌∷◌ c s) h = ground arith

drain-empty :
    (n : ℕ) (line rest : String) → 0 < n → nonempty line ≡ false → drain n line rest ≡ some rest
unfolding drain
drain-empty zero line rest h e = absurd (omega arith)
drain-empty (suc n) line rest h e = rw e refl

-- What is read is all there was, or leaves less.
read_line-less :
    (n : ℕ) (s : String)
    → (chars (read_line n s).1 ≤ chars s)
      × (nonempty (read_line n s).0 ≡ true → chars (read_line n s).1 < chars s)
read_line-less n s =
    let all = read_line-chars n s in
    (omega arith, λ h. let some_read = chars-nonempty (read_line n s).0 h in omega arith)

-- The drain of a frame ends, and what it leaves is no longer than the rest.
drain-ends :
    (n : ℕ) (line rest : String)
    → suc (chars rest) < n
    → (left : String) × (drain n line rest ≡ some left) × (chars left ≤ chars rest)
unfolding drain
drain-ends zero line rest h = absurd (omega arith)
drain-ends (suc n) line rest h =
    let (more, left) = read_line frame_chars rest in
    let (no_more, less) = read_line-less frame_chars rest in
    elim (Bool-cases (nonempty line)) [
      | inr e ↦ (rest, rw e refl, omega arith)
      | inl e ↦ elim (Bool-cases (ends_line line)) [
        | inl f ↦ (rest, rw (e, f) refl, omega arith)
        | inr f ↦ elim (Bool-cases (nonempty more)) [
          | inr g ↦ (left, rw (e, f) (drain-empty n more left (omega arith) g), no_more)
          | inl g ↦
              let shorter = less g in
              let (last, same, bound) = drain-ends n more left (omega arith) in
              (last, rw (e, f) same, omega arith)
        ]
      ]
    ]

module _ (S : SpentStore) (A : AuditSink) where
  abbrev Ends : Option (Served S A) → Type 0
  Ends o = (out : Served S A) × (o ≡ some out)

  -- what comes next ends on every input that is shorter than a bound
  abbrev EndsBelow : ℕ → Turn S A → Type 0
  EndsBelow n next =
      (k : ℕ) (rest : String) (h : AgentHost S A) → chars rest < n → Ends (next k rest h)

  writing-Ends : (line : String) (o : Option (Served S A)) → Ends o → Ends (writing S A line o)
  writing-Ends line none (out, e) = absurd cc
  writing-Ends line (some (end, lines, h)) (out, e) = ((end, line ∷ lines, h), refl)

  answered-Ends :
      (n : ℕ) (next : Turn S A) (k : ℕ) (rest : String) (o : Exc String × AgentHost S A)
      → EndsBelow n next
      → chars rest < n
      → Ends (answered S A next k rest o)
  unfolding answered
  answered-Ends n next k rest (raise e, h) ends b = ((raise e, [], h), refl)
  answered-Ends n next k rest (ok line, h) ends b =
      writing-Ends (line ⧺ "\n") (next (suc k) rest h) (ends (suc k) rest h b)

  module _ (R : Runtime) (policy : LegitimacyPolicy) (readings : ℕ → HostReading) where
    turn-Ends :
        (n : ℕ) (next : Turn S A) (k : ℕ) (input : String) (h : AgentHost S A)
        → EndsBelow n next
        → chars input < suc n
        → Ends (turn S A R policy readings next k (read_line frame_chars input) h)
    unfolding turn after_drain
    turn-Ends n next k input h ends b =
        let (line, rest) = read_line frame_chars input in
        let (_, less) = read_line-less frame_chars input in
        elim (Bool-cases (nonempty line)) [
          | inr e ↦ ((ok tt, [], h), rw e refl)
          | inl e ↦
              let shorter = less e in
              elim (Bool-cases (ltb max_ipc_frame_bytes (utf8_size line))) [
                | inl f ↦
                    let (left, drained, bound) =
                      drain-ends (suc (suc (chars rest))) line rest (omega arith) in
                    rw (e, f, drained)
                      (answered-Ends n next k left
                        (handle_ipc_line S A R policy (readings k) (oversized S A) h) ends
                        (omega arith))
                | inr f ↦ elim (Bool-cases (nonempty (strip line))) [
                  | inr g ↦ rw (e, f, g) (ends k rest h (omega arith))
                  | inl g ↦
                      rw (e, f, g)
                        (answered-Ends n next k rest
                          (handle_ipc_line S A R policy (readings k) (strip line) h) ends
                          (omega arith))
                ]
              ]
        ]

    serve-EndsBelow : (n : ℕ) → EndsBelow n (serve S A n R policy readings)
    unfolding serve
    serve-EndsBelow zero k input h b = absurd (omega arith)
    serve-EndsBelow (suc n) k input h b =
        turn-Ends n (serve S A n R policy readings) k input h (serve-EndsBelow n) b

    -- The loop over standard input ends on every input: fuel above the number of its characters is
    -- enough, whatever the calls for its frames do.
    pub serve-ends :
        (n k : ℕ) (input : String) (h : AgentHost S A)
        → chars input < n
        → (out : Served S A) × (serve S A n R policy readings k input h ≡ some out)
    serve-ends n k input h b = serve-EndsBelow n k input h b
