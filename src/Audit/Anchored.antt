-- ===== src/Audit/Anchored.antt =====
-- audit.py: what the comparison of a log with an anchored head shows.
use decision_os_min.Prelude.{
  ℕ, suc, ◌+◌, String, ◌≡◌, refl, sym, ◌∙◌, ap, Bool, true, false, not, if◌then◌else◌, ◌↔◌, inl,
  inr, Option, none, some, List, [], ◌∷◌, nonempty, strip, arith, Bool-cases, eq_iff, eq_refl,
}
use decision_os_min.Py.{Value, Dict, ℤ}
use decision_os_min.Py.Exc.{Exc, ok, raise, ◌>>=◌, ok_of_bind, ok_inj}
use decision_os_min.Py.Runtime.{Runtime}
use decision_os_min.Execute.{field, value_eq}
use decision_os_min.Audit
use decision_os_min.Audit.Intact.{some_inj, IsIntact}
use decision_os_min.Audit.Anchor.{
  head, int_eq, before, int_of, head_of, last_entry, verify_against_anchor, is_expected,
  current_head_on_disk, against, hash_diverges, seq_diverges, shortened,
}

-- What the equality and `int` of JSON's values are relied on for: a value that equals a text is that
-- text, and one that equals a number reads as it.
pub record HasEquality (R : Runtime) (other : Value → Exc ℤ) : Type 0 where
  pub same-text : (v : Value) (s : String) → R.same v (Value.str s) ≡ true → v ≡ Value.str s
  pub same-number :
      (v : Value) (n : ℕ) → R.same v (Value.int (ℤ.pos n)) ≡ true → int_of other v ≡ ok (ℤ.pos n)

-- What a line says that continues a chain.
pub record IsLinked (R : Runtime) (i : ℕ) (prev : Value) (line : String) (own : Value)
    : Type 0 where
  pub row : Dict
  pub is_read : R.loads line ≡ some (Value.dict row)
  pub seq : Value
  pub has_seq : field "seq" row ≡ ok seq
  pub is_next : value_eq R seq (Value.int (ℤ.pos i)) ≡ true
  pub previous : Value
  pub has_previous : field "prev_hash" row ≡ ok previous
  pub is_previous : value_eq R previous prev ≡ true
  pub has_own : field "entry_hash" row ≡ ok own
  pub is_own : value_eq R own (Value.str (Audit.entry_hash R row)) ≡ true

as_entry-ok : (o : Option Value) (d : Dict) → Audit.as_entry o ≡ ok d → o ≡ some (Value.dict d)
as_entry-ok none d h = cc
as_entry-ok (some (Value.dict e)) d h = cc
as_entry-ok (some _) d h = cc

guarded :
    {A : Type 0} (b : Bool) (o : Exc (Option A)) (a : A)
    → (if not b then ok none else o) ≡ ok (some a)
    → (b ≡ true) × (o ≡ ok (some a))
guarded true o a h = (refl, h)
guarded false o a h = absurd cc

kept :
    {A : Type 0} (b : Bool) (v a : A)
    → ◌≡◌ {A = Exc (Option A)} (ok (if b then some v else none)) (ok (some a))
    → (b ≡ true) × (v ≡ a)
kept true v a h = (refl, cc)
kept false v a h = absurd cc

pub link-IsLinked :
    (R : Runtime) (i : ℕ) (prev : Value) (line : String) (own : Value)
    → Audit.link R i prev line ≡ ok (some own)
    → IsLinked R i prev line own
unfolding Audit.link
link-IsLinked R i prev line own h = ok_of_bind (Audit.as_entry (R.loads line)) _ h λ row e1 h1.
    ok_of_bind (field "seq" row) _ h1 λ seq e2 h2.
      let (is_next, h3) = guarded (value_eq R seq (Value.int (ℤ.pos i))) _ own h2 in
      ok_of_bind (field "prev_hash" row) _ h3 λ previous e3 h4.
        let (is_previous, h5) = guarded (value_eq R previous prev) _ own h4 in
        ok_of_bind (field "entry_hash" row) _ h5 λ mine e4 h6.
          let (is_own, same) =
            kept (value_eq R mine (Value.str (Audit.entry_hash R row))) mine own h6 in
          record {
            row = row;
            is_read = as_entry-ok (R.loads line) row e1;
            seq = seq;
            has_seq = e2;
            is_next = is_next;
            previous = previous;
            has_previous = e3;
            is_previous = is_previous;
            has_own = e4 ∙ ap ok same;
            is_own = rw (← same) is_own;
          }

pub followed :
    {A : Type 0} (o : Exc (Option Value)) (f : Value → Exc (Option A)) (r : A)
    → (o >>= Audit.follow f) ≡ ok (some r)
    → (own : Value) × (o ≡ ok (some own)) × (f own ≡ ok (some r))
followed (raise x) f r h = absurd cc
followed (ok none) f r h = absurd cc
followed (ok (some own)) f r h = (own, refl, h)

before_suc : (i : ℕ) → before (i + 1) ≡ ℤ.pos i
before_suc i = let next : i + 1 ≡ suc i = omega arith in rw next refl

module _ (R : Runtime) (other : Value → Exc ℤ) (E : HasEquality R other) where
  pub value_eq-text : (v : Value) (s : String) → value_eq R v (Value.str s) ≡ true → v ≡ Value.str s
  unfolding value_eq
  value_eq-text (Value.str t) s h = ap Value.str (ground (arith, eq_iff t s))
  value_eq-text v s h = E.same-text v s h

  value_eq-number :
      (v : Value) (n : ℕ)
      → value_eq R v (Value.int (ℤ.pos n)) ≡ true
      → int_of other v ≡ ok (ℤ.pos n)
  unfolding value_eq
  value_eq-number (Value.str t) n h = E.same-number (Value.str t) n h
  value_eq-number v n h = E.same-number v n h

  linked-head :
      (i : ℕ) (prev : Value) (line : String) (own : Value) (l : IsLinked R i prev line own)
      → head_of other (Value.dict l.row) ≡ ok (before (i + 1), own)
  unfolding head_of
  linked-head i prev line own l =
      rw (l.has_seq, value_eq-number l.seq i l.is_next, l.has_own, before_suc i) refl

  -- The last entry that was read is the one that the chain ends at.
  walk-head :
      (i : ℕ) (prev found : Value) (lines : List String) (n : ℕ) (v : Value)
      → head_of other found ≡ ok (before i, prev)
      → Audit.walk R i prev lines ≡ ok (some (n, v))
      → (last_entry R found lines >>= head_of other) ≡ ok (before n, v)
  unfolding Audit.walk last_entry
  walk-head i prev found [] n v e h = e ∙ ap (λ x. ok (before x.0, x.1)) (some_inj h)
  walk-head i prev found (line ∷ lines) n v e h = elim (Bool-cases (nonempty (strip line))) [
    | inl e' ↦
        let (own, linked, rest) =
          followed (Audit.link R i prev line) (λ own. Audit.walk R (i + 1) own lines) (n, v)
            (rw e' at h) in
        let l = link-IsLinked R i prev line own linked in
        rw (e', l.is_read)
          (walk-head (i + 1) own (Value.dict l.row) lines n v (linked-head i prev line own l) rest)
    | inr e' ↦ rw e' (walk-head i prev found lines n v e (rw e' at h))
  ]

head_of-null :
    (other : Value → Exc ℤ) → head_of other Value.null ≡ ok (before 0, Value.str Audit.genesis)
unfolding head_of
head_of-null other = refl

diverged : (own : Value) (h : String) → hash_diverges own h ≡ ok (true, "ok") → ⊥
unfolding hash_diverges
diverged own h e = ok_of_bind (shortened own) _ e λ local e1 e2. cc

against-ok :
    (R : Runtime) (h : String) (z : Option ℤ) (n : ℤ) (own : Value)
    → against R h z (n, own) ≡ ok (true, "ok")
    → (value_eq R own (Value.str h) ≡ true) × (is_expected z n ≡ true)
unfolding against seq_diverges
against-ok R h z n own e = by_tests (value_eq R own (Value.str h)) (is_expected z n) e
  where
    by_tests :
        (b c : Bool)
        → (if not b
            then hash_diverges own h
            else if not c
            then ok (seq_diverges R n z)
            else ok (true, "ok"))
          ≡ ok (true, "ok")
        → (b ≡ true) × (c ≡ true)
    by_tests true true e = (refl, refl)
    by_tests true false e = absurd cc
    by_tests false c e = absurd (diverged own h e)

against-same :
    (R : Runtime) (h : String) (z : Option ℤ) (n : ℤ)
    → is_expected z n ≡ true
    → against R h z (n, Value.str h) ≡ ok (true, "ok")
unfolding against value_eq
against-same R h z n expected = rw (eq_refl, expected) refl

-- The chain ends at the anchored hash, and at the anchored number if there is one.
pub record EndsAt (R : Runtime) (h : String) (z : Option ℤ) (log : Audit.HashLog) : Type 0 where
  pub count : ℕ
  pub ends : Audit.walk R 0 (Value.str Audit.genesis) log.lines ≡ ok (some (count, Value.str h))
  pub is_counted : is_expected z (before count) ≡ true

-- `verify_against_anchor` passes exactly where the chain ends at the anchored hash, and at the anchored
-- number if there is one.
pub verify_against_anchor-EndsAt :
    (R : Runtime) (other : Value → Exc ℤ) (h : String) (z : Option ℤ) (log : Audit.HashLog)
    → HasEquality R other
    → (verify_against_anchor R other h z log ≡ ok (true, "ok")) ↔ EndsAt R h z log
unfolding verify_against_anchor Audit.verify current_head_on_disk against
verify_against_anchor-EndsAt R other h z log E = (forth, back)
  where
    start : Value
    start = Value.str Audit.genesis

    by_end :
        (o : Option (ℕ × Value))
        → Audit.walk R 0 start log.lines ≡ ok o
        → (if not (Audit.is_walked o)
            then ok (false, "chain does not verify (edit/insert/reorder/head-delete)")
            else current_head_on_disk R other log >>= against R h z)
          ≡ ok (true, "ok")
        → EndsAt R h z log
    by_end none walked e = absurd cc
    by_end (some (n, v)) walked e =
        let head =
          walk-head R other E 0 start Value.null log.lines n v (head_of-null other) walked in
        let (same, counted) = against-ok R h z (before n) v (rw head at e) in
        record {
          count = n;
          ends = rw (← value_eq-text R other E v h same) walked;
          is_counted = counted;
        }

    forth : verify_against_anchor R other h z log ≡ ok (true, "ok") → EndsAt R h z log
    forth e = ok_of_bind (Audit.verify R log) _ e λ verified e1 rest.
        ok_of_bind (Audit.walk R 0 start log.lines) _ e1
          λ o walked end. by_end o walked (rw (sym (ok_inj end)) at rest)

    back : EndsAt R h z log → verify_against_anchor R other h z log ≡ ok (true, "ok")
    back x =
        rw
          (
            x.ends,
            walk-head R other E 0 start Value.null log.lines x.count (Value.str h)
                (head_of-null other) x.ends,
          )
          (against-same R h z (before x.count) x.is_counted)

int_eq_refl : (z : ℤ) → int_eq z z ≡ true
int_eq_refl (ℤ.pos n) = ground arith
int_eq_refl (ℤ.negsuc n) = ground arith

-- An intact log passes against its own head.
pub verify_against_anchor-head :
    (R : Runtime) (other : Value → Exc ℤ) (log : Audit.HashLog)
    → HasEquality R other
    → IsIntact R log
    → verify_against_anchor R other (head log).1 (some (head log).0) log ≡ ok (true, "ok")
unfolding head
verify_against_anchor-head R other log E I =
    (verify_against_anchor-EndsAt R other log.last (some (before log.seq)) log E).1
      (record { count = log.seq; ends = I.ends; is_counted = int_eq_refl (before log.seq) })
