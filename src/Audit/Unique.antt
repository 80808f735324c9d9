-- ===== src/Audit/Unique.antt =====
-- audit.py: one anchored head has one chain, but for a collision of the hash.
use decision_os_min.Prelude.{
  ℕ, zero, suc, ◌+◌, String, ◌≡◌, ◌≢◌, refl, sym, ◌∙◌, ap, true, false, ◌⊎◌, inl, inr, Option, some,
  List, [], ◌∷◌, nonempty, strip, arith, Bool-cases, eq_iff, ◌==◌, if◌then◌else◌,
}
use decision_os_min.Py.{Value, Dict, ℤ, without}
use decision_os_min.Py.Exc.{Exc, ok}
use decision_os_min.Py.Runtime.{Runtime}
use decision_os_min.Execute.{field}
use decision_os_min.Audit
use decision_os_min.Audit.Intact.{some_inj}
use decision_os_min.Audit.Anchor.{before, is_expected, verify_against_anchor}
use decision_os_min.Audit.Anchored.{
  HasEquality, IsLinked, link-IsLinked, followed, verify_against_anchor-EndsAt, value_eq-text,
}

-- The text of an entry that is hashed.
unfoldable pub hashed_text : Runtime → Option Value → String
hashed_text R (some (Value.dict row)) = R.dumps (Value.dict (without "entry_hash" row))
hashed_text R _ = ""

-- The hashed texts of a file's lines, the newest first.
unfoldable pub newest_first : Runtime → List String → List String → List String
newest_first R texts [] = texts
newest_first R texts (line ∷ lines) =
    let read = newest_first R (hashed_text R (R.loads line) ∷ texts) lines in
    if nonempty (strip line) then read else newest_first R texts lines

-- Two different texts of one hash.
pub Collision : Runtime → Type 0
Collision R = (s : String) × (t : String) × (s ≢ t) × (R.sha256 s ≡ R.sha256 t)

-- The canonical text of an entry determines the hash before it.
pub record PrintsPrevious (R : Runtime) : Type 0 where
  pub prints_previous :
      (d e : Dict) (p q : String)
      → field "prev_hash" d ≡ ok (Value.str p)
      → field "prev_hash" e ≡ ok (Value.str q)
      → R.dumps (Value.dict (without "entry_hash" d))
        ≡ R.dumps (Value.dict (without "entry_hash" e))
      → p ≡ q

-- The text is that of an entry with the given hash before it.
record HasPrevious (R : Runtime) (t p : String) : Type 0 where
  pub row : Dict
  pub has_previous : field "prev_hash" row ≡ ok (Value.str p)
  pub is_text : t ≡ R.dumps (Value.dict (without "entry_hash" row))

unfoldable IsChain : Runtime → ℕ → String → List String → Type 0
IsChain R n h [] = (n ≡ 0) × (h ≡ Audit.genesis)
IsChain R n h (t ∷ ts) =
    (i : ℕ) × (p : String) × (n ≡ i + 1) × (h ≡ R.sha256 t) × HasPrevious R t p × IsChain R i p ts

differ : (t u : String) → (t == u) ≡ false → t ≢ u
differ t u e same = ground (arith, eq_iff t u)

module _ (R : Runtime) (prints : PrintsPrevious R) where
  -- Chains of one length and one last hash are one, or a collision shows.
  chain_unique :
      (m n : ℕ) (h k : String) (ts us : List String)
      → m ≡ n
      → h ≡ k
      → IsChain R m h ts
      → IsChain R n k us
      → (ts ≡ us) ⊎ Collision R
  unfolding IsChain Collision
  chain_unique m n h k [] [] same equal c d = inl refl
  chain_unique m n h k [] (u ∷ us) same equal (empty, _) (i, p, next, _, _, _) =
      absurd (omega arith)
  chain_unique m n h k (t ∷ ts) [] same equal (i, p, next, _, _, _) (empty, _) =
      absurd (omega arith)
  chain_unique m n h k (t ∷ ts) (u ∷ us) same equal (i, p, next, hash, has, rest)
        (j, q, next', hash', has', rest') =
      elim (Bool-cases (t == u)) [
        | inl e ↦
            let texts_same : t ≡ u = ground (arith, eq_iff t u) in
            let previous : p ≡ q =
              prints.prints_previous has.row has'.row p q has.has_previous has'.has_previous
                (sym has.is_text ∙ texts_same ∙ has'.is_text) in
            elim (chain_unique i j p q ts us (omega arith) previous rest rest') [
              | inl tails_same ↦ inl (cc)
              | inr collision ↦ inr collision
            ]
        | inr e ↦ inr (t, u, (λ texts_same. differ t u e texts_same), sym hash ∙ equal ∙ hash')
      ]

str_inj : {s t : String} → Value.str s ≡ Value.str t → s ≡ t
str_inj h = cc

-- One number is the last of one count only.
counts-same :
    (z : ℤ) (m n : ℕ)
    → is_expected (some z) (before m) ≡ true
    → is_expected (some z) (before n) ≡ true
    → m ≡ n
counts-same (ℤ.pos k) (suc m) (suc n) e f = ground arith
counts-same (ℤ.pos k) zero n e f = absurd cc
counts-same (ℤ.pos k) (suc m) zero e f = absurd cc
counts-same (ℤ.negsuc k) zero zero e f = refl
counts-same (ℤ.negsuc k) (suc m) n e f = absurd cc
counts-same (ℤ.negsuc k) zero (suc n) e f = absurd cc

ends-same :
    (R : Runtime) (n : ℕ) (h : String) (texts : List String) (i : ℕ) (p : String)
    → ◌≡◌ {A = ℕ × Value} (i, Value.str p) (n, Value.str h)
    → IsChain R i p texts
    → IsChain R n h texts
ends-same R n h texts i p e chain =
    let count : i ≡ n = cc in
    let last : p ≡ h = str_inj (ap (λ x. x.1) e) in rw (← count, ← last) chain

module _ (R : Runtime) (other : Value → Exc ℤ) (E : HasEquality R other) where
  -- A line that continues a chain adds its text to it.
  linked-IsChain :
      (i : ℕ) (p : String) (texts : List String) (line : String) (own : Value)
      → IsChain R i p texts
      → IsLinked R i (Value.str p) line own
      → (h : String) × (own ≡ Value.str h)
        × IsChain R (i + 1) h (hashed_text R (R.loads line) ∷ texts)
  unfolding IsChain hashed_text Audit.entry_hash
  linked-IsChain i p texts line own chain l =
      let same = value_eq-text R other E l.previous p l.is_previous in
      (
        Audit.entry_hash R l.row,
        value_eq-text R other E own (Audit.entry_hash R l.row) l.is_own,
        (
          i,
          p,
          refl,
          rw l.is_read refl,
          record {
            row = l.row;
            has_previous = l.has_previous ∙ ap ok same;
            is_text = rw l.is_read refl;
          },
          chain,
        ),
      )

  walk-IsChain :
      (i : ℕ) (p : String) (texts lines : List String) (n : ℕ) (h : String)
      → IsChain R i p texts
      → Audit.walk R i (Value.str p) lines ≡ ok (some (n, Value.str h))
      → IsChain R n h (newest_first R texts lines)
  unfolding Audit.walk newest_first
  walk-IsChain i p texts [] n h chain e = ends-same R n h texts i p (some_inj e) chain
  walk-IsChain i p texts (line ∷ lines) n h chain e = elim (Bool-cases (nonempty (strip line))) [
    | inl read ↦
        let (own, linked, rest) =
          followed (Audit.link R i (Value.str p) line) (λ own. Audit.walk R (i + 1) own lines)
            (n, Value.str h) (rw read at e) in
        let (k, is_own, chain') =
          linked-IsChain i p texts line own chain
            (link-IsLinked R i (Value.str p) line own linked) in
        rw read (
          walk-IsChain (i + 1) k (hashed_text R (R.loads line) ∷ texts) lines n h chain'
            (rw is_own at rest))
    | inr read ↦ rw read (walk-IsChain i p texts lines n h chain (rw read at e))
  ]

-- Two files that pass against one anchor, number included, hold the same hashed texts in the same
-- order, or two different texts have one hash: nothing before the anchored head was cut or rewritten.
pub verify_against_anchor_unique :
    (R : Runtime) (other : Value → Exc ℤ) (h : String) (z : ℤ) (first second : Audit.HashLog)
    → HasEquality R other
    → PrintsPrevious R
    → verify_against_anchor R other h (some z) first ≡ ok (true, "ok")
    → verify_against_anchor R other h (some z) second ≡ ok (true, "ok")
    → (newest_first R [] first.lines ≡ newest_first R [] second.lines) ⊎ Collision R
unfolding IsChain
verify_against_anchor_unique R other h z first second E prints e f =
    let x = (verify_against_anchor-EndsAt R other h (some z) first E).0 e in
    let y = (verify_against_anchor-EndsAt R other h (some z) second E).0 f in
    chain_unique R prints x.count y.count h h (newest_first R [] first.lines)
      (newest_first R [] second.lines) (counts-same z x.count y.count x.is_counted y.is_counted)
      refl (walk-IsChain R other E 0 Audit.genesis [] first.lines x.count h (refl, refl) x.ends)
      (walk-IsChain R other E 0 Audit.genesis [] second.lines y.count h (refl, refl) y.ends)
