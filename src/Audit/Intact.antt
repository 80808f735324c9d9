-- ===== src/Audit/Intact.antt =====
-- audit.py: a log that `record` makes verifies.
use decision_os_min.Prelude.{
  String, ◌≡◌, refl, ap, true, false, Option, some, List, [], ◌∷◌, ◌++◌, nonempty, strip,
}
use decision_os_min.Py.{Value, Dict}
use decision_os_min.Py.Exc.{Exc, ok}
use decision_os_min.Py.Runtime.{Runtime}
use decision_os_min.Audit

-- What the log relies on for an entry: the line that `json.dumps` makes of it, if it makes one, is
-- not blank and `json.loads` reads it back as the entry.
pub record ReadsBack (R : Runtime) (dump_line : Value → Option String) (row : Dict) : Type 0 where
  pub reads_back :
      (t : String)
      → dump_line (Value.dict row) ≡ some t
      → (R.loads t ≡ some (Value.dict row)) × (nonempty (strip t) ≡ true)

-- The file holds a chain that ends at the log's own number and hash.
pub record IsIntact (R : Runtime) (log : Audit.HashLog) : Type 0 where
  pub is_whole : log.is_torn ≡ false
  pub ends :
      Audit.walk R 0 (Value.str Audit.genesis) log.lines ≡ ok (some (log.seq, Value.str log.last))

pub some_inj {ℓ} :
    {A : Type ℓ} {a b : A} → ◌≡◌ {A = Exc (Option A)} (ok (some a)) (ok (some b)) → a ≡ b
some_inj h = cc

-- A text on a line of its own.
pub joined-whole : (t : String) (lines : List String) → Audit.joined false t lines ≡ lines ++ t ∷ []
unfolding Audit.joined
joined-whole t [] = refl
joined-whole t (line ∷ []) = refl
joined-whole t (line ∷ next ∷ lines) = ap (λ ls. line ∷ ls) (joined-whole t (next ∷ lines))

-- The write ends well, or has left nothing in the file.
pub data IsClean : Audit.Write → Type 0 where
  flushed : IsClean Audit.flushed
  empty : (e : String) → IsClean (Audit.broken e 0)
