-- ===== src/Sealed/Sealing.antt =====
-- sealed.py: what `seal` leaves in the registry, and what the check of the registry finds.
use decision_os_min.Prelude.{
  ℕ, String, ◌≡◌, refl, ◌∙◌, ap, sym, Bool, true, false, not, ◌||◌, ◌&&◌, Option, none, some, [],
  ◌∷◌, arith, ◌==◌, eq_iff, nat_eq, Table, find?, find?-store, if◌then◌else◌, after_prefix-append,
  nat_eq_refl, Bool-cases, inl, inr, subst,
}
use decision_os_min.Py.Exc.{ok, raise, Exn, raise_if, ◌>>◌, ok_of_bind, ok_inj}
use decision_os_min.Py.Runtime.{Runtime}
use decision_os_min.Sealed.ToolRegistry.{
  Callable, Cell, Registry, poison, seal_one, seal_all, poisoned, seal, is_poisoned,
  is_slot_poisoned, is_live, is_source_live, is_id, open_cell, live_body,
}

-- the body of a cell in its place
open_cell-ok :
    (R : Runtime) (tool : String) (o : Option Cell) (fn : Callable) (n : ℕ)
    → open_cell R tool o ≡ ok (fn, n)
    → o ≡ some (Cell.cell fn n)
unfolding open_cell
open_cell-ok R tool o fn n h = ground arith

is_id-eq : (o : Option ℕ) (n : ℕ) → is_id o n ≡ true → o ≡ some n
is_id-eq o n h = ground arith

guards-passed :
    (own kept live dead : Bool) (d e f : Exn) (g fn : Callable)
    → (raise_if (not own || not kept) d >> (raise_if live e >> (raise_if (not dead) f >> ok g)))
      ≡ ok fn
    → (own ≡ true) × (kept ≡ true) × (live ≡ false) × (dead ≡ true) × (g ≡ fn)
guards-passed true true false true d e f g fn h = (refl, refl, refl, refl, ok_inj h)
guards-passed _ _ _ _ d e f g fn h = absurd cc

-- The check of the registry gives a body only from a cell that recorded that body's own identity, as
-- the second table did when the tool was sealed, and only where neither the caller's table nor the
-- public one holds a live function under the name.
pub live_body-ok :
    (R : Runtime) (reg : Registry) (tool : String) (fn : Callable)
    → live_body R reg tool ≡ ok fn
    → (find? tool reg.bodies ≡ some (Cell.cell fn fn.identity))
      × (find? tool reg.tool_ids ≡ some fn.identity)
      × (is_source_live reg.source tool ≡ false)
      × (is_slot_poisoned (find? tool reg.tools) ≡ true)
unfolding live_body
live_body-ok R reg tool fn h =
    ok_of_bind (open_cell R tool (find? tool reg.bodies)) _ h λ (g, n) opened rest.
      let (own, kept, live, dead, same) =
        guards-passed (is_id (find? tool reg.tool_ids) g.identity) (nat_eq g.identity n)
          (is_source_live reg.source tool) (is_slot_poisoned (find? tool reg.tools)) _ _ _ g fn
          rest in
      let recorded = is_id-eq (find? tool reg.tool_ids) g.identity own in
      let number : g.identity ≡ n = ground arith in
      let cell = open_cell-ok R tool (find? tool reg.bodies) g n opened in
      (
        subst (λ f. find? tool reg.bodies ≡ some (Cell.cell f f.identity)) same
            (subst (λ m. find? tool reg.bodies ≡ some (Cell.cell g m)) (sym number) cell),
        subst (λ f. find? tool reg.tool_ids ≡ some f.identity) same recorded,
        live,
        dead,
      )

-- What the registry holds under one name.
abbrev Slot : Type 0
Slot = Option Cell × Option ℕ × Option Callable

abbrev slot : String → Registry → Slot
slot n reg = (find? n reg.bodies, find? n reg.tool_ids, find? n reg.tools)

-- what `seal` puts there
abbrev sealed_slot : Runtime → (String → ℕ) → String → Callable → Slot
sealed_slot R fresh n fn =
    (some (Cell.cell fn fn.identity), some fn.identity, some (poison R (fresh n) n))

slot-seal_one :
    (R : Runtime) (fresh : String → ℕ) (n m : String) (fn : Callable) (reg : Registry)
    → slot n (seal_one R fresh m fn reg) ≡ (if m == n then sealed_slot R fresh n fn else slot n reg)
unfolding seal_one
slot-seal_one R fresh n m fn reg = elim (Bool-cases (m == n)) [
  | inl e ↦
      rw
        (
          find?-store n m (Cell.cell fn fn.identity) reg.bodies,
          find?-store n m fn.identity reg.tool_ids,
          find?-store n m (poison R (fresh m) m) reg.tools,
          e,
        )
        (let same : m ≡ n = ground (arith, eq_iff m n) in rw same refl)
  | inr e ↦
      rw
        (
          find?-store n m (Cell.cell fn fn.identity) reg.bodies,
          find?-store n m fn.identity reg.tool_ids,
          find?-store n m (poison R (fresh m) m) reg.tools,
          e,
        )
        refl
]

abbrev is_none {ℓ} : {A : Type ℓ} → Option A → Bool
is_none none = true
is_none (some _) = false

abbrev slot_or : Option Callable → (Callable → Slot) → Slot → Slot
slot_or none f s = s
slot_or (some fn) f s = f fn

-- Whether a table's names differ from each other, as a Python dict's do.
unfoldable pub distinct {ℓ} : {V : Type ℓ} → Table V → Bool
distinct [] = true
distinct ((n, _) ∷ t) = is_none (find? n t) && distinct t

merged :
    (o : Option Callable) (b : Bool) (f : Callable → Slot) (fn : Callable) (s : Slot)
    → (b ≡ true → o ≡ none)
    → slot_or o f (if b then f fn else s) ≡ slot_or (if b then some fn else o) f s
merged none true f fn s h = refl
merged none false f fn s h = refl
merged (some g) true f fn s h = let never = h refl in absurd cc
merged (some g) false f fn s h = refl

unlisted :
    (n m : String) (fn : Callable) (tools : Table Callable)
    → distinct ((m, fn) ∷ tools) ≡ true
    → (m == n) ≡ true
    → find? n tools ≡ none
unfolding distinct
unlisted n m fn tools h e =
    let same : m ≡ n = ground (arith, eq_iff m n) in
    let lacks : find? m tools ≡ none = ground arith in rw (← same) lacks

slot-seal_all :
    (R : Runtime) (fresh : String → ℕ) (n : String) (tools : Table Callable) (reg : Registry)
    → distinct tools ≡ true
    → slot n (seal_all R fresh tools reg)
      ≡ slot_or (find? n tools) (λ fn. sealed_slot R fresh n fn) (slot n reg)
unfolding seal_all find? distinct
slot-seal_all R fresh n [] reg h = refl
slot-seal_all R fresh n ((m, fn) ∷ tools) reg h =
    let rest : distinct tools ≡ true = ground arith in
    slot-seal_all R fresh n tools (seal_one R fresh m fn reg) rest
    ∙ ap (λ s. slot_or (find? n tools) (λ f. sealed_slot R fresh n f) s)
        (slot-seal_one R fresh n m fn reg)
    ∙ merged (find? n tools) (m == n) (λ f. sealed_slot R fresh n f) fn (slot n reg)
        (unlisted n m fn tools h)

is_poisoned-poison : (R : Runtime) (n : ℕ) (name : String) → is_poisoned (poison R n name) ≡ true
unfolding poison
is_poisoned-poison R n name = rw (after_prefix-append "poisoned_" name) refl

is_live-poisoned :
    (R : Runtime) (fresh : String → ℕ) (n : String) (tools : Table Callable)
    → is_live (find? n (poisoned R fresh tools)) ≡ false
unfolding find? poisoned
is_live-poisoned R fresh n [] = refl
is_live-poisoned R fresh n ((m, fn) ∷ tools) =
    ground (arith, is_live-poisoned R fresh n tools, is_poisoned-poison R (fresh m) m)

-- `seal` went on: the registry was not frozen.
pub not_frozen :
    {A : Type 0} (frozen : Bool) (e : Exn) (x y : A)
    → (if frozen then raise e else ok x) ≡ ok y
    → x ≡ y
not_frozen true e x y h = absurd cc
not_frozen false e x y h = ok_inj h

live_of_slot :
    (R : Runtime) (fresh : String → ℕ) (q : Registry) (n : String) (fn : Callable)
    → slot n q ≡ sealed_slot R fresh n fn
    → is_source_live q.source n ≡ false
    → live_body R q n ≡ ok fn
unfolding live_body open_cell
live_of_slot R fresh q n fn same dead =
    rw
      (
        ap (λ s. s.0) same,
        nat_eq_refl fn.identity,
        ap (λ s. s.1) same,
        nat_eq_refl fn.identity,
        dead,
        ap (λ s. s.2) same,
        is_poisoned-poison R (fresh n) n,
      )
      refl

-- Once `seal` has taken a table, the check of the registry finds each tool's own body under its name.
pub live_body-seal :
    (R : Runtime) (fresh : String → ℕ) (tools ex : Table Callable) (reg r : Registry) (n : String)
    (fn : Callable)
    → distinct tools ≡ true
    → find? n tools ≡ some fn
    → seal R fresh tools reg ≡ ok (ex, r)
    → live_body R r n ≡ ok fn
unfolding seal
live_body-seal R fresh tools ex reg r n fn h found taken =
    let own =
      slot-seal_all R fresh n tools reg h
      ∙ ap (λ o. slot_or o (λ f. sealed_slot R fresh n f) (slot n reg)) found in
    subst (λ q. live_body R q n ≡ ok fn) (ap (λ x. x.1) (not_frozen reg.frozen _ _ (ex, r) taken))
      (live_of_slot R fresh
        (record (seal_all R fresh tools reg) {
          source = some (poisoned R fresh tools);
          frozen = true;
        })
        n fn own (is_live-poisoned R fresh n tools))
