-- ===== src/Prelude/Text.antt =====
-- Texts as Python's `str`: the operations that the program calls, over the native strings.
use Prim.Native.Nat.{ℕ, zero, suc, ◌+◌}
use Prim.Native.Char.{Char, code}
use Prim.Native.String.{String}
use mathlib.Core.Path.{◌≡◌, ap}
use native.Mathlib.Omega.{arith}
use text.Mathlib.TextLemmas.{nil-append, cons-append}
use mathlib.Core.Bool.{Bool, true, false, ◌&&◌, ◌||◌}
use mathlib.Core.List.{List, [], ◌∷◌}
use mathlib.Core.Option.{Option, none, some}
use decision_os_min.Prelude.Tests.{nat_eq, leb, ltb, if◌then◌else◌}

-- `bool(s)` of a `str`.
abbrev pub nonempty : String → Bool
nonempty String.[] = false
nonempty (String.◌∷◌ _ _) = true

-- `s[len(p):]` where `s.startswith(p)`, and `none` where it does not.
unfoldable pub after_prefix : String → String → Option String
after_prefix String.[] s = some s
after_prefix (String.◌∷◌ c p) String.[] = none
after_prefix (String.◌∷◌ c p) (String.◌∷◌ d s) =
    if nat_eq (code c) (code d) then after_prefix p s else none

pub nat_eq_refl : (n : ℕ) → nat_eq n n ≡ true
nat_eq_refl n = ground arith

pub after_prefix-append : (p s : String) → after_prefix p (Prim.Native.String.◌++◌ p s) ≡ some s
unfolding after_prefix
after_prefix-append String.[] s = ap some (nil-append s)
after_prefix-append (String.◌∷◌ c p) s =
    rw (cons-append c p s, nat_eq_refl (code c)) (after_prefix-append p s)

-- `s[:n]`, by characters.
unfoldable pub prefix_of : ℕ → String → String
prefix_of zero s = String.[]
prefix_of (suc n) String.[] = String.[]
prefix_of (suc n) (String.◌∷◌ c s) = String.◌∷◌ c (prefix_of n s)

unfoldable pub has_char : ℕ → String → Bool
has_char n String.[] = false
has_char n (String.◌∷◌ c s) = nat_eq (code c) n || has_char n s

-- the first piece and the others, while a text is cut at a character
abbrev pub cut : Bool → Char → String × List String → String × List String
cut true c (w, ws) = (String.[], w ∷ ws)
cut false c (w, ws) = (String.◌∷◌ c w, ws)

unfoldable pub pieces : ℕ → String → String × List String
pieces n String.[] = (String.[], [])
pieces n (String.◌∷◌ c s) = cut (nat_eq (code c) n) c (pieces n s)

-- `s.split(sep)` at a separator of one character.
unfoldable pub split : ℕ → String → List String
unfolding pieces
split n s = let (w, ws) = pieces n s in w ∷ ws

-- `sep.join(parts)`.
unfoldable pub join : String → List String → String
join sep [] = String.[]
join sep (w ∷ ws) = elim ws [
  | [] ↦ w
  | _ ∷ _ ↦ let rest = join sep ws in Prim.Native.String.◌++◌ w (Prim.Native.String.◌++◌ sep rest)
]

-- Unicode white space, as `str.strip` removes it.
unfoldable pub is_space : ℕ → Bool
is_space c =
    within 9 13
    || within 28 32
    || nat_eq c 133
    || nat_eq c 160
    || nat_eq c 5760
    || within 8192 8202
    || nat_eq c 8232
    || nat_eq c 8233
    || nat_eq c 8239
    || nat_eq c 8287
    || nat_eq c 12288
  where
    within : ℕ → ℕ → Bool
    within a b = leb a c && leb c b

unfoldable pub strip_left : String → String
unfolding is_space
strip_left String.[] = String.[]
strip_left (String.◌∷◌ c s) = if is_space (code c) then strip_left s else String.◌∷◌ c s

-- a character put before what is left of the rest
abbrev pub keep_from : Bool → Char → String → String
keep_from true c String.[] = String.[]
keep_from true c (String.◌∷◌ d s) = String.◌∷◌ c (String.◌∷◌ d s)
keep_from false c s = String.◌∷◌ c s

unfoldable pub strip_right : String → String
unfolding is_space
strip_right String.[] = String.[]
strip_right (String.◌∷◌ c s) = keep_from (is_space (code c)) c (strip_right s)

-- `s.strip()`
unfoldable pub strip : String → String
unfolding strip_left strip_right
strip s = strip_right (strip_left s)

-- `s[:-1]` where `s` ends with the character `n`.
unfoldable pub before_last : ℕ → String → Option String
before_last n String.[] = none
before_last n (String.◌∷◌ c String.[]) = if nat_eq (code c) n then some String.[] else none
before_last n (String.◌∷◌ c (String.◌∷◌ d s)) = elim (before_last n (String.◌∷◌ d s)) [
  | none ↦ none
  | some t ↦ some (String.◌∷◌ c t)
]

-- `s.removeprefix(p)`
unfoldable pub remove_prefix : String → String → String
unfolding after_prefix
remove_prefix p s = elim (after_prefix p s) [ none ↦ s | some t ↦ t ]

abbrev or_option {ℓ} : {A : Type ℓ} → Option A → Option A → Option A
or_option none o = o
or_option (some a) o = some a

-- what stands behind the last place where `p` begins
unfoldable pub after_last : String → String → Option String
after_last p String.[] = after_prefix p String.[]
after_last p (String.◌∷◌ c s) = or_option (after_last p s) (after_prefix p (String.◌∷◌ c s))

-- `s.split(p)[-1]`, for a `p` that cannot overlap itself.
unfoldable pub last_part : String → String → String
last_part p s = elim (after_last p s) [ none ↦ s | some t ↦ t ]

-- `len(s)`
unfoldable pub chars : String → ℕ
chars String.[] = zero
chars (String.◌∷◌ c s) = suc (chars s)

-- the bytes of a character in UTF-8
abbrev char_bytes : ℕ → ℕ
char_bytes c = if ltb c 0x80 then 1 else if ltb c 0x800 then 2 else if ltb c 0x10000 then 3 else 4

-- `len(s.encode("utf-8"))`
unfoldable pub utf8_size : String → ℕ
utf8_size String.[] = 0
utf8_size (String.◌∷◌ c s) = char_bytes (code c) + utf8_size s
