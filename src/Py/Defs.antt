-- ===== src/Py/Defs.antt =====
-- Python values. A `float` is the bit pattern of its IEEE double. A dict key that is no string is
-- kept by its text, and `object` is any other object, by its truth value and its `str()`.
use decision_os_min.Prelude.{
  ℕ, String, Bool, true, false, not, Option, none, some, List, [], ◌∷◌, ◌==◌, nonempty, nat_eq,
  ◌||◌, ◌&&◌, if◌then◌else◌,
}

pub data ℤ : Type 0 where
  pos : ℕ → ℤ
  negsuc : ℕ → ℤ

mutual
  pub data Value : Type 0 where
    null : Value
    boolean : Bool → Value
    int : ℤ → Value
    float : ℕ → Value
    str : String → Value
    list : Items → Value
    tuple : Items → Value
    dict : Dict → Value
    object : Bool → String → Value

  pub data Items : Type 0 where
    nil : Items
    cons : Value → Items → Items

  pub data Dict : Type 0 where
    end : Dict
    entry : String → Value → Dict → Dict
    odd_entry : String → Value → Dict → Dict

-- `d.get(k)`, with `none` for a missing key.
unfoldable pub get : String → Dict → Option Value
get k end = none
get k (entry j v d) = if j == k then some v else get k d
get k (odd_entry j v d) = get k d

-- `d[k] = v`, at the key's place or at the end.
unfoldable pub put : String → Value → Dict → Dict
put k v end = entry k v end
put k v (entry j w d) = if j == k then entry k v d else entry j w (put k v d)
put k v (odd_entry j w d) = odd_entry j w (put k v d)

-- `{j: v for j, v in d.items() if j != k}`
unfoldable pub without : String → Dict → Dict
without k end = end
without k (entry j v d) = let rest = without k d in if j == k then rest else entry j v rest
without k (odd_entry j v d) = odd_entry j v (without k d)

abbrev pub is_some : Option Value → Bool
is_some none = false
is_some (some _) = true

-- `k in d`
abbrev pub has_key : String → Dict → Bool
has_key k d = is_some (get k d)

abbrev pub value_or : Value → Option Value → Value
value_or v none = v
value_or v (some w) = w

-- `d.get(k, v)`
abbrev pub get_default : String → Value → Dict → Value
get_default k v d = value_or v (get k d)

-- `d.setdefault(k, v)`
unfoldable pub set_default : String → Value → Dict → Dict
set_default k v d = if has_key k d then d else put k v d

abbrev is_zero_int : ℤ → Bool
is_zero_int (pos n) = nat_eq n 0
is_zero_int (negsuc _) = false

-- 0.0 and -0.0 are the floats that are false.
abbrev is_zero_float : ℕ → Bool
is_zero_float n = nat_eq n 0 || nat_eq n 0x8000000000000000

-- `bool(v)`
unfoldable pub truthy : Value → Bool
truthy Value.null = false
truthy (Value.boolean b) = b
truthy (Value.int n) = not (is_zero_int n)
truthy (Value.float n) = not (is_zero_float n)
truthy (Value.str s) = nonempty s
truthy (Value.list Items.nil) = false
truthy (Value.list (Items.cons _ _)) = true
truthy (Value.tuple Items.nil) = false
truthy (Value.tuple (Items.cons _ _)) = true
truthy (Value.dict Dict.end) = false
truthy (Value.dict (Dict.entry _ _ _)) = true
truthy (Value.dict (Dict.odd_entry _ _ _)) = true
truthy (Value.object b _) = b

abbrev pub or_value : Option Value → Value → Value
or_value none w = w
or_value (some v) w = if truthy v then v else w

-- `d.get(k) or v`
unfoldable pub get_or_else : String → Value → Dict → Value
get_or_else k w d = or_value (get k d) w

-- A list of texts as a value.
unfoldable pub of_texts : List String → Items
of_texts [] = Items.nil
of_texts (s ∷ ss) = Items.cons (Value.str s) (of_texts ss)

-- Whether `hash` takes a value.
unfoldable mutual
  pub hashable : Value → Bool
  hashable (Value.list _) = false
  hashable (Value.dict _) = false
  hashable (Value.tuple xs) = all_hashable xs
  hashable _ = true

  pub all_hashable : Items → Bool
  all_hashable Items.nil = true
  all_hashable (Items.cons x xs) = hashable x && all_hashable xs
