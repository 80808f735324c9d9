-- ===== src/Py/Runtime.antt =====
-- What the program takes from Python's standard library and from the `cryptography` package, as a
-- record of functions: the theorems hold for every such record, and name the laws that they need.
use decision_os_min.Prelude.{ℕ, String, Bool, Option, List}
use decision_os_min.Py.Defs.{Value, Dict}

-- A `datetime` in microseconds: with a time zone, as the instant in UTC, or without one.
pub data DateTime : Type 0 where
  aware naive : ℕ → DateTime

pub record Runtime : Type 0 where
  -- `str(v)` of a value that is no `str`, `repr(v)`, and `type(v).__name__` of an object
  pub show : Value → String
  pub repr : Value → String
  pub class_name : Value → String
  -- `a == b` where one of the two is no `str`
  pub same : Value → Value → Bool
  -- `sorted(v)` of a value that is no list of strings; `none` where that raises `TypeError`
  pub sorted_other : Value → Option Value
  -- `dict(v)` of a value that is no dict; `none` where that raises
  pub dict_other : Value → Option Dict
  -- the items that `for` runs through in a value that is no list; `none` where that raises
  pub iterate_other : Value → Option (List Value)
  -- `s in v` of a value that is no list; `none` where that raises
  pub member_other : Value → String → Option Bool
  -- the text of an error of a class that the interpreter itself raises
  pub error_text : String → String
  -- `json.dumps(v, sort_keys=True, separators=(",", ":"), default=str)`: whether it gives a text,
  -- as it does but for keys that are no plain values or do not sort, where it raises `TypeError`,
  -- and the text where it does; and `json.loads`
  pub prints : Value → Bool
  pub dumps : Value → String
  -- the same with no `default`; `none` where that raises `TypeError`
  pub dumps_strict : Value → Option String
  pub loads : String → Option Value
  -- `json.dumps(v, default=str)`, `none` where that raises, as for a key that is no plain value
  pub dumps_plain : Value → Option String
  -- hex digests, and the keyed digest of a key and a text
  pub sha256 : String → String
  pub hmac : String → String → String
  -- Ed25519: a private key's public half, its signature of a text, and the check, which is `false`
  -- where the library raises `InvalidSignature` or `ValueError`
  pub public_key : String → String
  pub sign : String → String → String
  pub verify_signature : String → String → String → Bool
  -- `datetime.isoformat` of an instant in UTC; `fromisoformat`, `none` where it raises `ValueError`
  pub isoformat : ℕ → String
  pub fromisoformat : String → Option DateTime
