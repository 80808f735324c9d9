-- ===== src/Py/Laws.antt =====
-- Reading a dict after a write: the laws by which proofs elsewhere go.
use decision_os_min.Prelude.{
  String, ◌≡◌, refl, Option, none, some, ◌==◌, eq_iff, eq_refl, arith, if◌then◌else◌,
}
use decision_os_min.Py.Defs.{Value, Dict, get, put, without}

pub get-put :
    (j k : String) (v : Value) (d : Dict) → get j (put k v d) ≡ (if k == j then some v else get j d)
unfolding get put
get-put j k v Dict.end = refl
get-put j k v (Dict.entry i w d) =
    ground (arith, eq_iff i k, eq_iff i j, eq_iff k j, get-put j k v d)
get-put j k v (Dict.odd_entry i w d) = get-put j k v d

pub get-without :
    (j k : String) (d : Dict) → get j (without k d) ≡ (if k == j then none else get j d)
unfolding get without
get-without j k Dict.end = ground arith
get-without j k (Dict.entry i w d) =
    ground (arith, eq_iff i k, eq_iff i j, eq_iff k j, get-without j k d)
get-without j k (Dict.odd_entry i w d) = get-without j k d

pub ruleset dict_laws = (get-put, get-without, eq_refl)
