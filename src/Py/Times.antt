-- ===== src/Py/Times.antt =====
-- Comparisons of `datetime` values: two that differ in having a time zone raise `TypeError`.
use decision_os_min.Prelude.{ℕ, Bool, true, Option, none, some, List, [], ◌∷◌, leb, ltb}
use decision_os_min.Py.Exc.{Exc, ok, raise, Exn, ◌>>=◌}
use decision_os_min.Py.Runtime.{DateTime, aware, naive}

-- `a < b`
unfoldable pub earlier : DateTime → DateTime → Exc Bool
earlier (aware a) (aware b) = ok (ltb a b)
earlier (naive a) (naive b) = ok (ltb a b)
earlier _ _ = raise Exn.type_error

-- `now >= t` at a `now` with a time zone
unfoldable pub reached : ℕ → DateTime → Exc Bool
reached now (aware t) = ok (leb t now)
reached now (naive t) = raise Exn.type_error

-- `now >= t` for an expiry that may be missing, which is then never reached
unfoldable pub expired : ℕ → Option DateTime → Exc Bool
expired now none = ok (Bool.false)
expired now (some t) = reached now t

-- `min(t, *ts)`: the first of the least
unfoldable pub earliest : DateTime → List DateTime → Exc DateTime
earliest t [] = ok t
earliest t (u ∷ us) = do sooner ← earlier u t; earliest (elim sooner [ true ↦ u | _ ↦ t ]) us

-- `t.replace(tzinfo=UTC)` where there is no time zone
abbrev pub in_utc : DateTime → DateTime
in_utc (aware t) = aware t
in_utc (naive t) = aware t

abbrev pub instant : DateTime → ℕ
instant (aware t) = t
instant (naive t) = t
