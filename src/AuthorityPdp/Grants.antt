-- ===== src/AuthorityPdp/Grants.antt =====
-- `BuiltinAuthorityPDP.grant` and `revoke`: the table that the policy revision is taken of and the
-- graph that answers agree.
use decision_os_min.Prelude.{
  String, ◌≡◌, refl, sym, ◌∙◌, not, ◌&&◌, ◌||◌, List, [], ◌∷◌, ◌==◌, eq_iff, inl, inr, Bool-cases,
  contains, contains-append, contains-discard, discard, Table, find, store, find-store, arith,
  if◌then◌else◌,
}
use decision_os_min.Attenuation.{discard_in}
use decision_os_min.Attenuation
use decision_os_min.AuthorityPdp.Builtin.{Builtin, grant, revoke, add_new}

-- The two hold the same capabilities of every actor.
pub record AgreesOn (b : Builtin) : Type 0 where
  pub agrees :
      (actor capability : String)
      → contains capability (find [] actor b.grants)
        ≡ contains capability (find [] actor b.graph.root_grants)

contains-add_new :
    (c a : String) (xs : List String) → contains c (add_new a xs) ≡ (c == a || contains c xs)
unfolding contains
contains-add_new c a xs = elim (Bool-cases (contains a xs)) [
  | inl e ↦ rw e (ground (arith, eq_iff c a))
  | inr e ↦ rw e (rw contains-append (ground arith))
]

find-discard_in :
    (holder capability actor : String) (t : Table (List String))
    → find [] actor (discard_in holder capability t)
      ≡ (if holder == actor then discard capability (find [] actor t) else find [] actor t)
unfolding find discard_in discard
find-discard_in holder capability actor [] = ground arith
find-discard_in holder capability actor ((j, caps) ∷ t) = ground (
  arith,
  eq_iff j holder,
  eq_iff j actor,
  eq_iff holder actor,
  find-discard_in holder capability actor t,
)

-- A grant adds the one capability to the one actor, in the table and in the graph.
pub contains-grant :
    (actor capability other c : String) (b : Builtin)
    → AgreesOn b
    → (contains c (find [] other (grant actor capability b).grants)
        ≡ ((actor == other) && (c == capability)) || contains c (find [] other b.grants))
      × AgreesOn (grant actor capability b)
unfolding grant Attenuation.grant contains
contains-grant actor capability other c b h = (in_table other c, record { agrees = both })
  where
    in_table :
        (other c : String)
        → contains c
            (find [] other (store actor (add_new capability (find [] actor b.grants)) b.grants))
          ≡ ((actor == other) && (c == capability)) || contains c (find [] other b.grants)
    in_table other c = elim (Bool-cases (actor == other)) [
      | inl e ↦ rw (find-store, e) (rw contains-add_new (ground (arith, eq_iff actor other)))
      | inr e ↦ rw (find-store, e) refl
    ]

    in_graph :
        (other c : String)
        → contains c (
            find [] other
              (store actor (capability ∷ find [] actor b.graph.root_grants) b.graph.root_grants))
          ≡ ((actor == other) && (c == capability))
            || contains c (find [] other b.graph.root_grants)
    in_graph other c = elim (Bool-cases (actor == other)) [
      | inl e ↦ rw (find-store, e) (ground (arith, eq_iff actor other))
      | inr e ↦ rw (find-store, e) refl
    ]

    both :
        (other c : String)
        → contains c (find [] other (grant actor capability b).grants)
          ≡ contains c (find [] other (grant actor capability b).graph.root_grants)
    both other c = in_table other c ∙ rw h.agrees (sym (in_graph other c))

-- A revocation takes the one capability from the one actor, in the table and in the graph.
pub contains-revoke :
    (actor capability other c : String) (b : Builtin)
    → AgreesOn b
    → (contains c (find [] other (revoke actor capability b).grants)
        ≡ not ((actor == other) && (capability == c)) && contains c (find [] other b.grants))
      × AgreesOn (revoke actor capability b)
unfolding revoke Attenuation.revoke
contains-revoke actor capability other c b h = (in_table other c, record { agrees = both })
  where
    in_table :
        (other c : String)
        → contains c
            (find [] other (store actor (discard capability (find [] actor b.grants)) b.grants))
          ≡ not ((actor == other) && (capability == c)) && contains c (find [] other b.grants)
    in_table other c = elim (Bool-cases (actor == other)) [
      | inl e ↦ rw (find-store, e) (rw contains-discard (ground (arith, eq_iff actor other)))
      | inr e ↦ rw (find-store, e) refl
    ]

    in_graph :
        (other c : String)
        → contains c (find [] other (discard_in actor capability b.graph.root_grants))
          ≡ not ((actor == other) && (capability == c))
            && contains c (find [] other b.graph.root_grants)
    in_graph other c = elim (Bool-cases (actor == other)) [
      | inl e ↦ rw (find-discard_in, e) (rw contains-discard refl)
      | inr e ↦ rw (find-discard_in, e) refl
    ]

    both :
        (other c : String)
        → contains c (find [] other (revoke actor capability b).grants)
          ≡ contains c (find [] other (revoke actor capability b).graph.root_grants)
    both other c = in_table other c ∙ rw h.agrees (sym (in_graph other c))
