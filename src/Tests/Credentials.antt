-- ===== src/Tests/Credentials.antt =====
-- Macaroons and the spent stores at concrete inputs.
use decision_os_min.Prelude.{
  String, ◌≡◌, refl, true, ◌&&◌, none, List, [], ◌∷◌, eq_refl, contains, find, after_prefix, dedup,
  remove_prefix, filter, inter, arith, if◌then◌else◌, map, split, pieces, strip, strip_left,
  strip_right, is_space, join, sorted, has_char, subst, eq_iff,
}
use decision_os_min.Py.Times.{expired}
use decision_os_min.Attenuation.{
  Macaroon, AuthorityGraph, mint, verify_sig, delegate, delegated, caveats_of, strip_parts,
  parse_tools_caveat, fold_tools, parent_authority, live_credentials, live_macaroons, root_tools_of,
  union_tools, covered_by, covering_expiries, least, clamp, tools_from,
}
use decision_os_min.Attenuation.Narrowing.{lets, every_allows, appended, appended-narrows}
use decision_os_min.Attenuation.Delegation.{IsHeld}
use decision_os_min.Attenuation.Granted.{IsPlain, ArePlain, delegate-IsHeld}
use decision_os_min.Py.Exc.{Exc, ok, raise}
use decision_os_min.SpentStore.{IsAtomic}
use decision_os_min.SpentStore.File.{
  FileSystem, IsExclusive, Opened, Written, file_store, file_store-IsAtomic,
}
use decision_os_min.SpentStore.Sqlite.{Inserted}
use decision_os_min.Tests.Fixtures.{plain}

abbrev graph : AuthorityGraph
graph = record {
  root_key = "root";
  macaroons = [];
  root_grants = ("lead", "tool:search" ∷ "tool:mail" ∷ []) ∷ [];
}

abbrev lead_macaroon : Macaroon
lead_macaroon = mint plain graph "0a" "lead" ("tools:mail,search" ∷ [])

verifies : verify_sig plain graph lead_macaroon ≡ true
unfolding verify_sig mint
verifies = eq_refl lead_macaroon.signature

appended-narrows_example :
    (verify_sig plain graph (appended plain lead_macaroon ("tool:mail" ∷ [])) ≡ true)
    × (lets (tools_from (appended plain lead_macaroon ("tool:mail" ∷ [])).caveats) "search"
        ≡ lets (tools_from lead_macaroon.caveats) "search"
          && every_allows ("tool:mail" ∷ []) "search")
appended-narrows_example =
    appended-narrows plain graph lead_macaroon ("tool:mail" ∷ []) "search" verifies

abbrev no_macaroon : Macaroon
no_macaroon = record { location = ""; identifier = ""; caveats = []; signature = "" }

abbrev or_no_macaroon : Exc (Macaroon × AuthorityGraph) → Macaroon × AuthorityGraph
or_no_macaroon (ok x) = x
or_no_macaroon (raise e) = (no_macaroon, graph)

-- the mail that the lead delegates to the bot
abbrev granted_mail : Macaroon × AuthorityGraph
granted_mail = or_no_macaroon (delegate plain "n-2" 5 "lead" "bot" ("tool:mail" ∷ []) none graph)

granted :
    (delegate plain "n-2" 5 "lead" "bot" ("tool:mail" ∷ []) none graph
      ≡ ok (granted_mail.0, granted_mail.1))
    × (lets (tools_from (granted_mail.0).caveats) "mail" ≡ true)
    × IsPlain "mail"
unfolding delegate delegated parent_authority live_credentials live_macaroons root_tools_of
    union_tools covered_by covering_expiries least clamp expired find contains dedup remove_prefix
    after_prefix filter inter mint caveats_of tools_from fold_tools parse_tools_caveat strip_parts
    split pieces strip strip_left strip_right is_space join sorted has_char
granted = (refl, refl, (refl, refl))

asked_plainly : ArePlain (map (remove_prefix "tool:") ("tool:mail" ∷ []))
unfolding contains remove_prefix after_prefix
asked_plainly u c = subst IsPlain (one u c) granted.2
  where
    one : (v : String) → contains v ("mail" ∷ []) ≡ true → "mail" ≡ v
    one v h = ground (arith, eq_iff v "mail")

delegate-IsHeld_example : IsHeld plain graph "lead" 5 "mail"
delegate-IsHeld_example =
    delegate-IsHeld plain graph granted_mail.1 "n-2" "lead" "bot" 5 ("tool:mail" ∷ []) none
      granted_mail.0 "mail" asked_plainly granted.0 granted.1

-- A file system whose state is the list of its paths.
unfoldable make_path : String → List String → Opened × List String
make_path path s = if contains path s then (Opened.exists, s) else (Opened.opened, path ∷ s)

abbrev paths : FileSystem
paths = record {
  State = List String;
  open_exclusive = make_path;
  write_sync = λ path content s. (Written.written, s);
}

paths-IsExclusive : IsExclusive paths
unfolding make_path contains
paths-IsExclusive = record {
  has = λ s path. contains path s;
  creates = λ path s h. ground (arith, eq_refl path);
  excludes = λ path s h. ground arith;
  open_keeps = λ path other s h. ground arith;
  write_keeps = λ path content other s h. h;
}

file_store-IsAtomic_example : IsAtomic (file_store plain paths "spent")
file_store-IsAtomic_example = file_store-IsAtomic plain paths "spent" paths-IsExclusive

unfoldable add_row : String → List String → Inserted × List String
add_row token s =
    if contains token s then (Inserted.violates_key, s) else (Inserted.inserted, token ∷ s)
