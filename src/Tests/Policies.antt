-- ===== src/Tests/Policies.antt =====
-- Verdicts, evaluators, providers and grants at concrete inputs.
use decision_os_min.Prelude.{
  ◌≤◌, String, ◌≡◌, refl, ◌↔◌, true, Option, none, some, List, [], ◌∷◌, All, prefix_of,
}
use decision_os_min.Py.{Value}
use decision_os_min.Py.Plugin.{returned}
use decision_os_min.Compose.{compose, normalize, is_permitting, normalize_text, text}
use decision_os_min.Compose.Lattice.{is_permitting-compose}
use decision_os_min.AuthorityPdp.{
  AuthorityPdp, CanonicalAuthorityResult, Output, evaluate_authority, identity_field, plain_bounded,
  ruled, canonicalize_authority_output, raw_verdict, raw_reason, marked,
}
use decision_os_min.AuthorityPdp.Canonical.{IsCanonical, size, evaluate_authority-IsCanonical}
use decision_os_min.Tests.Fixtures.{plain, search_action}

abbrev verdict_list : List Value
verdict_list = Value.str "LIMIT" ∷ Value.str "allow?" ∷ Value.null ∷ []

is_permitting-compose_example :
    (is_permitting (compose verdict_list) ≡ true)
    ↔ All (λ v. is_permitting (normalize v) ≡ true) verdict_list
is_permitting-compose_example = is_permitting-compose verdict_list

abbrev remote : AuthorityPdp
remote = record {
  name = returned (Value.str "remote");
  policy_revision = returned (Value.str "7");
  evaluate = λ action. returned (Output.plain (Value.str "LIMIT"));
}

abbrev remote_ruling : CanonicalAuthorityResult
remote_ruling = record {
  verdict = "LIMIT";
  reason = "remote: limit";
  provider = "remote";
  policy_revision = "7";
}

no_bound : (s : String) → ◌≡◌ {A = Option String} none (some s) → size s ≤ 512
no_bound s e = absurd cc

evaluate_authority-IsCanonical_example : IsCanonical remote search_action remote_ruling
unfolding evaluate_authority identity_field plain_bounded prefix_of text ruled
    canonicalize_authority_output raw_verdict raw_reason marked normalize normalize_text
evaluate_authority-IsCanonical_example =
    evaluate_authority-IsCanonical plain none remote search_action remote_ruling no_bound refl
