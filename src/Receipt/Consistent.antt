-- ===== src/Receipt/Consistent.antt =====
-- interop_receipt.py: which receipts pass.
use decision_os_min.Prelude.{
  String, ◌≡◌, refl, ◌∙◌, ap, sym, ◌↔◌, true, not, Option, none, some, nonempty, eq_iff, eq_refl,
  arith, ◌==◌,
}
use decision_os_min.Py.{Value, Dict, get}
use decision_os_min.Py.Exc.{ok, ok_of_bind, raise_if}
use decision_os_min.Py.Runtime.{Runtime}
use decision_os_min.Kernel.{action_fingerprint}
use decision_os_min.Execute.Gates.{is_text→eq}
use decision_os_min.Receipt.{recompute_decision_ref, claimed_ref, check_receipt_as_grant_input}

-- A receipt whose reference is what its cited fields recompute to, and whose artifact is the action.
pub record IsConsistent (R : Runtime) (proof action : Dict) : Type 0 where
  pub reference : String
  pub is_claimed : get "decision_ref" proof ≡ some (Value.str reference)
  pub is_nonempty : nonempty reference ≡ true
  pub recomputes : recompute_decision_ref R proof ≡ ok reference
  pub artifact : String
  pub is_live : action_fingerprint R action ≡ ok artifact
  pub is_artifact : get "artifact_hash" proof ≡ some (Value.str artifact)

claimed_ref-ok :
    (o : Option Value) (s : String)
    → claimed_ref o ≡ ok s
    → (o ≡ some (Value.str s)) × (nonempty s ≡ true)
claimed_ref-ok none s h = cc
claimed_ref-ok (some (Value.str t)) s h = ground arith
claimed_ref-ok (some _) s h = cc

-- The check of a receipt passes exactly where the receipt has a reference that its cited fields
-- recompute to, and names the action's own fingerprint as its artifact.
pub check_receipt_as_grant_input-IsConsistent :
    (R : Runtime) (proof action : Dict)
    → (check_receipt_as_grant_input R proof action ≡ ok tt) ↔ IsConsistent R proof action
unfolding check_receipt_as_grant_input
check_receipt_as_grant_input-IsConsistent R proof action = (forth, back)
  where
    forth : check_receipt_as_grant_input R proof action ≡ ok tt → IsConsistent R proof action
    forth h = ok_of_bind (claimed_ref (get "decision_ref" proof)) _ h λ claimed e1 h1.
        ok_of_bind (recompute_decision_ref R proof) _ h1 λ recomputed e2 h2.
          ok_of_bind (raise_if (not (claimed == recomputed)) _) _ h2 λ _ e3 h3.
            ok_of_bind (action_fingerprint R action) _ h3 λ live e4 h4.
              let (is_claimed, some_text) = claimed_ref-ok (get "decision_ref" proof) claimed e1 in
              let same : claimed ≡ recomputed = ground (arith, eq_iff claimed recomputed) in
              record {
                reference = claimed;
                is_claimed = is_claimed;
                is_nonempty = some_text;
                recomputes = e2 ∙ ap ok (sym same);
                artifact = live;
                is_live = e4;
                is_artifact = ground (arith, is_text→eq (get "artifact_hash" proof) live);
              }

    back : IsConsistent R proof action → check_receipt_as_grant_input R proof action ≡ ok tt
    back i =
        rw (i.is_claimed, i.is_nonempty, i.recomputes, eq_refl, i.is_live, i.is_artifact)
          (rw (eq_refl) refl)
