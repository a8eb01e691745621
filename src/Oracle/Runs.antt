-- ===== src/Oracle/Runs.antt =====
-- The tests of the oracle mirror, and the theorems at concrete inputs.
use lean_rust_wasm.Prelude.{◌≡◌, refl, [], ◌∷◌, true, some}
use lean_rust_wasm.Oracle.{
  ignore, full, unknown_fn, Outcome, value, trapped, compare, verdict, classify, same_text,
  first_diff_at, first_diff_from, Divergence, value_mismatch, error_identity_mismatch,
}

abbrev unknown : Outcome
unknown = record { error = some unknown_fn; payload = [] }

ignore_passes_errors : compare ignore trapped (value (1 ∷ [])) ≡ true
unfolding compare
ignore_passes_errors = refl

trap_is_not_unknown : classify trapped unknown ≡ error_identity_mismatch
unfolding classify
trap_is_not_unknown = refl

second_differs : first_diff_at (4 ∷ 5 ∷ []) (4 ∷ 6 ∷ []) ≡ some 1
unfolding first_diff_at first_diff_from
second_differs = refl

abbrev two_values : Divergence
two_values = record {
  expected = value (4 ∷ 5 ∷ []);
  observed = value (4 ∷ 6 ∷ []);
  category = value_mismatch;
  payload_diff_at = some 1;
}

two_values-verdict : verdict full (value (4 ∷ 5 ∷ [])) (value (4 ∷ 6 ∷ [])) ≡ some two_values
unfolding verdict compare classify same_text first_diff_at first_diff_from
two_values-verdict = refl
