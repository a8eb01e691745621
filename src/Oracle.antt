-- ===== src/Oracle.antt =====
-- The comparison contract of the oracle, generated/rust/oracle_mirror_generated.rs: the tables, their
-- folds, the first difference and the verdict. A text is the list of its code points.
pub mod Compare
pub mod Difference
pub mod Ser
mod Runs
use lean_rust_wasm.Prelude.{
  ℕ, ◌+◌, List, [], ◌∷◌, Bool, true, false, ◌&&◌, Option, none, some, ◌==◌, if◌then◌else◌,
}

pub data CompareMode : Type 0 where
  ignore identity full : CompareMode

pub data ErrorId : Type 0 where
  unknown_fn arity_drift trap : ErrorId

pub record Outcome : Type 0 where
  pub error : Option ErrorId
  pub payload : List ℕ

-- The derived tests of equality.
abbrev pub same_mode : CompareMode → CompareMode → Bool
same_mode ignore ignore = true
same_mode identity identity = true
same_mode full full = true
same_mode _ _ = false

abbrev pub same_error : ErrorId → ErrorId → Bool
same_error unknown_fn unknown_fn = true
same_error arity_drift arity_drift = true
same_error trap trap = true
same_error _ _ = false

unfoldable pub same_text : List ℕ → List ℕ → Bool
same_text [] [] = true
same_text [] (y ∷ ys) = false
same_text (x ∷ xs) [] = false
same_text (x ∷ xs) (y ∷ ys) = (x == y) && same_text xs ys

-- `Outcome::value` and `Outcome::trap`.
abbrev pub value : List ℕ → Outcome
value s = record { error = none; payload = s }

abbrev pub trapped : Outcome
trapped = record { error = some trap; payload = [] }

pub data ErrPat : Type 0 where
  any no_error an_error : ErrPat

pub data CompareResult : Type 0 where
  pass fail payload_eq id_eq id_and_payload_eq : CompareResult

pub record CompareRow : Type 0 where
  pub mode : CompareMode
  pub expected : ErrPat
  pub got : ErrPat
  pub result : CompareResult

abbrev row : CompareMode → ErrPat → ErrPat → CompareResult → CompareRow
row m e g r = record { mode = m; expected = e; got = g; result = r }

abbrev pub compare_table : List CompareRow
compare_table =
    row ignore an_error any pass
    ∷ row ignore any an_error pass
    ∷ row ignore no_error no_error payload_eq
    ∷ row identity an_error an_error id_eq
    ∷ row identity no_error no_error pass
    ∷ row identity any any fail
    ∷ row full an_error an_error id_and_payload_eq
    ∷ row full no_error no_error payload_eq
    ∷ row full any any fail
    ∷ []

abbrev pub pat_matches : ErrPat → Option ErrorId → Bool
pat_matches any _ = true
pat_matches no_error none = true
pat_matches an_error (some e) = true
pat_matches _ _ = false

abbrev pub both : (ErrorId → ErrorId → Bool) → Option ErrorId → Option ErrorId → Bool
both test (some e) (some f) = test e f
both test _ _ = false

abbrev pub run_result : CompareResult → Outcome → Outcome → Bool
run_result pass expected got = true
run_result fail expected got = false
run_result payload_eq expected got = same_text expected.payload got.payload
run_result id_eq expected got = both same_error expected.error got.error
run_result id_and_payload_eq expected got =
    both (λ e f. same_error e f && same_text expected.payload got.payload) expected.error got.error

-- The loop over the table, which leaves at the first row that matches.
abbrev pub compare_rows : List CompareRow → CompareMode → Outcome → Outcome → Bool
compare_rows [] mode expected got = false
compare_rows (r ∷ rows) mode expected got =
    let rest = compare_rows rows mode expected got in
    if same_mode r.mode mode
      && (pat_matches r.expected expected.error && pat_matches r.got got.error)
    then run_result r.result expected got
    else rest

unfoldable pub compare : CompareMode → Outcome → Outcome → Bool
compare mode expected got = compare_rows compare_table mode expected got

pub data DivergenceCategory : Type 0 where
  value_mismatch expected_value_got_error expected_error_got_value : DivergenceCategory
  error_identity_mismatch error_payload_mismatch : DivergenceCategory

pub data ClassifyResult : Type 0 where
  fixed : DivergenceCategory → ClassifyResult
  id_dependent : ClassifyResult

pub record ClassifyRow : Type 0 where
  pub expected : ErrPat
  pub got : ErrPat
  pub result : ClassifyResult

abbrev class_row : ErrPat → ErrPat → ClassifyResult → ClassifyRow
class_row e g r = record { expected = e; got = g; result = r }

abbrev pub classify_table : List ClassifyRow
classify_table =
    class_row no_error no_error (fixed value_mismatch)
    ∷ class_row no_error an_error (fixed expected_value_got_error)
    ∷ class_row an_error no_error (fixed expected_error_got_value)
    ∷ class_row an_error an_error id_dependent
    ∷ []

abbrev pub run_class : ClassifyResult → Outcome → Outcome → DivergenceCategory
run_class (fixed c) expected observed = c
run_class id_dependent expected observed =
    if both same_error expected.error observed.error
    then error_payload_mismatch
    else error_identity_mismatch

abbrev pub classify_rows : List ClassifyRow → Outcome → Outcome → DivergenceCategory
classify_rows [] expected observed = error_identity_mismatch
classify_rows (r ∷ rows) expected observed =
    let rest = classify_rows rows expected observed in
    if pat_matches r.expected expected.error && pat_matches r.got observed.error
    then run_class r.result expected observed
    else rest

unfoldable pub classify : Outcome → Outcome → DivergenceCategory
classify expected observed = classify_rows classify_table expected observed

-- The loop over both texts, at position `i`.
unfoldable pub first_diff_from : List ℕ → List ℕ → ℕ → Option ℕ
first_diff_from [] [] i = none
first_diff_from [] (y ∷ ys) i = some i
first_diff_from (x ∷ xs) [] i = some i
first_diff_from (x ∷ xs) (y ∷ ys) i =
    let rest = first_diff_from xs ys (i + 1) in if x == y then rest else some i

unfoldable pub first_diff_at : List ℕ → List ℕ → Option ℕ
first_diff_at a b = first_diff_from a b 0

pub record Divergence : Type 0 where
  pub expected : Outcome
  pub observed : Outcome
  pub category : DivergenceCategory
  pub payload_diff_at : Option ℕ

unfoldable pub verdict : CompareMode → Outcome → Outcome → Option Divergence
verdict mode expected observed =
    if compare mode expected observed
    then none
    else some (record {
      expected = expected;
      observed = observed;
      category = classify expected observed;
      payload_diff_at = first_diff_at expected.payload observed.payload;
    })
