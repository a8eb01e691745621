-- ===== src/Oracle/Compare.antt =====
-- What the comparison tables of the oracle decide, against descriptions that do not go by tables.
use mathlib.Core.Logic.{◌↔◌}
use lean_rust_wasm.Prelude.{
  Bool-cases, inl, inr, ℕ, ◌≡◌, refl, ap, ◌∙◌, subst, List, [], ◌∷◌, true, false, Option, none,
  some, arith,
}
use lean_rust_wasm.Oracle.{
  CompareMode, ignore, identity, full, ErrorId, unknown_fn, arity_drift, trap, Outcome, same_error,
  same_text, compare, Divergence, first_diff_at, value_mismatch, classify, verdict,
}
use lean_rust_wasm.Oracle.Difference.{DifferAt, first_diff_at-none, first_diff_at-some}

pub same_text_refl : (xs : List ℕ) → same_text xs xs ≡ true
unfolding same_text
same_text_refl [] = refl
same_text_refl (x ∷ xs) = ground (arith, same_text_refl xs)

pub same_text→eq : (xs ys : List ℕ) → same_text xs ys ≡ true → xs ≡ ys
unfolding same_text
same_text→eq [] [] h = refl
same_text→eq [] (y ∷ ys) h = cc
same_text→eq (x ∷ xs) [] h = cc
same_text→eq (x ∷ xs) (y ∷ ys) h = ground (arith, same_text→eq xs ys)

same_error_refl : (e : ErrorId) → same_error e e ≡ true
same_error_refl unknown_fn = refl
same_error_refl arity_drift = refl
same_error_refl trap = refl

same_error→eq : (e f : ErrorId) → same_error e f ≡ true → e ≡ f
same_error→eq unknown_fn unknown_fn h = refl
same_error→eq arity_drift arity_drift h = refl
same_error→eq trap trap h = refl
same_error→eq _ _ h = cc

equal_of_full :
    (e f : Option ErrorId) (xs ys : List ℕ)
    → compare full (record { error = e; payload = xs }) (record { error = f; payload = ys }) ≡ true
    → ◌≡◌ {A = Outcome} (record { error = e; payload = xs }) (record { error = f; payload = ys })
unfolding compare
equal_of_full none none xs ys h =
    ap (λ (t : List ℕ). record { error = none; payload = t }) (same_text→eq xs ys h)
equal_of_full none (some f) xs ys h = cc
equal_of_full (some e) none xs ys h = cc
equal_of_full (some e) (some f) xs ys h =
    let error : e ≡ f = same_error→eq e f (ground arith) in
    let text : xs ≡ ys = same_text→eq xs ys (ground arith) in cc (error, text)

full_refl :
    (e : Option ErrorId) (xs : List ℕ)
    → compare full (record { error = e; payload = xs }) (record { error = e; payload = xs }) ≡ true
unfolding compare
full_refl none xs = same_text_refl xs
full_refl (some e) xs = ground (arith, same_error_refl e, same_text_refl xs)

-- The full mode passes exactly on equal outcomes.
pub compare-full : (expected got : Outcome) → (compare full expected got ≡ true) ↔ (expected ≡ got)
compare-full expected got = (
  equal_of_full expected.error got.error expected.payload got.payload,
  λ same.
      subst (λ o. compare full expected o ≡ true) same (full_refl expected.error expected.payload),
)

identity_by_error :
    (e f : Option ErrorId) (xs ys : List ℕ)
    → (compare identity (record { error = e; payload = xs }) (record { error = f; payload = ys })
        ≡ true)
      ↔ (e ≡ f)
unfolding compare
identity_by_error none none xs ys = (λ h. refl, λ h. refl)
identity_by_error none (some f) xs ys = (λ h. cc, λ h. cc)
identity_by_error (some e) none xs ys = (λ h. cc, λ h. cc)
identity_by_error (some e) (some f) xs ys = (
  λ h. ap some (same_error→eq e f h),
  λ h. let same : e ≡ f = cc h in subst (λ g. same_error e g ≡ true) same (same_error_refl e),
)

-- The identity mode passes exactly on outcomes with the same error, or with none on both sides.
pub compare-identity :
    (expected got : Outcome) → (compare identity expected got ≡ true) ↔ (expected.error ≡ got.error)
compare-identity expected got =
    identity_by_error expected.error got.error expected.payload got.payload

ignore_equal :
    (xs : List ℕ)
    → compare ignore (record { error = none; payload = xs }) (record { error = none; payload = xs })
      ≡ true
unfolding compare
ignore_equal xs = same_text_refl xs

ignore_error :
    (e : ErrorId) (xs : List ℕ)
    → compare ignore
        (record { error = some e; payload = xs })
        (record { error = some e; payload = xs })
      ≡ true
unfolding compare
ignore_error e xs = refl

-- In every mode an outcome passes against itself.
pub compare_refl : (mode : CompareMode) (o : Outcome) → compare mode o o ≡ true
compare_refl full o = (compare-full o o).1 refl
compare_refl identity o = (compare-identity o o).1 refl
compare_refl ignore o = by_error o.error o.payload
  where
    by_error :
        (e : Option ErrorId) (xs : List ℕ)
        → compare ignore (record { error = e; payload = xs }) (record { error = e; payload = xs })
          ≡ true
    by_error none xs = ignore_equal xs
    by_error (some e) xs = ignore_error e xs

-- Only two values are a mismatch of values.
class_by_error :
    (e f : Option ErrorId) (xs ys : List ℕ)
    → classify (record { error = e; payload = xs }) (record { error = f; payload = ys })
      ≡ value_mismatch
    → (e ≡ none) × (f ≡ none)
unfolding classify
class_by_error none none xs ys h = (refl, refl)
class_by_error none (some f) xs ys h = cc
class_by_error (some e) none xs ys h = cc
class_by_error (some e) (some f) xs ys h = ground arith

verdict-some :
    (mode : CompareMode) (expected observed : Outcome) (d : Divergence)
    → verdict mode expected observed ≡ some d
    → (compare mode expected observed ≡ false)
      × (d.category ≡ classify expected observed)
      × (d.payload_diff_at ≡ first_diff_at expected.payload observed.payload)
unfolding verdict
verdict-some mode expected observed d h = elim (Bool-cases (compare mode expected observed)) [
  | inl passed ↦ ground (arith, passed)
  | inr failed ↦
      let same : some (record {
        expected = expected;
        observed = observed;
        category = classify expected observed;
        payload_diff_at = first_diff_at expected.payload observed.payload;
      })
          ≡ some d =
        rw failed at h in
      (failed, cc same, cc same)
]

-- A verdict of the full mode whose category is a mismatch of values carries a position, at which the
-- payloads differ for the first time.
pub verdict_position :
    (expected observed : Outcome) (d : Divergence)
    → verdict full expected observed ≡ some d
    → d.category ≡ value_mismatch
    → (n : ℕ) × (d.payload_diff_at ≡ some n) × DifferAt n expected.payload observed.payload
verdict_position expected observed d h c =
    let (failed, category, position) = verdict-some full expected observed d h in
    let (e, f) =
      class_by_error expected.error observed.error expected.payload observed.payload
        (cc (category, c)) in
    go failed position (cc (e, f)) (first_diff_at expected.payload observed.payload) refl
  where
    go :
        compare full expected observed ≡ false
        → d.payload_diff_at ≡ first_diff_at expected.payload observed.payload
        → expected.error ≡ observed.error
        → (o : Option ℕ) → first_diff_at expected.payload observed.payload ≡ o
        → (n : ℕ) × (d.payload_diff_at ≡ some n) × DifferAt n expected.payload observed.payload
    go failed position errors none at =
        let text : expected.payload ≡ observed.payload = first_diff_at-none _ _ at in
        let same : expected ≡ observed = λ i. record { error = errors i; payload = text i } in
        cc (failed, (compare-full expected observed).1 same)
    go failed position errors (some n) at =
        (n, position ∙ at, first_diff_at-some expected.payload observed.payload n at)
