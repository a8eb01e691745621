-- ===== src/Surface/Verify.antt =====
-- What it means that a guest's surface passes `verify_surface` of schema.rs.
use lean_rust_wasm.Prelude.{
  ℕ, ◌≡◌, refl, sym, ap, ◌∙◌, List, [], ◌∷◌, ◌++◌, Bool, ◌≢◌, subst, Option, none, some, err, ok,
  All, ◌⊎◌, inl, inr, Bool-cases, ◌==◌, if◌then◌else◌, arith,
}
use lean_rust_wasm.Text.{Text, lookup}
use lean_rust_wasm.Surface.{
  Entry, Export, Difference, missing_export, arity_mismatch, SchemaSkew, compare_entry, or_else,
  first_difference, verify_surface, refuse, parse_surface, render_surface, surface_of,
}
use lean_rust_wasm.Surface.RoundTrip.{EntryOk, parse_surface-render_surface}

-- The guest has the entry.
abbrev pub Exports : List Entry → Entry → Type 0
Exports got (f, n) = lookup f got ≡ some n

-- The guest's entries under the names of the contract, in the contract's order.
abbrev pub over : List Entry → List Entry → List Entry
over got [] = []
over got ((f, n) ∷ want) = elim (lookup f got) [
  | some m ↦ (f, m) ∷ over got want
  | none ↦ over got want
]

Option-cases : (o : Option Difference) → (o ≡ none) ⊎ ((d : Difference) × (o ≡ some d))
Option-cases none = inl refl
Option-cases (some d) = inr (d, refl)

compare_entry-none :
    (f : Text) (n : ℕ) (found : Option ℕ) → compare_entry f n found ≡ none → found ≡ some n
compare_entry-none f n none h = cc
compare_entry-none f n (some m) h = ground arith

first_difference-none :
    (want got : List Entry) → first_difference want got ≡ none → All (Exports got) want
unfolding first_difference
first_difference-none [] got h = tt
first_difference-none ((f, n) ∷ want) got h =
    elim (Option-cases (compare_entry f n (lookup f got))) [
      | inl e ↦ (
        compare_entry-none f n (lookup f got) e,
        first_difference-none want got
            (ap (λ c. or_else c (first_difference want got)) (sym e) ∙ h),
      )
      | inr (d, e) ↦ cc (ap (λ c. or_else c (first_difference want got)) (sym e) ∙ h)
    ]

first_difference_agree :
    (want got : List Entry) → All (Exports got) want → first_difference want got ≡ none
unfolding first_difference
first_difference_agree [] got h = refl
first_difference_agree ((f, n) ∷ want) got (h, hs) =
    rw (h, first_difference_agree want got hs) (ground arith)

over_agree : (want got : List Entry) → All (Exports got) want → over got want ≡ want
over_agree [] got h = refl
over_agree ((f, n) ∷ want) got (h, hs) = ground (arith, h, over_agree want got hs)

refuse_ok :
    (got : List Entry) (expected : Text) (d : Option Difference)
    → refuse got expected d ≡ ok tt
    → d ≡ none
refuse_ok got expected none h = refl
refuse_ok got expected (some d) h = cc

-- A guest whose surface passes has every entry of the expectation, with its arity.
pub verify_surface-Exports :
    (exports : List Export) (expected : Text)
    → verify_surface exports expected ≡ ok tt
    → All (Exports (surface_of exports)) (parse_surface expected)
unfolding verify_surface
verify_surface-Exports exports expected h =
    first_difference-none (parse_surface expected) (surface_of exports) (
      refuse_ok (surface_of exports) expected
        (first_difference (parse_surface expected) (surface_of exports)) h)

-- A guest that has every entry of the expectation passes.
pub verify_surface_complete :
    (exports : List Export) (expected : Text)
    → All (Exports (surface_of exports)) (parse_surface expected)
    → verify_surface exports expected ≡ ok tt
unfolding verify_surface
verify_surface_complete exports expected h =
    rw (first_difference_agree (parse_surface expected) (surface_of exports) h) refl

-- When a guest passes against the canonical string of a contract, its own surface, cut to the
-- contract's names in the contract's order, renders to that very string, so its hash is the same.
pub verify_surface_renders :
    (exports : List Export) (contract : List Entry)
    → All EntryOk contract
    → verify_surface exports (render_surface contract) ≡ ok tt
    → render_surface (over (surface_of exports) contract) ≡ render_surface contract
verify_surface_renders exports contract hc h =
    let agree =
      subst (All (Exports (surface_of exports))) (parse_surface-render_surface contract hc)
        (verify_surface-Exports exports (render_surface contract) h) in
    ap render_surface (over_agree contract (surface_of exports) agree)

-- The difference that a refusal names is real: a name of the expectation that the guest lacks, or
-- has with the other arity that is named; every entry before it is the guest's.
abbrev pub Real : List Entry → List Entry → Difference → Type 0
Real want got (missing_export f n) =
    (before later : List Entry) × (want ≡ before ++ (f, n) ∷ later)
    × (All (Exports got) before × (lookup f got ≡ none))
Real want got (arity_mismatch f n m) =
    (before later : List Entry) × (want ≡ before ++ (f, n) ∷ later)
    × (All (Exports got) before × ((lookup f got ≡ some m) × (m ≢ n)))

Real-cons :
    (e : Entry) (want got : List Entry) (d : Difference)
    → Exports got e
    → Real want got d
    → Real (e ∷ want) got d
Real-cons e want got (missing_export f n) h (before, later, cut, (agree, gone)) =
    (e ∷ before, later, ap (λ l. e ∷ l) cut, ((h, agree), gone))
Real-cons e want got (arity_mismatch f n m) h (before, later, cut, (agree, wrong)) =
    (e ∷ before, later, ap (λ l. e ∷ l) cut, ((h, agree), wrong))

abbrev choose : Text → ℕ → ℕ → Bool → Option Difference
choose f n m b = if b then none else some (arity_mismatch f n m)

some_injective : {A : Type 0} → {x y : A} → some x ≡ some y → x ≡ y
some_injective h = cc

mismatch-some :
    (f : Text) (n m : ℕ) (d : Difference)
    → compare_entry f n (some m) ≡ some d
    → (m ≢ n) × (arity_mismatch f n m ≡ d)
mismatch-some f n m d h = elim (Bool-cases (m == n)) [
  | inl e ↦ cc (sym (ap (choose f n m) e) ∙ h)
  | inr e ↦ (ground (arith, e), some_injective (sym (ap (choose f n m) e) ∙ h))
]

compare_entry-some :
    (f : Text) (n : ℕ) (want got : List Entry) (d : Difference) (found : Option ℕ)
    → lookup f got ≡ found
    → compare_entry f n found ≡ some d
    → Real ((f, n) ∷ want) got d
compare_entry-some f n want got d none hf h =
    let named : missing_export f n ≡ d = cc h in
    subst (Real ((f, n) ∷ want) got) named ([], want, refl, (tt, hf))
compare_entry-some f n want got d (some m) hf h =
    let (other, named) = mismatch-some f n m d h in
    subst (Real ((f, n) ∷ want) got) named ([], want, refl, (tt, (hf, other)))

first_difference-Real :
    (want got : List Entry) (d : Difference) → first_difference want got ≡ some d → Real want got d
unfolding first_difference
first_difference-Real [] got d h = cc
first_difference-Real ((f, n) ∷ want) got d h =
    let at : Option Difference → Option Difference = λ c. or_else c (first_difference want got) in
    elim (Option-cases (compare_entry f n (lookup f got))) [
      | inl e ↦
          Real-cons (f, n) want got d (compare_entry-none f n (lookup f got) e)
            (first_difference-Real want got d (sym (ap at e) ∙ h))
      | inr (c, e) ↦ compare_entry-some f n want got d (lookup f got) refl (e ∙ sym (ap at e) ∙ h)
    ]

refuse_err :
    (got : List Entry) (expected : Text) (d : Option Difference) (skew : SchemaSkew)
    → refuse got expected d ≡ err skew
    → (d ≡ some skew.detail) × ((skew.expected ≡ expected) × (skew.actual ≡ render_surface got))
refuse_err got expected none skew h = cc
refuse_err got expected (some d) skew h =
    let made : SchemaSkew = record {
      expected = expected;
      actual = render_surface got;
      detail = d;
    } in
    let one : made ≡ skew = cc h in
    (ap (λ s. some s.detail) one, (ap (λ s. s.expected) (sym one), ap (λ s. s.actual) (sym one)))

-- A refusal carries both canonical strings and the first difference.
pub verify_surface_refused :
    (exports : List Export) (expected : Text) (skew : SchemaSkew)
    → verify_surface exports expected ≡ err skew
    → Real (parse_surface expected) (surface_of exports) skew.detail
      × ((skew.expected ≡ expected) × (skew.actual ≡ render_surface (surface_of exports)))
unfolding verify_surface
verify_surface_refused exports expected skew h =
    let (hd, he) =
      refuse_err (surface_of exports) expected
        (first_difference (parse_surface expected) (surface_of exports)) skew h in
    (first_difference-Real (parse_surface expected) (surface_of exports) skew.detail hd, he)
