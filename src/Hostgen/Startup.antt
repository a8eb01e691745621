-- ===== src/Hostgen/Startup.antt =====
-- The startup gate of hostgen.rs: which contracts it accepts, and what an accepted one covers.
use lean_rust_wasm.Prelude.{
  ℕ, ◌≡◌, refl, sym, ap, ◌∙◌, subst, List, [], ◌∷◌, ◌++◌, append_assoc, append-nil, Bool, true,
  false, ◌≢◌, Option, none, some, Result, err, ok, ◌>>=◌, >>=-eq-ok, All, ◌⊎◌, inl, inr, ◌==◌,
  if◌then◌else◌, Bool-cases, arith,
}
use lean_rust_wasm.Text.{Text, lookup}
use lean_rust_wasm.Surface.{Entry, parse_surface, render_surface}
use lean_rust_wasm.Surface.RoundTrip.{EntryOk, parse_surface-render_surface}
use lean_rust_wasm.Hostgen.{Item}
use lean_rust_wasm.Hostgen.Lines.{parse_snapshot}
use lean_rust_wasm.Hostgen.Writer.{render, ItemOk}
use lean_rust_wasm.Hostgen.Normal.{normals, surface_entries-normals}
use lean_rust_wasm.Hostgen.RoundTrip.{parse_snapshot-render}
use lean_rust_wasm.Hostgen.Contract.{
  Mismatch, arity_differs, place, ContractCoverage, sort_entries, refuse_empty, refuse_vacuous,
  with_surfaces, check_contract, parse_failed, surface_failed, skew_found, map_err, surface_entries,
  validate_committed,
}

-- An entry that the contract does not have, or has with the same arity.
abbrev pub Agrees : List Entry → Entry → Type 0
Agrees contract (f, n) = (lookup f contract ≡ none) ⊎ (lookup f contract ≡ some n)

abbrev is_some {ℓ} : {A : Type ℓ} → Option A → Bool
is_some none = false
is_some (some x) = true

-- The entries that the contract has, and those that it has not, in their order.
abbrev pub having : Bool → List Entry → List Entry → List Entry
having wanted contract [] = []
having true contract ((f, n) ∷ es) =
    let later = having true contract es in
    if is_some (lookup f contract) then (f, n) ∷ later else later
having false contract ((f, n) ∷ es) =
    let later = having false contract es in
    if is_some (lookup f contract) then later else (f, n) ∷ later

-- Both lists, after what is sorted already.
abbrev sorted : List Entry → List Entry → List Entry → List Entry → ContractCoverage
sorted covered out more others = record {
  covered = covered ++ more;
  out_of_contract = out ++ others;
}

sort_entries_agree :
    (contract entries covered out : List Entry)
    → All (Agrees contract) entries
    → sort_entries contract entries covered out
      ≡ ok (sorted covered out (having true contract entries) (having false contract entries))
unfolding sort_entries
sort_entries_agree contract [] covered out h = rw (append-nil covered, append-nil out) refl
sort_entries_agree contract ((f, n) ∷ es) covered out (inl h, hs) =
    let yes = having true contract es in
    let no = having false contract es in
    rw h (
      sort_entries_agree contract es covered (out ++ (f, n) ∷ []) hs
      ∙ ap (λ l. ok (record { covered = covered ++ yes; out_of_contract = l }))
          (append_assoc out ((f, n) ∷ []) no))
sort_entries_agree contract ((f, n) ∷ es) covered out (inr h, hs) =
    let yes = having true contract es in
    let no = having false contract es in
    let same_arity : (n == n) ≡ true = ground arith in
    rw (h, same_arity)
      (sort_entries_agree contract es (covered ++ (f, n) ∷ []) out hs
        ∙ ap (λ l. ok (record { covered = l; out_of_contract = out ++ no }))
            (append_assoc covered ((f, n) ∷ []) yes))

err_not_ok : (why : Mismatch) (c : ContractCoverage) → ok c ≢ err why
err_not_ok why c = λ e. cc

place-ok :
    (f : Text) (n : ℕ) (found : Option ℕ) (without with_it : Result Mismatch ContractCoverage)
    (c : ContractCoverage)
    → place f n found without with_it ≡ ok c
    → ((found ≡ none) × (without ≡ ok c)) ⊎ ((found ≡ some n) × (with_it ≡ ok c))
place-ok f n none without with_it c h = inl (refl, h)
place-ok f n (some m) without with_it c h =
    let at : Bool → Result Mismatch ContractCoverage =
      λ b. if b then with_it else err (arity_differs f n m) in
    elim (Bool-cases (m == n)) [
      | inl e ↦ inr (ground (arith, e), sym (ap at e) ∙ h)
      | inr e ↦ absurd (err_not_ok (arity_differs f n m) c (sym h ∙ ap at e))
    ]

sort_entries-ok :
    (contract entries covered out : List Entry) (c : ContractCoverage)
    → sort_entries contract entries covered out ≡ ok c
    → All (Agrees contract) entries
unfolding sort_entries
sort_entries-ok contract [] covered out c h = tt
sort_entries-ok contract ((f, n) ∷ es) covered out c h =
    let without = sort_entries contract es covered (out ++ (f, n) ∷ []) in
    let with_it = sort_entries contract es (covered ++ (f, n) ∷ []) out in
    elim (place-ok f n (lookup f contract) without with_it c h) [
      | inl (e, later) ↦ (inl e, sort_entries-ok contract es covered (out ++ (f, n) ∷ []) c later)
      | inr (e, later) ↦ (inr e, sort_entries-ok contract es (covered ++ (f, n) ∷ []) out c later)
    ]

ok_injective :
    {x y : ContractCoverage} → ◌≡◌ {A = Result Mismatch ContractCoverage} (ok x) (ok y) → x ≡ y
ok_injective h = cc

refuse_empty_filled : (es : List Entry) (c : ContractCoverage) → es ≢ [] → refuse_empty es c ≡ ok c
refuse_empty_filled [] c h = absurd (h refl)
refuse_empty_filled (e ∷ es) c h = refl

refuse_empty-ok :
    (es : List Entry) (m c : ContractCoverage) → refuse_empty es m ≡ ok c → (m ≡ c) × (es ≢ [])
refuse_empty-ok [] m c h = cc
refuse_empty-ok (e ∷ es) m c h = (ok_injective h, λ empty. cc)

with_surfaces-ok :
    (expected : Text) (entries : List Entry) (r : Result Mismatch ContractCoverage)
    (c : ContractCoverage)
    → with_surfaces expected entries r ≡ ok c
    → r ≡ ok c
with_surfaces-ok expected entries (err why) c h = cc
with_surfaces-ok expected entries (ok d) c h = cc

-- The coverage that an agreeing surface has.
abbrev pub coverage : List Entry → List Entry → ContractCoverage
coverage contract entries = record {
  covered = having true contract entries;
  out_of_contract = having false contract entries;
}

-- Every generated entry agrees with the contract, and the contract has one of them: then the
-- contract is accepted, with each entry, in order, as covered or as out of contract.
pub check_contract_accepts :
    (entries : List Entry) (expected : Text)
    → All (Agrees (parse_surface expected)) entries
    → having true (parse_surface expected) entries ≢ []
    → check_contract entries expected ≡ ok (coverage (parse_surface expected) entries)
unfolding check_contract
check_contract_accepts entries expected h some_entry =
    let contract = parse_surface expected in
    rw (sort_entries_agree contract entries [] [] h) (
      ap (with_surfaces expected entries)
        (refuse_empty_filled (having true contract entries) (coverage contract entries) some_entry))

-- An accepted contract has no entry of another arity, and is not vacuous.
pub check_contract_accepted :
    (entries : List Entry) (expected : Text) (c : ContractCoverage)
    → check_contract entries expected ≡ ok c
    → All (Agrees (parse_surface expected)) entries
      × ((c ≡ coverage (parse_surface expected) entries) × (c.covered ≢ []))
unfolding check_contract
check_contract_accepted entries expected c h =
    let contract = parse_surface expected in
    let passed =
      with_surfaces-ok expected entries (sort_entries contract entries [] [] >>= refuse_vacuous) c
        h in
    let (mid, sorted_ok, filled) =
      >>=-eq-ok (sort_entries contract entries [] []) refuse_vacuous passed in
    let (same_c, some_entry) = refuse_empty-ok mid.covered mid c filled in
    let agree = sort_entries-ok contract entries [] [] mid sorted_ok in
    let made : mid ≡ coverage contract entries =
      ok_injective (sym sorted_ok ∙ sort_entries_agree contract entries [] [] agree) in
    (agree, (sym same_c ∙ made, subst (λ d. d.covered ≢ []) same_c some_entry))

map_err-ok {ℓ κ μ} :
    {E : Type ℓ} {F : Type κ} {A : Type μ}
    → (f : E → F) (r : Result E A) (a : A) → map_err f r ≡ ok a
    → r ≡ ok a
map_err-ok f (err e) a h = cc
map_err-ok f (ok b) a h = cc

module _ (is_uppercase : ℕ → Bool) where
  -- The written snapshot of an admitted universe passes against the canonical string of a contract
  -- when its functions' types resolve, every function that the contract names has the contract's
  -- arity, and there is one.
  pub validate_committed_accepts :
      (items : List Item) (contract entries : List Entry)
      → All ItemOk items
      → All EntryOk contract
      → surface_entries is_uppercase items ≡ ok entries
      → All (Agrees contract) entries
      → having true contract entries ≢ []
      → validate_committed is_uppercase (render items) (render_surface contract)
        ≡ ok (coverage contract entries)
  unfolding validate_committed
  validate_committed_accepts items contract entries hi hc he agree some_entry =
      let read = parse_surface-render_surface contract hc in
      let accepted : check_contract entries (render_surface contract)
          ≡ ok (coverage contract entries) =
        subst
          (λ l.
            All (Agrees l) entries
            → having true l entries ≢ []
            → check_contract entries (render_surface contract) ≡ ok (coverage l entries))
          read (check_contract_accepts entries (render_surface contract)) agree some_entry in
      let same_entries : surface_entries is_uppercase (normals items) ≡ ok entries =
        surface_entries-normals is_uppercase items ∙ he in
      rw ((parse_snapshot-render items hi).0, same_entries, accepted) refl

  -- A startup that passes has read a universe whose functions agree with the expectation, covers
  -- exactly those that the expectation names, in order, and covers one.
  pub validate_committed_accepted :
      (snapshot expected : Text) (c : ContractCoverage)
      → validate_committed is_uppercase snapshot expected ≡ ok c
      → (items : List Item) × (entries : List Entry) × (parse_snapshot snapshot ≡ ok items)
        × (surface_entries is_uppercase items ≡ ok entries)
        × (All (Agrees (parse_surface expected)) entries
            × ((c ≡ coverage (parse_surface expected) entries) × (c.covered ≢ [])))
  unfolding validate_committed
  validate_committed_accepted snapshot expected c h =
      let (items, hi, h1) = >>=-eq-ok (map_err parse_failed (parse_snapshot snapshot)) _ h in
      let (entries, he, h2) =
        >>=-eq-ok (map_err surface_failed (surface_entries is_uppercase items)) _ h1 in
      (
        items,
        entries,
        map_err-ok parse_failed (parse_snapshot snapshot) items hi,
        map_err-ok surface_failed (surface_entries is_uppercase items) entries he,
        check_contract_accepted entries expected c
            (map_err-ok skew_found (check_contract entries expected) c h2),
      )
