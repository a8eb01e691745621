-- ===== src/Hostgen/Contract.antt =====
-- The host's contract from the universe: `Universe`, `surface_entries`, `check_contract` and the
-- startup gate `validate_committed` of crates/guestlang-host/src/hostgen.rs.
use lean_rust_wasm.Prelude.{
  ℕ, ◌+◌, List, [], ◌∷◌, ◌++◌, length, Bool, true, false, ◌&&◌, Option, none, some, Result, err, ok,
  ◌>>=◌, ◌==◌, leb, if◌then◌else◌,
}
use lean_rust_wasm.Text.{Text, same, lookup}
use lean_rust_wasm.Surface.{Entry, parse_surface, render_surface}
use lean_rust_wasm.Hostgen.{Ty, Item, record_item, variant_item, func_item, resource_item}
use lean_rust_wasm.Hostgen.Lines.{ParseError, parse_snapshot}

abbrev pub to_ascii_lowercase : ℕ → ℕ
to_ascii_lowercase c = if leb 65 c && leb c 90 then c + 32 else c

abbrev pub item_name : Item → Text
item_name (record_item n fields) = n
item_name (variant_item n cases) = n
item_name (func_item n params ret sem) = n
item_name (resource_item n) = n

-- `Universe::find`: the first item with the name.
abbrev pub find : Text → List Item → Option Item
find n [] = none
find n (item ∷ items) =
    let later = find n items in if same (item_name item) n then some item else later

-- The flat arguments of a value of a found item.
abbrev pub slots : Text → Option Item → Result Text ℕ
slots n (some (record_item m fields)) = ok (length fields)
slots n (some (variant_item m cases)) = ok 2
slots n (some item) = ok 1
slots n none = err n

-- The error names the type that the universe lacks.
unfoldable pub flat_arity : List Item → Ty → Result Text ℕ
flat_arity items (Ty.named n) = slots n (find n items)
flat_arity items t = ok 1

unfoldable pub params_arity : List Item → ℕ → List (Text × Ty) → Result Text ℕ
params_arity items arity [] = ok arity
params_arity items arity ((name, t) ∷ params) = do
  n ← flat_arity items t
  params_arity items (arity + n) params

pub data Mismatch : Type 0 where
  arity_differs : Text → ℕ → ℕ → Mismatch
  vacuous : Mismatch

pub record ContractSkew : Type 0 where
  pub expected : Text
  pub actual : Text
  pub detail : Mismatch

pub record ContractCoverage : Type 0 where
  pub covered : List Entry
  pub out_of_contract : List Entry

-- What one entry does, from what the contract says of its name: go on without it, go on with it,
-- or stop.
abbrev pub place :
    Text
    → ℕ
    → Option ℕ
    → Result Mismatch ContractCoverage
    → Result Mismatch ContractCoverage
    → Result Mismatch ContractCoverage
place f n none without with_it = without
place f n (some m) without with_it = if m == n then with_it else err (arity_differs f n m)

-- The loop over the generated entries, with what it has sorted so far.
unfoldable pub sort_entries :
    List Entry → List Entry → List Entry → List Entry → Result Mismatch ContractCoverage
sort_entries contract [] covered out = ok (record { covered = covered; out_of_contract = out })
sort_entries contract ((f, n) ∷ entries) covered out =
    place f n (lookup f contract) (sort_entries contract entries covered (out ++ (f, n) ∷ []))
      (sort_entries contract entries (covered ++ (f, n) ∷ []) out)

abbrev pub refuse_empty : List Entry → ContractCoverage → Result Mismatch ContractCoverage
refuse_empty [] c = err vacuous
refuse_empty (e ∷ es) c = ok c

abbrev pub refuse_vacuous : ContractCoverage → Result Mismatch ContractCoverage
refuse_vacuous c = refuse_empty c.covered c

abbrev pub with_surfaces :
    Text → List Entry → Result Mismatch ContractCoverage → Result ContractSkew ContractCoverage
with_surfaces expected entries (ok c) = ok c
with_surfaces expected entries (err why) =
    err (record { expected = expected; actual = render_surface entries; detail = why })

unfoldable pub check_contract : List Entry → Text → Result ContractSkew ContractCoverage
check_contract entries expected =
    with_surfaces expected entries
      (sort_entries (parse_surface expected) entries [] [] >>= refuse_vacuous)

pub data HostgenError : Type 0 where
  parse_failed : ParseError → HostgenError
  surface_failed : Text → HostgenError
  skew_found : ContractSkew → HostgenError

abbrev pub map_err {ℓ κ μ} :
    {E : Type ℓ} {F : Type κ} {A : Type μ} → (E → F) → Result E A → Result F A
map_err f (err e) = err (f e)
map_err f (ok a) = ok a

-- `char::is_uppercase` reads the Unicode tables, which are not the repository's.
module _ (is_uppercase : ℕ → Bool) where
  abbrev pub kebab_char : Bool → ℕ → Text
  kebab_char later c =
      if later && is_uppercase c then 45 ∷ to_ascii_lowercase c ∷ [] else to_ascii_lowercase c ∷ []

  abbrev pub kebab_later : Text → Text
  kebab_later [] = []
  kebab_later (c ∷ cs) = kebab_char true c ++ kebab_later cs

  unfoldable pub kebab : Text → Text
  kebab [] = []
  kebab (c ∷ cs) = kebab_char false c ++ kebab_later cs

  -- The loop over the items; the universe is the whole list.
  unfoldable pub entries_of : List Item → List Item → Result Text (List Entry)
  entries_of universe [] = ok []
  entries_of universe (func_item n params ret sem ∷ items) = do
    arity ← params_arity universe 0 params
    later ← entries_of universe items
    ok ((kebab n, arity) ∷ later)
  entries_of universe (item ∷ items) = entries_of universe items

  unfoldable pub surface_entries : List Item → Result Text (List Entry)
  surface_entries items = entries_of items items

  unfoldable pub validate_committed : Text → Text → Result HostgenError ContractCoverage
  validate_committed snapshot expected = do
    items ← map_err parse_failed (parse_snapshot snapshot)
    entries ← map_err surface_failed (surface_entries items)
    map_err skew_found (check_contract entries expected)
