-- ===== src/Surface.antt =====
-- The export surface of a guest, crates/guestlang-host/src/schema.rs: its canonical string, and its
-- comparison with the host's expectation.
pub mod RoundTrip
pub mod Verify
mod Runs
use lean_rust_wasm.Prelude.{
  ℕ, zero, suc, ◌+◌, List, [], ◌∷◌, ◌++◌, Bool, true, false, Option, none, some, Result, err, ok,
  ◌==◌, if◌then◌else◌,
}
use lean_rust_wasm.Text.{Text, split, lookup}
use lean_rust_wasm.Text.Decimal.{decimal, parse_u64}

-- A function's name and the number of its flat arguments.
abbrev pub Entry : Type 0
Entry = Text × ℕ

-- `rsplit_once`: the parts before and after the last separator.
abbrev pub push_front : ℕ → Option (Text × Text) → Bool → Text → Option (Text × Text)
push_front c (some (before, after)) here cs = some (c ∷ before, after)
push_front c none true cs = some ([], cs)
push_front c none false cs = none

abbrev pub rsplit_once : ℕ → Text → Option (Text × Text)
rsplit_once sep [] = none
rsplit_once sep (c ∷ cs) = push_front c (rsplit_once sep cs) (c == sep) cs

abbrev pub with_arity : Text → Option ℕ → Option Entry
with_arity f none = none
with_arity f (some arity) = some (f, arity)

abbrev pub read_parts : Option (Text × Text) → Option Entry
read_parts none = none
read_parts (some (f, n)) = with_arity f (parse_u64 n)

unfoldable pub parse_entry : Text → Option Entry
parse_entry text = read_parts (rsplit_once 47 text)

abbrev pub push_some {ℓ} : {B : Type ℓ} → Option B → List B → List B
push_some none ys = ys
push_some (some y) ys = y ∷ ys

abbrev pub filter_map {ℓ κ} : {A : Type ℓ} {B : Type κ} → (A → Option B) → List A → List B
filter_map f [] = []
filter_map f (x ∷ xs) = push_some (f x) (filter_map f xs)

-- Malformed entries are dropped.
unfoldable pub parse_surface : Text → List Entry
parse_surface surface = filter_map parse_entry (split 44 surface)

abbrev pub render_entry : Entry → Text
render_entry (f, n) = f ++ 47 ∷ decimal n

abbrev pub join_entries : Text → List Entry → Text
join_entries t [] = t
join_entries t (e ∷ es) = t ++ 44 ∷ join_entries (render_entry e) es

unfoldable pub render_surface : List Entry → Text
render_surface [] = []
render_surface (e ∷ es) = join_entries (render_entry e) es

-- What `flat_arity` looks at in a type of the component model.
pub data View : Type 0 where
  record_view : ℕ → View
  variant_view other_view : View

unfoldable pub flat_arity : View → ℕ
flat_arity (record_view fields) = fields
flat_arity variant_view = 2
flat_arity other_view = 1

abbrev pub total_arity : List View → ℕ
total_arity [] = 0
total_arity (t ∷ ts) = flat_arity t + total_arity ts

-- The exports of a component type in order: a function with its parameters' types, or another item.
abbrev pub Export : Type 0
Export = Text × Option (List View)

abbrev pub export_entry : Export → Option Entry
export_entry (name, none) = none
export_entry (name, some params) = some (name, total_arity params)

unfoldable pub surface_of : List Export → List Entry
surface_of exports = filter_map export_entry exports

pub data Difference : Type 0 where
  missing_export : Text → ℕ → Difference
  arity_mismatch : Text → ℕ → ℕ → Difference

pub record SchemaSkew : Type 0 where
  pub expected : Text
  pub actual : Text
  pub detail : Difference

abbrev pub compare_entry : Text → ℕ → Option ℕ → Option Difference
compare_entry f n none = some (missing_export f n)
compare_entry f n (some m) = if m == n then none else some (arity_mismatch f n m)

abbrev pub or_else {ℓ} : {A : Type ℓ} → Option A → Option A → Option A
or_else none later = later
or_else (some x) later = some x

-- The walk over the expected entries, up to the first difference.
unfoldable pub first_difference : List Entry → List Entry → Option Difference
first_difference [] got = none
first_difference ((f, n) ∷ want) got =
    or_else (compare_entry f n (lookup f got)) (first_difference want got)

abbrev pub refuse : List Entry → Text → Option Difference → Result SchemaSkew (Unit {0})
refuse got expected none = ok tt
refuse got expected (some detail) =
    err (record { expected = expected; actual = render_surface got; detail = detail })

unfoldable pub verify_surface : List Export → Text → Result SchemaSkew (Unit {0})
verify_surface exports expected =
    refuse (surface_of exports) expected
      (first_difference (parse_surface expected) (surface_of exports))
