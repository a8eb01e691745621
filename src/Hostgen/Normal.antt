-- ===== src/Hostgen/Normal.antt =====
-- The items of a snapshot with each default semantics left out, as the writer of Snapshot.lean leaves it
-- out: such items have the same text and the same surface entries in hostgen.rs.
use lean_rust_wasm.Prelude.{
  ℕ, ◌+◌, ◌≡◌, refl, ap, List, [], ◌∷◌, Bool, Option, none, some, Result, err, ok, ◌>>=◌,
  Bool-cases, inl, inr, if◌then◌else◌,
}
use lean_rust_wasm.Text.{Text, join_lines, same}
use lean_rust_wasm.Hostgen.{Ty, FuncSem, Item, record_item, variant_item, func_item, resource_item}
use lean_rust_wasm.Hostgen.Writer.{
  is_default_sem, sem_lines, map_list, item_lines, all_lines, render,
}
use lean_rust_wasm.Hostgen.Contract.{
  item_name, find, slots, flat_arity, params_arity, entries_of, surface_entries,
}

-- The semantics that a snapshot keeps.
abbrev pub normal_sem : Option FuncSem → Option FuncSem
normal_sem none = none
normal_sem (some s) = if is_default_sem s then none else some s

abbrev pub normal : Item → Item
normal (func_item n params ret sem) = func_item n params ret (normal_sem sem)
normal item = item

abbrev pub normals : List Item → List Item
normals = map_list normal

sem_lines-normal_sem : (sem : Option FuncSem) → sem_lines (normal_sem sem) ≡ sem_lines sem
sem_lines-normal_sem none = refl
sem_lines-normal_sem (some s) = elim (Bool-cases (is_default_sem s)) [
  | inl e ↦ rw e refl
  | inr e ↦ rw e (rw e refl)
]

item_lines-normal : (item : Item) → item_lines (normal item) ≡ item_lines item
unfolding item_lines
item_lines-normal (record_item n fields) = refl
item_lines-normal (variant_item n cases) = refl
item_lines-normal (func_item n params ret sem) = rw (sem_lines-normal_sem sem) refl
item_lines-normal (resource_item n) = refl

all_lines-normals : (items : List Item) → all_lines (normals items) ≡ all_lines items
all_lines-normals [] = refl
all_lines-normals (item ∷ items) = rw (item_lines-normal item, all_lines-normals items) refl

pub render-normals : (items : List Item) → render (normals items) ≡ render items
unfolding render
render-normals items = ap join_lines (all_lines-normals items)

item_name-normal : (item : Item) → item_name (normal item) ≡ item_name item
item_name-normal (record_item n fields) = refl
item_name-normal (variant_item n cases) = refl
item_name-normal (func_item n params ret sem) = refl
item_name-normal (resource_item n) = refl

slots-normal : (n : Text) (item : Item) → slots n (some (normal item)) ≡ slots n (some item)
slots-normal n (record_item m fields) = refl
slots-normal n (variant_item m cases) = refl
slots-normal n (func_item m params ret sem) = refl
slots-normal n (resource_item m) = refl

slots-normals :
    (n : Text) (items : List Item) → slots n (find n (normals items)) ≡ slots n (find n items)
slots-normals n [] = refl
slots-normals n (item ∷ items) =
    rw (item_name-normal item) (elim (Bool-cases (same (item_name item) n)) [
      | inl e ↦ rw e (slots-normal n item)
      | inr e ↦ rw e (slots-normals n items)
    ])

flat_arity-normals :
    (items : List Item) (t : Ty) → flat_arity (normals items) t ≡ flat_arity items t
unfolding flat_arity
flat_arity-normals items (Ty.named n) = slots-normals n items
flat_arity-normals items _ = refl

same_later :
    (r : Result Text ℕ) (f g : ℕ → Result Text ℕ) → ((n : ℕ) → f n ≡ g n) → r >>= f ≡ r >>= g
same_later (err e) f g same_at = refl
same_later (ok n) f g same_at = same_at n

params_arity-normals :
    (items : List Item) (n : ℕ) (params : List (Text × Ty))
    → params_arity (normals items) n params ≡ params_arity items n params
unfolding params_arity
params_arity-normals items n [] = refl
params_arity-normals items n ((name, t) ∷ params) = rw (flat_arity-normals items t) (
    same_later (flat_arity items t) (λ m. params_arity (normals items) (n + m) params)
      (λ m. params_arity items (n + m) params) (λ m. params_arity-normals items (n + m) params))

module _ (is_uppercase : ℕ → Bool) where
  entries_of-normals :
      (universe items : List Item)
      → entries_of is_uppercase (normals universe) (normals items)
        ≡ entries_of is_uppercase universe items
  unfolding entries_of
  entries_of-normals universe [] = refl
  entries_of-normals universe (record_item n fields ∷ items) = entries_of-normals universe items
  entries_of-normals universe (variant_item n cases ∷ items) = entries_of-normals universe items
  entries_of-normals universe (func_item n params ret sem ∷ items) =
      rw (params_arity-normals universe 0 params, entries_of-normals universe items) refl
  entries_of-normals universe (resource_item n ∷ items) = entries_of-normals universe items

  -- The surface does not depend on the semantics.
  pub surface_entries-normals :
      (items : List Item)
      → surface_entries is_uppercase (normals items) ≡ surface_entries is_uppercase items
  unfolding surface_entries
  surface_entries-normals items = entries_of-normals items items
