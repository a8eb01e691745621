-- ===== src/Store/Laws.antt =====
-- What the store takes from serde_json and std::fs: the documented behaviour that its theorems use.
use lean_rust_wasm.Prelude.{◌≡◌, List, [], ◌∷◌, ℕ, true, false, none, some, ok}
use lean_rust_wasm.Text.{Text, lookup, same}
use lean_rust_wasm.Json.{Serde}
use lean_rust_wasm.Store.{Platform}
use lean_rust_wasm.Store.Index.{Files}

-- No name twice.
abbrev pub DistinctNames {ℓ} : {A : Type ℓ} → List (Text × A) → Type ℓ
DistinctNames [] = Unit
DistinctNames ((k, v) ∷ fields) = (lookup k fields ≡ none) × DistinctNames fields

-- What serde_json documents of the values that `json!` builds.
pub record JsonLaws (j : Serde) : Type 0 where
  pub as_str-string : (t : Text) → j.as_str (j.string t) ≡ some t
  pub as_array-array : (vs : List j.Json) → j.as_array (j.array vs) ≡ some vs
  pub index_member :
      (fields : List (Text × j.Json)) (key : Text) (v : j.Json)
      → DistinctNames fields
      → lookup key fields ≡ some v
      → j.index (j.object fields) key ≡ v
  -- A missing member is null, and so is a member of null.
  pub index_missing :
      (fields : List (Text × j.Json)) (key other : Text)
      → lookup key fields ≡ none
      → j.as_str (j.index (j.index (j.object fields) key) other) ≡ none

-- What std::fs documents: a file that is written is there with its content, and no other file changes;
-- directories that are made leave the files.
pub record FilesLaws (h : Platform) (f : Files h) : Type 0 where
  pub text_written :
      (disk later : h.Disk) (path t : Text)
      → h.write disk path (h.into_bytes t) ≡ ok later
      → f.read_to_string later path ≡ ok t
  pub exists_written :
      (disk later : h.Disk) (path : Text) (content : List ℕ)
      → h.write disk path content ≡ ok later
      → f.exists later path ≡ true
  pub other_text :
      (disk later : h.Disk) (path other : Text) (content : List ℕ)
      → h.write disk path content ≡ ok later
      → same path other ≡ false
      → f.read_to_string later other ≡ f.read_to_string disk other
  pub other_exists :
      (disk later : h.Disk) (path other : Text) (content : List ℕ)
      → h.write disk path content ≡ ok later
      → same path other ≡ false
      → f.exists later other ≡ f.exists disk other
  pub dir_text :
      (disk later : h.Disk) (dir path t : Text)
      → f.create_dir_all disk dir ≡ ok later
      → f.read_to_string disk path ≡ ok t
      → f.read_to_string later path ≡ ok t
  pub dir_exists :
      (disk later : h.Disk) (dir path : Text)
      → f.create_dir_all disk dir ≡ ok later
      → f.exists disk path ≡ true
      → f.exists later path ≡ true
