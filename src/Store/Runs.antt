-- ===== src/Store/Runs.antt =====
-- A disk in memory, two artifacts, and the theorems at them.
use lean_rust_wasm.Prelude.{
  ℕ, ◌≡◌, refl, ◌∙◌, List, [], ◌∷◌, ◌++◌, false, true, Bool, Option, none, some, sym, ap, ok, ok_or,
  All,
}
use lean_rust_wasm.Text.{Text, codes, lookup, same_refl}
use lean_rust_wasm.Store.{
  OciStore, blob_path, tagged, put, verify, matches, store_artifacts, is_header_line,
}
use lean_rust_wasm.Store.Header.{HeaderLine}
use lean_rust_wasm.Store.Verified.{ok_injective, put-verify}
use lean_rust_wasm.Store.Index.{Files, layout_text, open_store}
use lean_rust_wasm.Store.Written.{index_value, write_index}
use lean_rust_wasm.Store.Laws.{FilesLaws}
use lean_rust_wasm.Store.Reopened.{verify-open_store}
use lean_rust_wasm.Store.Tree.{
  Tree, null_tree, tree_serde, printed_text, tree_serde-JsonLaws, tree_serde-prints,
}
use lean_rust_wasm.Store.Memory.{FileList, memory, memory-DiskLaws}
use lean_rust_wasm.Store.Artifacts.{Matches, store_artifacts-Matches, Fit}

abbrev store : OciStore
store = record { root = codes "oci"; tags = [] }

abbrev one : List ℕ
one = codes "// 09:00" ++ 10 ∷ codes "fn one" ++ 10 ∷ []

abbrev two : List ℕ
two = codes "-- 09:00" ++ 10 ∷ codes "def two" ++ 10 ∷ []

-- `one`, generated again an hour later.
abbrev again : List ℕ
again = codes "// 10:00" ++ 10 ∷ 10 ∷ codes "fn one" ++ 10 ∷ []

abbrev disk : FileList
disk = (codes "a.rs", one) ∷ (codes "b.lean", two) ∷ (codes "c.rs", again) ∷ []

header-HeaderLine : All (HeaderLine memory.is_whitespace) (codes "// 09:00" ∷ [])
unfolding is_header_line
header-HeaderLine = ((refl, refl), tt)

again-HeaderLine : All (HeaderLine memory.is_whitespace) (codes "// 10:00" ∷ [] ∷ [])
unfolding is_header_line
again-HeaderLine = ((refl, refl), ((refl, refl), tt))

abbrev disk_with_one : FileList
disk_with_one = (blob_path store one, one) ∷ disk

put-one :
    put memory store disk (codes "a") one
    ≡ ok (one, (tagged memory store (codes "a") one, disk_with_one))
unfolding put
put-one = refl

put-verify_example :
    verify memory (tagged memory store (codes "a") one) disk_with_one (codes "a") (codes "c.rs")
    ≡ ok matches
put-verify_example =
    put-verify memory memory-DiskLaws store (tagged memory store (codes "a") one) disk disk_with_one
      (codes "a") one (codes "c.rs") one again (codes "// 09:00" ∷ []) (codes "// 10:00" ∷ [] ∷ [])
      (codes "fn one" ++ 10 ∷ []) put-one refl header-HeaderLine again-HeaderLine refl refl

abbrev artifacts : List (Text × Text)
artifacts = (codes "a", codes "a.rs") ∷ (codes "b", codes "b.lean") ∷ []

abbrev full_store : OciStore
full_store = tagged memory (tagged memory store (codes "a") one) (codes "b") two

abbrev full_disk : FileList
full_disk = (blob_path store two, two) ∷ disk_with_one

all_stored :
    store_artifacts memory store disk artifacts []
    ≡ ok ((codes "b", two) ∷ (codes "a", one) ∷ [], (full_store, full_disk))
unfolding store_artifacts put
all_stored = refl

artifacts-Fit : All (Fit memory (λ x. Unit {0}) store disk) artifacts
artifacts-Fit = ((λ digest. refl, λ x e. tt), ((λ digest. refl, λ x e. tt), tt))

store_artifacts-Matches_example : All (Matches memory full_store full_disk) artifacts
store_artifacts-Matches_example =
    store_artifacts-Matches memory memory-DiskLaws (λ x. Unit {0}) (λ x y a b e. e) artifacts store
      full_store disk full_disk [] ((codes "b", two) ∷ (codes "a", one) ∷ []) all_stored
      artifacts-Fit ((refl, tt), (tt, tt))

abbrev is_some {ℓ} : {A : Type ℓ} → Option A → Bool
is_some none = false
is_some (some x) = true

abbrev index_files : Files memory
index_files = record {
  read_to_string = λ disk path. ok_or (lookup path disk) path;
  exists = λ disk path. is_some (lookup path disk);
  create_dir_all = λ disk path. ok disk;
  metadata_len = λ disk path. ok 3;
  read_dir = λ disk path. ok [];
  io_error = λ e. e;
}

abbrev index_tree : Tree
index_tree = index_value memory index_files (tree_serde null_tree) full_store full_disk []

abbrev indexed : FileList
indexed = (full_store.root ++ codes "/index.json", printed_text) ∷ full_disk

index_written :
    write_index memory index_files (tree_serde index_tree) full_store full_disk ≡ ok indexed
unfolding write_index
index_written = refl

-- A disk in memory has no directories.
index_files-FilesLaws : FilesLaws memory index_files
index_files-FilesLaws = record {
  text_written =
      λ disk later path t e. memory-DiskLaws disk later path t e path ∙ rw (same_refl path) refl;
  exists_written = λ disk later path content e.
      ap (λ d. is_some (lookup path d)) (sym (ok_injective e)) ∙ rw (same_refl path) refl;
  other_text = λ disk later path other content e apart.
      memory-DiskLaws disk later path content e other ∙ rw apart refl;
  other_exists = λ disk later path other content e apart.
      ap (λ d. is_some (lookup other d)) (sym (ok_injective e)) ∙ rw apart refl;
  dir_text = λ disk later dir path t e read.
      ap (λ d. ok_or (lookup path d) path) (sym (ok_injective e)) ∙ read;
  dir_exists = λ disk later dir path e there.
      ap (λ d. is_some (lookup path d)) (sym (ok_injective e)) ∙ there;
}

-- The opened store's layout file is missing, and is written.
abbrev laid : FileList
laid = (full_store.root ++ codes "/oci-layout", layout_text) ∷ indexed

verify-open_store_example :
    (reopened : OciStore) × (open_store memory index_files
        (tree_serde index_tree)
        indexed
        (codes "oci")
      ≡ ok (reopened, laid))
    × (verify memory reopened full_disk (codes "a") (codes "c.rs")
        ≡ verify memory full_store full_disk (codes "a") (codes "c.rs"))
verify-open_store_example =
    verify-open_store memory index_files (tree_serde index_tree) (tree_serde-JsonLaws index_tree)
      full_store full_disk index_files-FilesLaws
      (λ names t e.
        tree_serde-prints index_tree
          (index_value memory index_files (tree_serde index_tree) full_store full_disk names) t e)
      indexed indexed laid full_disk (codes "a") (codes "c.rs") index_written refl refl
