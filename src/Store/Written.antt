-- ===== src/Store/Written.antt =====
-- The index that `write_index` of oci.rs writes.
use lean_rust_wasm.Prelude.{
  ℕ, List, [], ◌∷◌, ◌++◌, Bool, true, false, ◌||◌, ◌&&◌, Result, err, ok, ◌>>=◌, ltb, ◌==◌,
  if◌then◌else◌,
}
use lean_rust_wasm.Text.{Text, codes, same}
use lean_rust_wasm.Json.{Serde}
use lean_rust_wasm.Store.{Platform, OciStore, blob_path}
use lean_rust_wasm.Store.Index.{Files, label_annotation}

-- The order of strings, which is that of their code points.
abbrev pub text_le : Text → Text → Bool
text_le [] u = true
text_le (c ∷ cs) [] = false
text_le (c ∷ cs) (d ∷ ds) = ltb c d || ((c == d) && text_le cs ds)

abbrev pub pair_le : Text × Text → Text × Text → Bool
pair_le (k, v) (l, u) = if same k l then text_le v u else text_le k l

abbrev pub insert_tag : Text × Text → List (Text × Text) → List (Text × Text)
insert_tag p [] = p ∷ []
insert_tag p (q ∷ qs) =
    let later = insert_tag p qs in if pair_le p q then p ∷ (q ∷ qs) else q ∷ later

-- `sort` of the tagged entries.
abbrev pub sort_tags : List (Text × Text) → List (Text × Text)
sort_tags [] = []
sort_tags (p ∷ ps) = insert_tag p (sort_tags ps)

abbrev pub insert_text : Text → List Text → List Text
insert_text t [] = t ∷ []
insert_text t (u ∷ us) =
    let later = insert_text t us in if text_le t u then t ∷ (u ∷ us) else u ∷ later

abbrev pub sort_texts : List Text → List Text
sort_texts [] = []
sort_texts (t ∷ ts) = insert_text t (sort_texts ts)

abbrev pub without : Text → List (Text × Text) → List (Text × Text)
without k [] = []
without k ((j, v) ∷ es) = let later = without k es in if same k j then later else (j, v) ∷ later

-- The entries of the map: a label's last digest.
abbrev pub current_tags : List (Text × Text) → List (Text × Text)
current_tags [] = []
current_tags ((k, v) ∷ es) = (k, v) ∷ without k (current_tags es)

abbrev pub has_digest : Text → List (Text × Text) → Bool
has_digest d [] = false
has_digest d ((k, v) ∷ es) = same v d || has_digest d es

abbrev pub untagged : List (Text × Text) → List Text → List Text
untagged tags [] = []
untagged tags (d ∷ ds) =
    let later = untagged tags ds in if has_digest d tags then later else d ∷ later

abbrev pub or_zero {ℓ} : {E : Type ℓ} → Result E ℕ → ℕ
or_zero (err e) = 0
or_zero (ok n) = n

module _ (h : Platform) (f : Files h) (j : Serde) (s : OciStore) (disk : h.Disk) where
  abbrev pub blob_fields : Text → List (Text × j.Json)
  blob_fields digest =
      (codes "mediaType", j.string (codes "application/vnd.guestlang.artifact"))
      ∷ (codes "digest", j.string (codes "sha256:" ++ digest))
      ∷ (codes "size", j.number (or_zero (f.metadata_len disk (blob_path s digest))))
      ∷ []

  abbrev pub tagged_item : Text × Text → j.Json
  tagged_item (label, digest) = j.object (
      blob_fields digest
      ++ (codes "annotations", j.object ((label_annotation, j.string label) ∷ [])) ∷ [])

  abbrev pub tagged_items : List (Text × Text) → List j.Json
  tagged_items [] = []
  tagged_items (p ∷ ps) = tagged_item p ∷ tagged_items ps

  abbrev pub blob_items : List Text → List j.Json
  blob_items [] = []
  blob_items (d ∷ ds) = j.object (blob_fields d) ∷ blob_items ds

  abbrev pub blob_names : Result h.Io (List Text)
  blob_names =
      let listed = f.read_dir disk (s.root ++ codes "/blobs/sha256") in
      if f.exists disk (s.root ++ codes "/blobs/sha256") then listed else ok []

  abbrev pub index_value : List Text → j.Json
  index_value names = j.object (
      (codes "schemaVersion", j.number 2)
      ∷ (
        codes "manifests",
        j.array (
            tagged_items (sort_tags (current_tags s.tags))
            ++ blob_items (sort_texts (untagged (current_tags s.tags) names))),
      )
      ∷ [])

  abbrev pub or_io_error : Result Text Text → Result h.Io Text
  or_io_error (err e) = err (f.io_error e)
  or_io_error (ok t) = ok t

  unfoldable pub write_index : Result h.Io h.Disk
  write_index = do
    names ← blob_names
    text ← or_io_error (j.to_string_pretty (index_value names))
    h.write disk (s.root ++ codes "/index.json") (h.into_bytes text)
