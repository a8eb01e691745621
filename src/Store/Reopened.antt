-- ===== src/Store/Reopened.antt =====
-- A store that is opened again finds the tags that it wrote: `write_index`, then `open`, of oci.rs.
use lean_rust_wasm.Prelude.{
  ◌≡◌, refl, ap, ◌∙◌, subst, true, false, Bool-cases, inl, inr, ◌==◌, arith, List, [], ◌∷◌, ◌++◌,
  none, some, Result, err, ok, >>=-eq-ok,
}
use lean_rust_wasm.Text.{Text, codes, lookup, same}
use lean_rust_wasm.Surface.{filter_map}
use lean_rust_wasm.Json.{Serde}
use lean_rust_wasm.Store.{Platform, OciStore, digest_of, verify, verify_stored, get}
use lean_rust_wasm.Store.Verified.{ok_injective}
use lean_rust_wasm.Store.Index.{
  Files, label_annotation, tag_of, load_tags, write_absent, open_store, layout_text,
}
use lean_rust_wasm.Store.Laws.{DistinctNames, JsonLaws, FilesLaws}
use lean_rust_wasm.Store.Written.{
  sort_tags, current_tags, blob_fields, tagged_item, tagged_items, blob_items, sort_texts, untagged,
  blob_names, index_value, or_io_error, write_index,
}
use lean_rust_wasm.Store.Tags.{
  Tags, sort_tags-DistinctKeys, current_tags-DistinctKeys, lookup-reverse, lookup-sort_tags,
  lookup-current_tags,
}

-- An index, which is made of objects, arrays, texts and sizes, is read back from what is printed.
abbrev pub IndexPrints : (h : Platform) → Files h → Serde → OciStore → h.Disk → Type 0
IndexPrints h f j s disk =
    (names : List Text) (t : Text)
    → j.to_string_pretty (index_value h f j s disk names) ≡ ok t
    → j.from_str t ≡ some (index_value h f j s disk names)

same-append : (root a b : Text) → same (root ++ a) (root ++ b) ≡ same a b
same-append [] a b = refl
same-append (c ∷ root) a b =
    let one : (c == c) ≡ true = ground arith in rw (one, same-append root a b) refl

module _ (h : Platform) (f : Files h) (j : Serde) (laws : JsonLaws j) (s : OciStore)
    (disk : h.Disk) where
  tag_of-tagged_item :
      (label digest : Text)
      → tag_of j (tagged_item h f j s disk (label, digest)) ≡ some (label, digest)
  unfolding tag_of
  tag_of-tagged_item label digest =
      let members : List (Text × j.Json) = (label_annotation, j.string label) ∷ [] in
      let fields : List (Text × j.Json) =
        blob_fields h f j s disk digest ++ (codes "annotations", j.object members) ∷ [] in
      let names : DistinctNames fields = (refl, (refl, (refl, (refl, tt)))) in
      let digest_at : j.index (j.object fields) (codes "digest")
          ≡ j.string (codes "sha256:" ++ digest) =
        laws.index_member fields (codes "digest") (j.string (codes "sha256:" ++ digest)) names
          refl in
      let annotations_at : j.index (j.object fields) (codes "annotations") ≡ j.object members =
        laws.index_member fields (codes "annotations") (j.object members) names refl in
      let label_at : j.index (j.object members) label_annotation ≡ j.string label =
        laws.index_member members label_annotation (j.string label) (refl, tt) refl in
      rw
        (
          digest_at,
          laws.as_str-string (codes "sha256:" ++ digest),
          annotations_at,
          label_at,
          laws.as_str-string label,
        )
        refl

  tag_of-blob : (digest : Text) → tag_of j (j.object (blob_fields h f j s disk digest)) ≡ none
  unfolding tag_of
  tag_of-blob digest =
      let fields : List (Text × j.Json) = blob_fields h f j s disk digest in
      let names : DistinctNames fields = (refl, (refl, (refl, tt))) in
      let digest_at : j.index (j.object fields) (codes "digest")
          ≡ j.string (codes "sha256:" ++ digest) =
        laws.index_member fields (codes "digest") (j.string (codes "sha256:" ++ digest)) names
          refl in
      let no_label : j.as_str
            (j.index (j.index (j.object fields) (codes "annotations")) label_annotation)
          ≡ none =
        laws.index_missing fields (codes "annotations") label_annotation refl in
      rw (digest_at, laws.as_str-string (codes "sha256:" ++ digest), no_label) refl

  no_tags : (ds : List Text) → filter_map (tag_of j) (blob_items h f j s disk ds) ≡ []
  no_tags [] = refl
  no_tags (d ∷ ds) = rw (tag_of-blob d) (no_tags ds)

  all_tags :
      (es : Tags) (ds : List Text)
      → filter_map (tag_of j) (tagged_items h f j s disk es ++ blob_items h f j s disk ds) ≡ es
  all_tags [] ds = no_tags ds
  all_tags ((k, v) ∷ es) ds = rw (tag_of-tagged_item k v, all_tags es ds) refl

  -- The index on a disk has each label's digest, and no other label.
  Loads : h.Disk → Type 0
  Loads later =
      (label : Text)
      → lookup label (load_tags h f j later (s.root ++ codes "/index.json")) ≡ digest_of s label

  -- A disk with the text of the store's index, and with the file.
  record Indexed (later : h.Disk) : Type 0 where
    names : List Text
    text : Text
    printed : j.to_string_pretty (index_value h f j s disk names) ≡ ok text
    read : f.read_to_string later (s.root ++ codes "/index.json") ≡ ok text
    there : f.exists later (s.root ++ codes "/index.json") ≡ true

  Indexed-Loads : IndexPrints h f j s disk → (later : h.Disk) → Indexed later → Loads later
  unfolding Loads load_tags digest_of
  Indexed-Loads prints later x label =
      let value = prints x.names x.text x.printed in
      let sorted = sort_tags (current_tags s.tags) in
      let blobs = sort_texts (untagged (current_tags s.tags) x.names) in
      let items = tagged_items h f j s disk sorted ++ blob_items h f j s disk blobs in
      let found : j.index (index_value h f j s disk x.names) (codes "manifests") ≡ j.array items =
        laws.index_member _ (codes "manifests") (j.array items) (refl, (refl, tt)) refl in
      let keys = current_tags-DistinctKeys s.tags in
      rw (x.read, value, found, laws.as_array-array items, all_tags sorted blobs)
        (lookup-reverse label sorted (sort_tags-DistinctKeys (current_tags s.tags) keys)
          ∙ lookup-sort_tags label (current_tags s.tags) keys
          ∙ lookup-current_tags label s.tags)

  module _ (files : FilesLaws h f) where
    write_index-Indexed : (later : h.Disk) → write_index h f j s disk ≡ ok later → Indexed later
    unfolding write_index
    write_index-Indexed later e =
        let (names, hn, e1) = >>=-eq-ok (blob_names h f j s disk) _ e in
        let (text, ht, hw) =
          >>=-eq-ok (or_io_error h f j s disk (j.to_string_pretty (index_value h f j s disk names)))
            _ e1 in
        let path = s.root ++ codes "/index.json" in
        record {
          names = names;
          text = text;
          printed = printed_ok (j.to_string_pretty (index_value h f j s disk names)) text ht;
          read = files.text_written disk later path text hw;
          there = files.exists_written disk later path (h.into_bytes text) hw;
        }
      where
        printed_ok :
            (r : Result Text Text) (t : Text) → or_io_error h f j s disk r ≡ ok t → r ≡ ok t
        printed_ok (err io) t e = cc
        printed_ok (ok u) t e = ap ok (ok_injective e)

    made-Indexed :
        (later made : h.Disk) (dir : Text)
        → f.create_dir_all later dir ≡ ok made
        → Indexed later
        → Indexed made
    made-Indexed later made dir e x =
        let path = s.root ++ codes "/index.json" in
        record {
          names = x.names;
          text = x.text;
          printed = x.printed;
          read = files.dir_text later made dir path x.text e x.read;
          there = files.dir_exists later made dir path e x.there;
        }

    -- The layout file is not the index.
    laid-Indexed :
        (made laid : h.Disk) (content : Text)
        → write_absent h f j made (s.root ++ codes "/oci-layout") content ≡ ok laid
        → Indexed made
        → Indexed laid
    laid-Indexed made laid content e x =
        let layout = s.root ++ codes "/oci-layout" in
        let path = s.root ++ codes "/index.json" in
        let bytes = h.into_bytes content in
        let apart : same layout path ≡ false =
          same-append s.root (codes "/oci-layout") (codes "/index.json") in
        elim (Bool-cases (f.exists made layout)) [
          | inl hit ↦
              let kept : ◌≡◌ {A = Result h.Io h.Disk} (ok made) (ok laid) = rw hit at e in
              subst Indexed (ok_injective kept) x
          | inr miss ↦
              let written : h.write made layout bytes ≡ ok laid = rw miss at e in
              record {
                names = x.names;
                text = x.text;
                printed = x.printed;
                read = files.other_text made laid layout path bytes written apart ∙ x.read;
                there = files.other_exists made laid layout path bytes written apart ∙ x.there;
              }
        ]

    -- A store that has written its index is opened again from the directory as soon as the blobs'
    -- directory and the layout file are there or can be made: opening leaves the index as it is, and
    -- the opened store verifies every artifact, under every label and on every disk, as the store that
    -- wrote the index; when serde_json and the file system keep their documented laws, and the printed
    -- index is read back.
    pub verify-open_store :
        IndexPrints h f j s disk
        → (later made laid any_disk : h.Disk) (label path : Text)
        → write_index h f j s disk ≡ ok later
        → f.create_dir_all later (s.root ++ codes "/blobs/sha256") ≡ ok made
        → write_absent h f j made (s.root ++ codes "/oci-layout") layout_text ≡ ok laid
        → (again : OciStore) × (open_store h f j later s.root ≡ ok (again, laid))
          × (verify h again any_disk label path ≡ verify h s any_disk label path)
    unfolding open_store verify get digest_of Loads
    verify-open_store prints later made laid any_disk label path e hm hl =
        let x = laid-Indexed made laid layout_text hl (
          made-Indexed later made (s.root ++ codes "/blobs/sha256") hm
            (write_index-Indexed later e)) in
        (
          record { root = s.root; tags = load_tags h f j laid (s.root ++ codes "/index.json") },
          rw (hm, hl, x.there) refl,
          ap (verify_stored h s any_disk path) (Indexed-Loads prints laid x label),
        )
