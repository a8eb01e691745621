-- ===== src/Store/Index.antt =====
-- The index of the content store on disk, `OciStore::open` and `load_tags` of oci.rs.
use mathlib.Core.List.{reverse}
use lean_rust_wasm.Prelude.{
  ℕ, List, [], ◌++◌, Bool, Option, none, some, Result, err, ok, ◌>>=◌, if◌then◌else◌,
}
use lean_rust_wasm.Text.{Text, codes}
use lean_rust_wasm.Text.Pieces.{strip_prefix}
use lean_rust_wasm.Json.{Serde}
use lean_rust_wasm.Surface.{filter_map}
use lean_rust_wasm.Store.{Platform, OciStore}

-- What std::fs offers besides the bytes of a file. Io errors of a read are their displays.
pub record Files (h : Platform) : Type 0 where
  pub read_to_string : h.Disk → Text → Result Text Text
  pub exists : h.Disk → Text → Bool
  pub create_dir_all : h.Disk → Text → Result h.Io h.Disk
  pub metadata_len : h.Disk → Text → Result h.Io ℕ
  -- The names of a directory's entries that can be read.
  pub read_dir : h.Disk → Text → Result h.Io (List Text)
  pub io_error : Text → h.Io

abbrev pub label_annotation : Text
label_annotation = codes "org.opencontainers.image.ref.name"

module _ (j : Serde) where
  abbrev pub with_label : Text → Option Text → Option (Text × Text)
  with_label digest none = none
  with_label digest (some label) = some (label, digest)

  abbrev pub with_digest : j.Json → Option Text → Option (Text × Text)
  with_digest m none = none
  with_digest m (some digest) =
      with_label digest (j.as_str (j.index (j.index m (codes "annotations")) label_annotation))

  abbrev pub bare_digest : Option Text → Option Text
  bare_digest none = none
  bare_digest (some digest) = strip_prefix (codes "sha256:") digest

  unfoldable pub tag_of : j.Json → Option (Text × Text)
  tag_of m = with_digest m (bare_digest (j.as_str (j.index m (codes "digest"))))

  abbrev pub tags_of : Option (List j.Json) → List (Text × Text)
  tags_of none = []
  tags_of (some manifests) = filter_map tag_of manifests

  abbrev pub tags_of_value : Option j.Json → List (Text × Text)
  tags_of_value none = []
  tags_of_value (some value) = tags_of (j.as_array (j.index value (codes "manifests")))

  abbrev pub parsed : Result Text Text → Option j.Json
  parsed (err io) = none
  parsed (ok raw) = j.from_str raw

abbrev pub layout_text : Text
layout_text = codes "{\"imageLayoutVersion\":\"1.0.0\"}"

module _ (h : Platform) (f : Files h) (j : Serde) where
  -- The last entry for a label counts, as in the map that the entries are collected into.
  unfoldable pub load_tags : h.Disk → Text → List (Text × Text)
  load_tags disk index = reverse (tags_of_value j (parsed j (f.read_to_string disk index)))

  abbrev pub write_absent : h.Disk → Text → Text → Result h.Io h.Disk
  write_absent disk path content =
      if f.exists disk path then ok disk else h.write disk path (h.into_bytes content)

  unfoldable pub open_store : h.Disk → Text → Result h.Io (OciStore × h.Disk)
  open_store disk root = do
    made ← f.create_dir_all disk (root ++ codes "/blobs/sha256")
    laid ← write_absent made (root ++ codes "/oci-layout") layout_text
    indexed ←
        write_absent laid (root ++ codes "/index.json")
          (codes "{\"schemaVersion\":2,\"manifests\":[]}")
    ok (record { root = root; tags = load_tags indexed (root ++ codes "/index.json") }, indexed)
