-- ===== src/Store.antt =====
-- The content store of the build tool, crates/forge/src/oci.rs: `put`, `get`, `digest`, `verify` and
-- `store_artifacts`, and the header that the comparison leaves out. A path is the text that `join`
-- gives.
pub mod Header
pub mod Verified
pub mod Artifacts
pub mod Index
pub mod Written
pub mod Tags
pub mod Laws
pub mod Reopened
pub mod Tree
pub mod Memory
mod Runs
use lean_rust_wasm.Prelude.{
  ℕ, List, [], ◌∷◌, ◌++◌, Bool, true, false, ◌&&◌, ◌||◌, Option, none, some, Result, err, ok, ◌>>=◌,
  ◌==◌, if◌then◌else◌,
}
use lean_rust_wasm.Text.{Text, codes, same, lookup, past, split}

abbrev pub starts_with : Text → Text → Bool
starts_with t [] = true
starts_with [] (c ∷ cs) = false
starts_with (x ∷ t) (c ∷ cs) = (x == c) && starts_with t cs

-- One `\r` before the line feed belongs to the line's end.
abbrev pub strip_cr : Text → Text
strip_cr [] = []
strip_cr (c ∷ []) = if c == 13 then [] else c ∷ []
strip_cr (c ∷ d ∷ cs) = c ∷ strip_cr (d ∷ cs)

-- The piece behind the last line feed is a line only if it is not empty; it keeps its `\r`.
abbrev pub cut_lines : List Text → List Text
cut_lines [] = []
cut_lines ([] ∷ []) = []
cut_lines ((c ∷ cs) ∷ []) = (c ∷ cs) ∷ []
cut_lines (l ∷ m ∷ ls) = strip_cr l ∷ cut_lines (m ∷ ls)

-- `str::lines`
abbrev pub lines : Text → List Text
lines t = cut_lines (split 10 t)

pub data Verify : Type 0 where
  not_stored matches : Verify
  mismatch : Text → Text → Verify

pub record OciStore : Type 0 where
  pub root : Text
  pub tags : List (Text × Text)

abbrev pub blob_path : OciStore → Text → Text
blob_path s digest = s.root ++ codes "/blobs/sha256/" ++ digest

-- The last entry for a label counts, so a new one goes in front.
unfoldable pub digest_of : OciStore → Text → Option Text
digest_of s label = lookup label s.tags

-- `char::is_whitespace` reads the Unicode tables.
module _ (is_whitespace : ℕ → Bool) where
  unfoldable pub is_header_line : Text → Bool
  is_header_line line =
      let t = past is_whitespace line in
      same t []
      || (starts_with t (codes "//")
          || (starts_with t (codes "#")
              || (starts_with t (codes "--") || starts_with t (codes ";;"))))

  -- The lines that stay; the flag says whether the header goes on.
  unfoldable pub kept_lines : Bool → List Text → Text
  kept_lines in_header [] = []
  kept_lines in_header (l ∷ ls) =
      let skipped = kept_lines in_header ls in
      let kept = l ++ 10 ∷ kept_lines false ls in
      if in_header && is_header_line l then skipped else kept

  unfoldable pub strip_text : Text → Text
  strip_text t = kept_lines true (lines t)

-- What is not the repository's: sha2's digest in hexadecimal, the two conversions of bytes and texts,
-- the Unicode tables, and the reads and writes of std::fs on a disk.
pub record Platform : Type 1 where
  pub Disk : Type 0
  pub Io : Type 0
  pub read : Disk → Text → Result Io (List ℕ)
  pub write : Disk → Text → List ℕ → Result Io Disk
  pub sha256_hex : List ℕ → Text
  pub from_utf8_lossy : List ℕ → Text
  pub into_bytes : Text → List ℕ
  pub is_whitespace : ℕ → Bool

module _ (h : Platform) where
  unfoldable pub strip_header : List ℕ → List ℕ
  strip_header content = h.into_bytes (strip_text h.is_whitespace (h.from_utf8_lossy content))

  abbrev pub tagged : OciStore → Text → Text → OciStore
  tagged s label digest = record { root = s.root; tags = (label, digest) ∷ s.tags }

  unfoldable pub put : OciStore → h.Disk → Text → List ℕ → Result h.Io (Text × (OciStore × h.Disk))
  put s disk label content = do
    later ← h.write disk (blob_path s (h.sha256_hex content)) content
    ok (h.sha256_hex content, (tagged s label (h.sha256_hex content), later))

  unfoldable pub get : OciStore → h.Disk → Text → Result h.Io (List ℕ)
  get s disk digest = h.read disk (blob_path s digest)

  -- `unwrap_or_default`
  abbrev pub or_empty : Result h.Io (List ℕ) → List ℕ
  or_empty (err e) = []
  or_empty (ok content) = content

  abbrev pub compare_content : Text → Text → Verify
  compare_content stored actual = if same actual stored then matches else mismatch stored actual

  abbrev pub verify_stored : OciStore → h.Disk → Text → Option Text → Result h.Io Verify
  verify_stored s disk path none = ok not_stored
  verify_stored s disk path (some stored) = do
    file ← h.read disk path
    ok (
        compare_content (h.sha256_hex (strip_header (or_empty (get s disk stored))))
          (h.sha256_hex (strip_header file)))

  unfoldable pub verify : OciStore → h.Disk → Text → Text → Result h.Io Verify
  verify s disk label path = verify_stored s disk path (digest_of s label)

  -- The digests in front are the later ones, as the map's inserts leave them.
  unfoldable pub store_artifacts :
      OciStore
      → h.Disk
      → List (Text × Text)
      → List (Text × Text)
      → Result h.Io (List (Text × Text) × (OciStore × h.Disk))
  store_artifacts s disk [] digests = ok (digests, (s, disk))
  store_artifacts s disk ((label, path) ∷ artifacts) digests = do
    content ← h.read disk path
    (digest, (s2, disk2)) ← put s disk label content
    store_artifacts s2 disk2 artifacts ((label, digest) ∷ digests)
