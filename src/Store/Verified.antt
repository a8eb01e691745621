-- ===== src/Store/Verified.antt =====
-- What the store's `verify` says of the artifacts that went into it, oci.rs.
use lean_rust_wasm.Prelude.{
  ℕ, ◌≡◌, refl, sym, ap, ◌∙◌, subst, List, ◌++◌, some, Result, ok, >>=-eq-ok, All, if◌then◌else◌,
}
use lean_rust_wasm.Text.{Text, same, same_refl, join_lines}
use lean_rust_wasm.Store.{
  Platform, tagged, OciStore, blob_path, digest_of, strip_header, strip_text, put, get, verify,
  matches,
}
use lean_rust_wasm.Store.Header.{HeaderLine, strip_text_header}

pub ok_injective {ℓ κ} :
    {E : Type ℓ} {A : Type κ} {x y : A} → ◌≡◌ {A = Result E A} (ok x) (ok y) → x ≡ y
ok_injective e = cc

module _ (h : Platform) where
  -- A read gives what the last write to the path wrote, and a write changes no other path.
  abbrev pub DiskLaws : Type 0
  DiskLaws =
      (disk later : h.Disk) (path : Text) (content : List ℕ)
      → h.write disk path content ≡ ok later
      → (other : Text)
      → h.read later other ≡ (if same path other then ok content else h.read disk other)

  -- The store has the artifact: its content is in the blob that the label's digest names.
  abbrev pub Has : OciStore → h.Disk → Text → List ℕ → Type 0
  Has s disk label content =
      (digest_of s label ≡ some (h.sha256_hex content))
      × (h.read disk (blob_path s (h.sha256_hex content)) ≡ ok content)

  pub put-ok :
      (s s2 : OciStore) (disk disk2 : h.Disk) (label digest : Text) (content : List ℕ)
      → put h s disk label content ≡ ok (digest, (s2, disk2))
      → (s2 ≡ tagged h s label (h.sha256_hex content))
        × (h.write disk (blob_path s (h.sha256_hex content)) content ≡ ok disk2)
  unfolding put
  put-ok s s2 disk disk2 label digest content e =
      let (later, hw, hr) =
        >>=-eq-ok (h.write disk (blob_path s (h.sha256_hex content)) content) _ e in
      let pairs : (h.sha256_hex content, (tagged h s label (h.sha256_hex content), later))
          ≡ (digest, (s2, disk2)) =
        ok_injective hr in
      (sym (ap (λ p. p.1.0) pairs), hw ∙ ap (λ p. ok p.1.1) pairs)

  pub put-Has :
      DiskLaws
      → (s : OciStore) (disk later : h.Disk) (label : Text) (content : List ℕ)
      → h.write disk (blob_path s (h.sha256_hex content)) content ≡ ok later
      → Has (tagged h s label (h.sha256_hex content)) later label content
  unfolding digest_of
  put-Has laws s disk later label content hw =
      let path = blob_path s (h.sha256_hex content) in
      (rw (same_refl label) refl, laws disk later path content hw path ∙ rw (same_refl path) refl)

  -- A label whose artifact the store has matches a file whose text is the artifact's but for the
  -- header lines in front of both.
  pub verify-Has :
      (s : OciStore) (disk : h.Disk) (label path : Text) (content file : List ℕ) (hs gs : List Text)
      (body : Text)
      → Has s disk label content
      → h.read disk path ≡ ok file
      → All (HeaderLine h.is_whitespace) hs
      → All (HeaderLine h.is_whitespace) gs
      → h.from_utf8_lossy content ≡ join_lines hs ++ body
      → h.from_utf8_lossy file ≡ join_lines gs ++ body
      → verify h s disk label path ≡ ok matches
  unfolding verify get strip_header
  verify-Has s disk label path content file hs gs body (hd, hb) hf hh hg ec ef =
      let strip = strip_text h.is_whitespace in
      let bare = h.into_bytes (strip body) in
      let stored : strip_header h content ≡ bare =
        ap (λ t. h.into_bytes (strip t)) ec
        ∙ ap h.into_bytes (strip_text_header h.is_whitespace hs body hh) in
      let actual : strip_header h file ≡ bare =
        ap (λ t. h.into_bytes (strip t)) ef
        ∙ ap h.into_bytes (strip_text_header h.is_whitespace gs body hg) in
      rw (hd, hf, hb, stored, actual, same_refl (h.sha256_hex bare)) refl

  -- After an artifact is put, a file that differs from it at most in the header lines in front
  -- matches under its label.
  pub put-verify :
      DiskLaws
      → (s s2 : OciStore) (disk disk2 : h.Disk) (label digest path : Text) (content file : List ℕ)
        (hs gs : List Text) (body : Text)
      → put h s disk label content ≡ ok (digest, (s2, disk2))
      → h.read disk2 path ≡ ok file
      → All (HeaderLine h.is_whitespace) hs
      → All (HeaderLine h.is_whitespace) gs
      → h.from_utf8_lossy content ≡ join_lines hs ++ body
      → h.from_utf8_lossy file ≡ join_lines gs ++ body
      → verify h s2 disk2 label path ≡ ok matches
  put-verify laws s s2 disk disk2 label digest path content file hs gs body e hf hh hg ec ef =
      let (made, hw) = put-ok s s2 disk disk2 label digest content e in
      let has =
        subst (λ t. Has t disk2 label content) (sym made)
          (put-Has laws s disk disk2 label content hw) in
      verify-Has s2 disk2 label path content file hs gs body has hf hh hg ec ef
