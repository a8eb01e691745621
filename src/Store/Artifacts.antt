-- ===== src/Store/Artifacts.antt =====
-- A list of artifacts that `store_artifacts` of oci.rs has stored.
use lean_rust_wasm.Prelude.{
  ℕ, ◌≡◌, refl, sym, ap, ◌∙◌, subst, List, [], ◌∷◌, ◌++◌, false, ok, >>=-eq-ok, All, Bool-cases,
  inl, inr,
}
use lean_rust_wasm.Text.{Text, codes, same, same-eq}
use lean_rust_wasm.Store.{
  Platform, OciStore, blob_path, digest_of, tagged, put, verify, matches, store_artifacts,
}
use lean_rust_wasm.Store.Verified.{DiskLaws, Has, ok_injective, put-ok, put-Has, verify-Has}

cancel_front : (xs a b : Text) → xs ++ a ≡ xs ++ b → a ≡ b
cancel_front [] a b e = e
cancel_front (x ∷ xs) a b e = cancel_front xs a b (cc e)

blob_path_injective : (s : OciStore) (a b : Text) → blob_path s a ≡ blob_path s b → a ≡ b
blob_path_injective s a b e = cancel_front (s.root ++ codes "/blobs/sha256/") a b e

-- A path that is no blob of the store.
abbrev pub Outside : OciStore → Text → Type 0
Outside s path = (digest : Text) → same (blob_path s digest) path ≡ false

-- No two artifacts have one label.
abbrev pub OtherLabels : Text → List (Text × Text) → Type 0
OtherLabels label artifacts = All (λ a. same a.0 label ≡ false) artifacts

abbrev pub Distinct : List (Text × Text) → Type 0
Distinct [] = Unit
Distinct ((label, path) ∷ artifacts) = OtherLabels label artifacts × Distinct artifacts

module _ (h : Platform) where
  abbrev pub Matches : OciStore → h.Disk → (Text × Text) → Type 0
  Matches s disk (label, path) = verify h s disk label path ≡ ok matches

-- `Among` holds of the contents of the artifacts.
module _ (h : Platform) (Among : List ℕ → Type 0) where
  abbrev pub Fit : OciStore → h.Disk → (Text × Text) → Type 0
  Fit s disk (label, path) =
      Outside s path × ((content : List ℕ) → h.read disk path ≡ ok content → Among content)

module _ (h : Platform) (laws : DiskLaws h) (Among : List ℕ → Type 0)
    (injective : (x y : List ℕ) → Among x → Among y → h.sha256_hex x ≡ h.sha256_hex y → x ≡ y) where
  file_kept :
      (s : OciStore) (disk later : h.Disk) (content : List ℕ) (path : Text)
      → h.write disk (blob_path s (h.sha256_hex content)) content ≡ ok later
      → Outside s path
      → h.read later path ≡ h.read disk path
  file_kept s disk later content path hw out =
      laws disk later (blob_path s (h.sha256_hex content)) content hw path
      ∙ rw (out (h.sha256_hex content)) refl

  Has-tagged :
      (s : OciStore) (disk later : h.Disk) (label old : Text) (content kept : List ℕ)
      → h.write disk (blob_path s (h.sha256_hex content)) content ≡ ok later
      → same label old ≡ false
      → Among content
      → Among kept
      → Has h s disk old kept
      → Has h (tagged h s label (h.sha256_hex content)) later old kept
  unfolding digest_of
  Has-tagged s disk later label old content kept hw other a b (hd, hb) =
      let new_blob = blob_path s (h.sha256_hex content) in
      let old_blob = blob_path s (h.sha256_hex kept) in
      (
        rw other hd,
        laws disk later new_blob content hw old_blob ∙ elim (Bool-cases (same new_blob old_blob)) [
          | inl e ↦ rw e (
              ap ok (
                injective content kept a b (
                  blob_path_injective s (h.sha256_hex content) (h.sha256_hex kept)
                    (same-eq new_blob old_blob e))))
          | inr e ↦ rw e hb
        ],
      )

  Fit-tagged :
      (s : OciStore) (disk later : h.Disk) (label : Text) (content : List ℕ)
      (artifacts : List (Text × Text))
      → h.write disk (blob_path s (h.sha256_hex content)) content ≡ ok later
      → All (Fit h Among s disk) artifacts
      → All (Fit h Among (tagged h s label (h.sha256_hex content)) later) artifacts
  Fit-tagged s disk later label content [] hw hf = tt
  Fit-tagged s disk later label content ((l, p) ∷ artifacts) hw ((out, among), hf) = (
    (out, λ c e. among c (sym (file_kept s disk later content p hw out) ∙ e)),
    Fit-tagged s disk later label content artifacts hw hf,
  )

  -- A first round that succeeds, and the rest.
  first_round :
      (s s2 : OciStore) (disk disk2 : h.Disk) (label path : Text)
      (artifacts ds ds2 : List (Text × Text))
      → store_artifacts h s disk ((label, path) ∷ artifacts) ds ≡ ok (ds2, (s2, disk2))
      → (content : List ℕ) × (later : h.Disk) × (ds1 : List (Text × Text)) × (h.read disk path
          ≡ ok content)
        × (h.write disk (blob_path s (h.sha256_hex content)) content ≡ ok later)
        × (store_artifacts h (tagged h s label (h.sha256_hex content)) later artifacts ds1
            ≡ ok (ds2, (s2, disk2)))
  unfolding store_artifacts
  first_round s s2 disk disk2 label path artifacts ds ds2 e =
      let (content, hr, e1) = >>=-eq-ok (h.read disk path) _ e in
      let (p, hp, e2) = >>=-eq-ok (put h s disk label content) _ e1 in
      let (made, hw) = put-ok h s p.1.0 disk p.1.1 label p.0 content hp in
      let ds1 = (label, p.0) ∷ ds in
      (
        content,
        p.1.1,
        ds1,
        hr,
        hw,
        subst (λ t. store_artifacts h t p.1.1 artifacts ds1 ≡ ok (ds2, (s2, disk2))) made e2,
      )

  no_round :
      (s s2 : OciStore) (disk disk2 : h.Disk) (ds ds2 : List (Text × Text))
      → store_artifacts h s disk [] ds ≡ ok (ds2, (s2, disk2))
      → ◌≡◌ {A = OciStore × h.Disk} (s, disk) (s2, disk2)
  unfolding store_artifacts
  no_round s s2 disk disk2 ds ds2 e = ap (λ p. p.1) (ok_injective e)

  file_final :
      (artifacts : List (Text × Text)) (s s2 : OciStore) (disk disk2 : h.Disk)
      (ds ds2 : List (Text × Text)) (path : Text)
      → store_artifacts h s disk artifacts ds ≡ ok (ds2, (s2, disk2))
      → Outside s path
      → h.read disk2 path ≡ h.read disk path
  file_final [] s s2 disk disk2 ds ds2 path e out =
      ap (λ p. h.read p.1 path) (sym (no_round s s2 disk disk2 ds ds2 e))
  file_final ((l, p) ∷ artifacts) s s2 disk disk2 ds ds2 path e out =
      let (content, later, ds1, hr, hw, e1) = first_round s s2 disk disk2 l p artifacts ds ds2 e in
      file_final artifacts (tagged h s l (h.sha256_hex content)) s2 later disk2 ds1 ds2 path e1 out
      ∙ file_kept s disk later content path hw out

  Has-store_artifacts :
      (artifacts : List (Text × Text)) (s s2 : OciStore) (disk disk2 : h.Disk)
      (ds ds2 : List (Text × Text)) (old : Text) (kept : List ℕ)
      → store_artifacts h s disk artifacts ds ≡ ok (ds2, (s2, disk2))
      → All (Fit h Among s disk) artifacts
      → OtherLabels old artifacts
      → Among kept
      → Has h s disk old kept
      → Has h s2 disk2 old kept
  Has-store_artifacts [] s s2 disk disk2 ds ds2 old kept e hf others b has =
      subst (λ p. Has h p.0 p.1 old kept) (no_round s s2 disk disk2 ds ds2 e) has
  Has-store_artifacts ((l, p) ∷ artifacts) s s2 disk disk2 ds ds2 old kept e ((out, among), hf)
        (other, others) b has =
      let (content, later, ds1, hr, hw, e1) = first_round s s2 disk disk2 l p artifacts ds ds2 e in
      Has-store_artifacts artifacts (tagged h s l (h.sha256_hex content)) s2 later disk2 ds1 ds2 old
        kept e1 (Fit-tagged s disk later l content artifacts hw hf) others b
        (Has-tagged s disk later l old content kept hw other (among content hr) b has)

  -- After a list of artifacts with distinct labels is stored, each of them verifies: its file
  -- matches what the store has under its label. No artifact is a blob of the store itself, and no
  -- two contents of artifacts share a digest.
  pub store_artifacts-Matches :
      (artifacts : List (Text × Text)) (s s2 : OciStore) (disk disk2 : h.Disk)
      (ds ds2 : List (Text × Text))
      → store_artifacts h s disk artifacts ds ≡ ok (ds2, (s2, disk2))
      → All (Fit h Among s disk) artifacts
      → Distinct artifacts
      → All (Matches h s2 disk2) artifacts
  store_artifacts-Matches [] s s2 disk disk2 ds ds2 e hf distinct = tt
  store_artifacts-Matches ((l, p) ∷ artifacts) s s2 disk disk2 ds ds2 e ((out, among), hf)
        (others, distinct) =
      let (content, later, ds1, hr, hw, e1) = first_round s s2 disk disk2 l p artifacts ds ds2 e in
      let next = tagged h s l (h.sha256_hex content) in
      let fits = Fit-tagged s disk later l content artifacts hw hf in
      let has =
        Has-store_artifacts artifacts next s2 later disk2 ds1 ds2 l content e1 fits others
          (among content hr) (put-Has h laws s disk later l content hw) in
      let file =
        file_final artifacts next s2 later disk2 ds1 ds2 p e1 out
        ∙ file_kept s disk later content p hw out
        ∙ hr in
      (
        verify-Has h s2 disk2 l p content content [] [] (h.from_utf8_lossy content) has file tt tt
            refl refl,
        store_artifacts-Matches artifacts next s2 later disk2 ds1 ds2 e1 fits distinct,
      )
