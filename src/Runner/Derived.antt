-- ===== src/Runner/Derived.antt =====
-- The surface that main.rs derives from a manifest's rows, and a component that it is checked against.
use lean_rust_wasm.Prelude.{
  ℕ, suc, ◌≡◌, ◌≢◌, refl, sym, ap, ◌∙◌, subst, List, [], ◌∷◌, ◌++◌, length, true, false, none, some,
  ok, All, Bool-cases, inl, inr, append-nil,
}
use lean_rust_wasm.Text.{Text, codes, same, same_refl, same-eq, lookup}
use lean_rust_wasm.Text.Pieces.{join, join_more}
use lean_rust_wasm.Surface.{
  Entry, Export, render_entry, join_entries, render_surface, parse_surface, surface_of,
  verify_surface,
}
use lean_rust_wasm.Surface.RoundTrip.{EntryOk, parse_surface-render_surface}
use lean_rust_wasm.Surface.Verify.{Exports, verify_surface-Exports}
use lean_rust_wasm.Store.Verified.{ok_injective}
use lean_rust_wasm.Json.{Serde}
use lean_rust_wasm.Runner.Rows.{
  seen_name, see, entry_texts, row_str, row_arr, collect, manifest_surface,
}

-- The first entry of each name, behind those that were seen.
abbrev pub first_entries : List Entry → List Entry → List Entry
first_entries seen [] = seen
first_entries seen ((f, n) ∷ es) = first_entries (see seen f n) es

join-entries : (t : Text) (es : List Entry) → t ++ join_more 44 (entry_texts es) ≡ join_entries t es
join-entries t [] = append-nil t
join-entries t (e ∷ es) = ap (λ u. t ++ 44 ∷ u) (join-entries (render_entry e) es)

join-render_surface : (es : List Entry) → join 44 (entry_texts es) ≡ render_surface es
unfolding render_surface
join-render_surface [] = refl
join-render_surface (e ∷ es) = join-entries (render_entry e) es

see-EntryOk :
    (seen : List Entry) (f : Text) (n : ℕ)
    → All EntryOk seen
    → EntryOk (f, n)
    → All EntryOk (see seen f n)
see-EntryOk seen f n h ok_entry = elim (Bool-cases (seen_name f seen)) [
  | inl old ↦ rw old h
  | inr new ↦ rw new (pushed seen h)
]
  where
    pushed : (es : List Entry) → All EntryOk es → All EntryOk (es ++ (f, n) ∷ [])
    pushed [] h = (ok_entry, tt)
    pushed (e ∷ es) (he, hs) = (he, pushed es hs)

first_entries-EntryOk :
    (seen es : List Entry) → All EntryOk seen → All EntryOk es → All EntryOk (first_entries seen es)
first_entries-EntryOk seen [] h hs = h
first_entries-EntryOk seen ((f, n) ∷ es) h (he, hs) =
    first_entries-EntryOk (see seen f n) es (see-EntryOk seen f n h he) hs

lookup_seen :
    (f : Text) (n : ℕ) (seen : List Entry) → lookup f seen ≡ some n → seen_name f seen ≡ true
lookup_seen f n [] h = cc
lookup_seen f n ((g, m) ∷ seen) h = elim (Bool-cases (same g f)) [
  | inl here ↦ rw here refl
  | inr lost ↦
      let later : lookup f seen ≡ some n = rw lost at h in rw lost (lookup_seen f n seen later)
]

lookup_kept :
    (f g : Text) (n m : ℕ) (seen : List Entry)
    → lookup f seen ≡ some n
    → lookup f (see seen g m) ≡ some n
lookup_kept f g n m seen h = elim (Bool-cases (seen_name g seen)) [
  | inl old ↦ rw old h
  | inr new ↦ rw new (behind seen h)
]
  where
    behind : (es : List Entry) → lookup f es ≡ some n → lookup f (es ++ (g, m) ∷ []) ≡ some n
    behind [] h = cc
    behind ((k, v) ∷ es) h = elim (Bool-cases (same k f)) [
      | inl here ↦ let found : some v ≡ some n = rw here at h in rw here found
      | inr lost ↦ let later : lookup f es ≡ some n = rw lost at h in rw lost (behind es later)
    ]

lookup_first_kept :
    (f : Text) (n : ℕ) (seen es : List Entry)
    → lookup f seen ≡ some n
    → lookup f (first_entries seen es) ≡ some n
lookup_first_kept f n seen [] h = h
lookup_first_kept f n seen ((g, m) ∷ es) h =
    lookup_first_kept f n (see seen g m) es (lookup_kept f g n m seen h)

lookup_pushed :
    (f : Text) (n : ℕ) (seen : List Entry)
    → lookup f seen ≡ none
    → lookup f (seen ++ (f, n) ∷ []) ≡ some n
lookup_pushed f n [] h = rw (same_refl f) refl
lookup_pushed f n ((g, m) ∷ seen) h = elim (Bool-cases (same g f)) [
  | inl here ↦ let found : some m ≡ none = rw here at h in cc found
  | inr lost ↦
      let later : lookup f seen ≡ none = rw lost at h in rw lost (lookup_pushed f n seen later)
]

seen_found : (f : Text) (seen : List Entry) → seen_name f seen ≡ true → lookup f seen ≢ none
seen_found f [] h e = cc h
seen_found f ((g, m) ∷ seen) h e = elim (Bool-cases (same g f)) [
  | inl here ↦ let found : some m ≡ none = rw here at e in cc found
  | inr lost ↦
      let later : lookup f seen ≡ none = rw lost at e in
      let old : seen_name f seen ≡ true = rw lost at h in seen_found f seen old later
]

lookup_other :
    (f g : Text) (m : ℕ) (seen : List Entry)
    → same g f ≡ false
    → lookup f seen ≡ none
    → lookup f (see seen g m) ≡ none
lookup_other f g m seen other h = elim (Bool-cases (seen_name g seen)) [
  | inl old ↦ rw old h
  | inr new ↦ rw new (behind seen h)
]
  where
    behind : (es : List Entry) → lookup f es ≡ none → lookup f (es ++ (g, m) ∷ []) ≡ none
    behind [] h = rw other refl
    behind ((k, v) ∷ es) h = elim (Bool-cases (same k f)) [
      | inl here ↦ let found : some v ≡ none = rw here at h in cc found
      | inr lost ↦ let later : lookup f es ≡ none = rw lost at h in rw lost (behind es later)
    ]

-- The first entry of a name among those behind is the one that is kept.
lookup-first_entries :
    (f : Text) (n : ℕ) (seen es : List Entry)
    → lookup f seen ≡ none
    → lookup f es ≡ some n
    → lookup f (first_entries seen es) ≡ some n
lookup-first_entries f n seen [] new h = cc
lookup-first_entries f n seen ((g, m) ∷ es) new h = elim (Bool-cases (same g f)) [
  | inl here ↦
      let found : some m ≡ some n = rw here at h in
      let name : g ≡ f = same-eq g f here in
      lookup_first_kept f n (see seen g m) es
        (subst (λ k. lookup f (see seen k m) ≡ some n) (sym name) (first_seen m found))
  | inr lost ↦
      let later : lookup f es ≡ some n = rw lost at h in
      lookup-first_entries f n (see seen g m) es (lookup_other f g m seen lost new) later
]
  where
    first_seen : (m : ℕ) → some m ≡ some n → lookup f (see seen f m) ≡ some n
    first_seen m found = elim (Bool-cases (seen_name f seen)) [
      | inl old ↦ absurd (seen_found f seen old new)
      | inr fresh ↦ rw fresh (lookup_pushed f m seen new ∙ found)
    ]

module _ (j : Serde) where
  -- Rows with their functions' names and the numbers of their arguments.
  pub data Stated : List j.Json → List Entry → Type 0 where
    stated_none : Stated [] []
    stated_next :
        {row : j.Json} {rows : List j.Json} {f : Text} {vs : List j.Json} {es : List Entry}
        → j.as_str (j.index row (codes "fn")) ≡ some f
        → j.as_array (j.index row (codes "args")) ≡ some vs
        → Stated rows es
        → Stated (row ∷ rows) ((f, length vs) ∷ es)

  collect-Stated :
      (seen : List Entry) (i : ℕ) (rows : List j.Json) (es : List Entry)
      → Stated rows es
      → collect j seen i rows ≡ ok (first_entries seen es)
  unfolding collect row_str row_arr
  collect-Stated seen i [] [] stated_none = refl
  collect-Stated seen i (row ∷ rows) ((f, n) ∷ es) (stated_next {vs = vs} hf hv h) =
      rw (hf, hv) (collect-Stated (see seen f (length vs)) (suc i) rows es h)
  collect-Stated seen i [] (e ∷ es) h = elim h [ ]
  collect-Stated seen i (row ∷ rows) [] h = elim h [ ]

  surface-Stated :
      (rows : List j.Json) (es : List Entry)
      → Stated rows es
      → manifest_surface j rows ≡ ok (render_surface (first_entries [] es))
  unfolding manifest_surface
  surface-Stated rows es h =
      rw (collect-Stated [] 0 rows es h) (ap ok (join-render_surface (first_entries [] es)))

  Exports-lookup :
      (got want : List Entry) (f : Text) (n : ℕ)
      → All (Exports got) want
      → lookup f want ≡ some n
      → lookup f got ≡ some n
  Exports-lookup got [] f n h e = cc
  Exports-lookup got ((g, m) ∷ want) f n (hg, h) e = elim (Bool-cases (same g f)) [
    | inl here ↦
        let found : some m ≡ some n = rw here at e in
        subst (λ k. lookup k got ≡ some m) (same-eq g f here) hg ∙ found
    | inr lost ↦
        let later : lookup f want ≡ some n = rw lost at e in Exports-lookup got want f n h later
  ]

  -- The derived surface parses back, by the host's parser, to the first entry of each function, when no
  -- name has a comma and every row's arguments are counted by a 64-bit number.
  pub parse_surface-manifest_surface :
      (rows : List j.Json) (es : List Entry)
      → Stated rows es
      → All EntryOk es
      → (text : Text) × (manifest_surface j rows ≡ ok text)
        × (parse_surface text ≡ first_entries [] es)
  parse_surface-manifest_surface rows es h fit = (
    render_surface (first_entries [] es),
    surface-Stated rows es h,
    parse_surface-render_surface (first_entries [] es) (first_entries-EntryOk [] es tt fit),
  )

  -- A guest that the host accepts against a manifest's surface exports every function that the manifest
  -- has a row for, with the number of arguments of the function's first row.
  pub verify_surface-manifest_surface :
      (rows : List j.Json) (es : List Entry) (exports : List Export) (text : Text)
      → Stated rows es
      → All EntryOk es
      → manifest_surface j rows ≡ ok text
      → verify_surface exports text ≡ ok tt
      → (f : Text) (n : ℕ) → lookup f es ≡ some n
      → lookup f (surface_of exports) ≡ some n
  verify_surface-manifest_surface rows es exports text h fit made passed f n named =
      let (other, same_made, parsed) = parse_surface-manifest_surface rows es h fit in
      let one : other ≡ text = ok_injective (sym same_made ∙ made) in
      let agree =
        subst (All (Exports (surface_of exports))) (ap parse_surface (sym one) ∙ parsed)
          (verify_surface-Exports exports text passed) in
      Exports-lookup (surface_of exports) (first_entries [] es) f n agree
        (lookup-first_entries f n [] es refl named)
