-- ===== src/Delta/Inverse.antt =====
-- `invert` of delta.rs: against the row that the change is about to replace, it gives the change
-- that takes it back.
use lean_rust_wasm.Prelude.{◌≡◌, refl, ap, ◌∙◌, true, Option, none, some, arith}
use lean_rust_wasm.Prelude.BTreeMap.{Key, same_key}
use lean_rust_wasm.Prelude.BTreeMap.Laws.{map_ext, same_key→eq}
use lean_rust_wasm.Row.{Schema, Row, row_key_bytes}
use lean_rust_wasm.Row.RoundTrip.{RowHas}
use lean_rust_wasm.Delta.{
  Change, insert, update, remove, Table, get, key_bytes, patch, invert, invert_row, keep_keyed,
}
use lean_rust_wasm.Delta.Keys.{ChangeHas, row_key-KeyHas, key_bytes-remove_own}
use lean_rust_wasm.Delta.Tables.{IsValid, after, get-patch, patch-IsValid}

pub table_ext :
    (s : Schema) (t u : Table) → IsValid s t → IsValid s u → ((k : Key) → get t k ≡ get u k) → t ≡ u
unfolding get
table_ext s t u v w h = λ i. record { rows = map_ext t.rows u.rows v.sorted w.sorted h i }

-- `inv` acts on the key `k` and puts the row `pre` back there.
record Restores (s : Schema) (k : Key) (pre : Option Row) (inv : Change) : Type 0 where
  admitted : ChangeHas s inv
  acts : key_bytes s inv ≡ some k
  leaves : after inv ≡ pre

module _ (s : Schema) (k : Key) where
  -- What is known of the row at the key before the change.
  abbrev Before : Option Row → Type 0
  Before pre = (old : Row) → pre ≡ some old → (row_key_bytes s old ≡ some k) × RowHas s old

  abbrev Inverted : Change → Option Row → Type 0
  Inverted c pre = (inv : Change) × (invert s c pre ≡ some inv) × Restores s k pre inv

  invert_absent :
      (c : Change) (r : Row)
      → ChangeHas s (insert r)
      → row_key_bytes s r ≡ some k
      → invert s c none ≡ keep_keyed s (invert_row r none)
      → Inverted c none
  unfolding key_bytes
  invert_absent c r (h, (f, hf)) e same =
      let (v, hv, tv) = row_key-KeyHas s r f h hf in
      let (own, typed) = key_bytes-remove_own s r f v h hf hv in
      (
        remove v,
        ground (arith, hv, own, same),
        record { admitted = typed; acts = own ∙ e; leaves = refl },
      )

  invert_total :
      (c : Change) (pre : Option Row)
      → ChangeHas s c
      → key_bytes s c ≡ some k
      → Before pre
      → Inverted c pre
  unfolding invert key_bytes
  invert_total (insert r) none h e b = invert_absent (insert r) r h e refl
  invert_total (update r) none h e b = invert_absent (update r) r h e refl
  invert_total (insert r) (some old) h e b =
      let (key, typed) = b old refl in
      (
        update old,
        ground (arith, key),
        record { admitted = (typed, h.1); acts = key; leaves = refl },
      )
  invert_total (update r) (some old) h e b =
      let (key, typed) = b old refl in
      (
        update old,
        ground (arith, key),
        record { admitted = (typed, h.1); acts = key; leaves = refl },
      )
  invert_total (remove x) none h e b =
      (remove x, ground (arith, e), record { admitted = h; acts = e; leaves = refl })
  invert_total (remove x) (some old) (f, hf, hx) e b =
      let (key, typed) = b old refl in
      (
        insert old,
        ground (arith, key),
        record { admitted = (typed, (f, hf)); acts = key; leaves = refl },
      )

get_at : (t : Table) (j k : Key) → same_key j k ≡ true → get t j ≡ get t k
get_at t j k h = ap (get t) (same_key→eq j k h)

-- The inverse exists for every admitted change, is admitted itself, and undoes the change: the
-- table is the one from before, whatever row stood at the key.
pub patch-invert :
    (s : Schema) (t : Table) (c : Change) (k : Key)
    → IsValid s t
    → ChangeHas s c
    → key_bytes s c ≡ some k
    → (inv : Change) × (invert s c (get t k) ≡ some inv)
      × ChangeHas s inv
      × (patch s (patch s t c) inv ≡ t)
patch-invert s t c k v h e =
    let (inv, found, r) =
      invert_total s k c (get t k) h e (λ old g. (v.keyed k old g, v.typed k old g)) in
    let v' = patch-IsValid s t c v h in
    (
      inv,
      found,
      r.admitted,
      table_ext s _ t (patch-IsValid s _ inv v' r.admitted) v λ j. ground (
        arith,
        get-patch s t c k j v e,
        get-patch s (patch s t c) inv k j v' r.acts,
        r.leaves,
        get_at t j k,
      ),
    )
