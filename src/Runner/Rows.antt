-- ===== src/Runner/Rows.antt =====
-- The rows of the oracle manifest, main.rs: `manifest_surface` and `load_manifest`.
use lean_rust_wasm.Prelude.{
  ℕ, suc, List, [], ◌∷◌, ◌++◌, length, Bool, false, ◌||◌, Result, err, ok, ◌>>=◌, ok_or, ltb,
  if◌then◌else◌,
}
use lean_rust_wasm.Text.{Text, codes, same}
use lean_rust_wasm.Text.Decimal.{decimal}
use lean_rust_wasm.Text.Pieces.{join}
use lean_rust_wasm.Surface.{Entry, render_entry}
use lean_rust_wasm.Json.{Serde}
use lean_rust_wasm.Runner.{OracleFault, manifest_fault, Row}

abbrev pub seen_name : Text → List Entry → Bool
seen_name f [] = false
seen_name f ((g, n) ∷ seen) = same g f || seen_name f seen

abbrev pub see : List Entry → Text → ℕ → List Entry
see seen f n = if seen_name f seen then seen else seen ++ (f, n) ∷ []

abbrev pub entry_texts : List Entry → List Text
entry_texts [] = []
entry_texts (e ∷ es) = render_entry e ∷ entry_texts es

module _ (j : Serde) where
  abbrev pub at_row : ℕ → Text → OracleFault
  at_row i what = manifest_fault (codes "row " ++ (decimal i ++ (codes ": " ++ what)))

  unfoldable pub row_str : j.Json → ℕ → Text → Result OracleFault Text
  row_str row i key =
      ok_or (j.as_str (j.index row key)) (at_row i (codes "missing `" ++ (key ++ codes "` string")))

  unfoldable pub row_arr : j.Json → ℕ → Text → Result OracleFault (List j.Json)
  row_arr row i key =
      ok_or (j.as_array (j.index row key))
        (at_row i (codes "missing `" ++ (key ++ codes "` array")))

  -- The loop over the rows from number `i` on: the first row of each function counts.
  unfoldable pub collect : List Entry → ℕ → List j.Json → Result OracleFault (List Entry)
  collect seen i [] = ok seen
  collect seen i (row ∷ rows) = do
    f ← row_str row i (codes "fn")
    args ← row_arr row i (codes "args")
    collect (see seen f (length args)) (suc i) rows

  unfoldable pub manifest_surface : List j.Json → Result OracleFault Text
  manifest_surface rows = do seen ← collect [] 0 rows; ok (join 44 (entry_texts seen))

  abbrev pub row_args : ℕ → List j.Json → Result OracleFault (List Text)
  row_args i [] = ok []
  row_args i (v ∷ vs) = do
    arg ← ok_or (j.as_str v) (at_row i (codes "non-string `args` element"))
    args ← row_args i vs
    ok (arg ∷ args)

  abbrev pub load_row : ℕ → j.Json → Result OracleFault Row
  load_row i r = do
    elements ← row_arr r i (codes "args")
    args ← row_args i elements
    f ← row_str r i (codes "fn")
    expected ← row_str r i (codes "expected")
    ok (record { f = f; args = args; expected = expected })

  abbrev pub load_rows : ℕ → List j.Json → Result OracleFault (List Row)
  load_rows i [] = ok []
  load_rows i (r ∷ rs) = do row ← load_row i r; rows ← load_rows (suc i) rs; ok (row ∷ rows)

  -- What is left of `load_manifest` when the file is read and parsed.
  unfoldable pub rows_of : List j.Json → Result OracleFault (List Row)
  rows_of rows =
      if ltb (length rows) 100
      then err
          (manifest_fault (codes "only " ++ (decimal (length rows) ++ codes " rows — vacuous")))
      else load_rows 0 rows

  -- `read` and `parse` are the reading of the file and serde_json's parsing of it as a list; their
  -- errors are displays.
  unfoldable pub load_manifest :
      Result Text Text → (Text → Result Text (List j.Json)) → Result OracleFault (List Row)
  load_manifest (err io) parse = err (manifest_fault (codes "read: " ++ io))
  load_manifest (ok raw) parse = parsed_rows (parse raw)
    where
      parsed_rows : Result Text (List j.Json) → Result OracleFault (List Row)
      parsed_rows (err e) = err (manifest_fault (codes "parse: " ++ e))
      parsed_rows (ok rows) = rows_of rows
