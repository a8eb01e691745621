-- ===== src/Runner/Cli.antt =====
-- The command line of the oracle runner, main.rs: the flags, the comparison that `probe` is asked for,
-- and the row that `explain` looks up.
use lean_rust_wasm.Prelude.{
  ℕ, zero, suc, List, [], ◌∷◌, ◌++◌, length, Bool, true, false, ◌&&◌, Option, none, some, Result,
  err, ok, ok_or, if◌then◌else◌,
}
use lean_rust_wasm.Text.{Text, codes, same, split}
use lean_rust_wasm.Text.Decimal.{decimal, parse_u64}
use lean_rust_wasm.Text.Pieces.{split_once}
use lean_rust_wasm.Runner.{Row}

pub record Cli : Type 0 where
  pub manifest : Text
  pub component : Text
  pub rest : List Text

abbrev pub with_manifest : Cli → Text → Cli
with_manifest cli p = record { manifest = p; component = cli.component; rest = cli.rest }

abbrev pub with_component : Cli → Text → Cli
with_component cli p = record { manifest = cli.manifest; component = p; rest = cli.rest }

abbrev pub with_other : Cli → Text → Cli
with_other cli other = record {
  manifest = cli.manifest;
  component = cli.component;
  rest = cli.rest ++ other ∷ [];
}

abbrev pub is_manifest_flag : Text → Bool
is_manifest_flag a = same a (codes "--manifest")

abbrev pub is_component_flag : Text → Bool
is_component_flag a = same a (codes "--component")

-- The loop over the arguments: a flag takes the argument behind it, whatever that is.
unfoldable pub parse_from : Cli → List Text → Result Text Cli
parse_from cli [] = ok cli
parse_from cli (a ∷ []) =
    if is_manifest_flag a
    then err (codes "--manifest needs a path")
    else if is_component_flag a
    then err (codes "--component needs a path")
    else ok (with_other cli a)
parse_from cli (a ∷ b ∷ later) =
    let manifest = parse_from (with_manifest cli b) later in
    let component = parse_from (with_component cli b) later in
    let other = parse_from (with_other cli a) (b ∷ later) in
    if is_manifest_flag a then manifest else if is_component_flag a then component else other

abbrev pub artifact : Text → Text → Text
artifact crate_dir name = crate_dir ++ (codes "/../../lean/wasm-backend/artifact/" ++ name)

-- The directory is the crate's, which the build sets.
unfoldable pub parse_flags : Text → List Text → Result Text Cli
parse_flags crate_dir args =
    parse_from
      (record {
        manifest = artifact crate_dir (codes "diff.json");
        component = artifact crate_dir (codes "demo.component.wasm");
        rest = [];
      })
      args

abbrev pub usage : Text
usage =
    codes "oracle-runner — the differential oracle's host-side driver (W6.3 phase 2)"
    ++ 10
      ∷ (codes "usage:"
          ++ 10
            ∷ (codes "  oracle-runner probe [--compare rows|verdict] [--manifest P] [--component P]"
                ++ 10
                  ∷ (codes
                        "  oracle-runner explain <row-index | fn:arg,arg,...> [--manifest P] [--component P]"
                      ++ 10 ∷ codes "  oracle-runner schema-surface [--manifest P]")))

pub data CompareAs : Type 0 where
  as_rows as_verdict : CompareAs

abbrev pub named_mode : Text → Result Text CompareAs
named_mode name =
    if same name (codes "rows")
    then ok as_rows
    else if same name (codes "verdict")
    then ok as_verdict
    else err usage

unfoldable pub compare_as : List Text → Result Text CompareAs
compare_as [] = ok as_rows
compare_as (flag ∷ []) = err usage
compare_as (flag ∷ name ∷ later) =
    if same flag (codes "--compare") then named_mode name else err usage

abbrev pub same_all : List Text → List Text → Bool
same_all [] [] = true
same_all [] (u ∷ us) = false
same_all (t ∷ ts) [] = false
same_all (t ∷ ts) (u ∷ us) = same t u && same_all ts us

abbrev pub is_wanted : Row → Text → List Text → Bool
is_wanted r f want = same r.f f && same_all r.args want

-- The first wanted row, from number `i` on.
abbrev pub find_row : ℕ → Text → List Text → List Row → Option (ℕ × Row)
find_row i f want [] = none
find_row i f want (r ∷ rs) =
    let later = find_row (suc i) f want rs in if is_wanted r f want then some (i, r) else later

abbrev pub row_at : ℕ → List Row → Option Row
row_at i [] = none
row_at zero (r ∷ rs) = some r
row_at (suc i) (r ∷ rs) = row_at i rs

abbrev pub numbered : ℕ → Option Row → Option (ℕ × Row)
numbered i none = none
numbered i (some r) = some (i, r)

abbrev pub wanted_args : Text → List Text
wanted_args [] = []
wanted_args (c ∷ cs) = split 44 (c ∷ cs)

abbrev pub by_name : Text → List Row → Option (Text × Text) → Result Text (ℕ × Row)
by_name id rows none = err (codes "explain id: row-index or fn:arg,arg,...")
by_name id rows (some (f, args)) =
    ok_or (find_row 0 f (wanted_args args) rows) (codes "no row " ++ id)

abbrev pub by_id : Text → List Row → Option ℕ → Result Text (ℕ × Row)
by_id id rows (some i) =
    ok_or (numbered i (row_at i rows))
      (codes "no row #" ++ (decimal i ++ (codes " (" ++ (decimal (length rows) ++ codes " rows)"))))
by_id id rows none = by_name id rows (split_once 58 id)

-- The row that `explain` shows, with its number.
unfoldable pub explained_row : Text → List Row → Result Text (ℕ × Row)
explained_row id rows = by_id id rows (parse_u64 id)
