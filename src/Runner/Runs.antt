-- ===== src/Runner/Runs.antt =====
-- A small manifest and a component that answers it, and the theorems on the runner at them.
use mathlib.Core.List.{map}
use lean_rust_wasm.Prelude.{
  ℕ, zero, suc, ◌+◌, ◌≡◌, refl, List, [], ◌∷◌, ◌++◌, true, false, Option, none, some, Result, err,
  ok, All, arith, if◌then◌else◌,
}
use lean_rust_wasm.Text.{Text, codes, same, lookup}
use lean_rust_wasm.Text.Decimal.{decimal, parse_u64}
use lean_rust_wasm.Surface.{
  Export, other_view, verify_surface, first_difference, parse_surface, surface_of, parse_entry,
  flat_arity,
}
use lean_rust_wasm.Json.{Serde}
use lean_rust_wasm.Oracle.Ser.{u64_val, ser_val}
use lean_rust_wasm.Runner.{Row}
use lean_rust_wasm.Runner.Rows.{manifest_surface, collect, row_str, row_arr, rows_of, load_manifest}
use lean_rust_wasm.Runner.Args.{Numbers, Arg, build_args, arg, arg_u64}
use lean_rust_wasm.Runner.Cli.{Cli, parse_from, as_verdict, compare_as, explained_row, parse_flags}
use lean_rust_wasm.Runner.Probe.{Component, poll_consume, drain, replay_row}
use lean_rust_wasm.Runner.Agreement.{Agreed}
use lean_rust_wasm.Runner.Main.{Outside, loaded_rows, surface_command, main}
use lean_rust_wasm.Runner.Exits.{main-Agreed}
use lean_rust_wasm.Runner.Flags.{
  Word, manifest_word, other_word, spell, heard, default, parse_flags_words,
}
use lean_rust_wasm.Runner.Named.{explained_row_named, explained_row-NoComma, NoComma}
use lean_rust_wasm.Runner.Derived.{
  Stated, stated_none, stated_next, verify_surface-manifest_surface,
}

-- No row has a float.
abbrev floats : Numbers
floats = record { Float = Unit {0}; parse_f64 = λ t. err t; u64_error = λ t. t }

abbrev doubled : List (Arg floats (Unit {0})) → Result Text (List (Arg floats (Unit {0})))
doubled (u64_val n ∷ []) = ok (u64_val (n + n) ∷ [])
doubled _ = err (codes "arity")

-- A component that doubles, and counts its calls.
abbrev doubler : Component floats (Unit {0})
doubler = record {
  State = ℕ;
  call = λ f args calls. (doubled args, suc calls);
  watch_counts = λ f args calls.
      (ok ((1 ∷ 2 ∷ [], false) ∷ ([], false) ∷ (3 ∷ [], false) ∷ ([], true) ∷ []), suc calls);
  watch_users = λ f args calls. (ok [], suc calls);
  display = λ x. [];
  debug = λ x. [];
}

abbrev double_row : Row
double_row = record { f = codes "double"; args = codes "21" ∷ []; expected = codes "42" }

abbrev watch_row : Row
watch_row = record { f = codes "watch-counts"; args = []; expected = codes "(1,2,3)" }

abbrev user_row : Row
user_row = record {
  f = codes "user-valid";
  args = codes "7" ∷ codes "ann" ∷ codes "a@b" ∷ codes "x,y" ∷ [];
  expected = codes "1";
}

abbrev rows : List Row
rows = double_row ∷ watch_row ∷ []

abbrev spoken : List Word
spoken = other_word (codes "7") ∷ manifest_word (codes "--component") ∷ other_word (codes "x") ∷ []

parse_flags_words_example :
    (parse_flags (codes "c") (spell spoken ++ []) ≡ ok (heard (default (codes "c")) spoken))
    × (parse_flags (codes "c") (spell spoken ++ codes "--manifest" ∷ [])
        ≡ err (codes "--manifest needs a path"))
    × (parse_flags (codes "c") (spell spoken ++ codes "--component" ∷ [])
        ≡ err (codes "--component needs a path"))
parse_flags_words_example =
    parse_flags_words (codes "c") spoken ((refl, refl), (tt, ((refl, refl), tt)))

explained_row_named_example :
    explained_row (codes "double:21") (user_row ∷ double_row ∷ watch_row ∷ []) ≡ ok (1, double_row)
explained_row_named_example =
    explained_row_named (user_row ∷ []) (watch_row ∷ []) double_row refl (refl, tt, λ e. cc e)
      (refl, tt)

double_found : explained_row (codes "double:21") rows ≡ ok (0, double_row)
unfolding explained_row parse_u64
double_found = refl

no_number : parse_u64 (codes "double:21") ≡ none
unfolding parse_u64
no_number = refl

explained_row-NoComma_example : All NoComma (codes "21" ∷ [])
explained_row-NoComma_example =
    explained_row-NoComma (codes "double:21") rows 0 double_row no_number double_found

-- The row of a user with two tags is not found under its own arguments.
user_not_found :
    explained_row (codes "user-valid:7,ann,a@b,x,y") (user_row ∷ [])
    ≡ err (codes "no row user-valid:7,ann,a@b,x,y")
unfolding explained_row parse_u64
user_not_found = refl

-- The values that a row needs.
data JsonValue : Type 0 where
  null : JsonValue
  text : Text → JsonValue
  texts : List Text → JsonValue
  of_row : Row → JsonValue

abbrev as_text : JsonValue → Option Text
as_text (text t) = some t
as_text _ = none

abbrev elements : JsonValue → Option (List JsonValue)
elements (texts ts) = some (map text ts)
elements _ = none

abbrev field : Row → Text → JsonValue
field row key =
    if same key (codes "fn")
    then text row.f
    else if same key (codes "args")
    then texts row.args
    else if same key (codes "expected")
    then text row.expected
    else null

abbrev at : JsonValue → Text → JsonValue
at (of_row row) key = field row key
at _ key = null

abbrev serde : Serde
serde = record {
  Json = JsonValue;
  Fields = Unit {0};
  as_str = as_text;
  as_array = elements;
  as_object = λ v. none;
  get = λ fields key. none;
  index = at;
  string = text;
  number = λ n. null;
  array = λ vs. null;
  object = λ members. null;
  to_string_pretty = λ v. err (codes "not written");
  from_str = λ t. none;
  stream = λ t. [];
  stream_error = λ t. none;
}

abbrev values : List JsonValue
values = of_row double_row ∷ of_row watch_row ∷ of_row double_row ∷ []

abbrev exports : List Export
exports =
    (codes "memory", none)
    ∷ (codes "watch-counts", some [])
    ∷ (codes "double", some (other_view ∷ []))
    ∷ []

surface_made : manifest_surface serde values ≡ ok (codes "double/1,watch-counts/0")
unfolding manifest_surface collect row_str row_arr decimal
surface_made = refl

surface_passes : verify_surface exports (codes "double/1,watch-counts/0") ≡ ok tt
unfolding verify_surface first_difference parse_surface surface_of parse_entry parse_u64 flat_arity
surface_passes = refl

values-Stated :
    Stated serde values ((codes "double", 1) ∷ (codes "watch-counts", 0) ∷ (codes "double", 1) ∷ [])
values-Stated = stated_next refl refl (stated_next refl refl (stated_next refl refl stated_none))

verify_surface-manifest_surface_example : lookup (codes "double") (surface_of exports) ≡ some 1
verify_surface-manifest_surface_example =
    verify_surface-manifest_surface serde values
      ((codes "double", 1) ∷ (codes "watch-counts", 0) ∷ (codes "double", 1) ∷ []) exports
      (codes "double/1,watch-counts/0") values-Stated
      ((refl, omega arith), ((refl, omega arith), ((refl, omega arith), tt))) surface_made
      surface_passes (codes "double") 1 refl

abbrev many : ℕ → List JsonValue
many zero = []
many (suc k) = of_row double_row ∷ of_row watch_row ∷ many k

abbrev doubles : ℕ → List Row
doubles zero = []
doubles (suc k) = double_row ∷ watch_row ∷ doubles k

abbrev outside : Outside serde ℕ
outside = record {
  read_to_string = λ path. ok path;
  parse_rows = λ raw. ok (many 50);
  start = λ path. ok 0;
  cross_check = λ row observed. ok tt;
}

abbrev loaded : List Row
loaded = doubles 50

abbrev probe_cli : Cli
probe_cli =
    heard (default (codes "c")) (other_word (codes "--compare") ∷ other_word (codes "verdict") ∷ [])

cli_read : parse_flags (codes "c") (codes "--compare" ∷ codes "verdict" ∷ []) ≡ ok probe_cli
unfolding parse_flags parse_from
cli_read = refl

mode_read : compare_as probe_cli.rest ≡ ok as_verdict
unfolding compare_as
mode_read = refl

rows_read : loaded_rows serde floats (Unit {0}) doubler outside probe_cli ≡ ok loaded
unfolding surface_command manifest_surface collect row_str row_arr decimal load_manifest rows_of
rows_read = refl

loaded-Agreed : (k s : ℕ) → Agreed floats (Unit {0}) doubler (doubles k) s
unfolding build_args arg arg_u64 replay_row drain ser_val decimal parse_u64 poll_consume
loaded-Agreed zero s = tt
loaded-Agreed (suc k) s =
    (u64_val 21 ∷ [], refl, refl, ([], refl, refl, loaded-Agreed k (suc (suc s))))

main-Agreed_example :
    main serde floats
      (Unit {0})
      doubler
      outside
      (codes "c")
      (codes "probe" ∷ codes "--compare" ∷ codes "verdict" ∷ [])
    ≡ 0
main-Agreed_example =
    (main-Agreed serde floats (Unit {0}) doubler outside (codes "c")
        (codes "--compare" ∷ codes "verdict" ∷ []) probe_cli as_verdict loaded 0 cli_read mode_read
        rows_read refl).1
      (loaded-Agreed 50 0)
