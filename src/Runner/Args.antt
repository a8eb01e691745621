-- ===== src/Runner/Args.antt =====
-- The arguments of a row as values of the component model, main.rs: `build_args`.
use lean_rust_wasm.Prelude.{
  ℕ, zero, suc, List, [], ◌∷◌, ◌++◌, Bool, ◌&&◌, ◌||◌, Option, none, some, Result, err, ok, ◌>>=◌,
  ok_or, ◌==◌, if◌then◌else◌,
}
use lean_rust_wasm.Text.{Text, codes, same, split}
use lean_rust_wasm.Text.Decimal.{decimal, parse_u64}
use lean_rust_wasm.Oracle.Ser.{
  Val, bool_val, u64_val, float64_val, string_val, record_val, list_val, variant_val,
  variant_of_val, Vals, no_vals, and_val, no_fields, and_field,
}
use lean_rust_wasm.Runner.{OracleFault, row_fault}

-- Floats and the displays of failed parses are std's.
pub record Numbers : Type 1 where
  pub Float : Type 0
  pub parse_f64 : Text → Result Text Float
  pub u64_error : Text → Text

abbrev pub nth : ℕ → List Text → Option Text
nth i [] = none
nth zero (t ∷ ts) = some t
nth (suc i) (t ∷ ts) = nth i ts

unfoldable pub arg : List Text → ℕ → Text → Result OracleFault Text
arg strs i what = ok_or (nth i strs) (
    row_fault
      (codes "missing arg #" ++ (decimal i ++ (codes " (" ++ (what ++ codes ") — row too short")))))

abbrev pub unparsed : ℕ → Text → Text → Text → Text → OracleFault
unparsed i what s kind e = row_fault (
    codes "arg #"
    ++ (decimal i
        ++ (codes " ("
            ++ (what
                ++ (codes "): `"
                    ++ (s ++ (codes "` does not parse as " ++ (kind ++ (codes ": " ++ e)))))))))

module _ (p : Numbers) (Other : Type 0) where
  abbrev pub Arg : Type 0
  Arg = Val p.Float Other

  unfoldable pub arg_u64 : List Text → ℕ → Text → Result OracleFault ℕ
  arg_u64 strs i what = do
    s ← arg strs i what
    ok_or (parse_u64 s) (unparsed i what s (codes "u64") (p.u64_error s))

  abbrev pub parsed_f64 : ℕ → Text → Text → Result Text p.Float → Result OracleFault p.Float
  parsed_f64 i what s (err e) = err (unparsed i what s (codes "f64") e)
  parsed_f64 i what s (ok x) = ok x

  unfoldable pub arg_f64 : List Text → ℕ → Text → Result OracleFault p.Float
  arg_f64 strs i what = do s ← arg strs i what; parsed_f64 i what s (p.parse_f64 s)

  abbrev pub strings : List Text → Vals p.Float Other
  strings [] = no_vals
  strings (t ∷ ts) = and_val (string_val t) (strings ts)

  abbrev pub user_value : ℕ → Text → Text → List Text → Arg
  user_value id name email tags = record_val (
      and_field (codes "id") (u64_val id) (
        and_field (codes "name") (string_val name) (
          and_field (codes "email") (string_val email)
            (and_field (codes "tags") (list_val (strings tags)) no_fields))))

  unfoldable pub user_record : List Text → Result OracleFault Arg
  user_record strs = do
    id ← arg_u64 strs 0 (codes "user id")
    name ← arg strs 1 (codes "name")
    email ← arg strs 2 (codes "email")
    tags ← arg strs 3 (codes "tags")
    ok (user_value id name email (split 44 tags))

  abbrev pub by_discr : List Text → Text → Result OracleFault Arg
  by_discr strs discr =
      let item = arg_u64 strs 1 (codes "invalid-item payload") in
      let funds = arg_f64 strs 1 (codes "insufficient-funds payload") in
      if same discr (codes "0")
      then ok (variant_val (codes "empty-cart"))
      else if same discr (codes "1")
      then item >>= (λ n. ok (variant_of_val (codes "invalid-item") (u64_val n)))
      else funds >>= (λ x. ok (variant_of_val (codes "insufficient-funds") (float64_val x)))

  unfoldable pub order_error_variant : List Text → Result OracleFault Arg
  order_error_variant strs = do discr ← arg strs 0 (codes "order-error discr"); by_discr strs discr

  abbrev pub is_pick_flag : Text → ℕ → Text → Bool
  is_pick_flag f i a =
      same f (codes "pick") && ((i == 0) && (same a (codes "0") || same a (codes "1")))

  abbrev pub build_arg : Text → List Text → ℕ → Text → Result OracleFault Arg
  build_arg f strs i a =
      if is_pick_flag f i a
      then ok (bool_val (same a (codes "1")))
      else arg_u64 strs i (codes "u64 arg") >>= (λ n. ok (u64_val n))

  -- The arguments from number `i` on.
  abbrev pub build_from : Text → List Text → ℕ → List Text → Result OracleFault (List Arg)
  build_from f strs i [] = ok []
  build_from f strs i (a ∷ later) = do
    value ← build_arg f strs i a
    values ← build_from f strs (suc i) later
    ok (value ∷ values)

  abbrev pub one_value : Result OracleFault Arg → Result OracleFault (List Arg)
  one_value r = r >>= (λ value. ok (value ∷ []))

  unfoldable pub build_args : Text → List Text → Result OracleFault (List Arg)
  build_args f strs =
      if same f (codes "user-valid") || same f (codes "user-complete")
      then one_value (user_record strs)
      else if same f (codes "order-error-valid")
      then one_value (order_error_variant strs)
      else build_from f strs 0 strs
