-- ===== src/Hostgen/Runs.antt =====
-- A small universe, its snapshot and its contract, and the theorems at them.
use lean_rust_wasm.Prelude.{
  ℕ, ◌≡◌, refl, List, [], ◌∷◌, false, Option, none, ◌++◌, Bool, true, ◌&&◌, some, err, ok, All, leb,
  inr, arith, ◌≢◌,
}
use lean_rust_wasm.Text.{Text, codes}
use lean_rust_wasm.Text.Decimal.{decimal, parse_u64}
use lean_rust_wasm.Surface.{Entry, parse_surface, render_surface}
use lean_rust_wasm.Hostgen.{
  Ty, FuncSem, Item, record_item, func_item, parse_ty_at, parse_ty_text, parse_dims,
  unknown_type_token, set_not_key, param_outside,
}
use lean_rust_wasm.Hostgen.Lines.{
  add_field, two_tokens, settle, close, finish, parse_snapshot, read_lines, read_line, read_shape,
  shape, three_tokens, add_param,
}
use lean_rust_wasm.Hostgen.Writer.{render, render_ty, item_lines, ItemOk}
use lean_rust_wasm.Hostgen.Contract.{
  surface_entries, entries_of, params_arity, flat_arity, kebab, validate_committed,
}
use lean_rust_wasm.Hostgen.Members.{ItemShallow}
use lean_rust_wasm.Hostgen.SnapshotSound.{parse_snapshot-Shallow}
use lean_rust_wasm.Hostgen.RoundTrip.{parse_snapshot-render}
use lean_rust_wasm.Hostgen.Startup.{
  validate_committed_accepts, validate_committed_accepted, Agrees, coverage, having,
}

abbrev user : Item
user = record_item (codes "User") (
    (codes "id", Ty.u64)
    ∷ (codes "shape", Ty.tensor (2 ∷ 3 ∷ []) Ty.f32)
    ∷ (codes "seen", Ty.map Ty.string (Ty.list Ty.bytes))
    ∷ [])

abbrev streamed : FuncSem
streamed = record { null_sem = codes "strict"; determinism = codes "pure"; stream_flag = true }

abbrev get_user : Item
get_user =
    func_item (codes "getUser") ((codes "id", Ty.u64) ∷ []) (Ty.option (Ty.named (codes "User")))
      (some streamed)

abbrev universe : List Item
universe = user ∷ get_user ∷ []

universe-ItemOk : All ItemOk universe
universe-ItemOk = (
  (
    refl,
    (
      (refl, (tt, omega arith)),
      (
        (refl, (((omega arith, (omega arith, tt)), tt), omega arith)),
        ((refl, ((refl, (tt, tt)), omega arith)), tt),
      ),
    ),
  ),
  ((refl, (((refl, (tt, omega arith)), tt), ((refl, omega arith), (refl, refl)))), tt),
)

user_text :
    render (user ∷ [])
    ≡ codes "record User"
      ++ 10 ∷ codes "field id u64"
      ++ 10 ∷ codes "field shape tensor(2;3;f32)"
      ++ 10 ∷ codes "field seen map(string,list(bytes))"
      ++ 10 ∷ []
unfolding render item_lines render_ty decimal
user_text = refl

-- A dimension list cannot be empty and keep its semicolon.
no_dims : parse_ty_text (codes "tensor(;u64)") ≡ err (unknown_type_token [])
unfolding parse_ty_text parse_ty_at parse_dims
no_dims = refl

float_set : parse_ty_text (codes "set(f32)") ≡ err set_not_key
unfolding parse_ty_text parse_ty_at
float_set = refl

dims_read : parse_ty_text (codes "tensor(2;u64)") ≡ ok (Ty.tensor (2 ∷ []) Ty.u64)
unfolding parse_ty_text parse_ty_at parse_dims parse_u64
dims_read = refl

stray_param :
    parse_snapshot (codes "param x u8") ≡ err (record { line = 1; message = param_outside })
unfolding parse_snapshot read_lines read_line read_shape shape three_tokens add_param
stray_param = refl

-- A function that carries the default semantics, and the same function as the reader gives it back.
abbrev plain : FuncSem
plain = record { null_sem = codes "propagate"; determinism = codes "pure"; stream_flag = false }

abbrev ping : Option FuncSem → Item
ping sem = func_item (codes "ping") [] Ty.bool sem

ping_text : render (ping (some plain) ∷ []) ≡ codes "func ping" ++ 10 ∷ codes "ret bool" ++ 10 ∷ []
unfolding render item_lines render_ty
ping_text = refl

parse_snapshot-render_example :
    (parse_snapshot (render (ping (some plain) ∷ universe)) ≡ ok (ping none ∷ universe))
    × (render (ping none ∷ universe) ≡ render (ping (some plain) ∷ universe))
parse_snapshot-render_example =
    parse_snapshot-render (ping (some plain) ∷ universe)
      ((refl, (tt, ((tt, omega arith), (refl, refl)))), universe-ItemOk)

abbrev point : Text
point = codes "record Point" ++ 10 ∷ 10 ∷ codes "field at tensor(2;u64)" ++ 10 ∷ []

abbrev points : List Item
points = record_item (codes "Point") ((codes "at", Ty.tensor (2 ∷ []) Ty.u64) ∷ []) ∷ []

point_reads : parse_snapshot point ≡ ok points
unfolding parse_snapshot read_lines read_line read_shape shape two_tokens three_tokens add_field
    parse_ty_text parse_ty_at parse_dims parse_u64 settle close finish
point_reads = refl

parse_snapshot-Shallow_example : All ItemShallow points
parse_snapshot-Shallow_example = parse_snapshot-Shallow point points point_reads

abbrev ascii_uppercase : ℕ → Bool
ascii_uppercase c = leb 65 c && leb c 90

abbrev generated : List Entry
generated = (codes "get-user", 1) ∷ []

universe_entries : surface_entries ascii_uppercase universe ≡ ok generated
unfolding surface_entries entries_of params_arity flat_arity kebab
universe_entries = refl

generated_some : having true generated generated ≢ []
generated_some = λ e. cc

validate_committed_accepts_example :
    validate_committed ascii_uppercase (render universe) (render_surface generated)
    ≡ ok (coverage generated generated)
validate_committed_accepts_example =
    validate_committed_accepts ascii_uppercase universe generated generated universe-ItemOk
      ((refl, omega arith), tt) universe_entries (inr refl, tt) generated_some

universe_passes :
    validate_committed ascii_uppercase (render universe) (render_surface generated)
    ≡ ok (coverage generated generated)
universe_passes =
    validate_committed_accepts ascii_uppercase universe generated generated universe-ItemOk
      ((refl, omega arith), tt) universe_entries (inr refl, tt) generated_some

validate_committed_accepted_example :
    (items : List Item) × (entries : List Entry) × (parse_snapshot (render universe) ≡ ok items)
    × (surface_entries ascii_uppercase items ≡ ok entries)
    × (All (Agrees (parse_surface (render_surface generated))) entries
        × ((coverage generated generated
              ≡ coverage (parse_surface (render_surface generated)) entries)
            × ((coverage generated generated).covered ≢ [])))
validate_committed_accepted_example =
    validate_committed_accepted ascii_uppercase (render universe) (render_surface generated)
      (coverage generated generated) universe_passes
