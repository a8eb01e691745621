-- ===== src/Hostgen.antt =====
-- The snapshot of the schema universe that crates/guestlang-host/src/hostgen.rs reads: its types and
-- items, and the parser of one type. Texts are lists of code points; every cut is at an ASCII
-- character, so the source's UTF-8 checks of a slice cannot fail.
pub mod Lines
pub mod Writer
pub mod TyRoundTrip
pub mod TySound
pub mod Characters
pub mod Reads
pub mod Normal
pub mod RoundTrip
mod Runs
pub mod Contract
pub mod Startup
pub mod Members
pub mod SnapshotSound
use lean_rust_wasm.Prelude.{
  ℕ, zero, suc, ◌+◌, List, [], ◌∷◌, length, Bool, true, false, Option, none, some, Result, err, ok,
  ◌>>=◌, ok_or, ◌==◌, if◌then◌else◌,
}
use lean_rust_wasm.Text.{Text, codes, same, lookup, is_alnum, is_digit, run, past}
use lean_rust_wasm.Text.Cuts.{differs}
use lean_rust_wasm.Text.Decimal.{parse_u64}

pub data Ty : Type 0 where
  bool u8 u16 u32 u64 i8 i16 i32 i64 f32 f64 string bytes : Ty
  option : Ty → Ty
  result : Ty → Ty → Ty
  list : Ty → Ty
  map : Ty → Ty → Ty
  set : Ty → Ty
  future : Ty → Ty
  stream : Ty → Ty
  tensor : List ℕ → Ty → Ty
  named : Text → Ty

abbrev pub is_key_ty : Ty → Bool
is_key_ty f32 = false
is_key_ty f64 = false
is_key_ty bytes = false
is_key_ty (option t) = false
is_key_ty (result t u) = false
is_key_ty (list t) = false
is_key_ty (map t u) = false
is_key_ty (set t) = false
is_key_ty (future t) = false
is_key_ty (stream t) = false
is_key_ty (tensor ds t) = false
is_key_ty (named n) = false
is_key_ty t = true

pub record FuncSem : Type 0 where
  pub null_sem : Text
  pub determinism : Text
  pub stream_flag : Bool

pub data Item : Type 0 where
  record_item : Text → List (Text × Ty) → Item
  variant_item : Text → List (Text × Option Ty) → Item
  func_item : Text → List (Text × Ty) → Ty → Option FuncSem → Item
  resource_item : Text → Item

-- The errors, a constructor for each kind of text; a word that the text quotes is kept.
pub data Message : Type 0 where
  depth_exceeded set_not_key map_not_key empty_ty_ref bad_tensor_dim : Message
  expected_semicolon field_outside case_outside param_after_ret param_outside : Message
  duplicate_ret ret_outside duplicate_sem sem_before_ret sem_outside : Message
  expected_open expected_comma expected_close unknown_type_token trailing_garbage : Text → Message
  no_ret_line unknown_null_sem unknown_determinism unrecognized_line : Text → Message

-- What the leading word of a type announces; `arg` wraps one type.
pub data Head : Type 0 where
  atom : Ty → Head
  arg : (Ty → Ty) → Head
  set_head map_head result_head ty_head tensor_head : Head

abbrev pub heads : List (Text × Head)
heads =
    (codes "bool", atom bool)
    ∷ (codes "u8", atom u8)
    ∷ (codes "u16", atom u16)
    ∷ (codes "u32", atom u32)
    ∷ (codes "u64", atom u64)
    ∷ (codes "i8", atom i8)
    ∷ (codes "i16", atom i16)
    ∷ (codes "i32", atom i32)
    ∷ (codes "i64", atom i64)
    ∷ (codes "f32", atom f32)
    ∷ (codes "f64", atom f64)
    ∷ (codes "string", atom string)
    ∷ (codes "bytes", atom bytes)
    ∷ (codes "option", arg option)
    ∷ (codes "list", arg list)
    ∷ (codes "future", arg future)
    ∷ (codes "stream", arg stream)
    ∷ (codes "set", set_head)
    ∷ (codes "map", map_head)
    ∷ (codes "result", result_head)
    ∷ (codes "ty", ty_head)
    ∷ (codes "tensor", tensor_head)
    ∷ []

abbrev pub ParseTy : Type 0 → Type 0
ParseTy A = Result Message (A × Text)

-- `match rest.first()` with one accepted character.
abbrev pub expect : ℕ → Message → Text → Result Message Text
expect c why [] = err why
expect c why (x ∷ xs) = if x == c then ok xs else err why

abbrev pub gate : Message → Ty → Result Message Ty
gate why t = if is_key_ty t then ok t else err why

-- The loop over the dimensions, on fuel: a round takes at least two characters, so the length of
-- the text is enough.
unfoldable pub parse_dims : ℕ → Text → ParseTy (List ℕ)
parse_dims zero cs = ok ([], cs)
parse_dims (suc n) cs =
    let dim = run is_digit cs in
    if same dim [] then ok ([], cs) else (do
      d ← ok_or (parse_u64 dim) bad_tensor_dim
      later ← expect 59 expected_semicolon (past is_digit cs)
      (ds, rest) ← parse_dims n later
      ok (d ∷ ds, rest))

abbrev pub parse_ty_ref : Text → ParseTy Ty
parse_ty_ref body = do
  rest ← expect 41 (expected_close (codes "ty")) (past (differs 41) body)
  if same (run (differs 41) body) []
      then err empty_ty_ref
      else ok (named (run (differs 41) body), rest)

-- What follows the leading word `kw`; `inner` parses a type one level deeper.
abbrev pub parse_head : (Text → ParseTy Ty) → Text → Text → Option Head → ParseTy Ty
parse_head inner kw rest none = err (unknown_type_token kw)
parse_head inner kw rest (some (atom t)) = ok (t, rest)
parse_head inner kw rest (some (arg wrap)) = do
  body ← expect 40 (expected_open kw) rest
  (t, r) ← inner body
  after ← expect 41 (expected_close kw) r
  ok (wrap t, after)
parse_head inner kw rest (some set_head) = do
  body ← expect 40 (expected_open kw) rest
  (t, r) ← inner body
  key ← gate set_not_key t
  after ← expect 41 (expected_close kw) r
  ok (set key, after)
parse_head inner kw rest (some map_head) = do
  body ← expect 40 (expected_open kw) rest
  (t, r) ← inner body
  key ← gate map_not_key t
  second ← expect 44 (expected_comma kw) r
  (u, s) ← inner second
  after ← expect 41 (expected_close kw) s
  ok (map key u, after)
parse_head inner kw rest (some result_head) = do
  body ← expect 40 (expected_open kw) rest
  (t, r) ← inner body
  second ← expect 44 (expected_comma kw) r
  (u, s) ← inner second
  after ← expect 41 (expected_close kw) s
  ok (result t u, after)
parse_head inner kw rest (some ty_head) = do
  body ← expect 40 (expected_open kw) rest
  parse_ty_ref body
parse_head inner kw rest (some tensor_head) = do
  body ← expect 40 (expected_open kw) rest
  (dims, r) ← parse_dims (length body) body
  (t, s) ← inner r
  after ← expect 41 (expected_close kw) s
  ok (tensor dims t, after)

-- `parse_ty_at(cs, depth)`, with the fuel `MAX_TY_DEPTH + 1 - depth`: the source's own bound on the
-- depth ends the recursion, with an error.
unfoldable pub parse_ty_at : ℕ → Text → ParseTy Ty
parse_ty_at zero cs = err depth_exceeded
parse_ty_at (suc n) cs =
    parse_head (parse_ty_at n) (run is_alnum cs) (past is_alnum cs) (lookup (run is_alnum cs) heads)

abbrev pub max_ty_depth : ℕ
max_ty_depth = 64

unfoldable pub parse_ty_text : Text → Result Message Ty
parse_ty_text cs = do
  (t, rest) ← parse_ty_at (suc max_ty_depth) cs
  if same rest [] then ok t else err (trailing_garbage rest)
