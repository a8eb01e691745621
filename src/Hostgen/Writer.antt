-- ===== src/Hostgen/Writer.antt =====
-- The writer of a snapshot, lean/schema-lang/SchemaLang/Snapshot.lean: the text of a type, of an
-- item and of a universe, and the names that it admits.
use lean_rust_wasm.Prelude.{
  ℕ, suc, ◌<◌, ◌^◌, ◌≡◌, List, [], ◌∷◌, ◌++◌, Bool, true, false, ◌&&◌, ◌||◌, Option, none, some,
  All, ◌==◌, leb, if◌then◌else◌,
}
use lean_rust_wasm.Text.{join_lines, Text, codes, every, is_alnum, same, not}
use lean_rust_wasm.Text.Decimal.{decimal}
use lean_rust_wasm.Hostgen.{
  Ty, FuncSem, Item, record_item, variant_item, func_item, resource_item, is_key_ty,
}
use lean_rust_wasm.Hostgen.Lines.{null_sems, determinisms, contains}

abbrev pub name_char : ℕ → Bool
name_char c = is_alnum c || ((c == 45) || ((c == 95) || (c == 46)))

abbrev pub name_ok : Text → Bool
name_ok [] = false
name_ok (c ∷ cs) = every name_char (c ∷ cs)

abbrev pub render_dims : List ℕ → Text
render_dims [] = []
render_dims (d ∷ ds) = decimal d ++ 59 ∷ render_dims ds

unfoldable pub render_ty : Ty → Text
render_ty Ty.bool = codes "bool"
render_ty Ty.u8 = codes "u8"
render_ty Ty.u16 = codes "u16"
render_ty Ty.u32 = codes "u32"
render_ty Ty.u64 = codes "u64"
render_ty Ty.i8 = codes "i8"
render_ty Ty.i16 = codes "i16"
render_ty Ty.i32 = codes "i32"
render_ty Ty.i64 = codes "i64"
render_ty Ty.f32 = codes "f32"
render_ty Ty.f64 = codes "f64"
render_ty Ty.string = codes "string"
render_ty Ty.bytes = codes "bytes"
render_ty (Ty.option t) = codes "option" ++ 40 ∷ render_ty t ++ codes ")"
render_ty (Ty.result t u) = codes "result" ++ 40 ∷ render_ty t ++ 44 ∷ render_ty u ++ codes ")"
render_ty (Ty.list t) = codes "list" ++ 40 ∷ render_ty t ++ codes ")"
render_ty (Ty.map t u) = codes "map" ++ 40 ∷ render_ty t ++ 44 ∷ render_ty u ++ codes ")"
render_ty (Ty.set t) = codes "set" ++ 40 ∷ render_ty t ++ codes ")"
render_ty (Ty.future t) = codes "future" ++ 40 ∷ render_ty t ++ codes ")"
render_ty (Ty.stream t) = codes "stream" ++ 40 ∷ render_ty t ++ codes ")"
render_ty (Ty.tensor ds t) = codes "tensor" ++ 40 ∷ render_dims ds ++ render_ty t ++ codes ")"
render_ty (Ty.named n) = codes "ty" ++ 40 ∷ n ++ codes ")"

-- How deep the brackets of a type's text nest, `ty(..)` aside.
abbrev pub max_depth : ℕ → ℕ → ℕ
max_depth a b = if leb a b then b else a

abbrev pub depth : Ty → ℕ
depth (Ty.option t) = suc (depth t)
depth (Ty.result t u) = suc (max_depth (depth t) (depth u))
depth (Ty.list t) = suc (depth t)
depth (Ty.map t u) = suc (max_depth (depth t) (depth u))
depth (Ty.set t) = suc (depth t)
depth (Ty.future t) = suc (depth t)
depth (Ty.stream t) = suc (depth t)
depth (Ty.tensor ds t) = suc (depth t)
depth t = 0

-- The types that the writer's own type can hold: keys are scalars, names are admitted, and, for the
-- reader, dimensions are `u64`.
abbrev pub WellFormed : Ty → Type 0
WellFormed (Ty.option t) = WellFormed t
WellFormed (Ty.result t u) = WellFormed t × WellFormed u
WellFormed (Ty.list t) = WellFormed t
WellFormed (Ty.map t u) = (is_key_ty t ≡ true) × (WellFormed t × WellFormed u)
WellFormed (Ty.set t) = (is_key_ty t ≡ true) × WellFormed t
WellFormed (Ty.future t) = WellFormed t
WellFormed (Ty.stream t) = WellFormed t
WellFormed (Ty.tensor ds t) = All (λ d. d < 2 ^ 64) ds × WellFormed t
WellFormed (Ty.named n) = name_ok n ≡ true
WellFormed t = Unit

abbrev pub words : Text → Text → Text
words w rest = w ++ 32 ∷ rest

abbrev pub member_line : Text → (Text × Ty) → Text
member_line w (name, t) = words w (words name (render_ty t))

abbrev pub case_text : (Text × Option Ty) → Text
case_text (name, none) = words (codes "case") name
case_text (name, some t) = member_line (codes "case") (name, t)

abbrev pub sem_text : FuncSem → Text
sem_text s = words (codes "sem") (
    words s.null_sem
      (if s.stream_flag then words s.determinism (codes "stream") else s.determinism))

-- The defaults of the writer's semantics: null propagates, the function is pure and delivers once.
abbrev pub is_default_sem : FuncSem → Bool
is_default_sem s =
    same s.null_sem (codes "propagate") && (same s.determinism (codes "pure") && not s.stream_flag)

-- Only a semantics that is not the default has a line. The writer's functions all have a semantics, and
-- the reader's have none where no line gives one: `none` stands here for the default one.
abbrev pub sem_lines : Option FuncSem → List Text
sem_lines none = []
sem_lines (some s) = if is_default_sem s then [] else sem_text s ∷ []

abbrev pub map_list {ℓ κ} : {A : Type ℓ} {B : Type κ} → (A → B) → List A → List B
map_list f [] = []
map_list f (x ∷ xs) = f x ∷ map_list f xs

unfoldable pub item_lines : Item → List Text
item_lines (record_item n fields) =
    words (codes "record") n ∷ map_list (member_line (codes "field")) fields
item_lines (variant_item n cases) = words (codes "variant") n ∷ map_list case_text cases
item_lines (func_item n params ret sem) =
    words (codes "func") n ∷ map_list (member_line (codes "param")) params
    ++ words (codes "ret") (render_ty ret) ∷ sem_lines sem
item_lines (resource_item n) = words (codes "resource") n ∷ []

abbrev pub all_lines : List Item → List Text
all_lines [] = []
all_lines (item ∷ items) = item_lines item ++ all_lines items

unfoldable pub render : List Item → Text
render items = join_lines (all_lines items)

-- A type that the writer can emit and the reader's bound on the depth admits.
abbrev pub Legible : Ty → Type 0
Legible t = WellFormed t × (depth t < 65)

abbrev pub MemberOk : (Text × Ty) → Type 0
MemberOk (name, t) = (name_ok name ≡ true) × Legible t

abbrev pub CaseOk : (Text × Option Ty) → Type 0
CaseOk (name, none) = name_ok name ≡ true
CaseOk (name, some t) = MemberOk (name, t)

abbrev pub SemOk : Option FuncSem → Type 0
SemOk none = Unit
SemOk (some s) =
    (contains null_sems s.null_sem ≡ true) × (contains determinisms s.determinism ≡ true)

abbrev pub ItemOk : Item → Type 0
ItemOk (record_item n fields) = (name_ok n ≡ true) × All MemberOk fields
ItemOk (variant_item n cases) = (name_ok n ≡ true) × All CaseOk cases
ItemOk (func_item n params ret sem) =
    (name_ok n ≡ true) × (All MemberOk params × (Legible ret × SemOk sem))
ItemOk (resource_item n) = name_ok n ≡ true
