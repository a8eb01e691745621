-- ===== src/Hostgen/Lines.antt =====
-- The parser of a snapshot's lines, `parse_snapshot` of crates/guestlang-host/src/hostgen.rs.
use lean_rust_wasm.Prelude.{
  ℕ, suc, List, [], ◌∷◌, ◌++◌, Bool, true, false, ◌||◌, Option, none, some, Result, err, ok, ◌>>=◌,
  if◌then◌else◌,
}
use lean_rust_wasm.Text.{Text, codes, same, split, not}
use lean_rust_wasm.Hostgen.{
  Ty, FuncSem, Item, record_item, variant_item, func_item, resource_item, Message, field_outside,
  case_outside, param_after_ret, param_outside, duplicate_ret, ret_outside, duplicate_sem,
  sem_before_ret, sem_outside, no_ret_line, unknown_null_sem, unknown_determinism,
  unrecognized_line, parse_ty_text,
}

pub record ParseError : Type 0 where
  pub line : ℕ
  pub message : Message

-- The item that the lines so far have opened.
pub data Open : Type 0 where
  open_record : Text → List (Text × Ty) → Open
  open_variant : Text → List (Text × Option Ty) → Open
  open_func : Text → List (Text × Ty) → Option Ty → Option FuncSem → Open
  open_resource : Text → Open

unfoldable pub close : Open → Result Message Item
close (open_record name fields) = ok (record_item name fields)
close (open_variant name cases) = ok (variant_item name cases)
close (open_func name params none sem) = err (no_ret_line name)
close (open_func name params (some ret) sem) = ok (func_item name params ret sem)
close (open_resource name) = ok (resource_item name)

abbrev pub null_sems : List Text
null_sems = codes "strict" ∷ codes "propagate" ∷ codes "custom" ∷ []

abbrev pub determinisms : List Text
determinisms = codes "pure" ∷ codes "stable" ∷ codes "volatile" ∷ []

abbrev pub contains : List Text → Text → Bool
contains [] t = false
contains (w ∷ ws) t = same w t || contains ws t

-- The last argument says whether a fourth token, `stream`, stands on the line.
unfoldable pub parse_sem : Text → Text → Bool → Result Message FuncSem
parse_sem ns ds four =
    if not (contains null_sems ns)
    then err (unknown_null_sem ns)
    else (if not (contains determinisms ds)
        then err (unknown_determinism ds)
        else ok (record { null_sem = ns; determinism = ds; stream_flag = four }))

-- The shapes of a line that the parser matches on.
pub data Shape : Type 0 where
  opens : Open → Shape
  field_line : Text → Text → Shape
  case_line : Text → Option Text → Shape
  param_line : Text → Text → Shape
  ret_line : Text → Shape
  sem_line : Text → Text → Bool → Shape
  unknown_line : Shape

unfoldable pub two_tokens : Text → Text → Shape
two_tokens w a =
    if same w (codes "record")
    then opens (open_record a [])
    else (if same w (codes "variant")
        then opens (open_variant a [])
        else (if same w (codes "func")
            then opens (open_func a [] none none)
            else (if same w (codes "resource")
                then opens (open_resource a)
                else (if same w (codes "case")
                    then case_line a none
                    else (if same w (codes "ret") then ret_line a else unknown_line)))))

unfoldable pub three_tokens : Text → Text → Text → Shape
three_tokens w a b =
    if same w (codes "field")
    then field_line a b
    else (if same w (codes "case")
        then case_line a (some b)
        else (if same w (codes "param")
            then param_line a b
            else (if same w (codes "sem") then sem_line a b false else unknown_line)))

unfoldable pub four_tokens : Text → Text → Text → Text → Shape
four_tokens w a b c =
    if same w (codes "sem")
    then (if same c (codes "stream") then sem_line a b true else unknown_line)
    else unknown_line

unfoldable pub shape : List Text → Shape
shape (w ∷ a ∷ []) = two_tokens w a
shape (w ∷ a ∷ b ∷ []) = three_tokens w a b
shape (w ∷ a ∷ b ∷ c ∷ []) = four_tokens w a b c
shape ws = unknown_line

-- The finished items, the open one, and the number of the last line that is not blank.
pub record Progress : Type 0 where
  pub finished : List Item
  pub current : Option Open
  pub last_line : ℕ

-- The open item joins the finished ones.
unfoldable pub settle : List Item → Option Open → Result Message (List Item)
settle items none = ok items
settle items (some o) = do item ← close o; ok (items ++ item ∷ [])

-- A member line changes the open item.
unfoldable pub add_field : Text → Text → Option Open → Result Message Open
add_field name text (some (open_record n fields)) = do
  t ← parse_ty_text text
  ok (open_record n (fields ++ (name, t) ∷ []))
add_field name text cur = err field_outside

unfoldable pub add_case : Text → Option Text → Option Open → Result Message Open
add_case name none (some (open_variant n cases)) = ok (open_variant n (cases ++ (name, none) ∷ []))
add_case name (some text) (some (open_variant n cases)) = do
  t ← parse_ty_text text
  ok (open_variant n (cases ++ (name, some t) ∷ []))
add_case name payload cur = err case_outside

unfoldable pub add_param : Text → Text → Option Open → Result Message Open
add_param name text (some (open_func n params none sem)) = do
  t ← parse_ty_text text
  ok (open_func n (params ++ (name, t) ∷ []) none sem)
add_param name text (some (open_func n params (some ret) sem)) = err param_after_ret
add_param name text cur = err param_outside

unfoldable pub add_ret : Text → Option Open → Result Message Open
add_ret text (some (open_func n params none sem)) = do
  t ← parse_ty_text text
  ok (open_func n params (some t) sem)
add_ret text (some (open_func n params (some ret) sem)) = err duplicate_ret
add_ret text cur = err ret_outside

unfoldable pub add_sem : Text → Text → Bool → Option Open → Result Message Open
add_sem ns ds four (some (open_func n params (some ret) none)) = do
  s ← parse_sem ns ds four
  ok (open_func n params (some ret) (some s))
add_sem ns ds four (some (open_func n params ret (some s))) = err duplicate_sem
add_sem ns ds four (some (open_func n params none none)) = err sem_before_ret
add_sem ns ds four cur = err sem_outside

abbrev pub keep : List Item → Result Message Open → Result Message (List Item × Option Open)
keep items (err why) = err why
keep items (ok o) = ok (items, some o)

-- The effect of a line that is not blank on the finished items and the open one.
unfoldable pub read_shape :
    Text → Shape → List Item → Option Open → Result Message (List Item × Option Open)
read_shape text (opens o) items cur = do done ← settle items cur; ok (done, some o)
read_shape text (field_line name t) items cur = keep items (add_field name t cur)
read_shape text (case_line name t) items cur = keep items (add_case name t cur)
read_shape text (param_line name t) items cur = keep items (add_param name t cur)
read_shape text (ret_line t) items cur = keep items (add_ret t cur)
read_shape text (sem_line ns ds four) items cur = keep items (add_sem ns ds four cur)
read_shape text unknown_line items cur = err (unrecognized_line text)

abbrev pub at_line {ℓ} : {A : Type ℓ} → ℕ → Result Message A → Result ParseError A
at_line n (err why) = err (record { line = n; message = why })
at_line n (ok a) = ok a

-- One round of the loop, on line `n`.
unfoldable pub read_line : ℕ → Text → Progress → Result ParseError Progress
read_line n [] p = ok p
read_line n text p = do
  (items, cur) ← at_line n (read_shape text (shape (split 32 text)) p.finished p.current)
  ok (record { finished = items; current = cur; last_line = n })

unfoldable pub read_lines : ℕ → List Text → Progress → Result ParseError Progress
read_lines n [] p = ok p
read_lines n (text ∷ later) p = do q ← read_line n text p; read_lines (suc n) later q

unfoldable pub finish : Progress → Result ParseError (List Item)
finish p = at_line p.last_line (settle p.finished p.current)

abbrev pub nothing_read : Progress
nothing_read = record { finished = []; current = none; last_line = 0 }

unfoldable pub parse_snapshot : Text → Result ParseError (List Item)
parse_snapshot text = do p ← read_lines 1 (split 10 text) nothing_read; finish p
