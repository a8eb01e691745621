-- ===== src/Hostgen/SnapshotSound.antt =====
-- What `parse_snapshot` of hostgen.rs lets through: the gates hold of every type of the universe.
use lean_rust_wasm.Prelude.{
  ℕ, suc, ◌≡◌, List, [], ◌∷◌, Bool, true, false, Option, none, some, Result, err, ok, All, Ensures,
  Ensures->>=, Ensures-ok, if◌then◌else◌,
}
use lean_rust_wasm.Text.{Text, split}
use lean_rust_wasm.Hostgen.{Item, Message}
use lean_rust_wasm.Hostgen.Lines.{
  Open, open_record, open_variant, open_func, open_resource, Shape, opens, field_line, case_line,
  param_line, ret_line, sem_line, unknown_line, two_tokens, three_tokens, four_tokens, shape,
  Progress, settle, add_field, add_case, add_param, add_ret, add_sem, keep, read_shape, at_line,
  read_line, read_lines, finish, nothing_read, parse_snapshot,
}
use lean_rust_wasm.Hostgen.Members.{
  ItemShallow, OpenShallow, CurrentShallow, settle-Shallow, add_field-Shallow, add_case-Shallow,
  add_param-Shallow, add_ret-Shallow, add_sem-Shallow,
}

abbrev ReadShallow : (List Item × Option Open) → Type 0
ReadShallow p = All ItemShallow p.0 × CurrentShallow p.1

keep-Shallow :
    (items : List Item) (r : Result Message Open)
    → All ItemShallow items
    → Ensures OpenShallow r
    → Ensures ReadShallow (keep items r)
keep-Shallow items (err why) hi h = tt
keep-Shallow items (ok o) hi h = (hi, h)

-- A line that opens an item opens an empty one.
unfoldable ShapeShallow : Shape → Type 0
ShapeShallow (opens o) = OpenShallow o
ShapeShallow s = Unit

if-ShapeShallow :
    (b : Bool) (s t : Shape) → ShapeShallow s → ShapeShallow t → ShapeShallow (if b then s else t)
if-ShapeShallow true s t hs ht = hs
if-ShapeShallow false s t hs ht = ht

opens-ShapeShallow : (o : Open) → OpenShallow o → ShapeShallow (opens o)
unfolding ShapeShallow
opens-ShapeShallow o h = h

unknown-ShapeShallow : ShapeShallow unknown_line
unfolding ShapeShallow
unknown-ShapeShallow = tt

-- A line that opens no item.
abbrev IsMember : Shape → Type 0
IsMember (opens o) = ⊥
IsMember s = Unit

member-ShapeShallow : (s : Shape) → IsMember s → ShapeShallow s
unfolding ShapeShallow
member-ShapeShallow (opens o) h = absurd h
member-ShapeShallow (field_line a b) h = tt
member-ShapeShallow (case_line a b) h = tt
member-ShapeShallow (param_line a b) h = tt
member-ShapeShallow (ret_line a) h = tt
member-ShapeShallow (sem_line a b c) h = tt
member-ShapeShallow unknown_line h = tt

two_tokens-Shallow : (u a : Text) → ShapeShallow (two_tokens u a)
unfolding two_tokens
two_tokens-Shallow u a = if-ShapeShallow _ _ _ (opens-ShapeShallow (open_record a []) tt) (
    if-ShapeShallow _ _ _ (opens-ShapeShallow (open_variant a []) tt) (
      if-ShapeShallow _ _ _ (opens-ShapeShallow (open_func a [] none none) (tt, (tt, tt))) (
        if-ShapeShallow _ _ _ (opens-ShapeShallow (open_resource a) tt) (
          if-ShapeShallow _ _ _ (member-ShapeShallow (case_line a none) tt)
            (if-ShapeShallow _ _ _ (member-ShapeShallow (ret_line a) tt) unknown-ShapeShallow)))))

three_tokens-Shallow : (u a b : Text) → ShapeShallow (three_tokens u a b)
unfolding three_tokens
three_tokens-Shallow u a b = if-ShapeShallow _ _ _ (member-ShapeShallow (field_line a b) tt) (
    if-ShapeShallow _ _ _ (member-ShapeShallow (case_line a (some b)) tt) (
      if-ShapeShallow _ _ _ (member-ShapeShallow (param_line a b) tt)
        (if-ShapeShallow _ _ _ (member-ShapeShallow (sem_line a b false) tt) unknown-ShapeShallow)))

four_tokens-Shallow : (u a b c : Text) → ShapeShallow (four_tokens u a b c)
unfolding four_tokens
four_tokens-Shallow u a b c =
    if-ShapeShallow _ _ _
      (if-ShapeShallow _ _ _ (member-ShapeShallow (sem_line a b true) tt) unknown-ShapeShallow)
      unknown-ShapeShallow

shape-Shallow : (ws : List Text) → ShapeShallow (shape ws)
unfolding shape
shape-Shallow [] = unknown-ShapeShallow
shape-Shallow (u ∷ []) = unknown-ShapeShallow
shape-Shallow (u ∷ a ∷ []) = two_tokens-Shallow u a
shape-Shallow (u ∷ a ∷ b ∷ []) = three_tokens-Shallow u a b
shape-Shallow (u ∷ a ∷ b ∷ c ∷ []) = four_tokens-Shallow u a b c
shape-Shallow (u ∷ a ∷ b ∷ c ∷ d ∷ ws) = unknown-ShapeShallow

read_shape-Shallow :
    (text : Text) (s : Shape) (items : List Item) (cur : Option Open)
    → ShapeShallow s
    → All ItemShallow items
    → CurrentShallow cur
    → Ensures ReadShallow (read_shape text s items cur)
unfolding read_shape ShapeShallow
read_shape-Shallow text (opens o) items cur hs hi hc =
    Ensures->>= (All ItemShallow) ReadShallow (settle items cur) _ (settle-Shallow items cur hi hc)
      (λ done h. (h, hs))
read_shape-Shallow text (field_line n t) items cur hs hi hc =
    keep-Shallow items (add_field n t cur) hi (add_field-Shallow n t cur hc)
read_shape-Shallow text (case_line n t) items cur hs hi hc =
    keep-Shallow items (add_case n t cur) hi (add_case-Shallow n t cur hc)
read_shape-Shallow text (param_line n t) items cur hs hi hc =
    keep-Shallow items (add_param n t cur) hi (add_param-Shallow n t cur hc)
read_shape-Shallow text (ret_line t) items cur hs hi hc =
    keep-Shallow items (add_ret t cur) hi (add_ret-Shallow t cur hc)
read_shape-Shallow text (sem_line ns ds four) items cur hs hi hc =
    keep-Shallow items (add_sem ns ds four cur) hi (add_sem-Shallow ns ds four cur hc)
read_shape-Shallow text unknown_line items cur hs hi hc = tt

at_line-Ensures :
    {A : Type 0}
    → (P : A → Type 0) (n : ℕ) (r : Result Message A) → Ensures P r
    → Ensures P (at_line n r)
at_line-Ensures P n (err why) h = tt
at_line-Ensures P n (ok a) h = h

abbrev ProgressShallow : Progress → Type 0
ProgressShallow p = ReadShallow (p.finished, p.current)

read_line-Shallow :
    (n : ℕ) (text : Text) (p : Progress)
    → ProgressShallow p
    → Ensures ProgressShallow (read_line n text p)
unfolding read_line
read_line-Shallow n [] p h = h
read_line-Shallow n (c ∷ cs) p (hi, hc) =
    let s = shape (split 32 (c ∷ cs)) in
    Ensures->>= ReadShallow ProgressShallow (at_line n (read_shape (c ∷ cs) s p.finished p.current))
      _
      (at_line-Ensures ReadShallow n (read_shape (c ∷ cs) s p.finished p.current) (
        read_shape-Shallow (c ∷ cs) s p.finished p.current (shape-Shallow (split 32 (c ∷ cs))) hi
          hc))
      (λ (items, cur) h. h)

read_lines-Shallow :
    (n : ℕ) (ls : List Text) (p : Progress)
    → ProgressShallow p
    → Ensures ProgressShallow (read_lines n ls p)
unfolding read_lines
read_lines-Shallow n [] p h = h
read_lines-Shallow n (text ∷ ls) p h =
    Ensures->>= ProgressShallow ProgressShallow (read_line n text p) _
      (read_line-Shallow n text p h) (λ q hq. read_lines-Shallow (suc n) ls q hq)

parse_snapshot-Ensures : (text : Text) → Ensures (All ItemShallow) (parse_snapshot text)
unfolding parse_snapshot finish
parse_snapshot-Ensures text =
    Ensures->>= ProgressShallow (All ItemShallow) (read_lines 1 (split 10 text) nothing_read) finish
      (read_lines-Shallow 1 (split 10 text) nothing_read (tt, tt))
      (λ p (hi, hc).
        at_line-Ensures (All ItemShallow) p.last_line (settle p.finished p.current)
          (settle-Shallow p.finished p.current hi hc))

-- In a universe that is parsed, every type has scalar keys in its maps and sets, no empty name,
-- 64-bit tensor dimensions and at most 64 levels, and every semantics is from the closed sets.
pub parse_snapshot-Shallow :
    (text : Text) (items : List Item) → parse_snapshot text ≡ ok items → All ItemShallow items
parse_snapshot-Shallow text items e =
    Ensures-ok (All ItemShallow) (parse_snapshot text) items (parse_snapshot-Ensures text) e
