-- ===== src/Hostgen/Reads.antt =====
-- What one written line does to the items, by `parse_snapshot` of hostgen.rs.
use lean_rust_wasm.Prelude.{
  ◌≡◌, refl, ap, ◌∙◌, List, [], ◌∷◌, ◌++◌, Bool, true, false, Option, none, some, ok,
}
use lean_rust_wasm.Text.{Text, codes, every, split}
use lean_rust_wasm.Text.Cuts.{differs, split_whole, split-append}
use lean_rust_wasm.Hostgen.{Ty, FuncSem, Item}
use lean_rust_wasm.Hostgen.Lines.{
  Open, open_record, open_variant, open_func, parse_sem, shape, settle, read_shape, add_field,
  add_case, add_param, add_ret, add_sem, opens, two_tokens, three_tokens, four_tokens,
}
use lean_rust_wasm.Hostgen.Writer.{
  render_ty, name_ok, words, member_line, case_text, sem_text, Legible, MemberOk, CaseOk, SemOk,
}
use lean_rust_wasm.Hostgen.TyRoundTrip.{parse_ty_text-render_ty}
use lean_rust_wasm.Hostgen.Characters.{one_token, name_ok-visible, render_ty-visible, sem_tokens}

-- The effect of one line.
abbrev pub Reads : Text → List Item → Option Open → List Item → Open → Type 0
Reads t items cur later o = read_shape t (shape (split 32 t)) items cur ≡ ok (later, some o)

split_two :
    (w a : Text)
    → every (differs 32) w ≡ true
    → every (differs 32) a ≡ true
    → split 32 (words w a) ≡ w ∷ a ∷ []
split_two w a hw ha = split-append 32 w a hw ∙ ap (λ l. w ∷ l) (split_whole 32 a ha)

split_three :
    (w a b : Text)
    → every (differs 32) w ≡ true
    → every (differs 32) a ≡ true
    → every (differs 32) b ≡ true
    → split 32 (words w (words a b)) ≡ w ∷ a ∷ b ∷ []
split_three w a b hw ha hb =
    split-append 32 w (words a b) hw ∙ ap (λ l. w ∷ l) (split_two a b ha hb)

split_member :
    (w name : Text) (t : Ty)
    → every (differs 32) w ≡ true
    → MemberOk (name, t)
    → split 32 (member_line w (name, t)) ≡ w ∷ name ∷ render_ty t ∷ []
split_member w name t hw (hn, (h, hd)) =
    split_three w name (render_ty t) hw (one_token name (name_ok-visible name hn))
      (one_token (render_ty t) (render_ty-visible t h))

pub field-Reads :
    (items : List Item) (n : Text) (fs : List (Text × Ty)) (m : Text × Ty)
    → MemberOk m
    → Reads
        (member_line (codes "field") m)
        items
        (some (open_record n fs))
        items
        (open_record n (fs ++ m ∷ []))
unfolding read_shape shape three_tokens add_field
field-Reads items n fs (name, t) (hn, h) =
    rw (split_member (codes "field") name t refl (hn, h), parse_ty_text-render_ty t h) refl

pub case-Reads :
    (items : List Item) (n : Text) (cs : List (Text × Option Ty)) (m : Text × Option Ty)
    → CaseOk m
    → Reads (case_text m) items (some (open_variant n cs)) items (open_variant n (cs ++ m ∷ []))
unfolding read_shape shape two_tokens three_tokens add_case
case-Reads items n cs (name, none) hn =
    ap (λ l. read_shape (case_text (name, none)) (shape l) items (some (open_variant n cs)))
      (split_two (codes "case") name refl (one_token name (name_ok-visible name hn)))
case-Reads items n cs (name, some t) (hn, h) =
    rw (split_member (codes "case") name t refl (hn, h), parse_ty_text-render_ty t h) refl

pub param-Reads :
    (items : List Item) (n : Text) (ps : List (Text × Ty)) (m : Text × Ty)
    → MemberOk m
    → Reads
        (member_line (codes "param") m)
        items
        (some (open_func n ps none none))
        items
        (open_func n (ps ++ m ∷ []) none none)
unfolding read_shape shape three_tokens add_param
param-Reads items n ps (name, t) (hn, h) =
    rw (split_member (codes "param") name t refl (hn, h), parse_ty_text-render_ty t h) refl

pub ret-Reads :
    (items : List Item) (n : Text) (ps : List (Text × Ty)) (t : Ty)
    → Legible t
    → Reads
        (words (codes "ret") (render_ty t))
        items
        (some (open_func n ps none none))
        items
        (open_func n ps (some t) none)
unfolding read_shape shape two_tokens add_ret
ret-Reads items n ps t (h, hd) =
    rw
      (
        split_two (codes "ret") (render_ty t) refl
            (one_token (render_ty t) (render_ty-visible t h)),
        parse_ty_text-render_ty t (h, hd),
      )
      refl

parse_sem_lem :
    (s : FuncSem) → SemOk (some s) → parse_sem s.null_sem s.determinism s.stream_flag ≡ ok s
unfolding parse_sem
parse_sem_lem s (hn, hd) = rw (hn, hd) refl

sem_line_Reads :
    (items : List Item) (n ns ds : Text) (four : Bool) (ps : List (Text × Ty)) (t : Ty)
    (s : FuncSem)
    → every (differs 32) ns ≡ true
    → every (differs 32) ds ≡ true
    → parse_sem ns ds four ≡ ok s
    → Reads
        (sem_text (record { null_sem = ns; determinism = ds; stream_flag = four }))
        items
        (some (open_func n ps (some t) none))
        items
        (open_func n ps (some t) (some s))
unfolding read_shape shape three_tokens four_tokens add_sem
sem_line_Reads items n ns ds false ps t s hn hd hs =
    ap
      (λ l.
        read_shape (words (codes "sem") (words ns ds)) (shape l) items
          (some (open_func n ps (some t) none)))
      (split_three (codes "sem") ns ds refl hn hd)
    ∙ rw hs refl
sem_line_Reads items n ns ds true ps t s hn hd hs =
    let four = codes "stream" in
    ap
      (λ l.
        read_shape (words (codes "sem") (words ns (words ds four))) (shape (codes "sem" ∷ l)) items
          (some (open_func n ps (some t) none)))
      (split_three ns ds four hn hd refl)
    ∙ rw hs refl

pub sem-Reads :
    (items : List Item) (n : Text) (ps : List (Text × Ty)) (t : Ty) (s : FuncSem)
    → SemOk (some s)
    → Reads
        (sem_text s)
        items
        (some (open_func n ps (some t) none))
        items
        (open_func n ps (some t) (some s))
sem-Reads items n ps t s h =
    let (hn, hd) = sem_tokens s h in
    sem_line_Reads items n s.null_sem s.determinism s.stream_flag ps t s (one_token s.null_sem hn)
      (one_token s.determinism hd) (parse_sem_lem s h)

-- The first line of an item closes the item before it.
pub header-Reads :
    (w n : Text) (o : Open) (items done : List Item) (cur : Option Open)
    → every (differs 32) w ≡ true
    → two_tokens w n ≡ opens o
    → name_ok n ≡ true
    → settle items cur ≡ ok done
    → Reads (words w n) items cur done o
unfolding read_shape shape
header-Reads w n o items done cur hw ho hn hs =
    ap (λ l. read_shape (words w n) (shape l) items cur)
      (split_two w n hw (one_token n (name_ok-visible n hn)))
    ∙ rw (ho, hs) refl
