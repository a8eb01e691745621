-- ===== src/Hostgen/Characters.antt =====
-- The characters of a snapshot's lines: a token has no space, a line has no line feed.
use lean_rust_wasm.Prelude.{
  ℕ, ◌≡◌, refl, List, [], ◌∷◌, ◌++◌, Bool, true, Option, none, some, All, leb, ltb, arith, subst,
  if◌then◌else◌, Bool-cases, inl, inr,
}
use lean_rust_wasm.Text.{Text, codes, every, is_digit, same, same-eq}
use lean_rust_wasm.Text.Cuts.{differs, every-append, every_weaken}
use lean_rust_wasm.Text.Decimal.{decimal, decimal-digits}
use lean_rust_wasm.Hostgen.{Ty, FuncSem, Item, record_item, variant_item, func_item, resource_item}
use lean_rust_wasm.Hostgen.Lines.{null_sems, determinisms, contains}
use lean_rust_wasm.Hostgen.Writer.{
  render_ty, render_dims, WellFormed, name_ok, name_char, words, member_line, case_text,
  is_default_sem, sem_text, sem_lines, map_list, item_lines, all_lines, MemberOk, CaseOk, SemOk,
  ItemOk,
}
use lean_rust_wasm.Hostgen.TyRoundTrip.{name_ok_chars}

-- Not a space, and no control character.
abbrev pub visible : ℕ → Bool
visible c = ltb 32 c

abbrev pub printable : ℕ → Bool
printable c = leb 32 c

visible_of_name : (c : ℕ) → name_char c ≡ true → visible c ≡ true
visible_of_name c h = ground arith

visible_of_digit : (c : ℕ) → is_digit c ≡ true → visible c ≡ true
visible_of_digit c h = ground arith

printable_of_visible : (c : ℕ) → visible c ≡ true → printable c ≡ true
printable_of_visible c h = ground arith

no_space : (c : ℕ) → visible c ≡ true → differs 32 c ≡ true
no_space c h = ground arith

no_line_feed : (c : ℕ) → printable c ≡ true → differs 10 c ≡ true
no_line_feed c h = ground arith

pub one_token : (t : Text) → every visible t ≡ true → every (differs 32) t ≡ true
one_token t h = every_weaken visible (differs 32) no_space t h

pub one_line : (t : Text) → every printable t ≡ true → every (differs 10) t ≡ true
one_line t h = every_weaken printable (differs 10) no_line_feed t h

pub name_ok-visible : (m : Text) → name_ok m ≡ true → every visible m ≡ true
name_ok-visible m h = every_weaken name_char visible visible_of_name m (name_ok_chars m h)

every-both :
    (p : ℕ → Bool) (s : Text) (c : ℕ) (t : Text)
    → every p s ≡ true
    → p c ≡ true
    → every p t ≡ true
    → every p (s ++ c ∷ t) ≡ true
every-both p s c t hs hc ht = every-append p s (c ∷ t) hs (ground (arith, hc, ht))

render_dims-visible : (ds : List ℕ) → every visible (render_dims ds) ≡ true
render_dims-visible [] = refl
render_dims-visible (d ∷ ds) =
    every-both visible (decimal d) 59 (render_dims ds)
      (every_weaken is_digit visible visible_of_digit (decimal d) (decimal-digits d)) refl
      (render_dims-visible ds)

closed : (t : Text) → every visible t ≡ true → every visible (t ++ codes ")") ≡ true
closed t h = every-append visible t (codes ")") h refl

two_closed :
    (s t : Text)
    → every visible s ≡ true
    → every visible t ≡ true
    → every visible (s ++ 44 ∷ t ++ codes ")") ≡ true
two_closed s t hs ht = closed (s ++ 44 ∷ t) (every-both visible s 44 t hs refl ht)

pub render_ty-visible : (t : Ty) → WellFormed t → every visible (render_ty t) ≡ true
unfolding render_ty
render_ty-visible Ty.bool h = refl
render_ty-visible Ty.u8 h = refl
render_ty-visible Ty.u16 h = refl
render_ty-visible Ty.u32 h = refl
render_ty-visible Ty.u64 h = refl
render_ty-visible Ty.i8 h = refl
render_ty-visible Ty.i16 h = refl
render_ty-visible Ty.i32 h = refl
render_ty-visible Ty.i64 h = refl
render_ty-visible Ty.f32 h = refl
render_ty-visible Ty.f64 h = refl
render_ty-visible Ty.string h = refl
render_ty-visible Ty.bytes h = refl
render_ty-visible (Ty.option t) h = closed (render_ty t) (render_ty-visible t h)
render_ty-visible (Ty.list t) h = closed (render_ty t) (render_ty-visible t h)
render_ty-visible (Ty.future t) h = closed (render_ty t) (render_ty-visible t h)
render_ty-visible (Ty.stream t) h = closed (render_ty t) (render_ty-visible t h)
render_ty-visible (Ty.set t) (key, h) = closed (render_ty t) (render_ty-visible t h)
render_ty-visible (Ty.result t u) (ht, hu) =
    two_closed (render_ty t) (render_ty u) (render_ty-visible t ht) (render_ty-visible u hu)
render_ty-visible (Ty.map t u) (key, (ht, hu)) =
    two_closed (render_ty t) (render_ty u) (render_ty-visible t ht) (render_ty-visible u hu)
render_ty-visible (Ty.tensor ds t) (hd, h) = closed (render_dims ds ++ render_ty t) (
    every-append visible (render_dims ds) (render_ty t) (render_dims-visible ds)
      (render_ty-visible t h))
render_ty-visible (Ty.named m) h = closed m (name_ok-visible m h)

words-printable :
    (w t : Text)
    → every visible w ≡ true
    → every printable t ≡ true
    → every printable (words w t) ≡ true
words-printable w t hw ht =
    every-both printable w 32 t (every_weaken visible printable printable_of_visible w hw) refl ht

visible-printable : (t : Text) → every visible t ≡ true → every printable t ≡ true
visible-printable t h = every_weaken visible printable printable_of_visible t h

pub contains-visible :
    (ws : List Text) (t : Text)
    → All (λ w. every visible w ≡ true) ws
    → contains ws t ≡ true
    → every visible t ≡ true
contains-visible [] t hw h = cc
contains-visible (w ∷ ws) t (hw, hs) h = elim (Bool-cases (same w t)) [
  | inl e ↦ subst (λ s. every visible s ≡ true) (same-eq w t e) hw
  | inr e ↦ contains-visible ws t hs (ground (arith, h, e))
]

-- A line of the writer.
abbrev pub IsLine : Text → Type 0
IsLine t = every printable t ≡ true

member_line-IsLine :
    (w : Text) (m : Text × Ty) → every visible w ≡ true → MemberOk m → IsLine (member_line w m)
member_line-IsLine w (name, t) hw (hn, (h, hd)) = words-printable w (words name (render_ty t)) hw (
    words-printable name (render_ty t) (name_ok-visible name hn)
      (visible-printable (render_ty t) (render_ty-visible t h)))

member_lines-IsLine :
    (w : Text) (ms : List (Text × Ty))
    → every visible w ≡ true
    → All MemberOk ms
    → All IsLine (map_list (member_line w) ms)
member_lines-IsLine w [] hw h = tt
member_lines-IsLine w (m ∷ ms) hw (h, hs) =
    (member_line-IsLine w m hw h, member_lines-IsLine w ms hw hs)

case_lines-IsLine :
    (cs : List (Text × Option Ty)) → All CaseOk cs → All IsLine (map_list case_text cs)
case_lines-IsLine [] h = tt
case_lines-IsLine ((name, none) ∷ cs) (h, hs) = (
  words-printable (codes "case") name refl (visible-printable name (name_ok-visible name h)),
  case_lines-IsLine cs hs,
)
case_lines-IsLine ((name, some t) ∷ cs) (h, hs) =
    (member_line-IsLine (codes "case") (name, t) refl h, case_lines-IsLine cs hs)

pub sem_tokens :
    (s : FuncSem)
    → SemOk (some s)
    → (every visible s.null_sem ≡ true) × (every visible s.determinism ≡ true)
sem_tokens s (hn, hd) = (
  contains-visible null_sems s.null_sem (refl, (refl, (refl, tt))) hn,
  contains-visible determinisms s.determinism (refl, (refl, (refl, tt))) hd,
)

sem_text-IsLine : (s : FuncSem) → SemOk (some s) → IsLine (sem_text s)
sem_text-IsLine s h =
    let (hn, hd) = sem_tokens s h in
    let tail = if s.stream_flag then words s.determinism (codes "stream") else s.determinism in
    let last : every printable tail ≡ true = elim (Bool-cases s.stream_flag) [
      | inl e ↦ rw e (words-printable s.determinism (codes "stream") hd refl)
      | inr e ↦ rw e (visible-printable s.determinism hd)
    ] in
    words-printable (codes "sem") (words s.null_sem tail) refl
      (words-printable s.null_sem tail hn last)

sem_lines-IsLine : (sem : Option FuncSem) → SemOk sem → All IsLine (sem_lines sem)
sem_lines-IsLine none h = tt
sem_lines-IsLine (some s) h = elim (Bool-cases (is_default_sem s)) [
  | inl e ↦ rw e tt
  | inr e ↦ rw e (sem_text-IsLine s h, tt)
]

All-append : (xs ys : List Text) → All IsLine xs → All IsLine ys → All IsLine (xs ++ ys)
All-append [] ys hx hy = hy
All-append (x ∷ xs) ys (h, hx) hy = (h, All-append xs ys hx hy)

item_lines-IsLine : (item : Item) → ItemOk item → All IsLine (item_lines item)
unfolding item_lines
item_lines-IsLine (record_item n fields) (hn, h) = (
  words-printable (codes "record") n refl (visible-printable n (name_ok-visible n hn)),
  member_lines-IsLine (codes "field") fields refl h,
)
item_lines-IsLine (variant_item n cases) (hn, h) = (
  words-printable (codes "variant") n refl (visible-printable n (name_ok-visible n hn)),
  case_lines-IsLine cases h,
)
item_lines-IsLine (func_item n params ret sem) (hn, (hp, ((hr, hd), hs))) =
    let ret_text = render_ty ret in
    (
      words-printable (codes "func") n refl (visible-printable n (name_ok-visible n hn)),
      All-append (map_list (member_line (codes "param")) params)
          (words (codes "ret") ret_text ∷ sem_lines sem)
          (member_lines-IsLine (codes "param") params refl hp)
          (
            words-printable (codes "ret") ret_text refl
                (visible-printable ret_text (render_ty-visible ret hr)),
            sem_lines-IsLine sem hs,
          ),
    )
item_lines-IsLine (resource_item n) hn =
    (words-printable (codes "resource") n refl (visible-printable n (name_ok-visible n hn)), tt)

-- No line of the writer has a line feed in it.
pub all_lines-IsLine : (items : List Item) → All ItemOk items → All IsLine (all_lines items)
all_lines-IsLine [] h = tt
all_lines-IsLine (item ∷ items) (h, hs) =
    All-append (item_lines item) (all_lines items) (item_lines-IsLine item h)
      (all_lines-IsLine items hs)
