-- ===== src/Hostgen/TyRoundTrip.antt =====
-- The text of a type in a snapshot, read back by `parse_ty_at` of hostgen.rs.
use lean_rust_wasm.Prelude.{
  ℕ, zero, suc, ◌≤◌, ◌<◌, ◌^◌, ◌≡◌, refl, sym, ap, ◌∙◌, List, [], ◌∷◌, ◌++◌, append_assoc,
  append-nil, length, true, false, some, ok, All, arith, length-append,
}
use lean_rust_wasm.Text.{Text, codes, lookup, every, is_alnum, is_digit, run, past, same}
use lean_rust_wasm.Text.Cuts.{stops, differs, every_weaken, run-append, past-append}
use lean_rust_wasm.Text.Decimal.{decimal, decimal-digits, decimal_starts, parse_u64-decimal}
use lean_rust_wasm.Hostgen.{
  Ty, atom, heads, parse_ty_at, parse_ty_text, parse_dims, parse_ty_ref, is_key_ty,
}
use lean_rust_wasm.Hostgen.Writer.{
  render_ty, render_dims, depth, max_depth, WellFormed, name_ok, name_char, Legible,
}

-- A word for a type with no arguments, in front of a text that does not continue the word.
parse_ty_at-atom :
    (n : ℕ) (w : Text) (t : Ty) (rest : Text)
    → every is_alnum w ≡ true
    → lookup w heads ≡ some (atom t)
    → stops is_alnum rest ≡ true
    → parse_ty_at (suc n) (w ++ rest) ≡ ok (t, rest)
unfolding parse_ty_at
parse_ty_at-atom n w t rest hw hl hr =
    rw (run-append is_alnum w rest hw hr, past-append is_alnum w rest hw hr, hl) refl

render_ty_starts : (t : Ty) (rest : Text) → stops is_digit (render_ty t ++ rest) ≡ true
unfolding render_ty
render_ty_starts Ty.bool rest = refl
render_ty_starts Ty.u8 rest = refl
render_ty_starts Ty.u16 rest = refl
render_ty_starts Ty.u32 rest = refl
render_ty_starts Ty.u64 rest = refl
render_ty_starts Ty.i8 rest = refl
render_ty_starts Ty.i16 rest = refl
render_ty_starts Ty.i32 rest = refl
render_ty_starts Ty.i64 rest = refl
render_ty_starts Ty.f32 rest = refl
render_ty_starts Ty.f64 rest = refl
render_ty_starts Ty.string rest = refl
render_ty_starts Ty.bytes rest = refl
render_ty_starts (Ty.option t) rest = refl
render_ty_starts (Ty.result t u) rest = refl
render_ty_starts (Ty.list t) rest = refl
render_ty_starts (Ty.map t u) rest = refl
render_ty_starts (Ty.set t) rest = refl
render_ty_starts (Ty.future t) rest = refl
render_ty_starts (Ty.stream t) rest = refl
render_ty_starts (Ty.tensor ds t) rest = refl
render_ty_starts (Ty.named m) rest = refl

length-render_dims : (ds : List ℕ) → length ds ≤ length (render_dims ds)
length-render_dims [] = omega arith
length-render_dims (d ∷ ds) =
    omega (arith, length-append (decimal d) (59 ∷ render_dims ds), length-render_dims ds)

parse_dims_none :
    (n : ℕ) (rest : Text) → stops is_digit rest ≡ true → parse_dims n rest ≡ ok ([], rest)
unfolding parse_dims
parse_dims_none zero rest h = refl
parse_dims_none (suc n) [] h = refl
parse_dims_none (suc n) (c ∷ cs) h = ground arith

parse_dims-render_dims :
    (n : ℕ) (ds : List ℕ) (rest : Text)
    → length ds ≤ n
    → All (λ d. d < 2 ^ 64) ds
    → stops is_digit rest ≡ true
    → parse_dims n (render_dims ds ++ rest) ≡ ok (ds, rest)
unfolding parse_dims
parse_dims-render_dims n [] rest hn hd hr = parse_dims_none n rest hr
parse_dims-render_dims zero (d ∷ ds) rest hn hd hr = absurd (omega arith)
parse_dims-render_dims (suc n) (d ∷ ds) rest hn (h, hs) hr =
    let (c, cs, e) = decimal_starts d in
    let tail = 59 ∷ (render_dims ds ++ rest) in
    let whole : run is_digit (decimal d ++ tail) ≡ decimal d =
      run-append is_digit (decimal d) tail (decimal-digits d) refl in
    let after : past is_digit (decimal d ++ tail) ≡ tail =
      past-append is_digit (decimal d) tail (decimal-digits d) refl in
    let later = parse_dims-render_dims n ds rest (omega arith) hs hr in
    let some_digits : same (decimal d) [] ≡ false = ap (λ w. same w []) e in
    rw (append_assoc, whole, after, some_digits, parse_u64-decimal d h, later) refl

not_close : (c : ℕ) → name_char c ≡ true → differs 41 c ≡ true
not_close c h = ground arith

left_lt : (a b n : ℕ) → suc (max_depth a b) < suc n → a < n
left_lt a b n h = ground arith

right_lt : (a b n : ℕ) → suc (max_depth a b) < suc n → b < n
right_lt a b n h = ground arith

-- The text of two arguments, with what follows it.
two_args : (s v rest : Text) → (s ++ 44 ∷ v ++ codes ")") ++ rest ≡ s ++ 44 ∷ (v ++ 41 ∷ rest)
two_args s v rest = rw (append_assoc, append_assoc) refl

parse_ty_at-result :
    (n : ℕ) (s v rest : Text) (t u : Ty)
    → parse_ty_at n (s ++ 44 ∷ (v ++ 41 ∷ rest)) ≡ ok (t, 44 ∷ (v ++ 41 ∷ rest))
    → parse_ty_at n (v ++ 41 ∷ rest) ≡ ok (u, 41 ∷ rest)
    → parse_ty_at (suc n) ((codes "result" ++ 40 ∷ s ++ 44 ∷ v ++ codes ")") ++ rest)
      ≡ ok (Ty.result t u, rest)
unfolding parse_ty_at
parse_ty_at-result n s v rest t u hs hv = rw (two_args s v rest, hs, hv) refl

parse_ty_at-map :
    (n : ℕ) (s v rest : Text) (t u : Ty)
    → is_key_ty t ≡ true
    → parse_ty_at n (s ++ 44 ∷ (v ++ 41 ∷ rest)) ≡ ok (t, 44 ∷ (v ++ 41 ∷ rest))
    → parse_ty_at n (v ++ 41 ∷ rest) ≡ ok (u, 41 ∷ rest)
    → parse_ty_at (suc n) ((codes "map" ++ 40 ∷ s ++ 44 ∷ v ++ codes ")") ++ rest)
      ≡ ok (Ty.map t u, rest)
unfolding parse_ty_at
parse_ty_at-map n s v rest t u key hs hv = rw (two_args s v rest, hs, key, hv) refl

parse_ty_at-tensor :
    (n : ℕ) (ds : List ℕ) (s rest : Text) (t : Ty)
    → All (λ d. d < 2 ^ 64) ds
    → stops is_digit (s ++ 41 ∷ rest) ≡ true
    → parse_ty_at n (s ++ 41 ∷ rest) ≡ ok (t, 41 ∷ rest)
    → parse_ty_at (suc n) ((codes "tensor" ++ 40 ∷ render_dims ds ++ s ++ codes ")") ++ rest)
      ≡ ok (Ty.tensor ds t, rest)
unfolding parse_ty_at
parse_ty_at-tensor n ds s rest t hd start hs =
    let body = render_dims ds ++ (s ++ 41 ∷ rest) in
    let cut : (render_dims ds ++ s ++ codes ")") ++ rest ≡ body =
      rw (append_assoc, append_assoc) refl in
    let long : length ds ≤ length body =
      omega (arith, length-render_dims ds, length-append (render_dims ds) (s ++ 41 ∷ rest)) in
    let dims : parse_dims (length body) body ≡ ok (ds, s ++ 41 ∷ rest) =
      parse_dims-render_dims (length body) ds (s ++ 41 ∷ rest) long hd start in
    rw (cut, dims, hs) refl

-- A name that the writer admits is a text of name characters, and not empty.
pub name_ok_chars : (m : Text) → name_ok m ≡ true → every name_char m ≡ true
name_ok_chars [] h = cc
name_ok_chars (c ∷ cs) h = h

pub name_ok_some : (m : Text) → name_ok m ≡ true → same m [] ≡ false
name_ok_some [] h = cc
name_ok_some (c ∷ cs) h = refl

parse_ty_ref-name :
    (m rest : Text)
    → every (differs 41) m ≡ true
    → same m [] ≡ false
    → parse_ty_ref (m ++ 41 ∷ rest) ≡ ok (Ty.named m, rest)
parse_ty_ref-name m rest h some_char =
    rw
      (
        run-append (differs 41) m (41 ∷ rest) h refl,
        past-append (differs 41) m (41 ∷ rest) h refl,
        some_char,
      )
      refl

parse_ty_at-named :
    (n : ℕ) (m rest : Text)
    → name_ok m ≡ true
    → parse_ty_at (suc n) ((codes "ty" ++ 40 ∷ m ++ codes ")") ++ rest) ≡ ok (Ty.named m, rest)
unfolding parse_ty_at
parse_ty_at-named n m rest h =
    let chars = every_weaken name_char (differs 41) not_close m (name_ok_chars m h) in
    ap parse_ty_ref (append_assoc m (codes ")") rest)
    ∙ parse_ty_ref-name m rest chars (name_ok_some m h)

-- The text of a type that the writer can emit parses back, in front of any text that does not
-- continue a word, when the type nests less deeply than the fuel.
pub parse_ty_at-render_ty :
    (n : ℕ) (t : Ty) (rest : Text)
    → depth t < n
    → WellFormed t
    → stops is_alnum rest ≡ true
    → parse_ty_at n (render_ty t ++ rest) ≡ ok (t, rest)
unfolding parse_ty_at render_ty
parse_ty_at-render_ty zero t rest hn h hr = absurd (omega arith)
parse_ty_at-render_ty (suc n) Ty.bool rest hn h hr =
    parse_ty_at-atom n (codes "bool") Ty.bool rest refl refl hr
parse_ty_at-render_ty (suc n) Ty.u8 rest hn h hr =
    parse_ty_at-atom n (codes "u8") Ty.u8 rest refl refl hr
parse_ty_at-render_ty (suc n) Ty.u16 rest hn h hr =
    parse_ty_at-atom n (codes "u16") Ty.u16 rest refl refl hr
parse_ty_at-render_ty (suc n) Ty.u32 rest hn h hr =
    parse_ty_at-atom n (codes "u32") Ty.u32 rest refl refl hr
parse_ty_at-render_ty (suc n) Ty.u64 rest hn h hr =
    parse_ty_at-atom n (codes "u64") Ty.u64 rest refl refl hr
parse_ty_at-render_ty (suc n) Ty.i8 rest hn h hr =
    parse_ty_at-atom n (codes "i8") Ty.i8 rest refl refl hr
parse_ty_at-render_ty (suc n) Ty.i16 rest hn h hr =
    parse_ty_at-atom n (codes "i16") Ty.i16 rest refl refl hr
parse_ty_at-render_ty (suc n) Ty.i32 rest hn h hr =
    parse_ty_at-atom n (codes "i32") Ty.i32 rest refl refl hr
parse_ty_at-render_ty (suc n) Ty.i64 rest hn h hr =
    parse_ty_at-atom n (codes "i64") Ty.i64 rest refl refl hr
parse_ty_at-render_ty (suc n) Ty.f32 rest hn h hr =
    parse_ty_at-atom n (codes "f32") Ty.f32 rest refl refl hr
parse_ty_at-render_ty (suc n) Ty.f64 rest hn h hr =
    parse_ty_at-atom n (codes "f64") Ty.f64 rest refl refl hr
parse_ty_at-render_ty (suc n) Ty.string rest hn h hr =
    parse_ty_at-atom n (codes "string") Ty.string rest refl refl hr
parse_ty_at-render_ty (suc n) Ty.bytes rest hn h hr =
    parse_ty_at-atom n (codes "bytes") Ty.bytes rest refl refl hr
parse_ty_at-render_ty (suc n) (Ty.option t) rest hn h hr =
    rw (append_assoc, parse_ty_at-render_ty n t (41 ∷ rest) (omega arith) h refl) refl
parse_ty_at-render_ty (suc n) (Ty.list t) rest hn h hr =
    rw (append_assoc, parse_ty_at-render_ty n t (41 ∷ rest) (omega arith) h refl) refl
parse_ty_at-render_ty (suc n) (Ty.future t) rest hn h hr =
    rw (append_assoc, parse_ty_at-render_ty n t (41 ∷ rest) (omega arith) h refl) refl
parse_ty_at-render_ty (suc n) (Ty.stream t) rest hn h hr =
    rw (append_assoc, parse_ty_at-render_ty n t (41 ∷ rest) (omega arith) h refl) refl
parse_ty_at-render_ty (suc n) (Ty.set t) rest hn (key, h) hr =
    rw (append_assoc, parse_ty_at-render_ty n t (41 ∷ rest) (omega arith) h refl, key) refl
parse_ty_at-render_ty (suc n) (Ty.result t u) rest hn (ht, hu) hr =
    parse_ty_at-result n (render_ty t) (render_ty u) rest t u
      (parse_ty_at-render_ty n t (44 ∷ (render_ty u ++ 41 ∷ rest))
        (left_lt (depth t) (depth u) n hn) ht refl)
      (parse_ty_at-render_ty n u (41 ∷ rest) (right_lt (depth t) (depth u) n hn) hu refl)
parse_ty_at-render_ty (suc n) (Ty.map t u) rest hn (key, (ht, hu)) hr =
    parse_ty_at-map n (render_ty t) (render_ty u) rest t u key
      (parse_ty_at-render_ty n t (44 ∷ (render_ty u ++ 41 ∷ rest))
        (left_lt (depth t) (depth u) n hn) ht refl)
      (parse_ty_at-render_ty n u (41 ∷ rest) (right_lt (depth t) (depth u) n hn) hu refl)
parse_ty_at-render_ty (suc n) (Ty.tensor ds t) rest hn (hd, h) hr =
    parse_ty_at-tensor n ds (render_ty t) rest t hd (render_ty_starts t (41 ∷ rest))
      (parse_ty_at-render_ty n t (41 ∷ rest) (omega arith) h refl)
parse_ty_at-render_ty (suc n) (Ty.named m) rest hn h hr = parse_ty_at-named n m rest h

-- A type that the writer can emit, nested at most `MAX_TY_DEPTH` deep, is the whole of its token.
pub parse_ty_text-render_ty : (t : Ty) → Legible t → parse_ty_text (render_ty t) ≡ ok t
unfolding parse_ty_text
parse_ty_text-render_ty t (h, hd) =
    let whole = parse_ty_at-render_ty 65 t [] hd h refl in
    rw (ap (parse_ty_at 65) (sym (append-nil (render_ty t))) ∙ whole) refl
