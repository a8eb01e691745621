-- ===== src/Surface/RoundTrip.antt =====
-- The canonical string of a surface, rendered and parsed by schema.rs.
use lean_rust_wasm.Prelude.{
  ℕ, ◌<◌, ◌^◌, ◌≡◌, refl, List, [], ◌∷◌, ◌++◌, true, none, some, All, arith,
}
use lean_rust_wasm.Text.{Text, every, split, is_digit}
use lean_rust_wasm.Text.Cuts.{differs, every-append, every_weaken, split_whole, split-append}
use lean_rust_wasm.Text.Decimal.{decimal, decimal-digits, parse_u64-decimal}
use lean_rust_wasm.Surface.{
  Entry, rsplit_once, parse_entry, filter_map, parse_surface, render_entry, join_entries,
  render_surface,
}

-- An entry whose name has no comma, with an arity that the host can hold.
abbrev pub EntryOk : Entry → Type 0
EntryOk (f, n) = (every (differs 44) f ≡ true) × (n < 2 ^ 64)

rsplit_once-none : (t : Text) → every is_digit t ≡ true → rsplit_once 47 t ≡ none
rsplit_once-none [] h = refl
rsplit_once-none (c ∷ t) h = ground (arith, rsplit_once-none t)

rsplit_once-append :
    (f t : Text) → every is_digit t ≡ true → rsplit_once 47 (f ++ 47 ∷ t) ≡ some (f, t)
rsplit_once-append [] t h = rw (rsplit_once-none t h) refl
rsplit_once-append (c ∷ f) t h = rw (rsplit_once-append f t h) refl

pub parse_entry-render_entry : (e : Entry) → EntryOk e → parse_entry (render_entry e) ≡ some e
unfolding parse_entry
parse_entry-render_entry (f, n) (hf, hn) =
    rw (rsplit_once-append f (decimal n) (decimal-digits n), parse_u64-decimal n hn) refl

digit_no_comma : (c : ℕ) → is_digit c ≡ true → differs 44 c ≡ true
digit_no_comma c h = ground arith

render_entry-no_comma : (e : Entry) → EntryOk e → every (differs 44) (render_entry e) ≡ true
render_entry-no_comma (f, n) (hf, hn) =
    every-append (differs 44) f (47 ∷ decimal n) hf
      (every_weaken is_digit (differs 44) digit_no_comma (decimal n) (decimal-digits n))

parse_joined :
    (e : Entry) (es : List Entry)
    → EntryOk e
    → All EntryOk es
    → filter_map parse_entry (split 44 (join_entries (render_entry e) es)) ≡ e ∷ es
parse_joined e [] h hs =
    rw (split_whole 44 (render_entry e) (render_entry-no_comma e h), parse_entry-render_entry e h)
      refl
parse_joined e (e2 ∷ es) h (h2, hs) =
    rw
      (
        split-append 44 (render_entry e) (join_entries (render_entry e2) es)
            (render_entry-no_comma e h),
        parse_entry-render_entry e h,
        parse_joined e2 es h2 hs,
      )
      refl

-- The canonical string of a surface parses back to the surface, when no name has a comma and every
-- arity is a 64-bit number.
pub parse_surface-render_surface :
    (es : List Entry) → All EntryOk es → parse_surface (render_surface es) ≡ es
unfolding parse_surface render_surface parse_entry
parse_surface-render_surface [] h = refl
parse_surface-render_surface (e ∷ es) (h, hs) = parse_joined e es h hs
