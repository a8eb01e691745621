-- ===== src/Store/Header.antt =====
-- The header that `strip_header` of oci.rs leaves out.
use lean_rust_wasm.Prelude.{
  ℕ, ◌≡◌, refl, sym, ap, ◌∙◌, List, [], ◌∷◌, ◌++◌, Bool, true, All, ◌==◌, Bool-cases, inl, inr,
}
use lean_rust_wasm.Text.{Text, split, every, join_lines, attach}
use lean_rust_wasm.Text.Cuts.{differs, split-join_lines}
use lean_rust_wasm.Store.{cut_lines, strip_cr, lines, is_header_line, kept_lines, strip_text}

attach_some : (c : ℕ) (ws : List Text) → (l : Text) × (ls : List Text) × (attach c ws ≡ l ∷ ls)
attach_some c [] = (c ∷ [], [], refl)
attach_some c (w ∷ ws) = (c ∷ w, ws, refl)

-- A text has at least one piece.
split_some : (sep : ℕ) (t : Text) → (l : Text) × (ls : List Text) × (split sep t ≡ l ∷ ls)
split_some sep [] = ([], [], refl)
split_some sep (c ∷ t) = elim (Bool-cases (c == sep)) [
  | inl e ↦ ([], split sep t, rw e refl)
  | inr e ↦ let (l, ls, h) = attach_some c (split sep t) in (l, ls, rw e h)
]

abbrev strip_all : List Text → List Text
strip_all [] = []
strip_all (l ∷ ls) = strip_cr l ∷ strip_all ls

cut_lines-append :
    (hs : List Text) (l : Text) (ls : List Text)
    → cut_lines (hs ++ l ∷ ls) ≡ strip_all hs ++ cut_lines (l ∷ ls)
cut_lines-append [] l ls = refl
cut_lines-append ([] ∷ []) l ls = refl
cut_lines-append ((c ∷ cs) ∷ []) l ls = refl
cut_lines-append ([] ∷ g ∷ hs) l ls = ap (λ ws. [] ∷ ws) (cut_lines-append (g ∷ hs) l ls)
cut_lines-append ((c ∷ cs) ∷ g ∷ hs) l ls =
    ap (λ ws. strip_cr (c ∷ cs) ∷ ws) (cut_lines-append (g ∷ hs) l ls)

-- Whole lines in front of a text are lines of their own.
lines-join_lines :
    (hs : List Text) (t : Text)
    → All (λ l. every (differs 10) l ≡ true) hs
    → lines (join_lines hs ++ t) ≡ strip_all hs ++ lines t
lines-join_lines hs t h =
    let (l, ls, e) = split_some 10 t in
    ap cut_lines (split-join_lines hs t h)
    ∙ ap (λ ws. cut_lines (hs ++ ws)) e
    ∙ cut_lines-append hs l ls
    ∙ ap (λ ws. strip_all hs ++ cut_lines ws) (sym e)

module _ (is_whitespace : ℕ → Bool) where
  -- A whole line that the comparison leaves out: it is blank or starts with a comment mark.
  abbrev pub HeaderLine : Text → Type 0
  HeaderLine l = (every (differs 10) l ≡ true) × (is_header_line is_whitespace (strip_cr l) ≡ true)

  kept_lines_header :
      (hs ls : List Text)
      → All HeaderLine hs
      → kept_lines is_whitespace true (strip_all hs ++ ls) ≡ kept_lines is_whitespace true ls
  unfolding kept_lines
  kept_lines_header [] ls h = refl
  kept_lines_header (l ∷ hs) ls ((h1, h2), hs_ok) = rw h2 (kept_lines_header hs ls hs_ok)

  no_line_feeds : (hs : List Text) → All HeaderLine hs → All (λ l. every (differs 10) l ≡ true) hs
  no_line_feeds [] h = tt
  no_line_feeds (l ∷ hs) ((h1, h2), hs_ok) = (h1, no_line_feeds hs hs_ok)

  -- Header lines in front of a text do not change what stays of it.
  pub strip_text_header :
      (hs : List Text) (t : Text)
      → All HeaderLine hs
      → strip_text is_whitespace (join_lines hs ++ t) ≡ strip_text is_whitespace t
  unfolding strip_text
  strip_text_header hs t h =
      ap (kept_lines is_whitespace true) (lines-join_lines hs t (no_line_feeds hs h))
      ∙ kept_lines_header hs (lines t) h
