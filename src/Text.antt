-- ===== src/Text.antt =====
-- Texts as the lists of their code points, with the `str` operations that the host and the tools
-- use: comparison, `split`, a leading run of characters. Every cut is at an ASCII character, so it
-- falls on a character boundary of the UTF-8 bytes.
pub mod Cuts
pub mod Decimal
pub mod Pieces
use Prim.Native.Char.{code}
use Prim.Native.String.{String}
use lean_rust_wasm.Prelude.{
  ℕ, ◌≡◌, refl, List, [], ◌∷◌, ◌++◌, Bool, true, false, ◌&&◌, ◌||◌, Option, none, some, ◌==◌, leb,
  if◌then◌else◌, arith,
}

abbrev pub Text : Type 0
Text = List ℕ

-- The code points of a literal.
abbrev pub codes : String → Text
codes String.[] = []
codes (String.◌∷◌ c s) = code c ∷ codes s

abbrev pub same : Text → Text → Bool
same [] [] = true
same [] (y ∷ ys) = false
same (x ∷ xs) [] = false
same (x ∷ xs) (y ∷ ys) = (x == y) && same xs ys

abbrev pub not : Bool → Bool
not true = false
not false = true

abbrev pub is_digit : ℕ → Bool
is_digit c = leb 48 c && leb c 57

-- `is_ascii_alphanumeric`
abbrev pub is_alnum : ℕ → Bool
is_alnum c = is_digit c || ((leb 65 c && leb c 90) || (leb 97 c && leb c 122))

abbrev pub every : (ℕ → Bool) → Text → Bool
every p [] = true
every p (c ∷ cs) = p c && every p cs

-- The leading run of characters that pass the test, and what follows it.
abbrev pub run : (ℕ → Bool) → Text → Text
run p [] = []
run p (c ∷ cs) = let longer = run p cs in if p c then c ∷ longer else []

abbrev pub past : (ℕ → Bool) → Text → Text
past p [] = []
past p (c ∷ cs) = let later = past p cs in if p c then later else c ∷ cs

abbrev pub attach : ℕ → List Text → List Text
attach c [] = (c ∷ []) ∷ []
attach c (w ∷ ws) = (c ∷ w) ∷ ws

-- `str::split` at a character: `n` separators give `n + 1` pieces.
abbrev pub split : ℕ → Text → List Text
split sep [] = [] ∷ []
split sep (c ∷ cs) = let pieces = split sep cs in if c == sep then [] ∷ pieces else attach c pieces

-- The value of the first entry with the key.
abbrev pub lookup {ℓ} : {A : Type ℓ} → Text → List (Text × A) → Option A
lookup k [] = none
lookup k ((j, v) ∷ entries) = if same j k then some v else lookup k entries

-- Lines, each with its line feed.
abbrev pub join_lines : List Text → Text
join_lines [] = []
join_lines (t ∷ ts) = t ++ 10 ∷ join_lines ts

pub same_refl : (t : Text) → same t t ≡ true
same_refl [] = refl
same_refl (c ∷ cs) = ground (arith, same_refl cs)

pub same-eq : (s t : Text) → same s t ≡ true → s ≡ t
same-eq [] [] h = refl
same-eq [] (y ∷ ys) h = cc
same-eq (x ∷ xs) [] h = cc
same-eq (x ∷ xs) (y ∷ ys) h = ground (arith, same-eq xs ys)
