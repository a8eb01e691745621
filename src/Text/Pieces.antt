-- ===== src/Text/Pieces.antt =====
-- Searches in texts and texts put together from pieces: `strip_prefix`, `find`, `split_once`, `join`,
-- and the cut of a text at a byte offset.
use lean_rust_wasm.Prelude.{
  ℕ, zero, suc, ◌-◌, ◌≡◌, refl, List, [], ◌∷◌, ◌++◌, Bool, true, false, Option, none, some, ◌==◌,
  ltb, if◌then◌else◌, All, arith, append-nil,
}
use lean_rust_wasm.Text.{Text, every, split}
use lean_rust_wasm.Text.Cuts.{differs, split_whole, split-append}

-- `strip_prefix`
abbrev pub strip_prefix : Text → Text → Option Text
strip_prefix [] t = some t
strip_prefix (c ∷ cs) [] = none
strip_prefix (c ∷ cs) (x ∷ t) = let rest = strip_prefix cs t in if x == c then rest else none

abbrev pub first_some {ℓ} : {A : Type ℓ} → Option A → Option A → Option A
first_some (some a) later = some a
first_some none later = later

-- The text behind the first occurrence of a pattern that is not empty.
abbrev pub after : Text → Text → Option Text
after pattern [] = none
after pattern (c ∷ cs) = first_some (strip_prefix pattern (c ∷ cs)) (after pattern cs)

abbrev pub is_some {ℓ} : {A : Type ℓ} → Option A → Bool
is_some none = false
is_some (some a) = true

-- The text up to the first occurrence, or all of it.
abbrev pub until : Text → Text → Text
until pattern [] = []
until pattern (c ∷ cs) =
    let rest = until pattern cs in if is_some (strip_prefix pattern (c ∷ cs)) then [] else c ∷ rest

abbrev pub push_first : ℕ → Option (Text × Text) → Option (Text × Text)
push_first c none = none
push_first c (some (before, behind)) = some (c ∷ before, behind)

-- `split_once` at a character.
abbrev pub split_once : ℕ → Text → Option (Text × Text)
split_once sep [] = none
split_once sep (c ∷ cs) =
    let rest = split_once sep cs in if c == sep then some ([], cs) else push_first c rest

abbrev pub join_more : ℕ → List Text → Text
join_more sep [] = []
join_more sep (t ∷ ts) = sep ∷ (t ++ join_more sep ts)

-- `join` with one character between the pieces.
abbrev pub join : ℕ → List Text → Text
join sep [] = []
join sep (t ∷ ts) = t ++ join_more sep ts

-- The bytes of a code point in UTF-8.
abbrev pub utf8_width : ℕ → ℕ
utf8_width c = if ltb c 0x80 then 1 else if ltb c 0x800 then 2 else if ltb c 0x10000 then 3 else 4

-- `str::get(at..)`: none past the end and inside a character.
abbrev pub from_byte : ℕ → Text → Option Text
from_byte zero t = some t
from_byte (suc at) [] = none
from_byte (suc at) (c ∷ cs) =
    let rest = from_byte (suc at - utf8_width c) cs in
    if ltb (suc at) (utf8_width c) then none else rest

pub split-join :
    (sep : ℕ) (t : Text) (ts : List Text)
    → every (differs sep) t ≡ true
    → All (λ u. every (differs sep) u ≡ true) ts
    → split sep (join sep (t ∷ ts)) ≡ t ∷ ts
split-join sep t [] h hs = rw (append-nil t, split_whole sep t h) refl
split-join sep t (u ∷ us) h (hu, hus) =
    rw (split-append sep t (u ++ join_more sep us) h, split-join sep u us hu hus) refl

pub split_once-append :
    (sep : ℕ) (t u : Text)
    → every (differs sep) t ≡ true
    → split_once sep (t ++ sep ∷ u) ≡ some (t, u)
split_once-append sep [] u h = ground arith
split_once-append sep (c ∷ t) u h = ground (arith, split_once-append sep t u)
