-- ===== src/Text/Cuts.antt =====
-- How texts are cut: runs of characters, and pieces between separators.
use lean_rust_wasm.Prelude.{
  List, All, append_assoc, ◌∙◌, ap, ℕ, ◌≡◌, refl, [], ◌∷◌, ◌++◌, Bool, true, ◌==◌, arith,
}
use lean_rust_wasm.Text.{join_lines, Text, not, every, run, past, split}

abbrev pub differs : ℕ → ℕ → Bool
differs a b = not (b == a)

-- The text is empty or starts with a character that fails the test.
abbrev pub stops : (ℕ → Bool) → Text → Bool
stops p [] = true
stops p (c ∷ cs) = not (p c)

pub every-append :
    (p : ℕ → Bool) (s t : Text) → every p s ≡ true → every p t ≡ true → every p (s ++ t) ≡ true
every-append p [] t hs ht = ht
every-append p (c ∷ s) t hs ht = ground (arith, every-append p s t)

pub every_weaken :
    (p q : ℕ → Bool)
    → ((c : ℕ) → p c ≡ true → q c ≡ true)
    → (t : Text) → every p t ≡ true
    → every q t ≡ true
every_weaken p q weak [] h = refl
every_weaken p q weak (c ∷ t) h = ground (arith, weak c, every_weaken p q weak t)

pub run-append :
    (p : ℕ → Bool) (s t : Text) → every p s ≡ true → stops p t ≡ true → run p (s ++ t) ≡ s
run-append p [] [] hs ht = refl
run-append p [] (c ∷ t) hs ht = ground arith
run-append p (c ∷ s) t hs ht = ground (arith, run-append p s t)

pub past-append :
    (p : ℕ → Bool) (s t : Text) → every p s ≡ true → stops p t ≡ true → past p (s ++ t) ≡ t
past-append p [] [] hs ht = refl
past-append p [] (c ∷ t) hs ht = ground arith
past-append p (c ∷ s) t hs ht = ground (arith, past-append p s t)

-- A text without the separator is one piece.
pub split_whole : (sep : ℕ) (t : Text) → every (differs sep) t ≡ true → split sep t ≡ t ∷ []
split_whole sep [] h = refl
split_whole sep (c ∷ t) h = ground (arith, split_whole sep t)

-- The first piece ends at the first separator.
pub split-append :
    (sep : ℕ) (s t : Text)
    → every (differs sep) s ≡ true
    → split sep (s ++ sep ∷ t) ≡ s ∷ split sep t
split-append sep [] t h = ground arith
split-append sep (c ∷ s) t h = ground (arith, split-append sep s t)

-- Lines without a line feed, in front of any text.
pub split-join_lines :
    (ls : List Text) (t : Text)
    → All (λ l. every (differs 10) l ≡ true) ls
    → split 10 (join_lines ls ++ t) ≡ ls ++ split 10 t
split-join_lines [] t h = refl
split-join_lines (l ∷ ls) t (h, hs) =
    ap (split 10) (append_assoc l (10 ∷ join_lines ls) t)
    ∙ split-append 10 l (join_lines ls ++ t) h
    ∙ ap (λ ws. l ∷ ws) (split-join_lines ls t hs)
