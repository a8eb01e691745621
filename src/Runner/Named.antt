-- ===== src/Runner/Named.antt =====
-- Which rows `explain` of main.rs finds.
use lean_rust_wasm.Prelude.{
  ℕ, suc, ◌+◌, ◌≡◌, ◌≢◌, refl, sym, ap, ◌∙◌, subst, List, [], ◌∷◌, ◌++◌, length, true, false,
  Option, none, some, ok, ok_or, All, ◌==◌, Bool-cases, inl, inr, arith,
}
use lean_rust_wasm.Text.{Text, codes, every, same, same_refl, same-eq, split, attach, is_digit}
use lean_rust_wasm.Text.Cuts.{differs}
use lean_rust_wasm.Text.Decimal.{parse_u64}
use lean_rust_wasm.Text.Pieces.{join, split_once, split-join, split_once-append}
use lean_rust_wasm.Store.Verified.{ok_injective}
use lean_rust_wasm.Runner.{Row}
use lean_rust_wasm.Runner.Cli.{
  explained_row, by_id, by_name, find_row, is_wanted, wanted_args, same_all,
}

-- A text without a comma.
abbrev pub NoComma : Text → Type 0
NoComma t = every (differs 44) t ≡ true

no_digits : (t u : Text) → every is_digit (t ++ 58 ∷ u) ≡ false
no_digits [] u = refl
no_digits (c ∷ t) u = ground (arith, no_digits t u)

parse_u64_colon : (t u : Text) → parse_u64 (t ++ 58 ∷ u) ≡ none
unfolding parse_u64
parse_u64_colon [] u = refl
parse_u64_colon (c ∷ []) u = ground arith
parse_u64_colon (c ∷ d ∷ t) u = ground (arith, no_digits (c ∷ d ∷ t) u, no_digits (d ∷ t) u)

find_row-append :
    (f : Text) (want : List Text) (before after : List Row) (r : Row) (i : ℕ)
    → All (λ q. is_wanted q f want ≡ false) before
    → is_wanted r f want ≡ true
    → find_row i f want (before ++ r ∷ after) ≡ some (i + length before, r)
find_row-append f want [] after r i none_before here = rw here (ap (λ k. some (k, r)) (omega arith))
find_row-append f want (q ∷ before) after r i (other, none_before) here = rw other (
    find_row-append f want before after r (suc i) none_before here
    ∙ ap (λ k. some (k, r)) (omega arith))

same_all_refl : (ts : List Text) → same_all ts ts ≡ true
same_all_refl [] = refl
same_all_refl (t ∷ ts) = ground (arith, same_refl t, same_all_refl ts)

same_all-eq : (ts us : List Text) → same_all ts us ≡ true → ts ≡ us
same_all-eq [] [] e = refl
same_all-eq [] (u ∷ us) e = cc
same_all-eq (t ∷ ts) [] e = cc
same_all-eq (t ∷ ts) (u ∷ us) e = elim (Bool-cases (same t u)) [
  | inl here ↦
      let later : same_all ts us ≡ true = rw here at e in
      cc (same-eq t u here, same_all-eq ts us later)
  | inr lost ↦ let left : false ≡ true = rw lost at e in cc left
]

-- Arguments that one text can name: comma-free, and not a single empty one.
abbrev pub Nameable : List Text → Type 0
Nameable [] = Unit
Nameable (t ∷ ts) = NoComma t × All NoComma ts × (join 44 (t ∷ ts) ≢ [])

wanted_args_some : (t : Text) → t ≢ [] → wanted_args t ≡ split 44 t
wanted_args_some [] h = absurd (h refl)
wanted_args_some (c ∷ t) h = refl

wanted_args-join : (ts : List Text) → Nameable ts → wanted_args (join 44 ts) ≡ ts
wanted_args-join [] h = refl
wanted_args-join (t ∷ ts) (h, hs, some_text) =
    wanted_args_some (join 44 (t ∷ ts)) some_text ∙ split-join 44 t ts h hs

-- The first row with a function and arguments is explained under `fn:arg,arg,...`, when the function's
-- name has no colon, no argument has a comma, and the arguments are not a single empty one.
pub explained_row_named :
    (before after : List Row) (r : Row)
    → every (differs 58) r.f ≡ true
    → Nameable r.args
    → All (λ q. is_wanted q r.f r.args ≡ false) before
    → explained_row (r.f ++ 58 ∷ join 44 r.args) (before ++ r ∷ after) ≡ ok (length before, r)
unfolding explained_row
explained_row_named before after r plain nameable first =
    let wanted : is_wanted r r.f r.args ≡ true = rw (same_refl r.f, same_all_refl r.args) refl in
    rw
      (
        parse_u64_colon r.f (join 44 r.args),
        split_once-append 58 r.f (join 44 r.args) plain,
        wanted_args-join r.args nameable,
        find_row-append r.f r.args before after r 0 first wanted,
      )
      (ap (λ k. ok (k, r)) (omega arith))

attach-NoComma :
    (c : ℕ) (ts : List Text) → differs 44 c ≡ true → All NoComma ts → All NoComma (attach c ts)
attach-NoComma c [] h hs = (ground (arith, h), tt)
attach-NoComma c (t ∷ ts) h (ht, hs) = (rw h ht, hs)

split-NoComma : (t : Text) → All NoComma (split 44 t)
split-NoComma [] = (refl, tt)
split-NoComma (c ∷ t) = elim (Bool-cases (c == 44)) [
  | inl comma ↦ rw comma (refl, split-NoComma t)
  | inr other ↦ rw other (attach-NoComma c (split 44 t) (rw other refl) (split-NoComma t))
]

wanted_args-NoComma : (t : Text) → All NoComma (wanted_args t)
wanted_args-NoComma [] = tt
wanted_args-NoComma (c ∷ t) = split-NoComma (c ∷ t)

find_row_wanted :
    (i k : ℕ) (f : Text) (want : List Text) (rows : List Row) (r : Row)
    → find_row i f want rows ≡ some (k, r)
    → r.args ≡ want
find_row_wanted i k f want [] r e = cc
find_row_wanted i k f want (q ∷ rows) r e = elim (Bool-cases (is_wanted q f want)) [
  | inl here ↦
      let found : some (i, q) ≡ some (k, r) = rw here at e in
      let row : q ≡ r = cc found in
      subst (λ t. t.args ≡ want) row (same_all-eq q.args want (ground (arith, here)))
  | inr lost ↦
      let later : find_row (suc i) f want rows ≡ some (k, r) = rw lost at e in
      find_row_wanted (suc i) k f want rows r later
]

named-NoComma :
    (id : Text) (rows : List Row) (parts : Option (Text × Text)) (k : ℕ) (r : Row)
    → by_name id rows parts ≡ ok (k, r)
    → All NoComma r.args
named-NoComma id rows none k r e = cc
named-NoComma id rows (some (f, args)) k r e =
    by_found (find_row 0 f (wanted_args args) rows) refl e
  where
    by_found :
        (found : Option (ℕ × Row))
        → find_row 0 f (wanted_args args) rows ≡ found
        → ok_or found (codes "no row " ++ id) ≡ ok (k, r)
        → All NoComma r.args
    by_found none h e = cc
    by_found (some (i, q)) h e =
        let row : q ≡ r = ap (λ pair. pair.1) (ok_injective e) in
        let args_eq : q.args ≡ wanted_args args =
          find_row_wanted 0 i f (wanted_args args) rows q h in
        subst (λ t. All NoComma t.args) row
          (subst (All NoComma) (sym args_eq) (wanted_args-NoComma args))

-- A row that `explain` finds by an id that is no number has no argument with a comma.
pub explained_row-NoComma :
    (id : Text) (rows : List Row) (k : ℕ) (r : Row)
    → parse_u64 id ≡ none
    → explained_row id rows ≡ ok (k, r)
    → All NoComma r.args
unfolding explained_row
explained_row-NoComma id rows k r no_number e =
    named-NoComma id rows (split_once 58 id) k r (ap (λ n. by_id id rows n) (sym no_number) ∙ e)
