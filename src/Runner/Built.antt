-- ===== src/Runner/Built.antt =====
-- Rows whose flat arguments `build_args` of main.rs reads back.
use lean_rust_wasm.Prelude.{
  ℕ, suc, ◌+◌, ◌^◌, ◌<◌, ◌≡◌, refl, sym, ap, ◌∙◌, List, [], ◌∷◌, ◌++◌, true, false, ◌||◌, some, ok,
  All, length, length-append, arith, append_assoc,
}
use lean_rust_wasm.Text.{Text, codes, every, same}
use lean_rust_wasm.Text.Cuts.{differs}
use lean_rust_wasm.Text.Decimal.{decimal, parse_u64-decimal}
use lean_rust_wasm.Text.Pieces.{join, split-join}
use lean_rust_wasm.Oracle.Ser.{u64_val}
use lean_rust_wasm.Runner.Args.{
  Numbers, Arg, nth, arg, arg_u64, user_value, user_record, build_from, build_args,
}

module _ (p : Numbers) (Other : Type 0) where
  arg_u64-nth :
      (strs : List Text) (i n : ℕ) (what : Text)
      → nth i strs ≡ some (decimal n)
      → n < 2 ^ 64
      → arg_u64 p Other strs i what ≡ ok n
  unfolding arg_u64 arg
  arg_u64-nth strs i n what here small = rw (here, parse_u64-decimal n small) refl

  -- A user's fields, flat with the tags between commas, are built as the user's record, when the id is
  -- a 64-bit number, there is a tag, and no tag has a comma.
  pub build_args_user :
      (f : Text) (id : ℕ) (name email tag : Text) (tags : List Text)
      → (same f (codes "user-valid") || same f (codes "user-complete")) ≡ true
      → id < 2 ^ 64
      → every (differs 44) tag ≡ true
      → All (λ t. every (differs 44) t ≡ true) tags
      → build_args p Other f (decimal id ∷ (name ∷ (email ∷ (join 44 (tag ∷ tags) ∷ []))))
        ≡ ok (user_value p Other id name email (tag ∷ tags) ∷ [])
  unfolding build_args user_record arg arg_u64
  build_args_user f id name email tag tags user small h hs =
      rw (user, parse_u64-decimal id small, split-join 44 tag tags h hs) refl

  abbrev pub decimals : List ℕ → List Text
  decimals [] = []
  decimals (n ∷ ns) = decimal n ∷ decimals ns

  abbrev pub numbers : List ℕ → List (Arg p Other)
  numbers [] = []
  numbers (n ∷ ns) = u64_val n ∷ numbers ns

  nth-length :
      (front : List Text) (a : Text) (later : List Text)
      → nth (length front) (front ++ a ∷ later) ≡ some a
  nth-length [] a later = refl
  nth-length (t ∷ front) a later = nth-length front a later

  from_numbers :
      (f : Text) (front : List Text) (ns : List ℕ) (i : ℕ) (strs : List Text)
      → same f (codes "pick") ≡ false
      → All (λ n. n < 2 ^ 64) ns
      → i ≡ length front
      → strs ≡ front ++ decimals ns
      → build_from p Other f strs i (decimals ns) ≡ ok (numbers ns)
  from_numbers f front [] i strs plain h hi hs = refl
  from_numbers f front (n ∷ ns) i strs plain (small, h) hi hs =
      let here : nth i strs ≡ some (decimal n) =
        ap (λ k. nth k strs) hi
        ∙ ap (nth (length front)) hs
        ∙ nth-length front (decimal n) (decimals ns) in
      let longer : length (front ++ decimal n ∷ []) ≡ length front + 1 =
        length-append front (decimal n ∷ []) in
      rw
        (
          plain,
          arg_u64-nth strs i n (codes "u64 arg") here small,
          from_numbers f (front ++ decimal n ∷ []) ns (suc i) strs plain h
              (omega (arith, hi, longer))
              (hs ∙ sym (append_assoc front (decimal n ∷ []) (decimals ns))),
        )
        refl

  -- The decimals of 64-bit numbers are built as these numbers, for a function that takes no record, no
  -- variant and no flag.
  pub build_args-numbers :
      (f : Text) (ns : List ℕ)
      → (same f (codes "user-valid") || same f (codes "user-complete")) ≡ false
      → same f (codes "order-error-valid") ≡ false
      → same f (codes "pick") ≡ false
      → All (λ n. n < 2 ^ 64) ns
      → build_args p Other f (decimals ns) ≡ ok (numbers ns)
  unfolding build_args
  build_args-numbers f ns no_user no_variant no_pick h =
      rw (no_user, no_variant, from_numbers f [] ns 0 (decimals ns) no_pick h refl refl) refl
