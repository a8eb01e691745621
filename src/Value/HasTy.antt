-- ===== src/Value/HasTy.antt =====
-- Which values a type of value.rs has, the widths of the machine integers included, and how that
-- compares with the run-time check `value_ty_matches`.
use mathlib.Core.Logic.{◌↔◌}
use lean_rust_wasm.Prelude.{
  ℕ, ◌^◌, ◌<◌, ◌≤◌, ◌≡◌, refl, List, length, All, Bool, true, ◌&&◌, ◌⊎◌, arith,
}
use lean_rust_wasm.Prelude.Int.{ℤ, InRange}
use lean_rust_wasm.Codec.{IsByte, IsU64}
use lean_rust_wasm.Value.{
  Ty, Value, Values, nil, cons, opt_none, opt_some, res_ok, res_err, length_values,
  value_ty_matches, all_match,
}

-- A Unicode scalar value: what a Rust `char` can be.
abbrev pub IsChar : ℕ → Type 0
IsChar c = (c < 0xd800) ⊎ ((0xe000 ≤ c) × (c < 0x110000))

mutual
  pub data HasTy : Ty → Value → Type 0 where
    bool : (b : Bool) → HasTy Ty.bool (Value.bool b)
    u8 : (x : ℕ) → IsByte x → HasTy Ty.u8 (Value.u8 x)
    u16 : (x : ℕ) → x < 2 ^ 16 → HasTy Ty.u16 (Value.u16 x)
    u32 : (x : ℕ) → x < 2 ^ 32 → HasTy Ty.u32 (Value.u32 x)
    u64 : (x : ℕ) → IsU64 x → HasTy Ty.u64 (Value.u64 x)
    i8 : (i : ℤ) → InRange (2 ^ 7) i → HasTy Ty.i8 (Value.i8 i)
    i16 : (i : ℤ) → InRange (2 ^ 15) i → HasTy Ty.i16 (Value.i16 i)
    i32 : (i : ℤ) → InRange (2 ^ 31) i → HasTy Ty.i32 (Value.i32 i)
    i64 : (i : ℤ) → InRange (2 ^ 63) i → HasTy Ty.i64 (Value.i64 i)
    str : (s : List ℕ) → All IsChar s → IsU64 (length s) → HasTy Ty.str (Value.str s)
    bytes : (bs : List ℕ) → All IsByte bs → IsU64 (length bs) → HasTy Ty.bytes (Value.bytes bs)
    absent : (t : Ty) → HasTy (Ty.opt t) opt_none
    present : {t : Ty} {x : Value} → HasTy t x → HasTy (Ty.opt t) (opt_some x)
    good : {t : Ty} {x : Value} (e : Ty) → HasTy t x → HasTy (Ty.res t e) (res_ok x)
    bad : (t : Ty) {e : Ty} {x : Value} → HasTy e x → HasTy (Ty.res t e) (res_err x)
    list :
        {t : Ty} {xs : Values}
        → AllHave t xs
        → IsU64 (length_values xs)
        → HasTy (Ty.list t) (Value.list xs)

  pub data AllHave : Ty → Values → Type 0 where
    none_left : (t : Ty) → AllHave t nil
    and_then : {t : Ty} {x : Value} {xs : Values} → HasTy t x → AllHave t xs → AllHave t (cons x xs)

-- A value that the machine can hold: its integers fit their widths, its characters are scalar
-- values, and its lengths fit a `usize`.
mutual
  pub data InMachine : Value → Type 0 where
    bool : (b : Bool) → InMachine (Value.bool b)
    u8 : (x : ℕ) → IsByte x → InMachine (Value.u8 x)
    u16 : (x : ℕ) → x < 2 ^ 16 → InMachine (Value.u16 x)
    u32 : (x : ℕ) → x < 2 ^ 32 → InMachine (Value.u32 x)
    u64 : (x : ℕ) → IsU64 x → InMachine (Value.u64 x)
    i8 : (i : ℤ) → InRange (2 ^ 7) i → InMachine (Value.i8 i)
    i16 : (i : ℤ) → InRange (2 ^ 15) i → InMachine (Value.i16 i)
    i32 : (i : ℤ) → InRange (2 ^ 31) i → InMachine (Value.i32 i)
    i64 : (i : ℤ) → InRange (2 ^ 63) i → InMachine (Value.i64 i)
    str : (s : List ℕ) → All IsChar s → IsU64 (length s) → InMachine (Value.str s)
    bytes : (bs : List ℕ) → All IsByte bs → IsU64 (length bs) → InMachine (Value.bytes bs)
    absent : InMachine opt_none
    present : {x : Value} → InMachine x → InMachine (opt_some x)
    good : {x : Value} → InMachine x → InMachine (res_ok x)
    bad : {x : Value} → InMachine x → InMachine (res_err x)
    list : {xs : Values} → AllInMachine xs → IsU64 (length_values xs) → InMachine (Value.list xs)

  pub data AllInMachine : Values → Type 0 where
    none_left : AllInMachine nil
    and_then : {x : Value} {xs : Values} → InMachine x → AllInMachine xs → AllInMachine (cons x xs)

&&-true : (a b : Bool) → (a && b) ≡ true → (a ≡ true) × (b ≡ true)
&&-true a b h = ground arith

mutual
  unfolding value_ty_matches

  HasTy-of_matches : (t : Ty) {v : Value} → InMachine v → value_ty_matches t v ≡ true → HasTy t v
  HasTy-of_matches Ty.bool (bool b) h = bool b
  HasTy-of_matches Ty.u8 (u8 x b) h = u8 x b
  HasTy-of_matches Ty.u16 (u16 x b) h = u16 x b
  HasTy-of_matches Ty.u32 (u32 x b) h = u32 x b
  HasTy-of_matches Ty.u64 (u64 x b) h = u64 x b
  HasTy-of_matches Ty.i8 (i8 i b) h = i8 i b
  HasTy-of_matches Ty.i16 (i16 i b) h = i16 i b
  HasTy-of_matches Ty.i32 (i32 i b) h = i32 i b
  HasTy-of_matches Ty.i64 (i64 i b) h = i64 i b
  HasTy-of_matches Ty.str (str s cs n) h = str s cs n
  HasTy-of_matches Ty.bytes (bytes bs cs n) h = bytes bs cs n
  HasTy-of_matches (Ty.opt t) absent h = absent t
  HasTy-of_matches (Ty.opt t) (present m) h = present (HasTy-of_matches t m h)
  HasTy-of_matches (Ty.res t e) (good m) h = good e (HasTy-of_matches t m h)
  HasTy-of_matches (Ty.res t e) (bad m) h = bad t (HasTy-of_matches e m h)
  HasTy-of_matches (Ty.list t) (list ms n) h = list (AllHave-of_match t ms h) n
  HasTy-of_matches _ _ h = cc

  AllHave-of_match : (t : Ty) {xs : Values} → AllInMachine xs → all_match t xs ≡ true → AllHave t xs
  AllHave-of_match t none_left h = none_left t
  AllHave-of_match t (and_then m ms) h =
      let (p, q) = &&-true _ _ h in and_then (HasTy-of_matches t m p) (AllHave-of_match t ms q)

mutual
  unfolding value_ty_matches

  HasTy-matches : {t : Ty} {v : Value} → HasTy t v → value_ty_matches t v ≡ true
  HasTy-matches (present h) = HasTy-matches h
  HasTy-matches (good e h) = HasTy-matches h
  HasTy-matches (bad t h) = HasTy-matches h
  HasTy-matches (list h n) = AllHave-match h
  HasTy-matches _ = refl

  AllHave-match : {t : Ty} {xs : Values} → AllHave t xs → all_match t xs ≡ true
  AllHave-match (none_left t) = refl
  AllHave-match (and_then h hs) = ground (arith, HasTy-matches h, AllHave-match hs)

-- Of the values that the machine can hold, `value_ty_matches` accepts exactly those of the type.
pub value_ty_matches-HasTy :
    (t : Ty) {v : Value} → InMachine v → (value_ty_matches t v ≡ true) ↔ HasTy t v
value_ty_matches-HasTy t m = (HasTy-of_matches t m, HasTy-matches)

pub matches_of_HasTy : {t : Ty} {v : Value} → HasTy t v → value_ty_matches t v ≡ true
matches_of_HasTy = HasTy-matches
