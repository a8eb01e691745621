-- ===== src/Value/Decoded.antt =====
-- What `dec_value` of value.rs makes of arbitrary bytes: a value of the type asked for, within the
-- widths of the machine.
use lean_rust_wasm.Prelude.{
  ℕ, zero, suc, ◌+◌, ◌^◌, ◌<◌, ◌≡◌, refl, ap, subst, List, [], ◌∷◌, length, take, All, Bool, true,
  false, arith, Option, none, some, Result, ok, err, ◌>>=◌, drop, ok_or, length-take, ltb, ◌==◌,
  if◌then◌else◌,
}
use lean_rust_wasm.Prelude.Int.{ℤ, InRange}
use lean_rust_wasm.Codec.{
  DecResult, DecFail, torn, corrupt, IsByte, IsU64, dec_varnat, dec_bool, dec_bytes,
}
use lean_rust_wasm.Codec.Varnat.{dec_varnat_takes}
use lean_rust_wasm.Value.{
  Ty, Value, length_values, opt_some, res_ok, res_err, from_list, unzigzag, char_from, dec_many,
  dec_char, narrow, dec_unsigned, dec_signed, dec_tagged, dec_payload, dec_u8, dec_value,
}
use lean_rust_wasm.Value.Zigzag.{unzigzag-InRange, as_signed-InRange}
use lean_rust_wasm.Value.HasTy.{IsChar, HasTy, AllHave, none_left, and_then}

-- `P` holds of the item that `r` returns, if it returns one.
abbrev pub Yields {ℓ κ} : {A : Type ℓ} → (A → Type κ) → Result DecFail (A × ℕ) → Type κ
Yields P (ok p) = P p.0
Yields P (err x) = Unit

module _ {ℓ κ} {A : Type ℓ} {B : Type κ} where
  -- The rest of a `?` chain may use what the first decoder returned.
  pub bind-Yields {μ} :
      (P : B → Type μ) (m : DecResult A) (k : A × ℕ → DecResult B)
      → ((p : A × ℕ) → m ≡ ok p → Yields P (k p))
      → Yields P (m >>= k)
  bind-Yields P (ok p) k h = h p refl
  bind-Yields P (err x) k h = tt

  const-Yields {μ} :
      (P : B → Type μ) (m : Result DecFail A) (k : A → DecResult B)
      → ((a : A) → m ≡ ok a → Yields P (k a))
      → Yields P (m >>= k)
  const-Yields P (ok a) k h = h a refl
  const-Yields P (err x) k h = tt

if-Yields {ℓ κ} :
    {A : Type ℓ} (P : A → Type κ) (b : Bool) (x y : DecResult A)
    → (b ≡ true → Yields P x)
    → (b ≡ false → Yields P y)
    → Yields P (if b then x else y)
if-Yields P true x y hx hy = hx refl
if-Yields P false x y hx hy = hy refl

pub Yields-ok {ℓ κ} :
    {A : Type ℓ} (P : A → Type κ) (m : DecResult A) (p : A × ℕ) → Yields P m → m ≡ ok p → P p.0
Yields-ok P m p y e = subst (Yields P) e y

pub All-drop : (n : ℕ) (bs : List ℕ) → All IsByte bs → All IsByte (drop n bs)
All-drop zero bs h = h
All-drop (suc n) [] h = h
All-drop (suc n) (b ∷ bs) (h, hs) = All-drop n bs hs

pub All-take : (n : ℕ) (bs : List ℕ) → All IsByte bs → All IsByte (take n bs)
All-take zero bs h = tt
All-take (suc n) [] h = tt
All-take (suc n) (b ∷ bs) (h, hs) = (h, All-take n bs hs)

dec_many-Yields {ℓ} :
    {A : Type ℓ} (P : A → Type 0) (d : List ℕ → DecResult A) (n : ℕ) (bs : List ℕ)
    → ((cs : List ℕ) → All IsByte cs → Yields P (d cs))
    → All IsByte bs
    → Yields (λ (xs : List A). All P xs × (length xs ≡ n)) (dec_many d n bs)
unfolding dec_many
dec_many-Yields P d zero bs h b = (tt, refl)
dec_many-Yields P d (suc n) bs h b = bind-Yields _ (d bs) _ λ (x, used) e.
    bind-Yields _ (dec_many d n (drop used bs)) _ λ (xs, u) f.
      let rest = dec_many-Yields P d n (drop used bs) h (All-drop used bs b) in
      let (ps, len) = Yields-ok _ (dec_many d n (drop used bs)) (xs, u) rest f in
      ((Yields-ok P (d bs) (x, used) (h bs b) e, ps), ap suc len)

AllHave-of_All : (t : Ty) (xs : List Value) → All (HasTy t) xs → AllHave t (from_list xs)
AllHave-of_All t [] h = none_left t
AllHave-of_All t (x ∷ xs) (h, hs) = and_then h (AllHave-of_All t xs hs)

length-from_list : (xs : List Value) → length_values (from_list xs) ≡ length xs
length-from_list [] = refl
length-from_list (x ∷ xs) = ap suc (length-from_list xs)

char_from-IsChar : (cp c : ℕ) → char_from cp ≡ some c → IsChar c
unfolding char_from
char_from-IsChar cp c h = ground arith

ok_or-ok {ℓ κ} :
    {A : Type ℓ} {E : Type κ} (o : Option A) (x : E) (a : A) → ok_or o x ≡ ok a → o ≡ some a
ok_or-ok none x a h = cc
ok_or-ok (some b) x a h = cc

dec_char-Yields : (bs : List ℕ) → Yields IsChar (dec_char bs)
unfolding dec_char
dec_char-Yields bs = bind-Yields IsChar (dec_varnat bs) _ λ (cp, used) e.
    const-Yields IsChar (ok_or (char_from cp) corrupt) _
      λ c f. char_from-IsChar cp c (ok_or-ok _ corrupt c f)

dec_varnat-Yields : (bs : List ℕ) → Yields IsU64 (dec_varnat bs)
dec_varnat-Yields bs = go (dec_varnat bs) refl
  where
    go : (m : DecResult ℕ) → dec_varnat bs ≡ m → Yields IsU64 m
    go (ok (n, u)) e = (dec_varnat_takes bs n u e).0
    go (err x) e = tt

dec_unsigned-Yields :
    (t : Ty) (bound : ℕ) (make : ℕ → Value) (bs : List ℕ)
    → ((x : ℕ) → x < bound → HasTy t (make x))
    → Yields (HasTy t) (dec_unsigned bound make bs)
unfolding dec_unsigned narrow
dec_unsigned-Yields t bound make bs h =
    bind-Yields _ (dec_varnat bs) _
      λ (n, u) e. const-Yields _ (narrow bound n) _ λ x f. h x (ground arith)

dec_signed-Yields :
    (t : Ty) (make : ℤ → Value) (bs : List ℕ)
    → ((i : ℤ) → InRange (2 ^ 63) i → HasTy t (make i))
    → Yields (HasTy t) (dec_signed make bs)
unfolding dec_signed
dec_signed-Yields t make bs h =
    bind-Yields _ (dec_varnat bs) _
      λ (n, u) e. h (unzigzag n) (unzigzag-InRange n (dec_varnat_takes bs n u e).0)

dec_payload-Yields :
    (t s : Ty) (make : Value → Value) (d : List ℕ → DecResult Value) (bs : List ℕ)
    → Yields (HasTy s) (d bs)
    → ((x : Value) → HasTy s x → HasTy t (make x))
    → Yields (HasTy t) (dec_payload make d bs)
unfolding dec_payload
dec_payload-Yields t s make d bs y h =
    bind-Yields _ (d bs) _ λ (x, used) e. h x (Yields-ok _ (d bs) (x, used) y e)

dec_tagged-Yields :
    (t : Ty) (z o : List ℕ → DecResult Value) (bs : List ℕ)
    → All IsByte bs
    → ((cs : List ℕ) → All IsByte cs → Yields (HasTy t) (z cs))
    → ((cs : List ℕ) → All IsByte cs → Yields (HasTy t) (o cs))
    → Yields (HasTy t) (dec_tagged z o bs)
unfolding dec_tagged
dec_tagged-Yields t z o [] b hz ho = tt
dec_tagged-Yields t z o (tag ∷ bs) (h, hs) hz ho =
    if-Yields (HasTy t) (tag == 0) (z bs) _ (λ e. hz bs hs)
      λ e. if-Yields (HasTy t) (tag == 1) (o bs) (err corrupt) (λ f. ho bs hs) λ f. tt

dec_bytes-Yields :
    (bs : List ℕ)
    → All IsByte bs
    → Yields (λ (p : List ℕ). All IsByte p × IsU64 (length p)) (dec_bytes bs)
unfolding dec_bytes
dec_bytes-Yields bs b = bind-Yields _ (dec_varnat bs) _ λ (n, u) e.
    if-Yields _ (ltb (length (drop u bs)) n) (err torn) (ok (take n (drop u bs), u + n)) (λ f. tt)
      λ f. (
        All-take n (drop u bs) (All-drop u bs b),
        omega (arith, length-take n (drop u bs) (ground arith), dec_varnat_takes bs n u e),
      )

dec_u8-Yields : (bs : List ℕ) → All IsByte bs → Yields (HasTy Ty.u8) (dec_u8 bs)
unfolding dec_u8
dec_u8-Yields [] b = tt
dec_u8-Yields (x ∷ bs) (h, hs) = HasTy.u8 x h

pub dec_value-Yields : (t : Ty) (bs : List ℕ) → All IsByte bs → Yields (HasTy t) (dec_value t bs)
unfolding dec_value
dec_value-Yields Ty.bool bs b = bind-Yields _ (dec_bool bs) _ λ (x, u) e. HasTy.bool x
dec_value-Yields Ty.u8 bs b = dec_u8-Yields bs b
dec_value-Yields Ty.u16 bs b = dec_unsigned-Yields Ty.u16 _ Value.u16 bs HasTy.u16
dec_value-Yields Ty.u32 bs b = dec_unsigned-Yields Ty.u32 _ Value.u32 bs HasTy.u32
dec_value-Yields Ty.u64 bs b =
    bind-Yields _ (dec_varnat bs) _ λ (n, u) e. HasTy.u64 n (dec_varnat_takes bs n u e).0
dec_value-Yields Ty.i8 bs b =
    dec_signed-Yields Ty.i8 _ bs λ i h. HasTy.i8 _ (as_signed-InRange (2 ^ 7) i (omega arith))
dec_value-Yields Ty.i16 bs b =
    dec_signed-Yields Ty.i16 _ bs λ i h. HasTy.i16 _ (as_signed-InRange (2 ^ 15) i (omega arith))
dec_value-Yields Ty.i32 bs b =
    dec_signed-Yields Ty.i32 _ bs λ i h. HasTy.i32 _ (as_signed-InRange (2 ^ 31) i (omega arith))
dec_value-Yields Ty.i64 bs b = dec_signed-Yields Ty.i64 _ bs HasTy.i64
dec_value-Yields Ty.str bs b = bind-Yields _ (dec_varnat bs) _ λ (count, u) e.
    bind-Yields _ (dec_many dec_char count (drop u bs)) _ λ (s, used) f.
      let (cs, len) =
        Yields-ok _ (dec_many dec_char count (drop u bs)) (s, used)
          (dec_many-Yields IsChar dec_char count (drop u bs) (λ c h. dec_char-Yields c)
            (All-drop u bs b))
          f in
      HasTy.str s cs (rw len (dec_varnat_takes bs count u e).0)
dec_value-Yields Ty.bytes bs b = bind-Yields _ (dec_bytes bs) _ λ (p, u) e.
    let (q, len) = Yields-ok _ (dec_bytes bs) (p, u) (dec_bytes-Yields bs b) e in
    HasTy.bytes p q len
dec_value-Yields (Ty.opt t) bs b =
    dec_tagged-Yields (Ty.opt t) _ _ bs b (λ cs h. HasTy.absent t)
      λ cs h.
        dec_payload-Yields (Ty.opt t) t opt_some (dec_value t) cs (dec_value-Yields t cs h)
          λ x p. HasTy.present p
dec_value-Yields (Ty.res g d) bs b =
    dec_tagged-Yields (Ty.res g d) _ _ bs b
      (λ cs h.
        dec_payload-Yields (Ty.res g d) g res_ok (dec_value g) cs (dec_value-Yields g cs h)
          λ x p. HasTy.good d p)
      λ cs h.
        dec_payload-Yields (Ty.res g d) d res_err (dec_value d) cs (dec_value-Yields d cs h)
          λ x p. HasTy.bad g p
dec_value-Yields (Ty.list t) bs b = bind-Yields _ (dec_varnat bs) _ λ (count, u) e.
    bind-Yields _ (dec_many (dec_value t) count (drop u bs)) _ λ (xs, used) f.
      let (hs, len) =
        Yields-ok _ (dec_many (dec_value t) count (drop u bs)) (xs, used)
          (dec_many-Yields (HasTy t) (dec_value t) count (drop u bs) (dec_value-Yields t)
            (All-drop u bs b))
          f in
      HasTy.list (AllHave-of_All t xs hs)
        (rw (length-from_list xs, len) (dec_varnat_takes bs count u e).0)

-- Whatever bytes it is given, canonical or not, a value that `dec_value` accepts has the type that was
-- asked for: its integers are in the range of their width, its characters are scalar values, and so
-- are the values inside it.
pub dec_value-HasTy :
    (t : Ty) (bs : List ℕ) (v : Value) (used : ℕ)
    → All IsByte bs
    → dec_value t bs ≡ ok (v, used)
    → HasTy t v
dec_value-HasTy t bs v used b e =
    Yields-ok (HasTy t) (dec_value t bs) (v, used) (dec_value-Yields t bs b) e
