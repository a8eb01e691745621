-- ===== src/Codec/Stable.antt =====
-- How a strict decoder of codec.rs sees more input: an item that decodes keeps decoding, and bytes
-- that are corrupt stay corrupt. Only `torn` may change, which is what recovery rests on.
use lean_rust_wasm.Prelude.{
  ℕ, ◌+◌, ◌≤◌, ◌≡◌, refl, List, ◌∷◌, ◌++◌, length, drop, Result, ok, err, ◌>>=◌, arith,
  length-append, length-drop, drop-append_le,
}
use lean_rust_wasm.Codec.{DecResult, DecFail, torn, corrupt}

-- `used` is the number of bytes up to the end of what `d` read; `d` itself may start `from` bytes in.
pub record IsStable {ℓ} {A : Type ℓ} (from : ℕ) (used : A → ℕ) (d : List ℕ → Result DecFail A)
    : Type ℓ where
  pub keeps :
      (bs more : List ℕ) (a : A)
      → from ≤ length bs
      → d bs ≡ ok a
      → (d (bs ++ more) ≡ ok a) × (used a ≤ length bs)
  pub rejects :
      (bs more : List ℕ) → from ≤ length bs → d bs ≡ err corrupt → d (bs ++ more) ≡ err corrupt

-- The bytes that a decoder of `DecResult` has consumed.
abbrev pub consumed {ℓ} : {A : Type ℓ} → A × ℕ → ℕ
consumed p = p.1

module _ {ℓ} {A : Type ℓ} where
  pub Stable-ok : (from : ℕ) (used : A → ℕ) (a : A) → used a ≤ from → IsStable from used (λ _. ok a)
  Stable-ok from used a h = record {
    keeps = λ bs more b le e. (e, ground arith);
    rejects = λ bs more le e. e;
  }

  pub Stable-err : (from : ℕ) (used : A → ℕ) (x : DecFail) → IsStable from used (λ _. err x)
  Stable-err from used x = record { keeps = λ bs more b le e. cc; rejects = λ bs more le e. e }

  pub Stable-drop :
      (from : ℕ) {d : List ℕ → DecResult A}
      → IsStable 0 consumed d
      → IsStable from (λ p. from + p.1) (λ bs. d (drop from bs))
  Stable-drop from {d} s = record {
    keeps = λ bs more a le e.
        let (k, u) = s.keeps (drop from bs) more a (omega arith) e in
        (rw (drop-append_le from bs more le) k, omega (arith, length-drop from bs));
    rejects = λ bs more le e.
        rw (drop-append_le from bs more le) (s.rejects (drop from bs) more (omega arith) e);
  }

module _ {ℓ κ} {A : Type ℓ} {B : Type κ} where
  bind-keeps :
      (m m' : Result DecFail A) (k k' : A → Result DecFail B) (b : B)
      → ((a : A) → m ≡ ok a → m' ≡ ok a)
      → ((a : A) → m ≡ ok a → k a ≡ ok b → k' a ≡ ok b)
      → (m >>= k) ≡ ok b
      → (m' >>= k') ≡ ok b
  bind-keeps (ok a) m' k k' b hm hk e = rw (hm a refl) (hk a refl e)
  bind-keeps (err x) m' k k' b hm hk e = cc

  bind-rejects :
      (m m' : Result DecFail A) (k k' : A → Result DecFail B)
      → ((a : A) → m ≡ ok a → m' ≡ ok a)
      → (m ≡ err corrupt → m' ≡ err corrupt)
      → ((a : A) → m ≡ ok a → k a ≡ err corrupt → k' a ≡ err corrupt)
      → (m >>= k) ≡ err corrupt
      → (m' >>= k') ≡ err corrupt
  bind-rejects (ok a) m' k k' hm hr hk e = rw (hm a refl) (hk a refl e)
  bind-rejects (err torn) m' k k' hm hr hk e = cc
  bind-rejects (err corrupt) m' k k' hm hr hk e = rw (hr refl)

  bind-bound :
      (m : Result DecFail A) (k : A → Result DecFail B) (b : B) (P : B → Type 0)
      → ((a : A) → m ≡ ok a → k a ≡ ok b → P b)
      → (m >>= k) ≡ ok b
      → P b
  bind-bound (ok a) k b P h e = h a refl e
  bind-bound (err x) k b P h e = cc

  -- The rule for `?`: the rest of the function starts where the first decoder stopped.
  pub Stable-bind :
      {from : ℕ} {used : A → ℕ} {used' : B → ℕ} {d : List ℕ → Result DecFail A}
      {k : A → List ℕ → Result DecFail B}
      → IsStable from used d
      → ((a : A) → IsStable (used a) used' (k a))
      → IsStable from used' (λ bs. d bs >>= λ a. k a bs)
  Stable-bind {used'} {d} {k} s t = record {
    keeps = λ bs more b le e. (
      bind-keeps (d bs) (d (bs ++ more)) _ _ b (λ a h. (s.keeps bs more a le h).0)
          (λ a h g. ((t a).keeps bs more b (s.keeps bs more a le h).1 g).0) e,
      bind-bound (d bs) _ b (λ c. used' c ≤ length bs)
          (λ a h g. ((t a).keeps bs more b (s.keeps bs more a le h).1 g).1) e,
    );
    rejects = λ bs more le e.
        bind-rejects (d bs) (d (bs ++ more)) _ _ (λ a h. (s.keeps bs more a le h).0)
          (s.rejects bs more le) (λ a h g. (t a).rejects bs more (s.keeps bs more a le h).1 g) e;
  }

module _ {ℓ} {A : Type ℓ} {used : A → ℕ} {d : List ℕ → Result DecFail A} where
  -- A proper prefix of an item that decodes to its very end is torn, and nothing else.
  pub torn_of_proper_prefix :
      IsStable 0 used d
      → (a : A) (x : ℕ) (front back : List ℕ) → d (front ++ (x ∷ back)) ≡ ok a
      → used a ≡ length (front ++ (x ∷ back))
      → d front ≡ err torn
  torn_of_proper_prefix s a x front back e h = go (d front) refl
    where
      go : (r : Result DecFail A) → d front ≡ r → d front ≡ err torn
      go (ok b) p =
          let (q, le) = s.keeps front (x ∷ back) b (omega arith) p in
          absurd (ground (arith, length-append front (x ∷ back)))
      go (err torn) p = p
      go (err corrupt) p = cc (s.rejects front (x ∷ back) (omega arith) p)
