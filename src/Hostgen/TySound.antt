-- ===== src/Hostgen/TySound.antt =====
-- What `parse_ty_at` of hostgen.rs lets through: the gates on a type, and the bound on its depth.
use lean_rust_wasm.Prelude.{
  ℕ, zero, suc, ◌≤◌, ◌<◌, ◌^◌, ◌≡◌, refl, sym, ap, ◌∙◌, subst, List, [], ◌∷◌, length, Bool, true,
  false, Option, none, some, ok, ◌>>=◌, Ensures, Ensures-anyway, Ensures->>=, Ensures-ok, ok_or,
  All, arith, if◌then◌else◌, Bool-cases, inl, inr,
}
use lean_rust_wasm.Text.{Text, codes, lookup, same, is_alnum, is_digit, run, past}
use lean_rust_wasm.Text.Cuts.{differs}
use lean_rust_wasm.Text.Decimal.{parse_u64, parse_digits}
use lean_rust_wasm.Hostgen.{
  Ty, Head, atom, arg, set_head, map_head, result_head, ty_head, tensor_head, heads, Message,
  ParseTy, gate, expect, parse_ty_at, parse_ty_text, parse_dims, parse_head, parse_ty_ref,
  is_key_ty, expected_open, expected_close, expected_comma, expected_semicolon, set_not_key,
  map_not_key, bad_tensor_dim,
}
use lean_rust_wasm.Hostgen.Writer.{depth, max_depth}

-- Map keys and set elements are scalars, names are not empty, dimensions are `u64`.
abbrev pub Gated : Ty → Type 0
Gated (Ty.option t) = Gated t
Gated (Ty.result t u) = Gated t × Gated u
Gated (Ty.list t) = Gated t
Gated (Ty.map t u) = (is_key_ty t ≡ true) × (Gated t × Gated u)
Gated (Ty.set t) = (is_key_ty t ≡ true) × Gated t
Gated (Ty.future t) = Gated t
Gated (Ty.stream t) = Gated t
Gated (Ty.tensor ds t) = All (λ d. d < 2 ^ 64) ds × Gated t
Gated (Ty.named n) = same n [] ≡ false
Gated t = Unit

abbrev Sound : ℕ → Ty → Type 0
Sound n t = Gated t × (depth t < n)

abbrev HeadOk : Head → Type 0
HeadOk (atom t) = Gated t × (depth t ≡ 0)
HeadOk (arg wrap) = (t : Ty) → Gated t → Gated (wrap t) × (depth (wrap t) ≡ suc (depth t))
HeadOk head = Unit

wrapper :
    (wrap : Ty → Ty)
    → ((t : Ty) → Gated t → Gated (wrap t) × (depth (wrap t) ≡ suc (depth t)))
    → HeadOk (arg wrap)
wrapper wrap h = h

heads-HeadOk : All (λ e. HeadOk e.1) heads
heads-HeadOk = (
  (tt, refl),
  (
    (tt, refl),
    (
      (tt, refl),
      (
        (tt, refl),
        (
          (tt, refl),
          (
            (tt, refl),
            (
              (tt, refl),
              (
                (tt, refl),
                (
                  (tt, refl),
                  (
                    (tt, refl),
                    (
                      (tt, refl),
                      (
                        (tt, refl),
                        (
                          (tt, refl),
                          (
                            (λ t g. (g, refl)),
                            (
                              (λ t g. (g, refl)),
                              (
                                (λ t g. (g, refl)),
                                ((λ t g. (g, refl)), (tt, (tt, (tt, (tt, (tt, tt)))))),
                              ),
                            ),
                          ),
                        ),
                      ),
                    ),
                  ),
                ),
              ),
            ),
          ),
        ),
      ),
    ),
  ),
)

some_injective : {A : Type 0} → {x y : A} → some x ≡ some y → x ≡ y
some_injective h = cc

lookup-HeadOk :
    (k : Text) (es : List (Text × Head)) (head : Head)
    → All (λ e. HeadOk e.1) es
    → lookup k es ≡ some head
    → HeadOk head
lookup-HeadOk k [] head hs h = cc
lookup-HeadOk k ((j, v) ∷ es) head (hv, hs) h =
    let at : Bool → Option Head = λ b. if b then some v else lookup k es in
    elim (Bool-cases (same j k)) [
      | inl e ↦ subst HeadOk (some_injective (sym (ap at e) ∙ h)) hv
      | inr e ↦ lookup-HeadOk k es head hs (sym (ap at e) ∙ h)
    ]

parse_digits_below : (t : Text) (d : ℕ) → parse_digits t ≡ some d → d < 2 ^ 64
parse_digits_below [] d h = cc
parse_digits_below (c ∷ cs) d h = ground arith

parse_u64_below :
    (t : Text) (found : Option ℕ)
    → parse_u64 t ≡ found
    → Ensures (λ d. d < 2 ^ 64) (ok_or found bad_tensor_dim)
unfolding parse_u64
parse_u64_below t none h = tt
parse_u64_below [] (some d) h = cc
parse_u64_below (c ∷ cs) (some d) h =
    ground (arith, parse_digits_below cs d, parse_digits_below (c ∷ cs) d)

gate-key : (why : Message) (t : Ty) → Ensures (λ k. (k ≡ t) × (is_key_ty k ≡ true)) (gate why t)
gate-key why t = elim (Bool-cases (is_key_ty t)) [ inl e ↦ rw e (refl, e) | inr e ↦ rw e tt ]

abbrev Below : (List ℕ × Text) → Type 0
Below p = All (λ d. d < 2 ^ 64) p.0

parse_dims-Below : (n : ℕ) (cs : Text) → Ensures Below (parse_dims n cs)
unfolding parse_dims
parse_dims-Below zero cs = tt
parse_dims-Below (suc n) cs = elim (Bool-cases (same (run is_digit cs) [])) [
  | inl e ↦ rw e tt
  | inr e ↦ rw e (
      Ensures->>= (λ d. d < 2 ^ 64) Below (ok_or (parse_u64 (run is_digit cs)) bad_tensor_dim) _
        (parse_u64_below (run is_digit cs) (parse_u64 (run is_digit cs)) refl)
        (λ d h. Ensures-anyway Below (expect 59 expected_semicolon (past is_digit cs)) _ (λ later.
          Ensures->>= Below Below (parse_dims n later) _ (parse_dims-Below n later)
            (λ p hs. (h, hs)))))
]

left_le : (a b n : ℕ) → a < n → b < n → suc (max_depth a b) < suc n
left_le a b n ha hb = ground arith

module _ (n : ℕ) (inner : Text → ParseTy Ty)
    (deep : (cs : Text) → Ensures (λ p. Sound n p.0) (inner cs)) where
  abbrev Shallow : (Ty × Text) → Type 0
  Shallow p = Sound (suc n) p.0

  -- A character, and then a type that the recursion reads.
  next_type :
      (c : ℕ) (why : Message) (rest : Text) (next : (Ty × Text) → ParseTy Ty)
      → ((p : Ty × Text) → Sound n p.0 → Ensures Shallow (next p))
      → Ensures Shallow (expect c why rest >>= λ body. inner body >>= next)
  next_type c why rest next later =
      Ensures-anyway Shallow (expect c why rest) _
        (λ body. Ensures->>= (λ p. Sound n p.0) Shallow (inner body) next (deep body) later)

  -- The closing bracket.
  close_with :
      (why : Message) (t : Ty) (r : Text)
      → Sound (suc n) t
      → Ensures Shallow (expect 41 why r >>= λ after. ok (t, after))
  close_with why t r h = Ensures-anyway Shallow (expect 41 why r) _ (λ after. h)

  parse_ty_ref-Shallow : (body : Text) → Ensures Shallow (parse_ty_ref body)
  parse_ty_ref-Shallow body =
      let name = run (differs 41) body in
      Ensures-anyway Shallow (expect 41 (expected_close (codes "ty")) (past (differs 41) body)) _
        (λ rest. elim (Bool-cases (same name [])) [
          | inl e ↦ rw e tt
          | inr e ↦ rw e (e, omega arith)
        ])

  parse_head-Shallow :
      (kw rest : Text) (found : Option Head)
      → ((head : Head) → found ≡ some head → HeadOk head)
      → Ensures Shallow (parse_head inner kw rest found)
  parse_head-Shallow kw rest none known = tt
  parse_head-Shallow kw rest (some (atom a)) known =
      let (g, flat) = known (atom a) refl in (g, omega (arith, flat))
  parse_head-Shallow kw rest (some (arg wrap)) known =
      next_type 40 (expected_open kw) rest _ (λ (t, r) (g, d).
        let (gw, dw) = known (arg wrap) refl t g in
        close_with (expected_close kw) (wrap t) r (gw, omega (arith, dw)))
  parse_head-Shallow kw rest (some set_head) known =
      next_type 40 (expected_open kw) rest _ (λ (t, r) (g, d).
        Ensures->>= (λ k. (k ≡ t) × (is_key_ty k ≡ true)) Shallow (gate set_not_key t) _
          (gate-key set_not_key t)
          (λ k (same_ty, key). close_with (expected_close kw) (Ty.set k) r (
            subst (λ x. Sound (suc n) (Ty.set x)) (sym same_ty)
              ((subst (λ x. is_key_ty x ≡ true) same_ty key, g), omega arith))))
  parse_head-Shallow kw rest (some map_head) known =
      next_type 40 (expected_open kw) rest _ (λ (t, r) (g, d).
        Ensures->>= (λ k. (k ≡ t) × (is_key_ty k ≡ true)) Shallow (gate map_not_key t) _
          (gate-key map_not_key t)
          (λ k (same_ty, key). next_type 44 (expected_comma kw) r _ (λ (u, s) (gu, du).
            close_with (expected_close kw) (Ty.map k u) s (
              subst (λ x. Sound (suc n) (Ty.map x u)) (sym same_ty)
                (
                  (subst (λ x. is_key_ty x ≡ true) same_ty key, (g, gu)),
                  left_le (depth t) (depth u) n d du,
                )))))
  parse_head-Shallow kw rest (some result_head) known =
      next_type 40 (expected_open kw) rest _ (λ (t, r) (g, d).
        next_type 44 (expected_comma kw) r _ (λ (u, s) (gu, du).
          close_with (expected_close kw) (Ty.result t u) s
            ((g, gu), left_le (depth t) (depth u) n d du)))
  parse_head-Shallow kw rest (some ty_head) known =
      Ensures-anyway Shallow (expect 40 (expected_open kw) rest) _ parse_ty_ref-Shallow
  parse_head-Shallow kw rest (some tensor_head) known =
      Ensures-anyway Shallow (expect 40 (expected_open kw) rest) _ (λ body.
        Ensures->>= Below Shallow (parse_dims (length body) body) _
          (parse_dims-Below (length body) body)
          (λ (ds, r) hd.
            Ensures->>= (λ p. Sound n p.0) Shallow (inner r) _ (deep r)
              (λ (t, s) (g, d).
                close_with (expected_close kw) (Ty.tensor ds t) s ((hd, g), omega arith))))

parse_ty_at-Ensures : (n : ℕ) (cs : Text) → Ensures (λ p. Sound n p.0) (parse_ty_at n cs)
unfolding parse_ty_at
parse_ty_at-Ensures zero cs = tt
parse_ty_at-Ensures (suc n) cs =
    parse_head-Shallow n (parse_ty_at n) (parse_ty_at-Ensures n) (run is_alnum cs)
      (past is_alnum cs) (lookup (run is_alnum cs) heads)
      (λ head e. lookup-HeadOk (run is_alnum cs) heads head heads-HeadOk e)

parse_ty_text-Ensures : (cs : Text) → Ensures (Sound 65) (parse_ty_text cs)
unfolding parse_ty_text
parse_ty_text-Ensures cs =
    Ensures->>= (λ p. Sound 65 p.0) (Sound 65) (parse_ty_at 65 cs) _ (parse_ty_at-Ensures 65 cs)
      (λ (t, rest) h. elim (Bool-cases (same rest [])) [ inl e ↦ rw e h | inr e ↦ rw e tt ])

-- A type that `parse_ty_text` reads has scalar keys in its maps and sets, no empty name, 64-bit
-- tensor dimensions, and nests at most 64 deep.
pub parse_ty_text-Gated : (cs : Text) (t : Ty) → parse_ty_text cs ≡ ok t → Gated t × (depth t ≤ 64)
parse_ty_text-Gated cs t h =
    let (g, d) = Ensures-ok (Sound 65) (parse_ty_text cs) t (parse_ty_text-Ensures cs) h in
    (g, omega arith)
