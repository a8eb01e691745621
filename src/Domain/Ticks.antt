-- ===== src/Domain/Ticks.antt =====
-- What a tick of the generated updates does to the rows, and to their invariants.
use lean_rust_wasm.Prelude.{
  ◌≡◌, refl, sym, ap, ◌∙◌, List, [], ◌∷◌, Bool, ◌&&◌, Bool-cases, inl, inr, ltb, if◌then◌else◌,
  arith,
}
use lean_rust_wasm.Text.{not}
use lean_rust_wasm.Domain.{
  User, Flag, len, each_row, with_rollout, reset_id, echo_email, self_bump, rollout_clamp, key_echo,
  tick_user, tick_flag, validate_user, validate_flag, check_key_nonempty,
}

each_row-each_row :
    {A : Type 0}
    → (f g h : A → A) → ((r : A) → f (g r) ≡ h r)
    → (rows : List A) → each_row f (each_row g rows) ≡ each_row h rows
each_row-each_row f g h same [] = refl
each_row-each_row f g h same (r ∷ rows) = rw (same r, each_row-each_row f g h same rows) refl

key_echo_same : (r : Flag) → key_echo r ≡ r
unfolding key_echo
key_echo_same r = elim (Bool-cases (ltb 0 (len r.key))) [ inl e ↦ rw e refl | inr e ↦ rw e refl ]

clamp : Flag → Flag
clamp r = with_rollout r (if ltb 100 r.rollout then 100 else r.rollout)

clamped : (r : Flag) → rollout_clamp r ≡ clamp r
unfolding rollout_clamp clamp
clamped r = elim (Bool-cases (ltb 100 r.rollout)) [ inl e ↦ rw e refl | inr e ↦ rw e refl ]

clamp_twice : (r : Flag) → clamp (clamp r) ≡ clamp r
unfolding clamp
clamp_twice r = elim (Bool-cases (ltb 100 r.rollout)) [
  | inl e ↦ rw e refl
  | inr e ↦ rw e (rw e refl)
]

ticked : (rows : List Flag) → tick_flag rows ≡ each_row clamp rows
unfolding tick_flag
ticked rows =
    each_row-each_row key_echo rollout_clamp clamp
      (λ r. key_echo_same (rollout_clamp r) ∙ clamped r) rows

clamp_valid : (r : Flag) → validate_flag (clamp r) ≡ check_key_nonempty r
unfolding validate_flag clamp
clamp_valid r = elim (Bool-cases (ltb 100 r.rollout)) [
  | inl e ↦ rw e (ground arith)
  | inr e ↦ rw e (ground arith)
]

-- The verdict of a test on each row.
abbrev pub verdicts {ℓ} : {A : Type ℓ} → (A → Bool) → List A → List Bool
verdicts test [] = []
verdicts test (r ∷ rows) = test r ∷ verdicts test rows

clamps_valid :
    (rows : List Flag)
    → verdicts validate_flag (each_row clamp rows) ≡ verdicts check_key_nonempty rows
clamps_valid [] = refl
clamps_valid (r ∷ rows) = rw (clamp_valid r, clamps_valid rows) refl

-- After a tick of any table a flag is valid exactly when it has a key, row by row and whatever the
-- rollouts were, and another tick changes nothing.
pub tick_flag_valid :
    (rows : List Flag)
    → (verdicts validate_flag (tick_flag rows) ≡ verdicts check_key_nonempty rows)
      × (tick_flag (tick_flag rows) ≡ tick_flag rows)
tick_flag_valid rows = (
  ap (verdicts validate_flag) (ticked rows) ∙ clamps_valid rows,
  ticked (tick_flag rows)
      ∙ ap (each_row clamp) (ticked rows)
      ∙ each_row-each_row clamp clamp clamp clamp_twice rows
      ∙ sym (ticked rows),
)

echo_id : (u : User) → (echo_email u).id ≡ u.id
unfolding echo_email
echo_id u = elim (Bool-cases (ltb 3 (len u.name))) [ inl e ↦ rw e refl | inr e ↦ rw e refl ]

echo_name : (u : User) → (echo_email u).name ≡ u.name
unfolding echo_email
echo_name u = elim (Bool-cases (ltb 3 (len u.name))) [ inl e ↦ rw e refl | inr e ↦ rw e refl ]

-- A valid user whose id a tick leaves alone.
abbrev pub stays_valid : User → Bool
stays_valid r = validate_user r && not (ltb 100 r.id)

echo_valid : (u : User) → validate_user (self_bump (echo_email u)) ≡ validate_user u
unfolding validate_user self_bump
echo_valid u = rw (echo_id u, echo_name u) refl

reset_valid : (r : User) → validate_user (reset_id r) ≡ stays_valid r
unfolding validate_user reset_id
reset_valid r = elim (Bool-cases (ltb 100 r.id)) [
  | inl e ↦ rw e (ground arith)
  | inr e ↦ rw e (ground arith)
]

-- After a tick of any table a user is valid exactly when it was valid with an id of at most 100, row by
-- row: the tick resets a larger id to zero, which the invariant on ids excludes.
pub tick_user_valid :
    (rows : List User) → verdicts validate_user (tick_user rows) ≡ verdicts stays_valid rows
unfolding tick_user
tick_user_valid [] = refl
tick_user_valid (r ∷ rows) = rw (echo_valid (reset_id r), reset_valid r, tick_user_valid rows) refl
