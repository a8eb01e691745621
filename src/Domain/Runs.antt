-- ===== src/Domain/Runs.antt =====
-- Rows of the demo schema, and the theorems on the ticks at them.
use lean_rust_wasm.Prelude.{◌≡◌, refl, [], ◌∷◌, true, false}
use lean_rust_wasm.Text.{codes}
use lean_rust_wasm.Domain.{User, Flag, tick_user, tick_flag, validate_user, validate_flag}
use lean_rust_wasm.Domain.Ticks.{verdicts, tick_flag_valid, tick_user_valid}

abbrev ann : User
ann = record { id = 101; name = codes "anna"; email = codes "a@b"; tags = [] }

abbrev beta : Flag
beta = record { id = 1; key = codes "beta"; enabled = true; rollout = 250; tags = [] }

-- A user with a small id, and a flag without a key.
abbrev bob : User
bob = record { id = 7; name = codes "bobby"; email = codes "b@c"; tags = [] }

abbrev keyless : Flag
keyless = record { id = 2; key = []; enabled = true; rollout = 250; tags = [] }

-- The user is valid before the tick.
ann_valid : validate_user ann ≡ true
unfolding validate_user
ann_valid = refl

tick_flag_valid_example :
    (verdicts validate_flag (tick_flag (keyless ∷ beta ∷ [])) ≡ false ∷ true ∷ [])
    × (tick_flag (tick_flag (keyless ∷ beta ∷ [])) ≡ tick_flag (keyless ∷ beta ∷ []))
tick_flag_valid_example = tick_flag_valid (keyless ∷ beta ∷ [])

tick_user_valid_example :
    verdicts validate_user (tick_user (bob ∷ ann ∷ bob ∷ [])) ≡ true ∷ false ∷ true ∷ []
unfolding validate_user
tick_user_valid_example = tick_user_valid (bob ∷ ann ∷ bob ∷ [])
