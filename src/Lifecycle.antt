-- ===== src/Lifecycle.antt =====
-- The generated state machines, generated/rust/order_machine_generated.rs
-- and pipeline_generated.rs: a step is none where the machine refuses the event.
pub mod Order
pub mod Pipeline
mod Runs
use lean_rust_wasm.Prelude.{◌≡◌, subst, List, [], ◌∷◌, Option, none, some}

-- A run of a machine: each event in turn is accepted.
pub data Run {S E : Type 0} (step : S → E → Option S) : S → List E → S → Type 0 where
  rest : (s : S) → Run step s [] s
  fire :
      {s t u : S} {es : List E} (e : E)
      → step s e ≡ some t
      → Run step t es u
      → Run step s (e ∷ es) u

-- A run goes on from the state that the step is known to give.
pub onward :
    {S E : Type 0} {step : S → E → Option S} {t a u : S} {es : List E}
    → some a ≡ some t
    → Run step t es u
    → Run step a es u
onward {step} {t} {a} {u} {es} h r = let same : t ≡ a = cc h in subst (λ v. Run step v es u) same r
