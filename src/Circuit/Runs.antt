-- ===== src/Circuit/Runs.antt =====
-- Small streams, and the theorems on circuits at them.
use lean_rust_wasm.Prelude.{zero, suc, ◌≡◌, refl, arith}
use lean_rust_wasm.Circuit.{
  i, Stream, add, sub, integral, incremental, feedback, integrated, lift_val, paired, eval,
  demo_line_total, demo_double, order_total_circuit, order_total_incremental,
}
use lean_rust_wasm.Circuit.Causal.{eval-feedback, Agree}
use lean_rust_wasm.Circuit.Incremental.{Words, order_total_incremental-eval}

abbrev threes : Stream
threes n = i 3

threes-Words : Words threes
threes-Words n = (3, refl, omega arith)

third_total : eval order_total_circuit threes 2 ≡ i 54
unfolding eval integrated add lift_val demo_line_total demo_double
third_total = refl

third_change : eval order_total_incremental threes 2 ≡ i 162
unfolding eval integrated add sub lift_val demo_line_total demo_double
third_change = refl

order_total_incremental-eval_example :
    eval order_total_incremental threes 2 ≡ eval (incremental order_total_circuit) threes 2
order_total_incremental-eval_example = order_total_incremental-eval threes threes-Words 2

abbrev late : Stream
late zero = i 3
late (suc zero) = i 3
late (suc (suc n)) = i 9

threes-Agree : Agree 1 threes late
threes-Agree zero le = refl
threes-Agree (suc zero) le = refl
threes-Agree (suc (suc n)) le = absurd (omega arith)

eval-feedback_example :
    eval (feedback integral) threes 2
    ≡ eval integral (paired threes (eval (feedback integral) threes)) 2
eval-feedback_example = eval-feedback integral threes 2
