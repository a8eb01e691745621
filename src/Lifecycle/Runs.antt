-- ===== src/Lifecycle/Runs.antt =====
-- Runs of the generated machines, and the theorems at concrete inputs.
use lean_rust_wasm.Prelude.{refl, List, [], ◌∷◌}
use lean_rust_wasm.Lifecycle.{Run, rest, fire}
use lean_rust_wasm.Lifecycle.Order
use lean_rust_wasm.Lifecycle.Order.{
  OrderStatus, OrderEvent, cart, placed, shipped, delivered, cancelled, stray, place, ship, deliver,
  cancel, Run-ne-stray, delivery_path, delivery_reachable,
}
use lean_rust_wasm.Lifecycle.Pipeline
use lean_rust_wasm.Lifecycle.Pipeline.{
  PipelineStage, PipelineEvent, idle, tied, failed, reflect, check, emit, tie, failed_rests,
  tie_path,
}

delivery : Run Order.step cart (place ∷ ship ∷ deliver ∷ []) delivered
unfolding Order.step
delivery = fire place refl (fire ship refl (fire deliver refl (rest delivered)))

cancellation : Run Order.step cart (place ∷ cancel ∷ []) cancelled
unfolding Order.step
cancellation = fire place refl (fire cancel refl (rest cancelled))

recovery : Run Pipeline.step (failed (116 ∷ [])) (Pipeline.reset ∷ []) idle
unfolding Pipeline.step
recovery = fire Pipeline.reset refl (rest idle)

all_stages : Run Pipeline.step idle (reflect ∷ check ∷ emit ∷ tie ∷ []) tied
unfolding Pipeline.step
all_stages = fire reflect refl (fire check refl (fire emit refl (fire tie refl (rest tied))))

delivery_reachable_example : (es : List OrderEvent) × Run Order.step cancelled es delivered
delivery_reachable_example = delivery_reachable cancelled
