-- ===== src/Lifecycle/Order.antt =====
-- The lifecycle of an order, generated/rust/order_machine_generated.rs, and its runs.
use lean_rust_wasm.Prelude.{◌≡◌, ◌≢◌, refl, ap, ◌∙◌, List, [], ◌∷◌, All, arith, Option, none, some}
use lean_rust_wasm.Lifecycle.{Run, rest, fire, onward}

pub data OrderStatus : Type 0 where
  cart placed shipped delivered cancelled stray : OrderStatus

pub data OrderEvent : Type 0 where
  place ship deliver cancel reset : OrderEvent

unfoldable pub step : OrderStatus → OrderEvent → Option OrderStatus
step cart place = some placed
step placed ship = some shipped
step shipped deliver = some delivered
step cart cancel = some cancelled
step placed cancel = some cancelled
step _ reset = some cart
step _ _ = none

step-ne-stray : (s : OrderStatus) (e : OrderEvent) → step s e ≢ some stray
unfolding step
step-ne-stray s e = λ h. ground arith

-- No order goes astray: a run from any status but stray ends in another.
pub Run-ne-stray :
    {s t : OrderStatus} {es : List OrderEvent} → s ≢ stray → Run step s es t → t ≢ stray
Run-ne-stray h (rest s) = h
Run-ne-stray h (fire {s} {t} e accepted run) =
    Run-ne-stray (λ same. step-ne-stray s e (accepted ∙ ap some same)) run

abbrev pub NoReset : List OrderEvent → Type 0
NoReset es = All (λ e. e ≢ reset) es

from_delivered :
    {es : List OrderEvent} {t : OrderStatus} → NoReset es → Run step delivered es t → es ≡ []
unfolding step
from_delivered n (rest s) = refl
from_delivered n (fire place h r) = cc
from_delivered n (fire ship h r) = cc
from_delivered n (fire deliver h r) = cc
from_delivered n (fire cancel h r) = cc
from_delivered n (fire reset h r) = absurd (n.0 refl)

-- From each status on the way, the only runs to a delivery that do not reset.
from_shipped :
    {es : List OrderEvent} → NoReset es → Run step shipped es delivered → es ≡ deliver ∷ []
unfolding step
from_shipped n (fire place h r) = cc
from_shipped n (fire ship h r) = cc
from_shipped n (fire deliver h r) = ap (λ es. deliver ∷ es) (from_delivered n.1 (onward h r))
from_shipped n (fire cancel h r) = cc
from_shipped n (fire reset h r) = absurd (n.0 refl)

from_cancelled :
    {es : List OrderEvent} {t : OrderStatus} → NoReset es → Run step cancelled es t → t ≡ cancelled
unfolding step
from_cancelled n (rest s) = refl
from_cancelled n (fire place h r) = cc
from_cancelled n (fire ship h r) = cc
from_cancelled n (fire deliver h r) = cc
from_cancelled n (fire cancel h r) = cc
from_cancelled n (fire reset h r) = absurd (n.0 refl)

from_placed :
    {es : List OrderEvent} → NoReset es → Run step placed es delivered → es ≡ ship ∷ deliver ∷ []
unfolding step
from_placed n (fire place h r) = cc
from_placed n (fire ship h r) = ap (λ es. ship ∷ es) (from_shipped n.1 (onward h r))
from_placed n (fire deliver h r) = cc
from_placed n (fire cancel h r) =
    let same : delivered ≡ cancelled = from_cancelled n.1 (onward h r) in cc same
from_placed n (fire reset h r) = absurd (n.0 refl)

-- Without a reset, the only way from a cart to a delivery is to place, ship and deliver.
pub delivery_path :
    {es : List OrderEvent}
    → NoReset es
    → Run step cart es delivered
    → es ≡ place ∷ ship ∷ deliver ∷ []
unfolding step
delivery_path n (fire place h r) = ap (λ es. place ∷ es) (from_placed n.1 (onward h r))
delivery_path n (fire ship h r) = cc
delivery_path n (fire deliver h r) = cc
delivery_path n (fire cancel h r) =
    let same : delivered ≡ cancelled = from_cancelled n.1 (onward h r) in cc same
delivery_path n (fire reset h r) = absurd (n.0 refl)

from_reset : (s : OrderStatus) → step s reset ≡ some cart
unfolding step
from_reset cart = refl
from_reset placed = refl
from_reset shipped = refl
from_reset delivered = refl
from_reset cancelled = refl
from_reset stray = refl

-- From every status, stray ones too, a delivery is within reach: a reset, and the way from the cart.
pub delivery_reachable : (s : OrderStatus) → (es : List OrderEvent) × Run step s es delivered
unfolding step
delivery_reachable s = (
  reset ∷ place ∷ ship ∷ deliver ∷ [],
  fire reset (from_reset s) (fire place refl (fire ship refl (fire deliver refl (rest delivered)))),
)
