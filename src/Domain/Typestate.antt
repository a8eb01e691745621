-- ===== src/Domain/Typestate.antt =====
-- The typestate of an order, generated/rust/order_typestate_generated.rs: a struct for each state with
-- the row's id, and a method for each edge that does not rewind.
use lean_rust_wasm.Prelude.{ℕ, ◌≡◌, ◌≢◌, refl, Option, none, some}
use lean_rust_wasm.Lifecycle.Order.{
  OrderStatus, cart, placed, shipped, delivered, cancelled, OrderEvent, step,
}

pub record Cart : Type 0 where
  pub row_id : ℕ

pub record Placed : Type 0 where
  pub row_id : ℕ

pub record Shipped : Type 0 where
  pub row_id : ℕ

pub record Delivered : Type 0 where
  pub row_id : ℕ

pub record Cancelled : Type 0 where
  pub row_id : ℕ

unfoldable pub place : Cart → Placed
place c = record { row_id = c.row_id }

unfoldable pub cancel_cart : Cart → Cancelled
cancel_cart c = record { row_id = c.row_id }

unfoldable pub ship : Placed → Shipped
ship p = record { row_id = p.row_id }

unfoldable pub cancel_placed : Placed → Cancelled
cancel_placed p = record { row_id = p.row_id }

unfoldable pub deliver : Shipped → Delivered
deliver s = record { row_id = s.row_id }

pub data Typestate : Type 0 where
  a_cart : Cart → Typestate
  a_placed : Placed → Typestate
  a_shipped : Shipped → Typestate
  a_delivered : Delivered → Typestate
  a_cancelled : Cancelled → Typestate

-- The method that an event calls, if the struct has it.
abbrev pub method : Typestate → OrderEvent → Option Typestate
method (a_cart c) OrderEvent.place = some (a_placed (place c))
method (a_cart c) OrderEvent.cancel = some (a_cancelled (cancel_cart c))
method (a_placed p) OrderEvent.ship = some (a_shipped (ship p))
method (a_placed p) OrderEvent.cancel = some (a_cancelled (cancel_placed p))
method (a_shipped s) OrderEvent.deliver = some (a_delivered (deliver s))
method _ _ = none

abbrev pub status : Typestate → OrderStatus
status (a_cart c) = cart
status (a_placed p) = placed
status (a_shipped s) = shipped
status (a_delivered d) = delivered
status (a_cancelled c) = cancelled

abbrev pub row_of : Typestate → ℕ
row_of (a_cart c) = c.row_id
row_of (a_placed p) = p.row_id
row_of (a_shipped s) = s.row_id
row_of (a_delivered d) = d.row_id
row_of (a_cancelled c) = c.row_id

abbrev pub status_of : Option Typestate → Option OrderStatus
status_of none = none
status_of (some t) = some (status t)

-- The methods are the machine's steps that do not rewind: there is one exactly where the machine
-- accepts the event, and it leads to the struct of the machine's next status.
pub method-step :
    (t : Typestate) (e : OrderEvent)
    → e ≢ OrderEvent.reset
    → status_of (method t e) ≡ step (status t) e
unfolding step
method-step (a_cart c) OrderEvent.place h = refl
method-step (a_cart c) OrderEvent.ship h = refl
method-step (a_cart c) OrderEvent.deliver h = refl
method-step (a_cart c) OrderEvent.cancel h = refl
method-step (a_placed c) OrderEvent.place h = refl
method-step (a_placed c) OrderEvent.ship h = refl
method-step (a_placed c) OrderEvent.deliver h = refl
method-step (a_placed c) OrderEvent.cancel h = refl
method-step (a_shipped c) OrderEvent.place h = refl
method-step (a_shipped c) OrderEvent.ship h = refl
method-step (a_shipped c) OrderEvent.deliver h = refl
method-step (a_shipped c) OrderEvent.cancel h = refl
method-step (a_delivered c) OrderEvent.place h = refl
method-step (a_delivered c) OrderEvent.ship h = refl
method-step (a_delivered c) OrderEvent.deliver h = refl
method-step (a_delivered c) OrderEvent.cancel h = refl
method-step (a_cancelled c) OrderEvent.place h = refl
method-step (a_cancelled c) OrderEvent.ship h = refl
method-step (a_cancelled c) OrderEvent.deliver h = refl
method-step (a_cancelled c) OrderEvent.cancel h = refl
method-step t OrderEvent.reset h = absurd (h refl)
