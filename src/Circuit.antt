-- ===== src/Circuit.antt =====
-- The circuits over streams and their evaluator, generated/rust/circuit_generated.rs. An `i64` is its
-- 64 bits as a number: sums, differences and products wrap, as the release build has them.
pub mod Causal
pub mod Incremental
mod Runs
use lean_rust_wasm.Prelude.{ℕ, zero, suc, ◌+◌, ◌-◌, ◌*◌, ◌%◌, ◌^◌}

pub data Val : Type 0 where
  i : ℕ → Val
  p : Val → Val → Val

abbrev pub Stream : Type 0
Stream = ℕ → Val

abbrev pub word : ℕ
word = 2 ^ 64

abbrev pub val_zero : Val
val_zero = i 0

unfoldable pub fst : Val → Val
fst (p a b) = a
fst (i x) = i x

unfoldable pub snd : Val → Val
snd (p a b) = b
snd (i x) = i x

unfoldable pub add : Val → Val → Val
add (i x) (i y) = i ((x + y) % word)
add (p a b) (p c d) = p (add a c) (add b d)
add (i x) (p c d) = i x
add (p a b) (i y) = p a b

unfoldable pub sub : Val → Val → Val
sub (i x) (i y) = i ((x + (word - y)) % word)
sub (p a b) (p c d) = p (sub a c) (sub b d)
sub (i x) (p c d) = i x
sub (p a b) (i y) = p a b

pub data Node : Type 0 where
  delay derivative integral : Node
  incremental : Node → Node
  lift : (ℕ → ℕ) → Node
  seq : Node → Node → Node
  par : Node → Node → Node
  feedback : Node → Node

unfoldable pub demo_line_total : ℕ → ℕ
demo_line_total x = x * x % word

unfoldable pub demo_double : ℕ → ℕ
demo_double x = 2 * x % word

abbrev pub order_total_circuit : Node
order_total_circuit = seq (lift demo_line_total) (seq (lift demo_double) integral)

abbrev pub order_total_incremental : Node
order_total_incremental = seq (incremental (lift demo_line_total)) (seq (lift demo_double) integral)

-- The value before a tick, zero before the first.
abbrev pub delayed : Stream → Stream
delayed s zero = val_zero
delayed s (suc n) = s n

-- The sum of the stream up to a tick.
unfoldable pub integrated : Stream → Stream
integrated s zero = add val_zero (s 0)
integrated s (suc n) = add (integrated s n) (s (suc n))

unfoldable pub lift_val : (ℕ → ℕ) → Val → Val
lift_val f (i x) = i (f x)
lift_val f (p a b) = p a b

abbrev pub paired : Stream → Stream → Stream
paired s alpha j = p (s j) (delayed alpha j)

-- `go` of a feedback, with fuel: the answer for a tick asks for earlier ticks alone. The source's
-- memo holds answers that are computed already.
unfoldable pub feed : (Stream → Stream) → Stream → ℕ → Stream
feed body s zero n = val_zero
feed body s (suc k) n = body (paired s (feed body s k)) n

unfoldable pub eval : Node → Stream → Stream
eval delay s n = delayed s n
eval derivative s n = sub (s n) (delayed s n)
eval integral s n = integrated s n
eval (incremental g) s n = sub (eval g (integrated s) n) (delayed (eval g (integrated s)) n)
eval (lift f) s n = lift_val f (s n)
eval (seq f g) s n = eval g (eval f s) n
eval (par f g) s n = p (eval f (λ j. fst (s j)) n) (eval g (λ j. snd (s j)) n)
eval (feedback body) s n = feed (eval body) s (suc n) n
