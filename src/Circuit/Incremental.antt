-- ===== src/Circuit/Incremental.antt =====
-- The incremental form of the order-total circuit of circuit_generated.rs.
use lean_rust_wasm.Prelude.{ℕ, zero, suc, ◌+◌, ◌%◌, ◌<◌, ◌≡◌, refl, sym, ap, ◌∙◌, arith}
use lean_rust_wasm.Circuit.{
  i, Stream, word, val_zero, add, sub, incremental, delayed, integrated, lift_val, eval,
  demo_line_total, demo_double, order_total_circuit, order_total_incremental,
}

-- A stream of `i64`s.
abbrev pub Words : Stream → Type 0
Words s = (n : ℕ) → (x : ℕ) × (s n ≡ i x) × (x < word)

integrated-Words : (s : Stream) → Words s → Words (integrated s)
unfolding integrated add
integrated-Words s h zero = let (x, e, lt) = h 0 in ((0 + x) % word, rw e refl, omega arith)
integrated-Words s h (suc n) =
    let (x, e, lt) = h (suc n) in
    let (a, ea, la) = integrated-Words s h n in ((a + x) % word, rw (ea, e) refl, omega arith)

lift-Words :
    (f : ℕ → ℕ) (s : Stream) → ((x : ℕ) → f x < word) → Words s → Words (λ n. lift_val f (s n))
unfolding lift_val
lift-Words f s below h n = let (x, e, lt) = h n in (f x, rw e refl, below x)

sub-add : (a x : ℕ) → a < word → x < word → sub (add (i a) (i x)) (i a) ≡ i x
unfolding sub add
sub-add a x ha hx = ap i (omega arith)

-- The differences of the sums are the stream.
derivative_integrated :
    (u : Stream) → Words u → (n : ℕ) → sub (integrated u n) (delayed (integrated u) n) ≡ u n
unfolding integrated
derivative_integrated u h zero = let (x, e, lt) = h 0 in rw e (sub-add 0 x (omega arith) lt)
derivative_integrated u h (suc n) =
    let (x, e, lt) = h (suc n) in
    let (a, ea, la) = integrated-Words u h n in rw (ea, e) (sub-add a x la lt)

double_difference :
    (a b : ℕ)
    → a < word
    → b < word
    → add (lift_val demo_double (i a)) (lift_val demo_double (sub (i b) (i a)))
      ≡ lift_val demo_double (i b)
unfolding add sub lift_val demo_double
double_difference a b ha hb = ap i (omega arith)

double_start :
    (b : ℕ)
    → b < word
    → add val_zero (lift_val demo_double (sub (i b) val_zero)) ≡ lift_val demo_double (i b)
unfolding add sub lift_val demo_double
double_start b hb = ap i (omega arith)

-- Doubling is linear: the sum of the doubled differences is the double.
integrated_double :
    (v : Stream)
    → Words v
    → (n : ℕ)
    → integrated (λ m. lift_val demo_double (sub (v m) (delayed v m))) n
      ≡ lift_val demo_double (v n)
unfolding integrated
integrated_double v h zero = let (b, e, lt) = h 0 in rw e (double_start b lt)
integrated_double v h (suc n) =
    let (b, e, lb) = h (suc n) in
    let (a, ea, la) = h n in
    let later = lift_val demo_double (sub (v (suc n)) (v n)) in
    ap (λ x. add x later) (integrated_double v h n) ∙ rw (ea, e) (double_difference a b la lb)

square_below : (x : ℕ) → demo_line_total x < word
unfolding demo_line_total
square_below x = omega arith

double_below : (x : ℕ) → demo_double x < word
unfolding demo_double
double_below x = omega arith

-- On a stream of `i64`s the incremental form of the order-total circuit, in which only the square is
-- made incremental, computes at each tick what the incremental form of the whole circuit computes:
-- the differences of the batch results over the running sums.
pub order_total_incremental-eval :
    (s : Stream)
    → Words s
    → (n : ℕ) → eval order_total_incremental s n ≡ eval (incremental order_total_circuit) s n
unfolding eval
order_total_incremental-eval s h n =
    let sums = integrated s in
    let squares : Stream = λ m. lift_val demo_line_total (sums m) in
    let squares_ok = lift-Words demo_line_total sums square_below (integrated-Words s h) in
    let doubled : Stream = λ m. lift_val demo_double (squares m) in
    integrated_double squares squares_ok n
    ∙ sym (derivative_integrated doubled (lift-Words demo_double squares double_below squares_ok) n)
