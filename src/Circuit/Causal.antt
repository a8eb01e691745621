-- ===== src/Circuit/Causal.antt =====
-- Causality of the evaluator of circuit_generated.rs, and what a feedback computes.
use lean_rust_wasm.Prelude.{ℕ, zero, suc, ◌≤◌, ◌<◌, ◌≡◌, refl, ap, ◌∙◌, arith}
use lean_rust_wasm.Circuit.{
  Val, p, Stream, val_zero, fst, snd, add, sub, Node, delay, derivative, integral, incremental,
  lift, seq, par, feedback, delayed, integrated, lift_val, paired, feed, eval,
}

-- The streams have the same values up to the tick.
abbrev pub Agree : ℕ → Stream → Stream → Type 0
Agree n s t = (j : ℕ) → j ≤ n → s j ≡ t j

-- A body whose value at a tick depends on the stream up to the tick alone.
abbrev pub IsCausal : (Stream → Stream) → Type 0
IsCausal body = (s t : Stream) (n : ℕ) → Agree n s t → body s n ≡ body t n

delayed-Agree : (s t : Stream) (n : ℕ) → Agree n s t → delayed s n ≡ delayed t n
delayed-Agree s t zero h = refl
delayed-Agree s t (suc n) h = h n (omega arith)

-- Below the tick, a delayed stream needs one tick less.
delayed_below :
    (s t : Stream) (n : ℕ) → ((j : ℕ) → j < n → s j ≡ t j) → Agree n (delayed s) (delayed t)
delayed_below s t n h zero le = refl
delayed_below s t n h (suc j) le = h j (omega arith)

integrated-Agree : (s t : Stream) (n : ℕ) → Agree n s t → integrated s n ≡ integrated t n
unfolding integrated
integrated-Agree s t zero h = ap (add val_zero) (h 0 (omega arith))
integrated-Agree s t (suc n) h =
    ap (λ v. add v (s (suc n))) (integrated-Agree s t n (λ j le. h j (omega arith)))
    ∙ ap (add (integrated t n)) (h (suc n) (omega arith))

sub_equal : {a b c d : Val} → a ≡ b → c ≡ d → sub a c ≡ sub b d
sub_equal e f = cc (e, f)

pair_equal : {a b c d : Val} → a ≡ b → c ≡ d → p a c ≡ p b d
pair_equal e f = cc (e, f)

-- Two feedbacks with any fuels above the tick.
feed-Agree :
    (body : Stream → Stream)
    → IsCausal body
    → (s t : Stream) (k l n : ℕ) → n < k
    → n < l
    → Agree n s t
    → feed body s k n ≡ feed body t l n
unfolding feed
feed-Agree body causal s t zero l n hk hl h = absurd (omega arith)
feed-Agree body causal s t (suc k) zero n hk hl h = absurd (omega arith)
feed-Agree body causal s t (suc k) (suc l) n hk hl h =
    causal (paired s (feed body s k)) (paired t (feed body t l)) n (λ j le. pair_equal (h j le) (
      delayed_below (feed body s k) (feed body t l) n
        (λ m lt.
          feed-Agree body causal s t k l m (omega arith) (omega arith) (λ q qle. h q (omega arith)))
        j le))

-- Every circuit is causal: its value at a tick depends on the input up to the tick alone.
pub eval-IsCausal : (node : Node) → IsCausal (eval node)
unfolding eval
eval-IsCausal delay s t n h = delayed-Agree s t n h
eval-IsCausal derivative s t n h = sub_equal (h n (omega arith)) (delayed-Agree s t n h)
eval-IsCausal integral s t n h = integrated-Agree s t n h
eval-IsCausal (incremental g) s t n h =
    let sums : Agree n (integrated s) (integrated t) =
      λ j le. integrated-Agree s t j (λ q qle. h q (omega arith)) in
    let values : Agree n (eval g (integrated s)) (eval g (integrated t)) =
      λ j le. eval-IsCausal g (integrated s) (integrated t) j (λ q qle. sums q (omega arith)) in
    sub_equal (values n (omega arith))
      (delayed-Agree (eval g (integrated s)) (eval g (integrated t)) n values)
eval-IsCausal (lift f) s t n h = ap (lift_val f) (h n (omega arith))
eval-IsCausal (seq f g) s t n h =
    eval-IsCausal g (eval f s) (eval f t) n
      (λ j le. eval-IsCausal f s t j (λ q qle. h q (omega arith)))
eval-IsCausal (par f g) s t n h =
    pair_equal (eval-IsCausal f (λ j. fst (s j)) (λ j. fst (t j)) n (λ j le. ap fst (h j le)))
      (eval-IsCausal g (λ j. snd (s j)) (λ j. snd (t j)) n (λ j le. ap snd (h j le)))
eval-IsCausal (feedback body) s t n h =
    feed-Agree (eval body) (eval-IsCausal body) s t (suc n) (suc n) n (omega arith) (omega arith) h

-- A feedback solves its equation: at each tick it is the body's value on the input paired with the
-- feedback's own delayed output.
pub eval-feedback :
    (body : Node) (s : Stream) (n : ℕ)
    → eval (feedback body) s n ≡ eval body (paired s (eval (feedback body) s)) n
unfolding eval feed
eval-feedback body s n =
    eval-IsCausal body (paired s (feed (eval body) s n)) (paired s (eval (feedback body) s)) n
      (λ j le. pair_equal refl (
        delayed_below (feed (eval body) s n) (eval (feedback body) s) n
          (λ m lt.
            feed-Agree (eval body) (eval-IsCausal body) s s n (suc m) m lt (omega arith)
              (λ q qle. refl))
          j le))
