-- ===== src/Guest/Calls.antt =====
-- What a guest is called with, and what a call costs, guestlang-rt/src/lib.rs.
use lean_rust_wasm.Prelude.{
  ℕ, ◌+◌, ◌≤◌, ◌<◌, ◌^◌, ◌≡◌, refl, sym, ◌∙◌, subst, List, length, Option, none, some, Result, err,
  ok, ◌>>=◌, ◌==◌, arith, Bool-cases, inl, inr,
}
use lean_rust_wasm.Prelude.Int.{ℤ, InRange}
use lean_rust_wasm.Text.{Text}
use lean_rust_wasm.Value.Zigzag.{as_signed_self}
use lean_rust_wasm.Guest.{
  Interpreter, RtError, Runtime, Val, ValType, i32_ty, i64_ty, other_ty, coerce_arg, coerce_args,
  scalar, call, call_found, call_fueled, answer, sub_u64, scalars, with_store, lift_err, trap,
}

-- An argument that the parameter's type can hold.
abbrev pub Holds : ValType → ℤ → Type 0
Holds i32_ty a = InRange (2 ^ 31) a
Holds t a = Unit

-- A scalar survives its coercion to the parameter's type, and back.
pub scalar-coerce_arg : (t : ValType) (a : ℤ) → Holds t a → scalar (coerce_arg t a) ≡ a
unfolding scalar coerce_arg
scalar-coerce_arg i32_ty a h = as_signed_self (2 ^ 31) a h
scalar-coerce_arg i64_ty a h = refl
scalar-coerce_arg other_ty a h = refl

module _ (w : Interpreter) where
  -- What a result says, by the branches of `call`.
  abbrev Priced : Runtime w → ℕ → Result (RtError w.Trap) (List ℤ × ℕ) → Type 0
  Priced rt fuel (err e) = Unit
  Priced rt fuel (ok (results, used)) =
      (left : ℕ) × (w.get_fuel rt.store ≡ ok left) × (used ≡ sub_u64 fuel left)

  fuel_injective : {x y : ℕ} → ◌≡◌ {A = Result w.Trap ℕ} (ok x) (ok y) → x ≡ y
  fuel_injective e = cc

  result-Priced :
      (rt : Runtime w) (s : w.Store) (vs : List Val) (fuel : ℕ) (r : Result w.Trap ℕ)
      → w.get_fuel s ≡ r
      → Priced
          (with_store w rt s)
          fuel
          (lift_err trap r >>= λ left. ok (scalars vs, sub_u64 fuel left))
  result-Priced rt s vs fuel (err t) e = tt
  result-Priced rt s vs fuel (ok left) e = (left, e, refl)

  answer-Priced :
      (rt : Runtime w) (fuel : ℕ) (out : w.Store × Result w.Trap (List Val))
      → Priced (answer w rt fuel out).0 fuel (answer w rt fuel out).1
  answer-Priced rt fuel (s, err t) = tt
  answer-Priced rt fuel (s, ok vs) = result-Priced rt s vs fuel (w.get_fuel s) refl

  fueled-Priced :
      (rt : Runtime w) (f : w.Func) (args : List ℤ) (fuel : ℕ) (r : Result w.Trap w.Store)
      → Priced (call_fueled w rt f args fuel r).0 fuel (call_fueled w rt f args fuel r).1
  fueled-Priced rt f args fuel (err t) = tt
  fueled-Priced rt f args fuel (ok s) =
      answer-Priced rt fuel (w.call_func f s (coerce_args (w.params f) args) (w.results f))

  found-Priced :
      (rt : Runtime w) (name : Text) (args : List ℤ) (fuel : ℕ) (found : Option w.Func)
      → Priced
          (call_found w rt name args fuel found).0
          fuel
          (call_found w rt name args fuel found).1
  found-Priced rt name args fuel none = tt
  found-Priced rt name args fuel (some f) = elim (Bool-cases (length (w.params f) == length args)) [
    | inl e ↦ rw e (fueled-Priced rt f args fuel (w.set_fuel rt.store fuel))
    | inr e ↦ rw e tt
  ]

  call-Priced :
      (rt : Runtime w) (name : Text) (args : List ℤ) (fuel : ℕ)
      → Priced (call w rt name args fuel).0 fuel (call w rt name args fuel).1
  unfolding call
  call-Priced rt name args fuel = found-Priced rt name args fuel (w.get_func rt.inst rt.store name)

  -- A call that answers Ok says how much fuel it took: with what is left in the store afterwards it
  -- makes the fuel that the call was given, a `u64`, when the interpreter leaves no more than that.
  pub call_cost :
      (rt later : Runtime w) (name : Text) (args results : List ℤ) (fuel used left : ℕ)
      → call w rt name args fuel ≡ (later, ok (results, used))
      → w.get_fuel later.store ≡ ok left
      → left ≤ fuel
      → fuel < 2 ^ 64
      → used + left ≡ fuel
  call_cost rt later name args results fuel used left e hl le small =
      let (there, hf, hu) = subst (λ p. Priced p.0 fuel p.1) e (call-Priced rt name args fuel) in
      let same_left : there ≡ left = fuel_injective (sym hf ∙ hl) in omega (arith, hu, same_left)
