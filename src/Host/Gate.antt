-- ===== src/Host/Gate.antt =====
-- What the checked start of a component lets through, runtime.rs.
use lean_rust_wasm.Prelude.{
  ◌≡◌, refl, sym, ap, List, All, Option, none, some, Result, err, ok, >>=-eq-ok,
}
use lean_rust_wasm.Text.{Text}
use lean_rust_wasm.Store.Verified.{ok_injective}
use lean_rust_wasm.Surface.{SchemaSkew, parse_surface, surface_of, verify_surface}
use lean_rust_wasm.Surface.Verify.{Exports, verify_surface-Exports}
use lean_rust_wasm.Host.{
  CapabilitySet, not_instantiated, engine_fault, StartError, skew, engine_error,
}
use lean_rust_wasm.Host.Runtime.{
  HostVal, wiring, Wasmtime, ComponentRuntime, or_engine, runtime_for, default_fuel, instantiated,
  instantiate, or_start, checked, instantiate_checked, call_in, call,
}

module _ (Float Other : Type 0) (zero_float : Float) (w : Wasmtime Float Other zero_float) where
  abbrev pub HostRuntime : Type 0
  HostRuntime = ComponentRuntime Float Other zero_float w

  -- What wasmtime answers when the runtime instantiates a component, and its store after that.
  abbrev pub made_of : HostRuntime → w.Component → Result Text w.Instance × w.Store
  made_of rt component =
      w.instantiate_async rt.linker component (w.start_epoch_thread rt.epoch_tick rt.store)

  -- The runtime with another store and instance.
  abbrev pub runtime_with : HostRuntime → w.Store → Option w.Instance → HostRuntime
  runtime_with rt s i = record {
    store = s;
    linker = rt.linker;
    instance_ = i;
    epoch_tick = rt.epoch_tick;
  }

  -- What a checked start leaves: with success the instance that wasmtime made of the component, whose
  -- exports have every entry of the expectation; with a skew, which is the surface check's answer, the
  -- runtime as it was; with a fault, which is wasmtime's, the instance that was there.
  abbrev pub Gated :
      HostRuntime → w.Component → Text → Result StartError (Unit {0}) × HostRuntime → Type 0
  Gated rt component expected (ok done, after) =
      (i : w.Instance) × (s : w.Store) × (made_of rt component ≡ (ok i, s))
      × (after ≡ runtime_with rt s (some i))
      × All (Exports (surface_of (w.component_exports component))) (parse_surface expected)
  Gated rt component expected (err (skew difference), after) =
      (verify_surface (w.component_exports component) expected ≡ err difference) × (after ≡ rt)
  Gated rt component expected (err (engine_error fault), after) =
      (e : Text) × (s : w.Store) × (fault ≡ engine_fault e)
      × (made_of rt component ≡ (err e, s))
      × (after ≡ runtime_with rt s rt.instance_)
      × All (Exports (surface_of (w.component_exports component))) (parse_surface expected)

  start-Gated :
      (rt : HostRuntime) (component : w.Component) (expected : Text)
      (r : Result Text w.Instance × w.Store)
      → made_of rt component ≡ r
      → All (Exports (surface_of (w.component_exports component))) (parse_surface expected)
      → Gated rt component expected
          (or_start Float Other zero_float w (instantiated Float Other zero_float w rt r))
  start-Gated rt component expected (err e, s) made agree = (e, s, refl, made, refl, agree)
  start-Gated rt component expected (ok i, s) made agree = (i, s, made, refl, agree)

  check-Gated :
      (rt : HostRuntime) (component : w.Component) (expected : Text)
      (r : Result SchemaSkew (Unit {0}))
      → verify_surface (w.component_exports component) expected ≡ r
      → Gated rt component expected (checked Float Other zero_float w rt component r)
  unfolding instantiate
  check-Gated rt component expected (err difference) e = (e, refl)
  check-Gated rt component expected (ok done) e =
      start-Gated rt component expected (made_of rt component) refl
        (verify_surface-Exports (w.component_exports component) expected e)

  -- A checked start that succeeds holds the instance that wasmtime made of that component, which
  -- exports every function of the expectation with its arity, and wasmtime's store after it; one that
  -- is refused for a skew was refused by the surface check and leaves the whole runtime as it was; one
  -- that fails in the engine passed the surface check, answers wasmtime's own fault, and keeps the
  -- instance that was there before.
  pub instantiate_checked-Gated :
      (rt : HostRuntime) (component : w.Component) (expected : Text)
      → Gated rt component expected
          (instantiate_checked Float Other zero_float w rt component expected)
  unfolding instantiate_checked
  instantiate_checked-Gated rt component expected =
      check-Gated rt component expected (verify_surface (w.component_exports component) expected)
        refl

  -- A call on a new runtime is refused, whatever its capabilities, and leaves it as it was.
  pub call-runtime_for :
      (caps : CapabilitySet) (rt : HostRuntime) (name : Text)
      (args : List (HostVal Float Other zero_float))
      → runtime_for Float Other zero_float w caps ≡ ok rt
      → call Float Other zero_float w rt name args ≡ (err not_instantiated, rt)
  unfolding runtime_for call
  call-runtime_for caps rt name args e =
      let (wasi, hw, e1) =
        >>=-eq-ok (or_engine Float Other zero_float w (w.build_wasi (wiring caps))) _ e in
      let (fuelled, hf, e2) =
        >>=-eq-ok
          (or_engine Float Other zero_float w
            (w.set_fuel (default_fuel Float Other zero_float w) (w.new_store wasi caps)))
          _ e1 in
      let (linker, hl, e3) = >>=-eq-ok (or_engine Float Other zero_float w w.new_linker) _ e2 in
      let empty : rt.instance_ ≡ none = ap (λ r. r.instance_) (sym (ok_injective e3)) in
      ap (call_in Float Other zero_float w rt name args) empty
