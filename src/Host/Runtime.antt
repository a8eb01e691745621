-- ===== src/Host/Runtime.antt =====
-- The component runtime, runtime.rs: how it is built, started, checked and called. A `&mut self` method
-- takes the runtime and returns its result with the runtime that it leaves.
use lean_rust_wasm.Prelude.{
  ℕ, List, [], ◌∷◌, ◌++◌, false, Option, none, some, Result, err, ok, ◌>>=◌, if◌then◌else◌,
}
use lean_rust_wasm.Text.{Text, codes}
use lean_rust_wasm.Oracle.Ser.{
  Val, bool_val, u8_val, u16_val, u32_val, u64_val, s8_val, s16_val, s32_val, s64_val, float32_val,
  float64_val, char_val, string_val, some_val, record_val, list_val, ok_unit_val, no_vals, Fields,
  no_fields, and_field,
}
use lean_rust_wasm.Prelude.Int.{pos}
use lean_rust_wasm.Surface.{Export, SchemaSkew, verify_surface}
use lean_rust_wasm.Host.{
  CapabilitySet, fs_read, fs_write, stdio, dir_read, dir_mutate, file_read, file_write, Wiring,
  inherit_stdio, preopened_dir, HostFault, not_instantiated, missing_export, unsupported_result,
  engine_fault, StartError, skew, engine_error,
}

-- A type of the component model; `other_ty` has the `{:?}` of the rest.
mutual
  pub data Ty : Type 0 where
    bool_ty s8_ty u8_ty s16_ty u16_ty s32_ty u32_ty s64_ty u64_ty : Ty
    float32_ty float64_ty char_ty string_ty : Ty
    option_ty : Ty → Ty
    record_ty : FieldTys → Ty
    list_ty stream_ty future_ty result_ty : Ty
    other_ty : Text → Ty

  pub data FieldTys : Type 0 where
    no_tys : FieldTys
    and_ty : Text → Ty → FieldTys → FieldTys

unfoldable pub wiring : CapabilitySet → List Wiring
wiring caps =
    let stdio_calls = if stdio caps then inherit_stdio ∷ [] else [] in
    let dir = if fs_write caps then dir_mutate else dir_read in
    let file = if fs_write caps then file_write else file_read in
    let opened = preopened_dir (codes ".") (codes "/") dir file ∷ [] in
    stdio_calls ++ (if fs_read caps then opened else [])

module _ (Float Other : Type 0) (zero_float : Float) where
  abbrev pub HostVal : Type 0
  HostVal = Val Float Other

  unfoldable mutual
    pub default_val : Ty → Result HostFault HostVal
    default_val bool_ty = ok (bool_val false)
    default_val s8_ty = ok (s8_val (pos 0))
    default_val u8_ty = ok (u8_val 0)
    default_val s16_ty = ok (s16_val (pos 0))
    default_val u16_ty = ok (u16_val 0)
    default_val s32_ty = ok (s32_val (pos 0))
    default_val u32_ty = ok (u32_val 0)
    default_val s64_ty = ok (s64_val (pos 0))
    default_val u64_ty = ok (u64_val 0)
    default_val float32_ty = ok (float32_val zero_float)
    default_val float64_ty = ok (float64_val zero_float)
    default_val char_ty = ok (char_val 0)
    default_val string_ty = ok (string_val [])
    default_val (option_ty t) = default_val t >>= (λ inner. ok (some_val inner))
    default_val (record_ty fs) = default_fields fs >>= (λ fields. ok (record_val fields))
    default_val list_ty = ok (list_val no_vals)
    default_val stream_ty = ok (list_val no_vals)
    default_val future_ty = ok (list_val no_vals)
    default_val result_ty = ok ok_unit_val
    default_val (other_ty name) = err (unsupported_result name)

    pub default_fields : FieldTys → Result HostFault (Fields Float Other)
    default_fields no_tys = ok no_fields
    default_fields (and_ty name t fs) =
        default_val t >>= (λ v. default_fields fs >>= (λ vs. ok (and_field name v vs)))

  abbrev pub default_vals : List Ty → Result HostFault (List HostVal)
  default_vals [] = ok []
  default_vals (t ∷ ts) = do v ← default_val t; vs ← default_vals ts; ok (v ∷ vs)

  -- The calls of wasmtime on a store. Errors are the texts of `{:?}`; the thread that ticks the epochs
  -- is part of the store's engine.
  pub record Wasmtime : Type 1 where
    pub Store : Type 0
    pub Linker : Type 0
    pub Instance : Type 0
    pub Component : Type 0
    pub Func : Type 0
    pub Wasi : Type 0
    pub build_wasi : List Wiring → Result Text Wasi
    pub new_store : Wasi → CapabilitySet → Store
    pub set_fuel : ℕ → Store → Result Text Store
    pub get_fuel : Store → Result Text ℕ
    pub new_linker : Result Text Linker
    pub set_epoch_deadline : ℕ → Store → Store
    pub start_epoch_thread : ℕ → Store → Store
    pub component_exports : Component → List Export
    pub instantiate_async : Linker → Component → Store → Result Text Instance × Store
    pub get_func : Instance → Text → Store → Option Func × Store
    pub result_types : Func → Store → List Ty
    pub call_async : Func → List HostVal → List HostVal → Store → Result Text (List HostVal) × Store

  module _ (w : Wasmtime) where
    pub record ComponentRuntime : Type 0 where
      pub store : w.Store
      pub linker : w.Linker
      pub instance_ : Option w.Instance
      pub epoch_tick : ℕ

    abbrev pub or_engine {ℓ} : {A : Type ℓ} → Result Text A → Result HostFault A
    or_engine (err e) = err (engine_fault e)
    or_engine (ok a) = ok a

    abbrev pub default_fuel : ℕ
    default_fuel = 10000000

    -- `ComponentRuntime::new`; the tick is in milliseconds.
    unfoldable pub runtime_for : CapabilitySet → Result HostFault ComponentRuntime
    runtime_for caps = do
      wasi ← or_engine (w.build_wasi (wiring caps))
      fuelled ← or_engine (w.set_fuel default_fuel (w.new_store wasi caps))
      linker ← or_engine w.new_linker
      ok (record {
        store = w.set_epoch_deadline 1 fuelled;
        linker = linker;
        instance_ = none;
        epoch_tick = 10;
      })

    abbrev pub with_store : ComponentRuntime → w.Store → ComponentRuntime
    with_store rt s = record {
      store = s;
      linker = rt.linker;
      instance_ = rt.instance_;
      epoch_tick = rt.epoch_tick;
    }

    abbrev pub instantiated :
        ComponentRuntime
        → Result Text w.Instance × w.Store
        → Result HostFault (Unit {0}) × ComponentRuntime
    instantiated rt (err e, s) = (err (engine_fault e), with_store rt s)
    instantiated rt (ok i, s) = (
      ok tt,
      record { store = s; linker = rt.linker; instance_ = some i; epoch_tick = rt.epoch_tick },
    )

    unfoldable pub instantiate :
        ComponentRuntime → w.Component → Result HostFault (Unit {0}) × ComponentRuntime
    instantiate rt component =
        instantiated rt
          (w.instantiate_async rt.linker component (w.start_epoch_thread rt.epoch_tick rt.store))

    abbrev pub or_start :
        Result HostFault (Unit {0}) × ComponentRuntime
        → Result StartError (Unit {0}) × ComponentRuntime
    or_start (err fault, rt) = (err (engine_error fault), rt)
    or_start (ok done, rt) = (ok done, rt)

    abbrev pub checked :
        ComponentRuntime
        → w.Component
        → Result SchemaSkew (Unit {0})
        → Result StartError (Unit {0}) × ComponentRuntime
    checked rt component (err difference) = (err (skew difference), rt)
    checked rt component (ok done) = or_start (instantiate rt component)

    unfoldable pub instantiate_checked :
        ComponentRuntime → w.Component → Text → Result StartError (Unit {0}) × ComponentRuntime
    instantiate_checked rt component expected =
        checked rt component (verify_surface (w.component_exports component) expected)

    abbrev pub answered :
        ComponentRuntime
        → Result Text (List HostVal) × w.Store
        → Result HostFault (List HostVal) × ComponentRuntime
    answered rt (r, s) = (or_engine r, with_store rt s)

    abbrev pub call_filled :
        ComponentRuntime
        → w.Func
        → List HostVal
        → w.Store
        → Result HostFault (List HostVal)
        → Result HostFault (List HostVal) × ComponentRuntime
    call_filled rt f args s (err fault) = (err fault, with_store rt s)
    call_filled rt f args s (ok slots) = answered rt (w.call_async f args slots s)

    abbrev pub call_found :
        ComponentRuntime
        → Text
        → List HostVal
        → Option w.Func × w.Store
        → Result HostFault (List HostVal) × ComponentRuntime
    call_found rt name args (none, s) = (err (missing_export name), with_store rt s)
    call_found rt name args (some f, s) =
        call_filled rt f args s (default_vals (w.result_types f s))

    abbrev pub call_in :
        ComponentRuntime
        → Text
        → List HostVal
        → Option w.Instance
        → Result HostFault (List HostVal) × ComponentRuntime
    call_in rt name args none = (err not_instantiated, rt)
    call_in rt name args (some i) = call_found rt name args (w.get_func i name rt.store)

    -- The span that the call records while it runs is left out.
    unfoldable pub call :
        ComponentRuntime → Text → List HostVal → Result HostFault (List HostVal) × ComponentRuntime
    call rt name args = call_in rt name args rt.instance_

    unfoldable pub fuel_left : ComponentRuntime → Result HostFault ℕ
    fuel_left rt = or_engine (w.get_fuel rt.store)
