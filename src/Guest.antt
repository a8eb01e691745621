-- ===== src/Guest.antt =====
-- The standalone runtime of a guest, crates/guestlang-rt/src/lib.rs: a retained instance, its calls,
-- and snapshots of its memory. The interpreter is a parameter; a `&mut self` method takes the state
-- and returns its result with the state that it leaves.
pub mod Restore
pub mod Calls
mod Runs
use lean_rust_wasm.Prelude.{
  ℕ, zero, suc, ◌+◌, ◌-◌, ◌/◌, ◌%◌, ◌^◌, List, [], ◌∷◌, ◌++◌, length, Bool, true, false, Option,
  none, some, Result, err, ok, ◌>>=◌, ok_or, ◌==◌, ltb, if◌then◌else◌,
}
use lean_rust_wasm.Prelude.Int.{ℤ, pos}
use lean_rust_wasm.Text.{Text}
use lean_rust_wasm.Value.{as_signed}

-- What the source matches on of the types and values of the interpreter.
pub data ValType : Type 0 where
  i32_ty i64_ty other_ty : ValType

pub data Val : Type 0 where
  i32_val i64_val : ℤ → Val
  other_val : Val

-- The errors of the source, and what the interpreter reports.
pub data RtError (Trap : Type 0) : Type 0 where
  non_func_import no_export : Text → RtError Trap
  arity : Text → ℕ → ℕ → RtError Trap
  no_memory : RtError Trap
  trap memory_grow memory_write : Trap → RtError Trap

-- The calls of wasmi, on a store and an instance.
pub record Interpreter : Type 1 where
  pub Module : Type 0
  pub Linker : Type 0
  pub Store : Type 0
  pub Instance : Type 0
  pub Func : Type 0
  pub Memory : Type 0
  pub Trap : Type 0
  pub compile : List ℕ → Result Trap Module
  pub new_store : Store
  pub set_fuel : Store → ℕ → Result Trap Store
  pub get_fuel : Store → Result Trap ℕ
  -- The imports of a module, with whether each is a function.
  pub imports : Module → List (Text × Bool)
  pub new_linker : Linker
  pub link_trap : Linker → Text → Result Trap Linker
  pub instantiate_and_start : Linker → Store → Module → Result Trap (Store × Instance)
  pub get_func : Instance → Store → Text → Option Func
  pub params : Func → List ValType
  pub results : Func → ℕ
  pub call_func : Func → Store → List Val → ℕ → Store × Result Trap (List Val)
  pub get_memory : Instance → Store → Option Memory
  pub bytes_of : Memory → Store → List ℕ
  pub grow : Memory → Store → ℕ → Result Trap Store
  -- A write at offset 0.
  pub write_front : Memory → Store → List ℕ → Result Trap Store

abbrev pub lift_err {ℓ κ μ} :
    {E : Type ℓ} {F : Type κ} {A : Type μ} → (E → F) → Result E A → Result F A
lift_err f (err e) = err (f e)
lift_err f (ok a) = ok a

-- An argument as the parameter's type wants it.
unfoldable pub coerce_arg : ValType → ℤ → Val
coerce_arg i32_ty a = i32_val (as_signed (2 ^ 31) a)
coerce_arg i64_ty a = i64_val a
coerce_arg other_ty a = i64_val a

-- `zip`
abbrev pub coerce_args : List ValType → List ℤ → List Val
coerce_args [] args = []
coerce_args (t ∷ ts) [] = []
coerce_args (t ∷ ts) (a ∷ args) = coerce_arg t a ∷ coerce_args ts args

unfoldable pub scalar : Val → ℤ
scalar (i64_val x) = x
scalar (i32_val x) = x
scalar other_val = pos 0

abbrev pub scalars : List Val → List ℤ
scalars [] = []
scalars (v ∷ vs) = scalar v ∷ scalars vs

-- `div_ceil` by the size of a page
abbrev pub page_size : ℕ
page_size = 65536

abbrev pub pages_for : ℕ → ℕ
pages_for n = (n + (page_size - 1)) / page_size

-- A difference of two `u64`, as the release build has it.
abbrev pub sub_u64 : ℕ → ℕ → ℕ
sub_u64 a b = (a + 2 ^ 64 - b) % 2 ^ 64

pub record Snapshot : Type 0 where
  pub image : List ℕ
  pub fuel : ℕ

module _ (w : Interpreter) where
  pub record Runtime : Type 0 where
    pub store : w.Store
    pub inst : w.Instance

  -- Every function import is linked as a trap; another import is an error.
  unfoldable pub link_imports : w.Linker → List (Text × Bool) → Result (RtError w.Trap) w.Linker
  link_imports linker [] = ok linker
  link_imports linker ((name, false) ∷ imports) = err (non_func_import name)
  link_imports linker ((name, true) ∷ imports) = do
    next ← lift_err trap (w.link_trap linker name)
    link_imports next imports

  unfoldable pub runtime_new : List ℕ → ℕ → Result (RtError w.Trap) Runtime
  runtime_new wasm fuel = do
    code ← lift_err trap (w.compile wasm)
    store ← lift_err trap (w.set_fuel w.new_store fuel)
    linker ← link_imports w.new_linker (w.imports code)
    (started, made) ← lift_err trap (w.instantiate_and_start linker store code)
    ok (record { store = started; inst = made })

  abbrev pub with_store : Runtime → w.Store → Runtime
  with_store rt s = record { store = s; inst = rt.inst }

  -- The results and the fuel that the call took.
  abbrev pub answer :
      Runtime
      → ℕ
      → w.Store × Result w.Trap (List Val)
      → Runtime × Result (RtError w.Trap) (List ℤ × ℕ)
  answer rt fuel (s, err t) = (with_store rt s, err (trap t))
  answer rt fuel (s, ok vs) = (
    with_store rt s,
    lift_err trap (w.get_fuel s) >>= λ remaining. ok (scalars vs, sub_u64 fuel remaining),
  )

  abbrev pub call_fueled :
      Runtime
      → w.Func
      → List ℤ
      → ℕ
      → Result w.Trap w.Store
      → Runtime × Result (RtError w.Trap) (List ℤ × ℕ)
  call_fueled rt f args fuel (err t) = (rt, err (trap t))
  call_fueled rt f args fuel (ok s) =
      answer rt fuel (w.call_func f s (coerce_args (w.params f) args) (w.results f))

  abbrev pub call_found :
      Runtime → Text → List ℤ → ℕ → Option w.Func → Runtime × Result (RtError w.Trap) (List ℤ × ℕ)
  call_found rt name args fuel none = (rt, err (no_export name))
  call_found rt name args fuel (some f) =
      if length (w.params f) == length args
      then call_fueled rt f args fuel (w.set_fuel rt.store fuel)
      else (rt, err (arity name (length (w.params f)) (length args)))

  unfoldable pub call : Runtime → Text → List ℤ → ℕ → Runtime × Result (RtError w.Trap) (List ℤ × ℕ)
  call rt name args fuel = call_found rt name args fuel (w.get_func rt.inst rt.store name)

  unfoldable pub invoke_core_fueled :
      List ℕ → Text → List ℤ → ℕ → Result (RtError w.Trap) (List ℤ × ℕ)
  invoke_core_fueled wasm name args fuel = do rt ← runtime_new wasm fuel; (call rt name args fuel).1

  unfoldable pub invoke_core : List ℕ → Text → List ℤ → ℕ → Result (RtError w.Trap) (List ℤ)
  invoke_core wasm name args fuel = do
    (results, used) ← invoke_core_fueled wasm name args fuel
    ok results

  unfoldable pub invoke_core_vals : List ℕ → Text → List Val → ℕ → Result (RtError w.Trap) (List ℤ)
  invoke_core_vals wasm name args fuel = invoke_core wasm name (scalars args) fuel

  unfoldable pub memory : Runtime → Result (RtError w.Trap) w.Memory
  memory rt = ok_or (w.get_memory rt.inst rt.store) no_memory

  unfoldable pub snapshot : Runtime → Result (RtError w.Trap) Snapshot
  snapshot rt = do
    mem ← memory rt
    fuel ← lift_err trap (w.get_fuel rt.store)
    ok (record { image = w.bytes_of mem rt.store; fuel = fuel })

  -- The memory grows only when the image does not fit.
  unfoldable pub grow_to : w.Memory → w.Store → List ℕ → Result (RtError w.Trap) w.Store
  grow_to mem s image =
      let cur = length (w.bytes_of mem s) in
      if ltb cur (length image)
      then lift_err memory_grow (w.grow mem s (pages_for (length image - cur)))
      else ok s

  unfoldable pub restore : Snapshot → List ℕ → Result (RtError w.Trap) Runtime
  restore snap wasm = do
    rt ← runtime_new wasm snap.fuel
    mem ← memory rt
    grown ← grow_to mem rt.store snap.image
    written ← lift_err memory_write (w.write_front mem grown snap.image)
    ok (with_store rt written)
