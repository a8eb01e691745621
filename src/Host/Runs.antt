-- ===== src/Host/Runs.antt =====
-- A small engine, and the theorems on the host at it.
use lean_rust_wasm.Prelude.{ℕ, suc, ◌≡◌, refl, List, [], ◌∷◌, none, some, ok, All}
use lean_rust_wasm.Text.{Text, codes}
use lean_rust_wasm.Text.Decimal.{parse_u64}
use lean_rust_wasm.Surface.{
  Export, other_view, parse_surface, parse_entry, surface_of, flat_arity, verify_surface,
  first_difference,
}
use lean_rust_wasm.Surface.Verify.{Exports}
use lean_rust_wasm.Host.{
  no_caps, all_caps, union, grants, stdio, fs_read, fs_write, inherit_stdio, preopened_dir,
  dir_mutate, file_write,
}
use lean_rust_wasm.Host.Runtime.{
  bool_ty, wiring, Wasmtime, ComponentRuntime, instantiate, instantiate_checked,
}
use lean_rust_wasm.Host.Gate.{made_of, runtime_with, instantiate_checked-Gated}

-- A guest without capabilities is wired to nothing; one with all of them can write to the root.
closed_box : wiring no_caps ≡ []
unfolding wiring stdio fs_read fs_write grants
closed_box = refl

all_wired :
    wiring all_caps
    ≡ inherit_stdio ∷ preopened_dir (codes ".") (codes "/") dir_mutate file_write ∷ []
unfolding wiring stdio fs_read fs_write grants union
all_wired = refl

-- A store counts its steps; an instance and a function are the component's exports and a name.
abbrev engine : Wasmtime (Unit {0}) (Unit {0}) tt
engine = record {
  Store = ℕ;
  Linker = Unit {0};
  Instance = List Export;
  Component = List Export;
  Func = Text;
  Wasi = Unit {0};
  build_wasi = λ calls. ok tt;
  new_store = λ wasi caps. 0;
  set_fuel = λ fuel s. ok s;
  get_fuel = λ s. ok s;
  new_linker = ok tt;
  set_epoch_deadline = λ ticks s. s;
  start_epoch_thread = λ tick s. s;
  component_exports = λ c. c;
  instantiate_async = λ l c s. (ok c, suc s);
  get_func = λ i name s. (some name, suc s);
  result_types = λ f s. bool_ty ∷ [];
  call_async = λ f args slots s. (ok slots, suc s);
}

abbrev fresh : ComponentRuntime (Unit {0}) (Unit {0}) tt engine
fresh = record { store = 0; linker = tt; instance_ = none; epoch_tick = 10 }

abbrev exports : List Export
exports = (codes "double", some (other_view ∷ [])) ∷ (codes "memory", none) ∷ []

abbrev expected : Text
expected = codes "double/1"

-- The runtime holds an older instance, of a component without exports, when the component starts.
abbrev running : ComponentRuntime (Unit {0}) (Unit {0}) tt engine
running = record { store = 4; linker = tt; instance_ = some []; epoch_tick = 10 }

instantiate_checked-Gated_example :
    (i : List Export) × (s : ℕ) × (made_of (Unit {0}) (Unit {0}) tt engine running exports
      ≡ (ok i, s))
    × ((instantiate_checked (Unit {0}) (Unit {0}) tt engine running exports expected).1
        ≡ runtime_with (Unit {0}) (Unit {0}) tt engine running s (some i))
    × All (Exports (surface_of exports)) (parse_surface expected)
unfolding instantiate_checked instantiate verify_surface first_difference parse_surface surface_of
    parse_entry parse_u64 flat_arity
instantiate_checked-Gated_example =
    instantiate_checked-Gated (Unit {0}) (Unit {0}) tt engine running exports expected
