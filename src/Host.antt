-- ===== src/Host.antt =====
-- The wasmtime host of the guests, crates/guestlang-host/src: the capability set of lib.rs, and the
-- component runtime of runtime.rs over a parameter for wasmtime.
pub mod Runtime
pub mod Gate
mod Runs
use Prim.Native.Nat.{bit_and, bit_or}
use lean_rust_wasm.Prelude.{ℕ, List, Bool, true, false, ◌||◌, ◌==◌, if◌then◌else◌}
use lean_rust_wasm.Text.{Text}
use lean_rust_wasm.Surface.{SchemaSkew}

pub record CapabilitySet : Type 0 where
  pub bits : ℕ

abbrev pub caps_of : ℕ → CapabilitySet
caps_of n = record { bits = n }

abbrev pub no_caps : CapabilitySet
no_caps = caps_of 0

abbrev pub stdio_cap : CapabilitySet
stdio_cap = caps_of 1

abbrev pub fs_read_cap : CapabilitySet
fs_read_cap = caps_of 2

abbrev pub fs_write_cap : CapabilitySet
fs_write_cap = caps_of 4

abbrev pub clock_cap : CapabilitySet
clock_cap = caps_of 8

abbrev pub random_cap : CapabilitySet
random_cap = caps_of 16

unfoldable pub grants : CapabilitySet → CapabilitySet → Bool
grants c other = bit_and c.bits other.bits == other.bits

unfoldable pub union : CapabilitySet → CapabilitySet → CapabilitySet
union c other = caps_of (bit_or c.bits other.bits)

abbrev pub all_caps : CapabilitySet
all_caps = union (union (union (union stdio_cap fs_read_cap) fs_write_cap) clock_cap) random_cap

unfoldable pub fs_write : CapabilitySet → Bool
fs_write c = grants c fs_write_cap

unfoldable pub fs_read : CapabilitySet → Bool
fs_read c = grants c fs_read_cap || grants c fs_write_cap

unfoldable pub stdio : CapabilitySet → Bool
stdio c = grants c stdio_cap

pub data DirPerms : Type 0 where
  dir_read dir_mutate : DirPerms

pub data FilePerms : Type 0 where
  file_read file_write : FilePerms

-- The calls that wire a guest's WASI, in order.
pub data Wiring : Type 0 where
  inherit_stdio : Wiring
  preopened_dir : Text → Text → DirPerms → FilePerms → Wiring

pub data HostFault : Type 0 where
  not_instantiated : HostFault
  missing_export unsupported_result engine_fault : Text → HostFault

pub data StartError : Type 0 where
  skew : SchemaSkew → StartError
  engine_error : HostFault → StartError
