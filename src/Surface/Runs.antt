-- ===== src/Surface/Runs.antt =====
-- A small contract and a guest's exports, and the theorems at them.
use lean_rust_wasm.Prelude.{◌≡◌, refl, List, [], ◌∷◌, none, some, err, ok, All, arith}
use lean_rust_wasm.Text.{codes}
use lean_rust_wasm.Text.Decimal.{decimal, parse_u64}
use lean_rust_wasm.Surface.{
  Entry, Export, record_view, other_view, flat_arity, surface_of, parse_surface, parse_entry,
  render_surface, first_difference, verify_surface, SchemaSkew, arity_mismatch,
}
use lean_rust_wasm.Surface.RoundTrip.{EntryOk}
use lean_rust_wasm.Surface.Verify.{over, Real, verify_surface_renders, verify_surface_refused}

abbrev contract : List Entry
contract = (codes "greet", 1) ∷ (codes "user-valid", 4) ∷ []

contract-EntryOk : All EntryOk contract
contract-EntryOk = ((refl, omega arith), ((refl, omega arith), tt))

contract_text : render_surface contract ≡ codes "greet/1,user-valid/4"
unfolding render_surface decimal
contract_text = refl

malformed_dropped : parse_surface (codes "greet,user-valid/+4,x/") ≡ (codes "user-valid", 4) ∷ []
unfolding parse_surface parse_entry parse_u64
malformed_dropped = refl

-- A guest with an export more, and its functions in another order.
abbrev guest : List Export
guest =
    (codes "types", none)
    ∷ (codes "user-valid", some (record_view 4 ∷ []))
    ∷ (codes "watch-orders", some [])
    ∷ (codes "greet", some (other_view ∷ []))
    ∷ []

guest_passes : verify_surface guest (render_surface contract) ≡ ok tt
unfolding verify_surface first_difference surface_of flat_arity parse_surface parse_entry parse_u64
    render_surface decimal
guest_passes = refl

verify_surface_renders_example :
    render_surface (over (surface_of guest) contract) ≡ render_surface contract
verify_surface_renders_example = verify_surface_renders guest contract contract-EntryOk guest_passes

abbrev old_guest : List Export
old_guest = (codes "greet", some (other_view ∷ other_view ∷ [])) ∷ []

abbrev old_skew : SchemaSkew
old_skew = record {
  expected = render_surface contract;
  actual = render_surface (surface_of old_guest);
  detail = arity_mismatch (codes "greet") 1 2;
}

old_guest_refused : verify_surface old_guest (render_surface contract) ≡ err old_skew
unfolding verify_surface first_difference surface_of flat_arity parse_surface parse_entry parse_u64
    render_surface decimal
old_guest_refused = refl

verify_surface_refused_example :
    Real (parse_surface (render_surface contract)) (surface_of old_guest) old_skew.detail
    × ((old_skew.expected ≡ render_surface contract)
        × (old_skew.actual ≡ render_surface (surface_of old_guest)))
verify_surface_refused_example =
    verify_surface_refused old_guest (render_surface contract) old_skew old_guest_refused
