-- ===== src/Json.antt =====
-- What the tools take from serde_json: a value, its views, how one is built, and the two ways to read one from a text.
use lean_rust_wasm.Prelude.{ℕ, List, Option, Result}
use lean_rust_wasm.Text.{Text}

pub record Serde : Type 1 where
  pub Json : Type 0
  pub Fields : Type 0
  pub as_str : Json → Option Text
  pub as_array : Json → Option (List Json)
  pub as_object : Json → Option Fields
  pub get : Fields → Text → Option Json
  -- `value[key]`
  pub index : Json → Text → Json
  -- What `json!` builds.
  pub string : Text → Json
  pub number : ℕ → Json
  pub array : List Json → Json
  pub object : List (Text × Json) → Json
  pub to_string_pretty : Json → Result Text Text
  -- `from_str`
  pub from_str : Text → Option Json
  -- The values of a text in order, each with the byte offset behind it, up to the first error.
  pub stream : Text → List (Json × ℕ)
  -- The display of the error that ends the values.
  pub stream_error : Text → Option Text
