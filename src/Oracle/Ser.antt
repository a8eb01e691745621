-- ===== src/Oracle/Ser.antt =====
-- The texts of the oracle, generated/rust/oracle_mirror_generated.rs: outcomes and verdicts as JSON, and
-- the payload of a value of the component model.
use lean_rust_wasm.Prelude.{ℕ, suc, [], ◌∷◌, ◌++◌, Bool, true, false, Option, none, some}
use lean_rust_wasm.Prelude.Int.{ℤ, pos, negsuc}
use lean_rust_wasm.Text.{Text, codes}
use lean_rust_wasm.Text.Decimal.{decimal}
use lean_rust_wasm.Oracle.{
  ErrorId, unknown_fn, arity_drift, trap, Outcome, DivergenceCategory, value_mismatch,
  expected_value_got_error, expected_error_got_value, error_identity_mismatch,
  error_payload_mismatch, Divergence,
}

-- `ErrorId::as_str` and `DivergenceCategory::as_str`.
abbrev pub error_name : ErrorId → Text
error_name unknown_fn = codes "unknownFn"
error_name arity_drift = codes "arityDrift"
error_name trap = codes "trap"

abbrev pub category_name : DivergenceCategory → Text
category_name value_mismatch = codes "valueMismatch"
category_name expected_value_got_error = codes "expectedValueGotError"
category_name expected_error_got_value = codes "expectedErrorGotValue"
category_name error_identity_mismatch = codes "errorIdentityMismatch"
category_name error_payload_mismatch = codes "errorPayloadMismatch"

-- `json_str` is serde_json's serialisation of a text.
module _ (json_str : Text → Text) where
  abbrev pub error_json : Option ErrorId → Text
  error_json none = codes "null"
  error_json (some e) = json_str (error_name e)

  unfoldable pub outcome_json : Outcome → Text
  outcome_json o =
      codes "{\"error\": "
      ++ (error_json o.error ++ (codes ", \"payload\": " ++ (json_str o.payload ++ codes "}")))

  abbrev pub position_json : Option ℕ → Text
  position_json none = codes "null"
  position_json (some n) = decimal n

  unfoldable pub verdict_json : Option Divergence → Text → Text
  verdict_json none surface = codes "{\"ok\": true, \"schema\": " ++ (json_str surface ++ codes "}")
  verdict_json (some d) surface =
      codes "{\"ok\": false, \"category\": "
      ++ (json_str (category_name d.category)
          ++ (codes ", \"expected\": "
              ++ (outcome_json d.expected
                  ++ (codes ", \"observed\": "
                      ++ (outcome_json d.observed
                          ++ (codes ", \"payload_diff_at\": "
                              ++ (position_json d.payload_diff_at
                                  ++ (codes ", \"schema\": "
                                      ++ (json_str surface ++ codes "}")))))))))

-- A value of the component model; `Float` has its numbers with a fraction, `Other` the values that the
-- rendering leaves to `{:?}`.
module _ (Float Other : Type 0) where
  mutual
    pub data Val : Type 0 where
      bool_val : Bool → Val
      u8_val u16_val u32_val u64_val : ℕ → Val
      s8_val s16_val s32_val s64_val : ℤ → Val
      float32_val float64_val : Float → Val
      char_val : ℕ → Val
      string_val : Text → Val
      none_val : Val
      some_val : Val → Val
      record_val : Fields → Val
      list_val : Vals → Val
      stream_val : Val
      ok_unit_val err_unit_val : Val
      ok_val err_val : Val → Val
      variant_val : Text → Val
      variant_of_val : Text → Val → Val
      other_val : Other → Val

    pub data Vals : Type 0 where
      no_vals : Vals
      and_val : Val → Vals → Vals

    pub data Fields : Type 0 where
      no_fields : Fields
      and_field : Text → Val → Fields → Fields

abbrev pub signed : ℤ → Text
signed (pos n) = decimal n
signed (negsuc n) = 45 ∷ decimal (suc n)

-- The displays of floats, and `{:?}` of the other values.
module _ {Float Other : Type 0} (display : Float → Text) (debug : Other → Text) where
  unfoldable mutual
    pub ser_val : Val Float Other → Text
    ser_val (bool_val true) = codes "1"
    ser_val (bool_val false) = codes "0"
    ser_val (u8_val n) = decimal n
    ser_val (u16_val n) = decimal n
    ser_val (u32_val n) = decimal n
    ser_val (u64_val n) = decimal n
    ser_val (s8_val i) = signed i
    ser_val (s16_val i) = signed i
    ser_val (s32_val i) = signed i
    ser_val (s64_val i) = signed i
    ser_val (float32_val x) = display x
    ser_val (float64_val x) = display x
    ser_val (char_val c) = c ∷ []
    ser_val (string_val t) = t
    ser_val none_val = codes "none"
    ser_val (some_val v) = codes "some(" ++ (ser_val v ++ codes ")")
    ser_val (record_val fields) = codes "{ " ++ (ser_fields fields ++ codes " }")
    ser_val (list_val vs) = codes "(" ++ (ser_vals vs ++ codes ")")
    ser_val stream_val = codes "<stream>"
    ser_val ok_unit_val = codes "ok"
    ser_val (ok_val v) = codes "ok(" ++ (ser_val v ++ codes ")")
    ser_val err_unit_val = codes "err"
    ser_val (err_val v) = codes "err(" ++ (ser_val v ++ codes ")")
    ser_val (variant_val name) = name
    ser_val (variant_of_val name v) = name ++ (codes "(" ++ (ser_val v ++ codes ")"))
    ser_val (other_val x) = debug x

    -- `join(",")` of the items
    pub ser_vals : Vals Float Other → Text
    ser_vals no_vals = []
    ser_vals (and_val v no_vals) = ser_val v
    ser_vals (and_val v (and_val w vs)) = ser_val v ++ 44 ∷ ser_vals (and_val w vs)

    -- `join(", ")` of the fields
    pub ser_fields : Fields Float Other → Text
    ser_fields no_fields = []
    ser_fields (and_field k v no_fields) = k ++ 61 ∷ ser_val v
    ser_fields (and_field k v (and_field l w fields)) =
        (k ++ 61 ∷ ser_val v) ++ (codes ", " ++ ser_fields (and_field l w fields))
