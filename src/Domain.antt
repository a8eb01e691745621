-- ===== src/Domain.antt =====
-- The generated domain of the demo schema: the types of generated/rust/schema_generated.rs, the changes
-- of delta_generated.rs, the invariants of invariants_generated.rs, and the updates of
-- updates_generated.rs.
pub mod Ticks
pub mod Typestate
mod Runs
use lean_rust_wasm.Prelude.{ℕ, ◌+◌, List, [], ◌∷◌, Bool, true, ◌&&◌, ◌==◌, ltb, if◌then◌else◌}
use lean_rust_wasm.Text.{Text, not}
use lean_rust_wasm.Text.Pieces.{utf8_width}

pub record User : Type 0 where
  pub id : ℕ
  pub name : Text
  pub email : Text
  pub tags : List Text

pub record Flag : Type 0 where
  pub id : ℕ
  pub key : Text
  pub enabled : Bool
  pub rollout : ℕ
  pub tags : List Text

pub record AuditEntry : Type 0 where
  pub id : ℕ
  pub flag_key : Text
  pub action : Text
  pub ts : ℕ

pub data Role : Type 0 where
  admin editor viewer : Role

pub data FlagError : Type 0 where
  not_found : FlagError
  invalid_rollout : ℕ → FlagError
  locked : Text → FlagError

-- Prices are floats.
module _ (Float : Type 0) where
  pub record OrderItem : Type 0 where
    pub id : ℕ
    pub qty : ℕ
    pub price : Float

  pub record Order : Type 0 where
    pub id : ℕ
    pub items : List OrderItem
    pub total : Float

  pub data OrderError : Type 0 where
    empty_cart : OrderError
    invalid_item : ℕ → OrderError
    insufficient_funds : Float → OrderError

-- The five enums of changes have one shape.
pub data RowChange (A : Type 0) : Type 0 where
  insert update : A → RowChange A
  remove : ℕ → RowChange A

abbrev pub UserChange : Type 0
UserChange = RowChange User

abbrev pub FlagChange : Type 0
FlagChange = RowChange Flag

abbrev pub AuditEntryChange : Type 0
AuditEntryChange = RowChange AuditEntry

module _ (Float : Type 0) where
  abbrev pub OrderItemChange : Type 0
  OrderItemChange = RowChange (OrderItem Float)

  abbrev pub OrderChange : Type 0
  OrderChange = RowChange (Order Float)

abbrev pub patch_row : {A : Type 0} → RowChange A → A → A
patch_row (insert u) base = u
patch_row (update u) base = u
patch_row (remove id) base = base

abbrev pub valid_row : {A : Type 0} → RowChange A → A → Bool
valid_row change base = true

-- `String::len`, in bytes.
abbrev pub len : Text → ℕ
len [] = 0
len (c ∷ cs) = utf8_width c + len cs

abbrev pub check_id_positive : User → Bool
check_id_positive v = ltb 0 v.id

abbrev pub check_name_min_length : User → Bool
check_name_min_length v = ltb 3 (len v.name)

abbrev pub check_key_nonempty : Flag → Bool
check_key_nonempty v = ltb 0 (len v.key)

abbrev pub check_rollout_le_100 : Flag → Bool
check_rollout_le_100 v = not (ltb 100 v.rollout)

abbrev pub check_get_sentinel_none : Flag → Bool
check_get_sentinel_none v = 0 == 0

unfoldable pub validate_user : User → Bool
validate_user v = ltb 0 v.id && ltb 3 (len v.name)

unfoldable pub validate_flag : Flag → Bool
validate_flag v = ltb 0 (len v.key) && (not (ltb 100 v.rollout) && (0 == 0))

abbrev pub with_id : User → ℕ → User
with_id r n = record { id = n; name = r.name; email = r.email; tags = r.tags }

abbrev pub with_email : User → Text → User
with_email r t = record { id = r.id; name = r.name; email = t; tags = r.tags }

abbrev pub with_rollout : Flag → ℕ → Flag
with_rollout r n = record {
  id = r.id;
  key = r.key;
  enabled = r.enabled;
  rollout = n;
  tags = r.tags;
}

abbrev pub with_key : Flag → Text → Flag
with_key r t = record {
  id = r.id;
  key = t;
  enabled = r.enabled;
  rollout = r.rollout;
  tags = r.tags;
}

-- The loops over the rows.
abbrev pub each_row {ℓ} : {A : Type ℓ} → (A → A) → List A → List A
each_row f [] = []
each_row f (r ∷ rows) = f r ∷ each_row f rows

unfoldable pub reset_id : User → User
reset_id r = if ltb 100 r.id then with_id r 0 else r

unfoldable pub echo_email : User → User
echo_email r = if ltb 3 (len r.name) then with_email r r.name else r

unfoldable pub self_bump : User → User
self_bump r = if 0 == 0 then with_id r r.id else r

unfoldable pub rollout_clamp : Flag → Flag
rollout_clamp r = if ltb 100 r.rollout then with_rollout r 100 else r

unfoldable pub key_echo : Flag → Flag
key_echo r = if ltb 0 (len r.key) then with_key r r.key else r

unfoldable pub tick_user : List User → List User
tick_user rows = each_row self_bump (each_row echo_email (each_row reset_id rows))

unfoldable pub tick_flag : List Flag → List Flag
tick_flag rows = each_row key_echo (each_row rollout_clamp rows)
