-- ===== src/Gateway/Bindings.antt =====
-- The methods of `GatewayRepository` on address_bindings: upsertBinding, setBindingEnabled,
-- resetBindingUsage, getBinding.
use catfee_io.Base.{
  ℕ, Bool, true, false, not, Option, none, some, ◌==◌, ◌&&◌, ◌||◌, if◌then◌else◌, or_else,
}
use catfee_io.Base.Int.{ℤ, pos, pos_part, ltb_ℤ}
use catfee_io.Base.Results.{Result, ok, ◌>>◌, throw_if}
use catfee_io.Table.{update, insert, exists, select}
use catfee_io.Store.{Database, Binding, Address, Text, Time, StoreError, range_error, is_open_order}

abbrev pub at_address : Address → Binding → Bool
at_address a b = b.address == a

unfoldable pub get_binding : Address → Database → Option Binding
get_binding a db = select (at_address a) db.bindings

-- The optional fields of the input: `none` is a field left out, `some none` is null.
pub record BindingInput : Type 0 where
  pub address : Address
  pub label : Option (Option Text)
  pub max_transactions : Option (Option ℤ)
  pub expires_at : Option (Option Time)
  pub enabled : Option Bool

-- The test under which `assertBindingTransactionLimit` throws.
unfoldable pub limit_out_of_range : Option (Option ℤ) → Bool
limit_out_of_range (some (some limit)) = ltb_ℤ limit (pos 0) || ltb_ℤ (pos 1_000_000) limit
limit_out_of_range _ = false

-- The limit as the column holds it: `assertBindingTransactionLimit` has ruled out a negative one.
abbrev pub stored_limit : Option ℤ → Option ℕ
stored_limit none = none
stored_limit (some limit) = some (pos_part limit)

-- `CASE WHEN $7 THEN EXCLUDED.max_transactions ELSE max_transactions END`
abbrev pub replaced_limit : Option (Option ℤ) → Option ℕ → Option ℕ
replaced_limit none old = old
replaced_limit (some limit) old = stored_limit limit

-- The row that VALUES gives, and the row that DO UPDATE SET leaves.
unfoldable pub new_binding : BindingInput → Binding
new_binding input = record {
  address = input.address;
  label = or_else input.label none;
  enabled = or_else input.enabled true;
  max_transactions = replaced_limit input.max_transactions none;
  used_transactions = 0;
  reserved_transactions = 0;
  expires_at = or_else input.expires_at none;
}

unfoldable pub patch_binding : BindingInput → Binding → Binding
patch_binding input b = record b {
  label = or_else input.label b.label;
  max_transactions = replaced_limit input.max_transactions b.max_transactions;
  expires_at = or_else input.expires_at b.expires_at;
  enabled = or_else input.enabled b.enabled;
}

unfoldable pub upsert_binding : BindingInput → Database → Result StoreError Database
unfolding limit_out_of_range new_binding patch_binding
upsert_binding input db = do
  throw_if (limit_out_of_range input.max_transactions) range_error
  ok (record db {
    bindings =
        if exists (at_address input.address) db.bindings
        then update (at_address input.address) (patch_binding input) db.bindings
        else insert (new_binding input) db.bindings;
  })

unfoldable pub set_binding_enabled : Address → Bool → Database → Bool × Database
set_binding_enabled a on db = (
  exists (at_address a) db.bindings,
  record db { bindings = update (at_address a) (λ b. record b { enabled = on }) db.bindings },
)

-- Nothing paid is open for the address: no claim, and no order in an open state.
unfoldable pub has_open_paid_provider_activity : Address → Database → Bool
has_open_paid_provider_activity a db =
    exists (λ c. c.owner_address == a) db.claims
    || exists (λ o. o.receive_address == a && is_open_order o.state) db.orders

-- The WHERE clause of resetBindingUsage.
unfoldable pub may_reset : Address → Bool → Database → Binding → Bool
unfolding has_open_paid_provider_activity
may_reset a require_no_paid_activity db b =
    at_address a b
    && b.reserved_transactions == 0
    && not (require_no_paid_activity && has_open_paid_provider_activity b.address db)

-- The SET clause of resetBindingUsage.
unfoldable pub reset_binding : Option (Option ℤ) → Binding → Binding
reset_binding max b = record b {
  used_transactions = 0;
  max_transactions = replaced_limit max b.max_transactions;
}

unfoldable pub reset_rows : Address → Option (Option ℤ) → Bool → Database → Database
unfolding may_reset reset_binding
reset_rows a max require_no_paid_activity db = record db {
  bindings = update (may_reset a require_no_paid_activity db) (reset_binding max) db.bindings;
}

unfoldable pub reset_binding_usage :
    Address → Option (Option ℤ) → Bool → Database → Result StoreError (Option Binding × Database)
unfolding limit_out_of_range reset_rows
reset_binding_usage a max require_no_paid_activity db = do
  throw_if (limit_out_of_range max) range_error
  let db' = reset_rows a max require_no_paid_activity db
  ok (
    if exists (may_reset a require_no_paid_activity db) db.bindings
        then get_binding a db'
        else none,
    db',
  )
