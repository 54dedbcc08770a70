-- ===== src/Resources.antt =====
-- What `ResourceService` of src/resource-service.ts asks of the node, and the checks that it makes before
-- it spends anything. Amounts are `bigint`s. What the node answers at each place is a field of `Node`;
-- `none` is a call that throws.
pub mod Keys
pub mod World
pub mod Requirements
pub mod Leasing
pub mod Release
pub mod Survey
pub mod Rental
pub mod Prepare
use catfee_io.Base.{
  ℕ, ◌+◌, Bool, true, false, not, Option, none, some, List, [], ◌∷◌, ◌==◌, ◌&&◌, ◌||◌,
  if◌then◌else◌, or_else,
}
use catfee_io.Base.Int.{ℤ, pos, ◌+ℤ◌, ◌-ℤ◌, ltb_ℤ, leb_ℤ, pos_part}
use catfee_io.Base.Results.{Result, ok, err, ◌>>=◌, ◌>>◌, throw_if}
use catfee_io.ResourceMath.{
  AccountResource, Value, undefined, null, empty_text, malformed, integer, PaymentPlan,
}
use catfee_io.Store.{Address, Text, text}
use catfee_io.Providers.Settle.{same_text}
use catfee_io.Providers.Limits.{max_safe_integer}
use catfee_io.Failures.{
  Code, energy_receiver_not_activated, energy_receiver_is_contract, owner_permission_mismatch,
  owner_bandwidth_burn_disabled, owner_bandwidth_burn_limit_exceeded, owner_energy_burn_disabled,
  owner_energy_burn_limit_exceeded, fee_limit_exceeds_chain_maximum,
  insufficient_fee_limit_for_energy, energy_provider_amount_unsafe,
}
use catfee_io.Gateway.Requests.{Transaction}

pub data EnergySource : Type 0 where
  self provider : EnergySource

abbrev pub is_provider : EnergySource → Bool
is_provider self = false
is_provider provider = true

pub record Options : Type 0 where
  pub resource_owner_address : Address
  pub sponsor_energy : Bool
  pub sponsor_bandwidth : Bool
  pub energy_source : EnergySource
  pub estimate_safety_bps : ℕ
  pub allow_owner_bandwidth_burn : Bool
  pub max_owner_bandwidth_burn_sun : ℤ
  pub allow_owner_energy_burn : Bool
  pub max_owner_energy_burn_sun : ℤ
  pub energy_package_threshold : ℕ
  pub min_delegate_sun : ℤ
  pub delegation_confirm_timeout_ms : ℕ
  pub delegation_poll_ms : ℕ
  pub provider_confirm_timeout_ms : ℕ
  pub provider_order_timeout_ms : ℕ
  pub provider_poll_ms : ℕ
  pub min_transaction_ttl_ms : ℕ

-- `key.address`: no text, a text that normalizeTronAddress refuses, or one that it reads.
pub data KeyAddress : Type 0 where
  not_text invalid_address : KeyAddress
  valid_address : Address → KeyAddress

-- An element of `record.keys`, with its address and weight.
pub data KeyEntry : Type 0 where
  not_record : KeyEntry
  key : KeyAddress → Value → KeyEntry

-- `record.type`: a text, or another value by its `String(…)`.
pub data TypeField : Type 0 where
  named shown : Text → TypeField

-- An owner permission of the account; `none` is `undefined`, for `keys` no array.
pub record Permission : Type 0 where
  pub id : Option Text
  pub permission_type : Option TypeField
  pub threshold : Value
  pub keys : Option (List KeyEntry)

pub data PermissionField : Type 0 where
  not_object : PermissionField
  permission : Permission → PermissionField

-- `account.type`: the text "Contract", the number 2, the text "2", or another value.
pub data AccountType : Type 0 where
  contract_name contract_number contract_digit other_type : AccountType

-- What getAccount answers. The address is `none` where it is no text in canonical form, and a
-- permission where it is undefined or null.
pub record Account : Type 0 where
  pub address : Option Address
  pub account_type : AccountType
  pub owner_permission : Option PermissionField
  pub owner_permission_camel : Option PermissionField
  pub amounts : AccountResource

-- `positiveBigInt`
unfoldable pub positive_big_int : Value → Option ℤ
positive_big_int undefined = none
positive_big_int null = none
positive_big_int empty_text = none
positive_big_int malformed = none
positive_big_int (integer v) = if ltb_ℤ (pos 0) v then some v else none

abbrev pub is_address : Option Address → Address → Bool
is_address none expected = false
is_address (some a) expected = a == expected

abbrev pub is_contract : AccountType → Bool
is_contract other_type = false
is_contract _ = true

-- `assertExternalEnergyReceiver`
unfoldable pub assert_external_energy_receiver : Account → Address → Result Code (Unit {0})
assert_external_energy_receiver account expected = do
  throw_if (not (is_address account.address expected)) energy_receiver_not_activated
  throw_if (is_contract account.account_type) energy_receiver_is_contract

-- `record.id !== undefined && String(record.id) !== "0"`
abbrev pub is_wrong_id : Option Text → Bool
is_wrong_id none = false
is_wrong_id (some id) = not (same_text id (text "0"))

-- `record.type !== undefined && record.type !== "Owner" && String(record.type) !== "0"`
abbrev pub is_wrong_type : Option TypeField → Bool
is_wrong_type none = false
is_wrong_type (some (named t)) = not (same_text t (text "Owner")) && not (same_text t (text "0"))
is_wrong_type (some (shown t)) = not (same_text t (text "0"))

-- `if (normalized === expectedAddress && weight > matchingWeight) matchingWeight = weight`
unfoldable pub heavier : Address → Address → ℤ → ℤ → ℤ
heavier expected a weight matching =
    if a == expected && ltb_ℤ matching weight then weight else matching

-- One turn of the loop over the keys.
unfoldable pub read_key : Address → KeyEntry → ℤ → Result Code ℤ
read_key expected not_record matching = err owner_permission_mismatch
read_key expected (key not_text weight) matching = err owner_permission_mismatch
read_key expected (key invalid_address weight) matching = err owner_permission_mismatch
read_key expected (key (valid_address a) weight) matching = elim (positive_big_int weight) [
  | none ↦ err owner_permission_mismatch
  | some w ↦ ok (heavier expected a w matching)
]

unfoldable pub matching_weight : Address → List KeyEntry → ℤ → Result Code ℤ
matching_weight expected [] matching = ok matching
matching_weight expected (k ∷ ks) matching =
    read_key expected k matching >>= matching_weight expected ks

unfoldable pub assert_keys : Address → ℤ → List KeyEntry → Result Code (Unit {0})
assert_keys expected threshold [] = err owner_permission_mismatch
assert_keys expected threshold (k ∷ ks) = do
  weight ← matching_weight expected (k ∷ ks) (pos 0)
  throw_if (ltb_ℤ weight threshold) owner_permission_mismatch

unfoldable pub assert_permission : Permission → Address → Result Code (Unit {0})
assert_permission p expected =
    if is_wrong_id p.id || is_wrong_type p.permission_type
    then err owner_permission_mismatch
    else elim (positive_big_int p.threshold) [
      | none ↦ err owner_permission_mismatch
      | some threshold ↦ elim p.keys [
        | none ↦ err owner_permission_mismatch
        | some ks ↦ assert_keys expected threshold ks
      ]
    ]

-- `account.owner_permission ?? account.ownerPermission`
abbrev pub permission_of : Account → Option PermissionField
permission_of account = elim account.owner_permission [
  | some p ↦ some p
  | none ↦ account.owner_permission_camel
]

-- `assertSingleOwnerPermission`
unfoldable pub assert_single_owner_permission : Account → Address → Result Code (Unit {0})
assert_single_owner_permission account expected = elim (permission_of account) [
  | none ↦ ok tt
  | some not_object ↦ err owner_permission_mismatch
  | some (permission p) ↦ assert_permission p expected
]

unfoldable pub assert_fee_limit_sufficient : Transaction → ℤ → ℤ → Result Code (Unit {0})
assert_fee_limit_sufficient t minimum maximum = do
  throw_if (ltb_ℤ maximum t.fee_limit_sun) fee_limit_exceeds_chain_maximum
  throw_if (ltb_ℤ t.fee_limit_sun minimum) insufficient_fee_limit_for_energy

unfoldable pub assert_owner_bandwidth_payment_allowed :
    Options → PaymentPlan → Result Code (Unit {0})
assert_owner_bandwidth_payment_allowed o plan = if leb_ℤ plan.burn_sun (pos 0) then ok tt else do
  throw_if (not o.allow_owner_bandwidth_burn) owner_bandwidth_burn_disabled
  throw_if (ltb_ℤ o.max_owner_bandwidth_burn_sun plan.burn_sun) owner_bandwidth_burn_limit_exceeded

unfoldable pub assert_owner_energy_payment_allowed : Options → ℤ → Result Code (Unit {0})
assert_owner_energy_payment_allowed o burn = if leb_ℤ burn (pos 0) then ok tt else do
  throw_if (not o.allow_owner_energy_burn) owner_energy_burn_disabled
  throw_if (ltb_ℤ o.max_owner_energy_burn_sun burn) owner_energy_burn_limit_exceeded

-- `safeEnergyNumber`: Number(value) is a safe integer exactly for a value that is one.
unfoldable pub safe_energy_number : ℤ → Result Code ℕ
safe_energy_number v =
    if ltb_ℤ v (pos 1) || ltb_ℤ (pos max_safe_integer) v
    then err energy_provider_amount_unsafe
    else ok (pos_part v)

pub record Prices : Type 0 where
  pub energy_fee_sun : ℤ
  pub bandwidth_fee_sun : ℤ
  pub max_fee_limit_sun : ℤ

-- A transaction receipt, its texts in upper case.
pub record Receipt : Type 0 where
  pub result : Option Text
  pub body_result : Option Text

-- `isSuccessfulReceipt`
unfoldable pub is_successful_receipt : Receipt → Bool
is_successful_receipt r =
    same_text (or_else r.result (or_else r.body_result (text "SUCCESS"))) (text "SUCCESS")
