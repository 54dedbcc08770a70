-- ===== src/Store.antt =====
-- The rows of the database that src/repository.ts and src/providers/repository.ts read and write.
-- A table is the list of its rows in the order of insertion. Addresses, transaction ids and provider
-- ids are only ever compared, so they are numbers; a text is the list of its code units; a time is
-- a number of milliseconds. `created_at` and `updated_at` are kept where a query reads them.
use Prim.Native.String.{String}
use Prim.Native.Char.{code}
use catfee_io.Base.{ℕ, Bool, true, false, Option, List, [], ◌∷◌}
use catfee_io.Base.Int.{ℤ}
use catfee_io.ResourceMath.{ResourceType, PaymentSource}

abbrev pub Address : Type 0
Address = ℕ

abbrev pub TxId : Type 0
TxId = ℕ

abbrev pub Text : Type 0
Text = List ℕ

abbrev pub Time : Type 0
Time = ℕ

-- A literal of the source.
abbrev pub text : String → Text
text String.[] = []
text (String.◌∷◌ c s) = code c ∷ text s

pub record Binding : Type 0 where
  pub address : Address
  pub label : Option Text
  pub enabled : Bool
  pub max_transactions : Option ℕ
  pub used_transactions : ℕ
  pub reserved_transactions : ℕ
  pub expires_at : Option Time

pub data RequestState : Type 0 where
  received quota_reserved_state resource_estimated resource_ready : RequestState
  upstream_accepted upstream_rejected rejected failed : RequestState
  solidified_success solidified_failed expired : RequestState

pub record Request : Type 0 where
  pub tx_id : TxId
  pub owner_address : Address
  pub contract_type : ℤ
  pub contract_address : Option Address
  pub function_selector : Option Text
  pub expiration_ms : ℤ
  pub state : RequestState
  pub energy_required : Option ℤ
  pub energy_deficit : Option ℤ
  pub bandwidth_required : Option ℤ
  pub bandwidth_deficit : Option ℤ
  pub quota_reserved : Bool
  pub upstream_response : Option (List ℕ)
  pub upstream_grpc_status : Option Text
  pub error_code : Option Text
  pub error_message : Option Text
  pub updated_at : Time

-- A row of `sponsor_address_claims`.
pub record Claim : Type 0 where
  pub owner_address : Address
  pub tx_id : TxId

pub data LeaseState : Type 0 where
  created delegating active release_pending releasing release_broadcast : LeaseState
  released lease_failed failed_no_delegation : LeaseState

pub record Lease : Type 0 where
  pub id : ℕ
  pub tx_id : TxId
  pub resource_type : ResourceType
  pub resource_owner_address : Address
  pub receiver_address : Address
  pub balance_sun : ℕ
  pub delegate_tx_id : Option TxId
  pub undelegate_tx_id : Option TxId
  pub state : LeaseState
  pub release_after : Option Time
  pub error_message : Option Text
  pub created_at : Time
  pub updated_at : Time

pub data OrderState : Type 0 where
  pending ordering accepted fulfilled order_rejected unknown : OrderState

-- An element of the column `attempts`.
pub record OrderEvent : Type 0 where
  pub state : OrderState
  pub provider_id : Option ℕ
  pub provider_type : Option Text
  pub requested_amount : Option ℕ
  pub ordered_amount : Option ℕ
  pub code : Option Text
  pub at : Time

pub record Order : Type 0 where
  pub id : ℕ
  pub tx_id : TxId
  pub provider_id : Option ℕ
  pub receive_address : Address
  pub requested_amount : ℕ
  pub amount : ℕ
  pub rent_time : Option ℕ
  pub state : OrderState
  pub provider_order_id : Option Text
  pub provider_balance_trx : Option Text
  pub order_cost_trx : Option Text
  pub delegation_tx_hash : Option Text
  pub sender_addresses : List Address
  pub failure_code : Option Text
  pub failure_message : Option Text
  pub attempts : List OrderEvent

pub data LedgerState : Type 0 where
  reserved charged ledger_released : LedgerState

-- A row of `energy_provider_budget_ledger`.
pub record LedgerEntry : Type 0 where
  pub utc_day : ℕ
  pub order_id : ℕ
  pub provider_id : ℕ
  pub energy_amount : ℕ
  pub state : LedgerState

pub record Provider : Type 0 where
  pub id : ℕ
  pub provider_type : Text
  pub name : Text
  pub enabled : Bool
  pub priority : ℕ
  pub rent_time : ℕ
  pub max_energy_per_order : ℕ
  pub daily_order_limit : ℕ
  pub daily_energy_limit : ℕ
  pub credential_version : ℕ
  pub api_key_encrypted : Text

-- What upsertResourceAuditPlan writes, all of it by one statement.
pub record AuditPlan : Type 0 where
  pub energy_estimate_raw : ℤ
  pub energy_estimate_safe : ℤ
  pub estimate_safety_bps : ℕ
  pub energy_available_before : ℤ
  pub package_threshold : ℤ
  pub energy_package_quoted : Option ℤ
  pub energy_price_sun : ℤ
  pub estimated_energy_burn_sun : ℤ
  pub bandwidth_bytes : ℤ
  pub bandwidth_staked_available : ℤ
  pub bandwidth_free_available : ℤ
  pub bandwidth_source : PaymentSource
  pub bandwidth_unit_price_sun : ℤ
  pub estimated_bandwidth_burn_sun : ℤ
  pub owner_balance_sun : ℤ
  pub fee_limit_sun : ℤ
  pub minimum_fee_limit_sun : ℤ
  pub maximum_fee_limit_sun : ℤ

-- The amounts of a solidified receipt, where the receipt has them.
pub record ReceiptAudit : Type 0 where
  pub energy_usage_total : Option ℕ
  pub energy_usage : Option ℕ
  pub origin_energy_usage : Option ℕ
  pub net_usage : Option ℕ
  pub net_fee_sun : Option ℕ
  pub energy_fee_sun : Option ℕ
  pub total_fee_sun : Option ℕ

-- A row of `transaction_resource_audits`. The columns of the plan are null together.
pub record Audit : Type 0 where
  pub tx_id : TxId
  pub plan : Option AuditPlan
  pub planned_at : Option Time
  pub energy_package_attempted : Option ℤ
  pub energy_available_after : Option ℤ
  pub energy_arrival_observed_at : Option Time
  pub receipt : ReceiptAudit
  pub receipt_result : Option Text
  pub solidified_at : Option Time

pub record Database : Type 0 where
  pub bindings : List Binding
  pub requests : List Request
  pub claims : List Claim
  pub leases : List Lease
  pub next_lease_id : ℕ
  pub providers : List Provider
  pub orders : List Order
  pub next_order_id : ℕ
  pub ledger : List LedgerEntry
  pub audits : List Audit

-- Why a statement, or the check before it, throws. A transaction that throws is rolled back, so the
-- database is then the one from before the call.
pub data StoreError : Type 0 where
  unique_violation foreign_key_violation check_violation : StoreError
  range_error missing_row transition_rejected data_exception connection_lost : StoreError

-- e.state IN ('ORDERING', 'ACCEPTED', 'UNKNOWN')
abbrev pub is_open_order : OrderState → Bool
is_open_order ordering = true
is_open_order accepted = true
is_open_order unknown = true
is_open_order _ = false

-- e.state IN ('ORDERING', 'ACCEPTED', 'FULFILLED', 'UNKNOWN')
abbrev pub is_billable_order : OrderState → Bool
is_billable_order ordering = true
is_billable_order accepted = true
is_billable_order fulfilled = true
is_billable_order unknown = true
is_billable_order _ = false

-- l.state NOT IN ('RELEASED', 'FAILED', 'FAILED_NO_DELEGATION')
abbrev pub is_unfinished_lease : LeaseState → Bool
is_unfinished_lease released = false
is_unfinished_lease lease_failed = false
is_unfinished_lease failed_no_delegation = false
is_unfinished_lease _ = true

abbrev pub is_active : LeaseState → Bool
is_active active = true
is_active _ = false

-- b.state IN ('REJECTED', 'FAILED', 'UPSTREAM_REJECTED', 'SOLIDIFIED_SUCCESS', 'SOLIDIFIED_FAILED',
-- 'EXPIRED')
abbrev pub is_terminal : RequestState → Bool
is_terminal rejected = true
is_terminal failed = true
is_terminal upstream_rejected = true
is_terminal solidified_success = true
is_terminal solidified_failed = true
is_terminal expired = true
is_terminal _ = false

abbrev pub is_received : RequestState → Bool
is_received received = true
is_received _ = false
