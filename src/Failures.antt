-- ===== src/Failures.antt =====
-- What the broadcast processor and the resource service throw (`GatewayError` of src/domain.ts,
-- `PaidProviderOrderError` of src/resource-service.ts). The source pairs each internal code
-- with one return code and one message, so the code stands for the three of them; the return
-- codes are the numbers of `ReturnCode`.
use catfee_io.Base.{ℕ, Bool, true, false, ◌++◌}
use catfee_io.Store.{
  Text, text, OrderState, pending, ordering, accepted, fulfilled, order_rejected, unknown,
}

pub data Code : Type 0 where
  compressed_request energy_preparation_required transaction_ttl_too_long : Code
  transaction_timestamp_invalid transaction_ttl_too_short address_not_bound : Code
  invalid_broadcast_transport energy_provider_unavailable tapos_reference_mismatch : Code
  insufficient_owner_trx_for_bandwidth energy_provider_package_unavailable : Code
  insufficient_owner_trx_for_resources transaction_ttl_too_short_for_provider : Code
  transaction_expiration_unsafe tapos_reference_expired transaction_already_visible : Code
  energy_provider_potentially_charged energy_provider_outcome_unknown energy_provider_rejected :
      Code
  energy_provider_confirm_timeout energy_provider_confirmation_unavailable : Code
  quota_reconciliation_required owner_bandwidth_burn_disabled owner_bandwidth_burn_limit_exceeded :
      Code
  energy_recheck_unavailable_after_provider energy_recheck_unavailable : Code
  energy_not_ready_after_provider energy_not_ready_for_broadcast owner_energy_burn_disabled : Code
  owner_energy_burn_limit_exceeded fee_limit_exceeds_chain_maximum : Code
  insufficient_fee_limit_for_energy insufficient_energy insufficient_bandwidth : Code
  energy_provider_amount_unsafe energy_receiver_not_activated energy_receiver_is_contract : Code
  owner_permission_mismatch : Code
  -- unsupported(message); what the inspector throws; a duplicate order by its state
  unsupported_transaction : Text → Code
  inspection_failed : ℕ → Text → Text → Code
  energy_provider_duplicate : OrderState → Code

-- `paid` is a PaidProviderOrderError; `other` any exception that is no GatewayError, by its message
-- where a caller keeps it. `out_of_fuel` is the model's own, and never thrown where the fuel is enough.
pub data Failure : Type 0 where
  gateway paid : Code → Failure
  other : Text → Failure
  out_of_fuel : Failure

abbrev pub order_state_text : OrderState → Text
order_state_text pending = text "PENDING"
order_state_text ordering = text "ORDERING"
order_state_text accepted = text "ACCEPTED"
order_state_text fulfilled = text "FULFILLED"
order_state_text order_rejected = text "REJECTED"
order_state_text unknown = text "UNKNOWN"

-- `internalCode`
unfoldable pub code_text : Code → Text
code_text compressed_request = text "COMPRESSED_REQUEST"
code_text energy_preparation_required = text "ENERGY_PREPARATION_REQUIRED"
code_text transaction_ttl_too_long = text "TRANSACTION_TTL_TOO_LONG"
code_text transaction_timestamp_invalid = text "TRANSACTION_TIMESTAMP_INVALID"
code_text transaction_ttl_too_short = text "TRANSACTION_TTL_TOO_SHORT"
code_text address_not_bound = text "ADDRESS_NOT_BOUND"
code_text invalid_broadcast_transport = text "INVALID_BROADCAST_TRANSPORT"
code_text energy_provider_unavailable = text "ENERGY_PROVIDER_UNAVAILABLE"
code_text tapos_reference_mismatch = text "TAPOS_REFERENCE_MISMATCH"
code_text insufficient_owner_trx_for_bandwidth = text "INSUFFICIENT_OWNER_TRX_FOR_BANDWIDTH"
code_text energy_provider_package_unavailable = text "ENERGY_PROVIDER_PACKAGE_UNAVAILABLE"
code_text insufficient_owner_trx_for_resources = text "INSUFFICIENT_OWNER_TRX_FOR_RESOURCES"
code_text transaction_ttl_too_short_for_provider = text "TRANSACTION_TTL_TOO_SHORT_FOR_PROVIDER"
code_text transaction_expiration_unsafe = text "TRANSACTION_EXPIRATION_UNSAFE"
code_text tapos_reference_expired = text "TAPOS_REFERENCE_EXPIRED_BEFORE_ORDER"
code_text transaction_already_visible = text "TRANSACTION_ALREADY_VISIBLE_BEFORE_ORDER"
code_text energy_provider_potentially_charged = text "ENERGY_PROVIDER_POTENTIALLY_CHARGED"
code_text energy_provider_outcome_unknown = text "ENERGY_PROVIDER_OUTCOME_UNKNOWN"
code_text energy_provider_rejected = text "ENERGY_PROVIDER_REJECTED"
code_text energy_provider_confirm_timeout = text "ENERGY_PROVIDER_CONFIRM_TIMEOUT"
code_text energy_provider_confirmation_unavailable = text "ENERGY_PROVIDER_CONFIRMATION_UNAVAILABLE"
code_text quota_reconciliation_required = text "ENERGY_PROVIDER_QUOTA_RECONCILIATION_REQUIRED"
code_text owner_bandwidth_burn_disabled = text "OWNER_BANDWIDTH_BURN_DISABLED"
code_text owner_bandwidth_burn_limit_exceeded = text "OWNER_BANDWIDTH_BURN_LIMIT_EXCEEDED"
code_text energy_recheck_unavailable_after_provider =
    text "ENERGY_RECHECK_UNAVAILABLE_AFTER_PROVIDER"
code_text energy_recheck_unavailable = text "ENERGY_RECHECK_UNAVAILABLE"
code_text energy_not_ready_after_provider = text "ENERGY_NOT_READY_AFTER_PROVIDER"
code_text energy_not_ready_for_broadcast = text "ENERGY_NOT_READY_FOR_BROADCAST"
code_text owner_energy_burn_disabled = text "OWNER_ENERGY_BURN_DISABLED"
code_text owner_energy_burn_limit_exceeded = text "OWNER_ENERGY_BURN_LIMIT_EXCEEDED"
code_text fee_limit_exceeds_chain_maximum = text "FEE_LIMIT_EXCEEDS_CHAIN_MAXIMUM"
code_text insufficient_fee_limit_for_energy = text "INSUFFICIENT_FEE_LIMIT_FOR_ENERGY"
code_text insufficient_energy = text "INSUFFICIENT_ENERGY"
code_text insufficient_bandwidth = text "INSUFFICIENT_BANDWIDTH"
code_text energy_provider_amount_unsafe = text "ENERGY_PROVIDER_AMOUNT_UNSAFE"
code_text energy_receiver_not_activated = text "ENERGY_RECEIVER_NOT_ACTIVATED"
code_text energy_receiver_is_contract = text "ENERGY_RECEIVER_IS_CONTRACT"
code_text owner_permission_mismatch = text "OWNER_PERMISSION_MISMATCH"
code_text (unsupported_transaction message) = text "UNSUPPORTED_TRANSACTION"
code_text (inspection_failed status message code) = code
code_text (energy_provider_duplicate state) =
    text "ENERGY_PROVIDER_DUPLICATE_" ++ order_state_text state

-- `returnCode`
unfoldable pub return_code : Code → ℕ
return_code compressed_request = 20
return_code energy_preparation_required = 2
return_code transaction_ttl_too_long = 8
return_code transaction_timestamp_invalid = 8
return_code transaction_ttl_too_short = 8
return_code address_not_bound = 2
return_code invalid_broadcast_transport = 2
return_code energy_provider_unavailable = 2
return_code tapos_reference_mismatch = 6
return_code insufficient_owner_trx_for_bandwidth = 4
return_code energy_provider_package_unavailable = 2
return_code insufficient_owner_trx_for_resources = 2
return_code transaction_ttl_too_short_for_provider = 8
return_code transaction_expiration_unsafe = 8
return_code tapos_reference_expired = 6
return_code transaction_already_visible = 5
return_code energy_provider_potentially_charged = 2
return_code energy_provider_outcome_unknown = 2
return_code energy_provider_rejected = 2
return_code energy_provider_confirm_timeout = 2
return_code energy_provider_confirmation_unavailable = 2
return_code quota_reconciliation_required = 9
return_code owner_bandwidth_burn_disabled = 4
return_code owner_bandwidth_burn_limit_exceeded = 4
return_code energy_recheck_unavailable_after_provider = 9
return_code energy_recheck_unavailable = 9
return_code energy_not_ready_after_provider = 9
return_code energy_not_ready_for_broadcast = 2
return_code owner_energy_burn_disabled = 2
return_code owner_energy_burn_limit_exceeded = 2
return_code fee_limit_exceeds_chain_maximum = 2
return_code insufficient_fee_limit_for_energy = 2
return_code insufficient_energy = 2
return_code insufficient_bandwidth = 4
return_code energy_provider_amount_unsafe = 2
return_code energy_receiver_not_activated = 2
return_code energy_receiver_is_contract = 2
return_code owner_permission_mismatch = 1
return_code (unsupported_transaction message) = 2
return_code (inspection_failed status message code) = status
return_code (energy_provider_duplicate state) = 2

-- `publicMessage` of a GatewayError
unfoldable pub public_message : Code → Text
public_message compressed_request = text "Compressed broadcast requests are unsupported"
public_message energy_preparation_required =
    text "Smart-contract ENERGY must be prepared before broadcast"
public_message transaction_ttl_too_long = text "Transaction expiration is too far in the future"
public_message transaction_timestamp_invalid =
    text "Transaction timestamp is outside the accepted freshness window"
public_message transaction_ttl_too_short = text "Transaction is expired or too close to expiration"
public_message address_not_bound = text "Owner address is not enabled"
public_message invalid_broadcast_transport =
    text "Sponsored broadcasts require POST with application/grpc content type"
public_message energy_provider_unavailable = text "No external energy provider is configured"
public_message tapos_reference_mismatch =
    text "Transaction TAPOS reference does not match the current chain"
public_message insufficient_owner_trx_for_bandwidth =
    text "The owner account cannot cover the estimated TRX bandwidth charge"
public_message energy_provider_package_unavailable =
    text "No enabled energy provider can supply a compatible package"
public_message insufficient_owner_trx_for_resources =
    text "The owner account cannot cover the estimated TRX resource charge"
public_message transaction_ttl_too_short_for_provider =
    text "Transaction is too close to expiration to place a paid energy order"
public_message transaction_expiration_unsafe =
    text "Transaction expiration is outside the supported range"
public_message tapos_reference_expired =
    text "Transaction TAPOS reference expired during paid-resource preparation"
public_message transaction_already_visible =
    text "Transaction is already pending or recorded by the FullNode"
public_message energy_provider_potentially_charged =
    text "Energy provider order outcome is pending manual review"
public_message energy_provider_outcome_unknown =
    text "Energy order outcome is pending manual review"
public_message energy_provider_rejected =
    text "External energy provider could not fulfill the order"
public_message energy_provider_confirm_timeout =
    text "Energy order was placed but has not reached the account yet"
public_message energy_provider_confirmation_unavailable =
    text "Energy order was placed but has not reached the account yet"
public_message quota_reconciliation_required =
    text "Energy order accounting is being reconciled; retry later"
public_message owner_bandwidth_burn_disabled =
    text "The transaction may require an owner TRX bandwidth fallback, which is disabled"
public_message owner_bandwidth_burn_limit_exceeded =
    text "The estimated owner bandwidth charge exceeds the configured limit"
public_message energy_recheck_unavailable_after_provider =
    text "Paid ENERGY could not be rechecked; the transaction was not broadcast"
public_message energy_recheck_unavailable =
    text "ENERGY availability could not be verified; the transaction was not broadcast"
public_message energy_not_ready_after_provider =
    text "Paid ENERGY is not fully available; the transaction was not broadcast"
public_message energy_not_ready_for_broadcast =
    text "ENERGY is not fully available; the transaction was not broadcast"
public_message owner_energy_burn_disabled =
    text "The selected package leaves an ENERGY remainder and owner TRX fallback is disabled"
public_message owner_energy_burn_limit_exceeded =
    text "The estimated owner ENERGY charge exceeds the configured limit"
public_message fee_limit_exceeds_chain_maximum =
    text "The signed fee_limit exceeds the current chain maximum"
public_message insufficient_fee_limit_for_energy =
    text "The signed fee_limit cannot cover the safe total ENERGY requirement"
public_message insufficient_energy = text "Resource pool has insufficient ENERGY"
public_message insufficient_bandwidth = text "Resource pool has insufficient BANDWIDTH"
public_message energy_provider_amount_unsafe =
    text "Estimated energy is outside the supported provider range"
public_message energy_receiver_not_activated =
    text "The external energy receiver account is not activated"
public_message energy_receiver_is_contract =
    text "A contract address cannot receive external energy sponsorship"
public_message owner_permission_mismatch =
    text "The signed owner key does not satisfy the current on-chain owner permission"
public_message (unsupported_transaction message) = message
public_message (inspection_failed status message code) = message
public_message (energy_provider_duplicate state) =
    text "External energy provider could not fulfill the order"

-- `publicMessage` of a PaidProviderOrderError, which one code words differently.
unfoldable pub paid_message : Code → Text
paid_message (energy_provider_duplicate state) = text "Energy provider order requires manual review"
paid_message code = public_message code

-- `internalCode.startsWith("INSUFFICIENT_")`
abbrev pub is_insufficient : Code → Bool
is_insufficient insufficient_owner_trx_for_bandwidth = true
is_insufficient insufficient_owner_trx_for_resources = true
is_insufficient insufficient_fee_limit_for_energy = true
is_insufficient insufficient_energy = true
is_insufficient insufficient_bandwidth = true
is_insufficient _ = false
