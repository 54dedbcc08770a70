-- ===== src/Inspector/Inspect.antt =====
-- src/grpc/transaction-inspector.ts: `inspectSignedTransaction`.
use catfee_io.Base.{ℕ, not, List, ◌==◌, ◌||◌, or_else, length}
use catfee_io.Base.Int.{ℤ, pos, negsuc, ltb_ℤ}
use catfee_io.Base.Results.{Result, ok, ◌>>=◌, ◌>>◌, throw_if}
use catfee_io.Store.{Address, text}
use catfee_io.Failures.{Failure, gateway, inspection_failed}
use catfee_io.Gateway.Requests.{Transaction}
use catfee_io.Inspector.{
  Codec, DecodedContract, DecodedRaw, bytes_of, first_of, to_big_int, tron_hex_to_base58,
  validation_error,
}
use catfee_io.Inspector.Signature.{verify_single_owner_signature}
use catfee_io.Inspector.Contents.{
  Opened, Parts, is_number, only_contract, only_signature, open_transaction, parameter_of,
  read_parts,
}

abbrev pub inspected : Codec → List ℕ → Opened → DecodedRaw → ℤ → Parts → Address → Transaction
inspected c bytes o raw type parts owner = record {
  tx_id = c.sha256 o.raw_bytes;
  transaction_bytes = bytes;
  owner_address = owner;
  contract_type = type;
  contract_address = parts.contract_address;
  function_selector = parts.function_selector;
  trigger_data = parts.trigger_data;
  call_value = parts.call_value;
  call_token_value = parts.call_token_value;
  token_id = parts.token_id;
  fee_limit_sun = to_big_int raw.fee_limit;
  ref_block_bytes = bytes_of raw.ref_block_bytes;
  ref_block_hash = bytes_of raw.ref_block_hash;
  memo_length = length (bytes_of raw.memo);
  permission_id = pos 0;
  expiration_ms = to_big_int raw.expiration;
  timestamp_ms = to_big_int raw.timestamp;
}

-- The checks on what raw_data holds beside its contract.
unfoldable pub check_reference : DecodedRaw → Result Failure (Unit {0})
check_reference raw =
    throw_if
      (not (length (bytes_of raw.ref_block_bytes) == 2)
        || not (length (bytes_of raw.ref_block_hash) == 8))
      (gateway (
        inspection_failed 6 (text "Transaction TAPOS reference is missing or malformed")
          (text "INVALID_TAPOS_REFERENCE")))

-- `contract.permissionId ?? contract.PermissionId ?? 0`
unfoldable pub check_permission : DecodedContract → Result Failure (Unit {0})
check_permission k =
    throw_if (not (is_number (to_big_int (first_of k.permission_id k.permission_id_capital)) 0)) (
      validation_error
        (text "Active-permission and multisig user transactions are not supported yet")
        (text "UNSUPPORTED_PERMISSION"))

-- What follows the reading of the contract.
unfoldable pub conclude :
    Codec → List ℕ → Opened → DecodedRaw → ℤ → List ℕ → Parts → Result Failure Transaction
unfolding verify_single_owner_signature tron_hex_to_base58
conclude c bytes o raw type signature parts = do
  verify_single_owner_signature c (c.sha256 o.raw_bytes) signature parts.owner_bytes
  throw_if (ltb_ℤ (to_big_int raw.fee_limit) (pos 0))
      (validation_error (text "fee_limit cannot be negative") (text "INVALID_FEE_LIMIT"))
  owner ← tron_hex_to_base58 c parts.owner_bytes
  ok (inspected c bytes o raw type parts owner)

unfoldable pub inspect_signed_transaction : Codec → List ℕ → Result Failure Transaction
unfolding open_transaction only_contract only_signature check_reference parameter_of
    check_permission read_parts conclude
inspect_signed_transaction c bytes = do
  o ← open_transaction c bytes
  (raw, k) ← only_contract o.decoded.raw
  signature ← only_signature o.decoded.signatures
  check_reference raw
  (parameter, url) ← parameter_of k
  check_permission k
  parts ← read_parts c (or_else k.contract_type (negsuc 0)) parameter url
  conclude c bytes o raw (or_else k.contract_type (negsuc 0)) signature parts
