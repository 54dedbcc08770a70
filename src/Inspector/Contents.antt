-- ===== src/Inspector/Contents.antt =====
-- src/grpc/transaction-inspector.ts: the contract of a transaction, its parameter and its owner.
use catfee_io.Base.{
  ℕ, ◌+◌, Bool, false, not, Option, none, some, List, [], ◌∷◌, ◌==◌, ltb, if◌then◌else◌, or_else,
  length, take,
}
use catfee_io.Base.Int.{ℤ, pos, negsuc}
use catfee_io.Base.Results.{Result, ok, err, ◌>>=◌, ◌>>◌, throw_if}
use catfee_io.Store.{Address, Text, text}
use catfee_io.Framing.{extract_length_delimited_field}
use catfee_io.Failures.{Failure, gateway, inspection_failed}
use catfee_io.Resources.World.{asks}
use catfee_io.Inspector.{
  Codec, DecodedContract, DecodedRaw, DecodedTransaction, bytes_of, contract_error, first_of,
  framed, hex, require_canonical_contract_parameter, require_parameter_type, required_address,
  same_bytes, to_big_int, tron_hex_to_base58, validation_error,
}

-- The payload of raw_data, and what protobufjs read.
pub record Opened : Type 0 where
  pub raw_bytes : List ℕ
  pub decoded : DecodedTransaction

unfoldable pub open_transaction : Codec → List ℕ → Result Failure Opened
open_transaction c bytes = do
  throw_if (ltb 512_000 (length bytes + 128)) (
      gateway (
        inspection_failed 7 (text "Transaction exceeds the conservative java-tron size limit")
          (text "TOO_BIG_TRANSACTION_ERROR")))
  decoded ← asks (c.decode_transaction bytes)
  throw_if (ltb 0 decoded.ret_length) (
      contract_error (text "Pre-executed transaction results are not accepted for broadcast")
        (text "TRANSACTION_RET_NOT_EMPTY"))
  raw_bytes ← framed (extract_length_delimited_field bytes 1)
  canonical ← asks (c.canonical_raw raw_bytes)
  throw_if (not (same_bytes canonical raw_bytes)) (
      validation_error (text "Transaction raw_data is not in java-tron's canonical protobuf form")
        (text "NON_CANONICAL_RAW_DATA"))
  ok (record { raw_bytes = raw_bytes; decoded = decoded })

-- `!raw || contracts.length !== 1`
unfoldable pub only_contract : Option DecodedRaw → Result Failure (DecodedRaw × DecodedContract)
only_contract raw = elim raw [
  | none ↦ err (
      validation_error (text "Exactly one transaction contract is required")
        (text "INVALID_CONTRACT_COUNT"))
  | some r ↦ elim (or_else r.contracts []) [
    | k ∷ [] ↦ ok (r, k)
    | _ ↦ err (
        validation_error (text "Exactly one transaction contract is required")
          (text "INVALID_CONTRACT_COUNT"))
  ]
]

unfoldable pub only_signature : Option (List (List ℕ)) → Result Failure (List ℕ)
only_signature signatures = elim (or_else signatures []) [
  | s ∷ [] ↦ ok s
  | _ ↦ err (
      validation_error (text "Only one fully-signed signature is supported in this release")
        (text "UNSUPPORTED_SIGNATURE_COUNT"))
]

-- `!contract.parameter?.value`, and the type's URL beside it
unfoldable pub parameter_of : DecodedContract → Result Failure (List ℕ × Option Text)
parameter_of k = elim k.parameter [
  | none ↦ err (
      validation_error (text "Transaction contract parameter is missing")
        (text "MISSING_CONTRACT_PARAMETER"))
  | some any ↦ elim any.value [
    | none ↦ err (
        validation_error (text "Transaction contract parameter is missing")
          (text "MISSING_CONTRACT_PARAMETER"))
    | some bytes ↦ ok (bytes, first_of any.type_url any.type_url_snake)
  ]
]

-- The variables that the branches by the contract's type assign.
pub record Parts : Type 0 where
  pub owner_bytes : List ℕ
  pub contract_address : Option Address
  pub function_selector : Option Text
  pub trigger_data : Option Text
  pub call_value : Option ℤ
  pub call_token_value : Option ℤ
  pub token_id : Option ℤ

abbrev pub owner_alone : List ℕ → Parts
owner_alone owner = record {
  owner_bytes = owner;
  contract_address = none;
  function_selector = none;
  trigger_data = none;
  call_value = none;
  call_token_value = none;
  token_id = none;
}

unfoldable pub read_trigger : Codec → List ℕ → Option Text → Result Failure Parts
unfolding required_address tron_hex_to_base58 require_parameter_type
    require_canonical_contract_parameter
read_trigger c parameter url = do
  require_parameter_type url (text "type.googleapis.com/protocol.TriggerSmartContract")
  canonical ← asks (c.canonical_trigger parameter)
  require_canonical_contract_parameter parameter canonical
  trigger ← asks (c.decode_trigger parameter)
  owner ← required_address trigger.owner_address (text "owner_address")
  target ← required_address trigger.contract_address (text "contract_address")
  throw_if (ltb (length (bytes_of trigger.calldata)) 4) (
      validation_error (text "TriggerSmartContract calldata is too short")
        (text "INVALID_CALLDATA"))
  address ← tron_hex_to_base58 c target
  ok (record {
    owner_bytes = owner;
    contract_address = some address;
    function_selector = some (hex (take 4 (bytes_of trigger.calldata)));
    trigger_data = some (hex (bytes_of trigger.calldata));
    call_value = some (to_big_int trigger.call_value);
    call_token_value = some (to_big_int trigger.call_token_value);
    token_id = some (to_big_int trigger.token_id);
  })

unfoldable pub read_transfer : Codec → List ℕ → Option Text → Result Failure Parts
unfolding required_address require_parameter_type require_canonical_contract_parameter
read_transfer c parameter url = do
  require_parameter_type url (text "type.googleapis.com/protocol.TransferContract")
  canonical ← asks (c.canonical_transfer parameter)
  require_canonical_contract_parameter parameter canonical
  address ← asks (c.decode_transfer parameter)
  owner ← required_address address (text "owner_address")
  ok (owner_alone owner)

unfoldable pub read_other : List ℕ → Result Failure Parts
unfolding required_address
read_other parameter = do
  owner ← framed (extract_length_delimited_field parameter 1)
  address ← required_address (some owner) (text "owner_address")
  ok (owner_alone owner)

abbrev pub is_number : ℤ → ℕ → Bool
is_number (pos n) m = n == m
is_number (negsuc n) m = false

unfoldable pub read_parts : Codec → ℤ → List ℕ → Option Text → Result Failure Parts
unfolding read_trigger read_transfer read_other
read_parts c type parameter url =
    if is_number type 31
    then read_trigger c parameter url
    else if is_number type 1
    then read_transfer c parameter url
    else read_other parameter
