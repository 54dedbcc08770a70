-- ===== src/Inspector.antt =====
-- src/grpc/transaction-inspector.ts: what a broadcast transaction must look like, and who signed it. The
-- protobuf library, the hash, the recovery of a signer and Base58Check are parameters, as fields of
-- `Codec`.
pub mod Signature
pub mod Contents
pub mod Inspect
pub mod Signed
use catfee_io.Base.{
  ℕ, ◌+◌, ◌-◌, ◌*◌, ◌/◌, ◌%◌, Bool, false, not, Option, none, some, List, [], ◌∷◌, ◌++◌, ◌==◌, ltb,
  ◌&&◌, ◌||◌, if◌then◌else◌, or_else, length,
}
use catfee_io.Base.Int.{ℤ, pos}
use catfee_io.Base.Results.{Result, ok, err, ◌>>=◌, ◌>>◌, throw_if}
use catfee_io.Store.{Address, TxId, Text, text}
use catfee_io.Providers.Settle.{same_text}
use catfee_io.Framing.{FrameError}
use catfee_io.Failures.{Failure, gateway, other, inspection_failed}
use catfee_io.Gateway.Requests.{Transaction}

-- `DecodedAny`: its two spellings of the type's URL, and its value.
pub record DecodedAny : Type 0 where
  pub type_url : Option Text
  pub type_url_snake : Option Text
  pub value : Option (List ℕ)

-- `DecodedContract`, with the two spellings of permissionId.
pub record DecodedContract : Type 0 where
  pub contract_type : Option ℤ
  pub parameter : Option DecodedAny
  pub permission_id : Option ℤ
  pub permission_id_capital : Option ℤ

-- `DecodedRaw`. An int64 is the integer that its `toString` prints.
pub record DecodedRaw : Type 0 where
  pub ref_block_bytes : Option (List ℕ)
  pub ref_block_hash : Option (List ℕ)
  pub expiration : Option ℤ
  pub timestamp : Option ℤ
  pub fee_limit : Option ℤ
  pub memo : Option (List ℕ)
  pub contracts : Option (List DecodedContract)

-- `DecodedTransaction`; of `ret` only the length is read.
pub record DecodedTransaction : Type 0 where
  pub raw : Option DecodedRaw
  pub signatures : Option (List (List ℕ))
  pub ret_length : ℕ

-- `DecodedTrigger`
pub record DecodedTrigger : Type 0 where
  pub owner_address : Option (List ℕ)
  pub contract_address : Option (List ℕ)
  pub call_value : Option ℤ
  pub calldata : Option (List ℕ)
  pub call_token_value : Option ℤ
  pub token_id : Option ℤ

-- What protocol.ts, node:crypto, ethers and tron-address.ts are called for. `recover_address` gives the 20
-- bytes whose hex digits the library prints, and nothing where it throws.
pub record Codec : Type 0 where
  pub decode_transaction : List ℕ → Result Text DecodedTransaction
  pub canonical_raw : List ℕ → Result Text (List ℕ)
  pub canonical_trigger : List ℕ → Result Text (List ℕ)
  pub canonical_transfer : List ℕ → Result Text (List ℕ)
  pub decode_trigger : List ℕ → Result Text DecodedTrigger
  pub decode_transfer : List ℕ → Result Text (Option (List ℕ))
  pub sha256 : List ℕ → TxId
  pub recover_address : TxId → (r s : List ℕ) → (y_parity : ℕ) → Option (List ℕ)
  pub base58check : List ℕ → Address

-- `validationError`: ReturnCode.SIGERROR
abbrev pub validation_error : Text → Text → Failure
validation_error message code = gateway (inspection_failed 1 message code)

-- ReturnCode.CONTRACT_VALIDATE_ERROR
abbrev pub contract_error : Text → Text → Failure
contract_error message code = gateway (inspection_failed 2 message code)

-- `value ?? other`
abbrev pub first_of {ℓ} : {A : Type ℓ} → Option A → Option A → Option A
first_of (some a) _ = some a
first_of none o = o

-- `toBigInt`
abbrev pub to_big_int : Option ℤ → ℤ
to_big_int v = or_else v (pos 0)

-- `Buffer.from(value ?? [])`
abbrev pub bytes_of : Option (List ℕ) → List ℕ
bytes_of v = or_else v []

abbrev pub hex_digit : ℕ → ℕ
hex_digit n = if ltb n 10 then 48 + n else 87 + n

-- `toString("hex")`
abbrev pub hex : List ℕ → Text
hex [] = []
hex (b ∷ bs) = hex_digit (b / 16) ∷ hex_digit (b % 16) ∷ hex bs

-- An Error of framing.ts, which is no GatewayError.
abbrev pub framed {ℓ} : {A : Type ℓ} → Result FrameError A → Result Failure A
framed (ok a) = ok a
framed (err e) = err (other [])

-- Equality of two buffers.
abbrev pub same_bytes : List ℕ → List ℕ → Bool
same_bytes = same_text

-- `bytes.length !== 21 || bytes[0] !== 0x41`
abbrev pub is_address : List ℕ → Bool
is_address [] = false
is_address (b ∷ bs) = b == 65 && length bs == 20

-- `requiredAddress`
unfoldable pub required_address : Option (List ℕ) → Text → Result Failure (List ℕ)
required_address value name =
    if is_address (bytes_of value)
    then ok (bytes_of value)
    else err
        (validation_error (name ++ text " is not a valid TRON address") (text "INVALID_ADDRESS"))

-- `tronHexToBase58`
unfoldable pub tron_hex_to_base58 : Codec → List ℕ → Result Failure Address
tron_hex_to_base58 c bytes =
    if is_address bytes
    then ok (c.base58check bytes)
    else err (other (text "Expected a 21-byte TRON address with 0x41 prefix"))

-- `requireParameterType`
unfoldable pub require_parameter_type : Option Text → Text → Result Failure (Unit {0})
require_parameter_type actual expected =
    throw_if (not (elim actual [ none ↦ false | some a ↦ same_text a expected ])) (
      contract_error
        (text "Transaction contract parameter type does not match the declared contract type")
        (text "CONTRACT_PARAMETER_TYPE_MISMATCH"))

-- `requireCanonicalContractParameter`
unfoldable pub require_canonical_contract_parameter : List ℕ → List ℕ → Result Failure (Unit {0})
require_canonical_contract_parameter actual canonical =
    throw_if (not (same_bytes canonical actual)) (
      contract_error
        (text "Transaction contract parameter is not in java-tron's canonical protobuf form")
        (text "NON_CANONICAL_CONTRACT_PARAMETER"))
