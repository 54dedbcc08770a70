-- ===== src/Examples/Inspection.antt =====
-- A transfer that src/grpc/transaction-inspector.ts lets pass, with a codec of one message.
use catfee_io.Base.{ℕ, zero, suc, ◌≡◌, refl, none, some, List, [], ◌∷◌}
use catfee_io.Base.Int.{pos}
use catfee_io.Base.Results.{ok}
use catfee_io.Store.{text}
use catfee_io.Framing.{
  extract_length_delimited_field, scan, scan_field, take_field, read_varint, read_varint_loop,
}
use catfee_io.Gateway.Requests.{Transaction}
use catfee_io.Inspector.{Codec, DecodedTransaction, DecodedRaw}
use catfee_io.Inspector.Inspect.{inspect_signed_transaction, inspected}
use catfee_io.Inspector.Contents.{owner_alone}
use catfee_io.Inspector.Signed.{IsSigned, inspect_signed_transaction-IsSigned}

abbrev copies : ℕ → ℕ → List ℕ
copies zero b = []
copies (suc n) b = b ∷ copies n b

abbrev owner : List ℕ
owner = 65 ∷ copies 20 3

abbrev raw : DecodedRaw
raw = record {
  ref_block_bytes = some (copies 2 1);
  ref_block_hash = some (copies 8 2);
  expiration = some (pos 60_000);
  timestamp = some (pos 1_000);
  fee_limit = none;
  memo = none;
  contracts = some (
      record {
        contract_type = some (pos 1);
        parameter = some (record {
          type_url = some (text "type.googleapis.com/protocol.TransferContract");
          type_url_snake = none;
          value = some (8 ∷ []);
        });
        permission_id = none;
        permission_id_capital = none;
      }
      ∷ []);
}

abbrev signed_transfer : DecodedTransaction
signed_transfer = record { raw = some raw; signatures = some (copies 65 27 ∷ []); ret_length = 0 }

-- The payload of field 1 is the one byte 7.
abbrev message : List ℕ
message = 10 ∷ 1 ∷ 7 ∷ []

abbrev codec : Codec
codec = record {
  decode_transaction = λ _. ok signed_transfer;
  canonical_raw = λ bytes. ok bytes;
  canonical_trigger = λ bytes. ok bytes;
  canonical_transfer = λ bytes. ok bytes;
  decode_trigger = λ _. ok (record {
    owner_address = none;
    contract_address = none;
    call_value = none;
    calldata = none;
    call_token_value = none;
    token_id = none;
  });
  decode_transfer = λ _. ok (some owner);
  sha256 = λ _. 40;
  recover_address = λ _ _ _ _. some (copies 20 3);
  base58check = λ _. 7;
}

abbrev passed : Transaction
passed =
    inspected codec message (record { raw_bytes = 7 ∷ []; decoded = signed_transfer }) raw (pos 1)
      (owner_alone owner) 7

passes_runs : inspect_signed_transaction codec message ≡ ok passed
unfolding inspect_signed_transaction extract_length_delimited_field scan scan_field read_varint
    read_varint_loop take_field
passes_runs = refl

inspect_signed_transaction-IsSigned_example : IsSigned codec message passed
inspect_signed_transaction-IsSigned_example =
    inspect_signed_transaction-IsSigned codec message passed passes_runs
