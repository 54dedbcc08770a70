-- ===== src/Inspector/Signature.antt =====
-- src/grpc/transaction-inspector.ts: `verifySingleOwnerSignature`.
use catfee_io.Base.{
  ℕ, not, Option, none, some, List, [], ◌∷◌, ◌==◌, ◌||◌, if◌then◌else◌, or_else, length, take, drop,
}
use catfee_io.Base.Results.{Result, err, ◌>>◌, throw_if}
use catfee_io.Store.{TxId, text}
use catfee_io.Failures.{Failure}
use catfee_io.Inspector.{Codec, same_bytes, validation_error}

-- The byte at a place; `undefined` beyond the end.
unfoldable pub byte_at : List ℕ → ℕ → Option ℕ
byte_at bytes k = elim (drop k bytes) [ [] ↦ none | b ∷ _ ↦ some b ]

-- `recovery >= 27 ? recovery - 27 : recovery`, for the four recovery bytes
unfoldable pub y_parity : ℕ → Option ℕ
y_parity v = if v == 0 || v == 27 then some 0 else if v == 1 || v == 28 then some 1 else none

-- The comparison of the hex digits of two addresses is that of their bytes.
unfoldable pub check_recovered : Option (List ℕ) → List ℕ → Result Failure (Unit {0})
check_recovered none owner =
    err
      (validation_error (text "TRON signature recovery failed") (text "SIGNATURE_RECOVERY_FAILED"))
check_recovered (some address) owner = throw_if (not (same_bytes (65 ∷ address) owner)) (
    validation_error (text "Signature does not authorize owner_address")
      (text "SIGNER_OWNER_MISMATCH"))

-- The call of ethers, by the halves of the signature.
unfoldable pub recover_signer : Codec → TxId → List ℕ → ℕ → Option (List ℕ)
recover_signer c t signature y =
    c.recover_address t (take 32 signature) (take 32 (drop 32 signature)) y

unfoldable pub check_length : List ℕ → Result Failure (Unit {0})
check_length signature =
    throw_if (not (length signature == 65))
      (validation_error (text "Invalid TRON signature length") (text "INVALID_SIGNATURE_LENGTH"))

-- `verifySingleOwnerSignature`
unfoldable pub verify_single_owner_signature :
    Codec → TxId → List ℕ → List ℕ → Result Failure (Unit {0})
unfolding check_recovered byte_at recover_signer y_parity check_length
verify_single_owner_signature c t signature owner = do
  check_length signature
  elim (y_parity (or_else (byte_at signature 64) 0)) [
    | none ↦ err (
        validation_error (text "Invalid TRON signature recovery byte")
          (text "INVALID_SIGNATURE_RECOVERY"))
    | some y ↦ check_recovered (recover_signer c t signature y) owner
  ]
