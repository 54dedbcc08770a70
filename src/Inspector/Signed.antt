-- ===== src/Inspector/Signed.antt =====
-- What src/grpc/transaction-inspector.ts has made sure of when it lets a transaction pass.
use catfee_io.Base.{
  ℕ, ◌+◌, ◌≤◌, true, false, Option, none, some, List, [], ◌∷◌, ◌≡◌, inl, inr, refl, arith, ap, sym,
  ◌∙◌, Bool-cases, Option-cases, ==_eq, ◌==◌, length, take, or_else,
}
use catfee_io.Base.Int.{ℤ, pos, negsuc, ◌≤ℤ◌, ltb_ℤ}
use catfee_io.Base.Results.{ok, Result-cases}
use catfee_io.Store.{Text, TxId}
use catfee_io.Providers.Settle.{same_text}
use catfee_io.Framing.{extract_length_delimited_field}
use catfee_io.Gateway.Requests.{Transaction}
use catfee_io.Inspector.{
  Codec, DecodedRaw, DecodedContract, DecodedTransaction, tron_hex_to_base58, required_address,
  is_address, bytes_of, hex, to_big_int,
}
use catfee_io.Inspector.Contents.{
  Opened, Parts, open_transaction, only_contract, only_signature, parameter_of, read_parts,
  read_trigger, is_number,
}
use catfee_io.Inspector.Inspect.{inspect_signed_transaction, conclude, inspected}
use catfee_io.Inspector.Signature.{
  verify_single_owner_signature, check_recovered, y_parity, byte_at, check_length, recover_signer,
}

pub same_text-eq : (a b : Text) → same_text a b ≡ true → a ≡ b
same_text-eq [] [] e = refl
same_text-eq (c ∷ cs) (d ∷ ds) e =
    let first = ==_eq c d (ground arith) in let rest = same_text-eq cs ds (ground arith) in cc
same_text-eq [] (d ∷ ds) e = absurd (ground arith)
same_text-eq (c ∷ cs) [] e = absurd (ground arith)

-- The first eight hex digits are those of the first four bytes.
hex-take : (bs : List ℕ) → hex (take 4 bs) ≡ take 8 (hex bs)
hex-take [] = refl
hex-take (a ∷ []) = refl
hex-take (a ∷ b ∷ []) = refl
hex-take (a ∷ b ∷ c ∷ []) = refl
hex-take (a ∷ b ∷ c ∷ d ∷ bs) = refl

-- `owner` signed the hash `t` with its one signature.
abbrev pub IsSignedBy : Codec → TxId → List ℕ → List ℕ → Type 0
IsSignedBy c t signature owner =
    (length signature ≡ 65)
    × ((y : ℕ) × (address : List ℕ) × (y_parity (or_else (byte_at signature 64) 0) ≡ some y)
        × (recover_signer c t signature y ≡ some address)
        × (65 ∷ address ≡ owner))

open_transaction-ok :
    (c : Codec) (bytes : List ℕ) (o : Opened)
    → open_transaction c bytes ≡ ok o
    → (c.decode_transaction bytes ≡ ok o.decoded)
      × (o.decoded.ret_length ≡ 0)
      × (extract_length_delimited_field bytes 1 ≡ ok o.raw_bytes)
      × (c.canonical_raw o.raw_bytes ≡ ok o.raw_bytes)
      × (length bytes + 128 ≤ 512_000)
unfolding open_transaction
open_transaction-ok c bytes o e = elim (Result-cases (extract_length_delimited_field bytes 1)) [
  | inr (x, bad) ↦ absurd (ground arith)
  | inl (raw, er) ↦ elim (Result-cases (c.canonical_raw raw)) [
    | inr (x, bad) ↦ absurd (ground arith)
    | inl (canonical, ec) ↦
        let same = same_text-eq canonical raw (ground arith) in
        (ground arith, ground arith, ground arith, ground arith, ground arith)
  ]
]

-- What `contracts.length !== 1` and `signatures.length !== 1` let through.
only_contract-ok :
    (o : Option DecodedRaw) (r : DecodedRaw) (k : DecodedContract)
    → only_contract o ≡ ok (r, k)
    → (o ≡ some r) × (r.contracts ≡ some (k ∷ []))
unfolding only_contract
only_contract-ok none r k e = absurd (ground arith)
only_contract-ok (some x) r k e = by_list x.contracts refl e
  where
    by_list :
        (cs : Option (List DecodedContract))
        → x.contracts ≡ cs
        → only_contract (some x) ≡ ok (r, k)
        → (some x ≡ some r) × (r.contracts ≡ some (k ∷ []))
    by_list none h e = absurd (ground arith)
    by_list (some []) h e = absurd (ground arith)
    by_list (some (a ∷ [])) h e = (ground arith, ground arith)
    by_list (some (a ∷ b ∷ cs)) h e = absurd (ground arith)

only_signature-ok :
    (o : Option (List (List ℕ))) (s : List ℕ) → only_signature o ≡ ok s → o ≡ some (s ∷ [])
unfolding only_signature
only_signature-ok none s e = absurd (ground arith)
only_signature-ok (some []) s e = absurd (ground arith)
only_signature-ok (some (a ∷ [])) s e = ground arith
only_signature-ok (some (a ∷ b ∷ cs)) s e = absurd (ground arith)

-- A call of a contract has its selector at the head of its calldata.
abbrev pub IsCall : Option Text → Option Text → Type 0
IsCall selector calldata =
    (d : List ℕ) × (calldata ≡ some (hex d)) × (selector ≡ some (take 8 (hex d))) × (4 ≤ length d)

abbrev HasCall : ℤ → Parts → Type 0
HasCall type p = is_number type 31 ≡ true → IsCall p.function_selector p.trigger_data

required_address-ok :
    (value : Option (List ℕ)) (name : Text) (owner : List ℕ)
    → required_address value name ≡ ok owner
    → (bytes_of value ≡ owner) × (is_address owner ≡ true)
unfolding required_address
required_address-ok value name owner e = elim (Bool-cases (is_address (bytes_of value))) [
  | inl h ↦ let same : bytes_of value ≡ owner = ground arith in (same, rw (← same) h)
  | inr h ↦ absurd (ground arith)
]

read_trigger-ok :
    (c : Codec) (parameter : List ℕ) (url : Option Text) (p : Parts)
    → read_trigger c parameter url ≡ ok p
    → IsCall p.function_selector p.trigger_data
unfolding read_trigger
read_trigger-ok c parameter url p e = elim (Result-cases (c.decode_trigger parameter)) [
  | inr (x, bad) ↦ absurd (ground arith)
  | inl (trigger, et) ↦
      let d = bytes_of trigger.calldata in
      let selector : p.function_selector ≡ some (hex (take 4 d)) = ground arith in
      (d, ground arith, selector ∙ ap some (hex-take d), ground arith)
]

read_parts-ok :
    (c : Codec) (type : ℤ) (parameter : List ℕ) (url : Option Text) (p : Parts)
    → read_parts c type parameter url ≡ ok p
    → HasCall type p
unfolding read_parts
read_parts-ok c type parameter url p e called = read_trigger-ok c parameter url p (ground arith)

check_recovered-ok :
    (o : Option (List ℕ)) (owner : List ℕ)
    → check_recovered o owner ≡ ok tt
    → (address : List ℕ) × (o ≡ some address) × (65 ∷ address ≡ owner)
unfolding check_recovered
check_recovered-ok none owner e = absurd (ground arith)
check_recovered-ok (some address) owner e =
    (address, refl, same_text-eq (65 ∷ address) owner (ground arith))

check_length-ok : (s : List ℕ) → check_length s ≡ ok tt → length s ≡ 65
unfolding check_length
check_length-ok s e = elim (Bool-cases (length s == 65)) [
  | inl h ↦ ==_eq (length s) 65 h
  | inr h ↦ absurd (ground arith)
]

verify-ok :
    (c : Codec) (t : TxId) (signature owner : List ℕ)
    → verify_single_owner_signature c t signature owner ≡ ok tt
    → IsSignedBy c t signature owner
unfolding verify_single_owner_signature
verify-ok c t signature owner e =
    elim (Option-cases (y_parity (or_else (byte_at signature 64) 0))) [
      | inl bad ↦ absurd (ground arith)
      | inr (y, ey) ↦
          let (address, er, same) =
            check_recovered-ok (recover_signer c t signature y) owner (ground arith) in
          (check_length-ok signature (ground arith), (y, address, ey, er, same))
    ]

-- What is known of an accepted transaction, by the values that the inspection met.
abbrev Concluded : Codec → List ℕ → Opened → ℤ → List ℕ → Parts → Transaction → Type 0
Concluded c bytes o type signature p t =
    (t.tx_id ≡ c.sha256 o.raw_bytes)
    × IsSignedBy c t.tx_id signature p.owner_bytes
    × (length p.owner_bytes ≡ 21)
    × (t.owner_address ≡ c.base58check p.owner_bytes)
    × (t.transaction_bytes ≡ bytes)
    × (t.contract_type ≡ type)
    × (t.function_selector ≡ p.function_selector)
    × (t.trigger_data ≡ p.trigger_data)
    × (pos 0 ≤ℤ t.fee_limit_sun)

tron_hex_to_base58-ok :
    (c : Codec) (owner : List ℕ) (a : ℕ)
    → tron_hex_to_base58 c owner ≡ ok a
    → (a ≡ c.base58check owner) × (length owner ≡ 21)
unfolding tron_hex_to_base58
tron_hex_to_base58-ok c [] a e = absurd (ground arith)
tron_hex_to_base58-ok c (b ∷ bs) a e = (ground arith, ground arith)

conclude-ok :
    (c : Codec) (bytes : List ℕ) (o : Opened) (raw : DecodedRaw) (type : ℤ) (signature : List ℕ)
    (p : Parts) (t : Transaction)
    → conclude c bytes o raw type signature p ≡ ok t
    → Concluded c bytes o type signature p t
unfolding conclude
conclude-ok c bytes o raw type signature p t e =
    elim (Result-cases
      (verify_single_owner_signature c (c.sha256 o.raw_bytes) signature p.owner_bytes)) [
        | inr (x, bad) ↦ absurd (ground arith)
        | inl (tt, signed) ↦ elim (Result-cases (tron_hex_to_base58 c p.owner_bytes)) [
          | inr (x, bad) ↦ absurd (ground arith)
          | inl (a, ea) ↦
              let (named, long) = tron_hex_to_base58-ok c p.owner_bytes a ea in
              let same : inspected c bytes o raw type p a ≡ t = ground arith in
              let free : ltb_ℤ (to_big_int raw.fee_limit) (pos 0) ≡ false = ground arith in
              let by_owner = verify-ok c (c.sha256 o.raw_bytes) signature p.owner_bytes signed in
              rw (← same)
                (refl, by_owner, long, named, refl, refl, refl, refl, ground (arith, free))
        ]
      ]

-- What an accepted transaction is.
abbrev pub IsSigned : Codec → List ℕ → Transaction → Type 0
IsSigned c bytes t =
    (raw owner signature : List ℕ) × (d : DecodedTransaction) × (body : DecodedRaw)
    × (k : DecodedContract) × (c.decode_transaction bytes ≡ ok d)
    × (d.ret_length ≡ 0)
    × (d.raw ≡ some body)
    × (body.contracts ≡ some (k ∷ []))
    × (d.signatures ≡ some (signature ∷ []))
    × (t.contract_type ≡ or_else k.contract_type (negsuc 0))
    × (extract_length_delimited_field bytes 1 ≡ ok raw)
    × (c.canonical_raw raw ≡ ok raw)
    × (t.tx_id ≡ c.sha256 raw)
    × IsSignedBy c t.tx_id signature owner
    × (length owner ≡ 21)
    × (t.owner_address ≡ c.base58check owner)
    × (t.transaction_bytes ≡ bytes)
    × (length bytes + 128 ≤ 512_000)
    × (pos 0 ≤ℤ t.fee_limit_sun)
    × (t.contract_type ≡ pos 31 → IsCall t.function_selector t.trigger_data)

gather :
    (c : Codec) (bytes : List ℕ) (o : Opened) (raw : DecodedRaw) (k : DecodedContract)
    (parameter : List ℕ) (url : Option Text) (signature : List ℕ) (p : Parts) (t : Transaction)
    → open_transaction c bytes ≡ ok o
    → only_contract o.decoded.raw ≡ ok (raw, k)
    → only_signature o.decoded.signatures ≡ ok signature
    → read_parts c (or_else k.contract_type (negsuc 0)) parameter url ≡ ok p
    → conclude c bytes o raw (or_else k.contract_type (negsuc 0)) signature p ≡ ok t
    → IsSigned c bytes t
gather c bytes o raw k parameter url signature p t eo ek es er ec =
    let type = or_else k.contract_type (negsuc 0) in
    let (there, one) = only_contract-ok o.decoded.raw raw k ek in
    let (decoding, untouched, extracted, canonical, small) = open_transaction-ok c bytes o eo in
    let (hashed, by_owner, long, named, whole, typed, selector, calldata, fee) =
      conclude-ok c bytes o raw type signature p t ec in
    (
      o.raw_bytes,
      p.owner_bytes,
      signature,
      o.decoded,
      raw,
      k,
      decoding,
      untouched,
      there,
      one,
      only_signature-ok o.decoded.signatures signature es,
      typed,
      extracted,
      canonical,
      hashed,
      by_owner,
      long,
      named,
      whole,
      small,
      fee,
      λ called.
          rw (selector, calldata)
            (read_parts-ok c type parameter url p er (rw (sym typed ∙ called) refl)),
    )

-- The inspector lets a transaction pass only if it is small enough, protobufjs reads from its bytes no
-- result, exactly one contract, of the type that it is given, and exactly one signature, the payload of
-- its raw_data is in canonical form and hashes to its id, that signature, of 65 bytes, recovers for that
-- hash the very 21 bytes whose Base58Check form is its owner, its fee limit is not negative, and, for a call of a
-- contract, the selector is the first four bytes of the calldata.
pub inspect_signed_transaction-IsSigned :
    (c : Codec) (bytes : List ℕ) (t : Transaction)
    → inspect_signed_transaction c bytes ≡ ok t
    → IsSigned c bytes t
unfolding inspect_signed_transaction
inspect_signed_transaction-IsSigned c bytes t e = elim (Result-cases (open_transaction c bytes)) [
  | inr (x, bad) ↦ absurd (ground arith)
  | inl (o, eo) ↦ elim (Result-cases (only_contract o.decoded.raw)) [
    | inr (x, bad) ↦ absurd (ground arith)
    | inl ((raw, k), ek) ↦ elim (Result-cases (only_signature o.decoded.signatures)) [
      | inr (x, bad) ↦ absurd (ground arith)
      | inl (signature, es) ↦ elim (Result-cases (parameter_of k)) [
        | inr (x, bad) ↦ absurd (ground arith)
        | inl ((parameter, url), ep) ↦
            elim (Result-cases (read_parts c (or_else k.contract_type (negsuc 0)) parameter url)) [
              | inr (x, bad) ↦ absurd (ground arith)
              | inl (p, er) ↦
                  gather c bytes o raw k parameter url signature p t eo ek es er (ground arith)
            ]
      ]
    ]
  ]
]
