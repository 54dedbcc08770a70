-- ===== src/Framing/Fields.antt =====
-- The scan of src/grpc/framing.ts on messages of length-delimited fields, written as protobuf writes them.
use native.Mathlib.Nat.{pow-suc}
use catfee_io.Base.{
  ℕ, suc, zero, ◌+◌, ◌*◌, ◌/◌, ◌%◌, ◌^◌, ◌≤◌, ◌<◌, ◌≡◌, true, false, Option, none, some, List, [],
  ◌∷◌, ◌++◌, refl, ap, sym, ◌∙◌, arith, inl, inr, Bool-cases, length, take, drop, ◌==◌, ltb,
  if◌then◌else◌, is_some, length-append, append_assoc, drop-append, take-append,
}
use catfee_io.Base.Results.{Result, ok, err, ◌>>=◌, Result-cases}
use catfee_io.Table.Laws.{All}
use catfee_io.Framing.{
  FrameError, duplicate_field, read_varint_loop, read_varint, take_field, scan_field, scan,
  extract_length_delimited_field, found_or_missing,
}

-- A varint of k + 1 bytes at most.
unfoldable pub write_varint : ℕ → ℕ → List ℕ
write_varint zero n = (n % 128) ∷ []
write_varint (suc k) n =
    let more = write_varint k (n / 128) in if ltb n 128 then n ∷ [] else (n % 128 + 128) ∷ more

-- The number fits into k + 1 groups of seven bits.
abbrev pub Fits : ℕ → ℕ → Type 0
Fits zero n = n < 128
Fits (suc k) n = Fits k (n / 128)

regroup : (q r p : ℕ) → r * p + q * (p * 128) ≡ (q * 128 + r) * p
regroup q r zero = omega arith
regroup q r (suc p) = omega (arith, regroup q r p)

shifted : (n p : ℕ) → n % 128 * p + n / 128 * (p * 128) ≡ n * p
shifted n p = regroup (n / 128) (n % 128) p ∙ ap (λ t. t * p) (omega arith)

double : (n m : ℕ) → m ≡ suc n → 2 ^ m ≡ 2 ^ n * 2
double n m e = ap (λ k. 2 ^ k) e ∙ pow-suc 2 n

next_shift : (s : ℕ) → 2 ^ (s + 7) ≡ 2 ^ s * 128
next_shift s =
    let h0 : 2 ^ (s + 1) ≡ 2 ^ s * 2 = double s (s + 1) (omega arith) in
    let h1 : 2 ^ (s + 2) ≡ 2 ^ (s + 1) * 2 = double (s + 1) (s + 2) (omega arith) in
    let h2 : 2 ^ (s + 3) ≡ 2 ^ (s + 2) * 2 = double (s + 2) (s + 3) (omega arith) in
    let h3 : 2 ^ (s + 4) ≡ 2 ^ (s + 3) * 2 = double (s + 3) (s + 4) (omega arith) in
    let h4 : 2 ^ (s + 5) ≡ 2 ^ (s + 4) * 2 = double (s + 4) (s + 5) (omega arith) in
    let h5 : 2 ^ (s + 6) ≡ 2 ^ (s + 5) * 2 = double (s + 5) (s + 6) (omega arith) in
    let h6 : 2 ^ (s + 7) ≡ 2 ^ (s + 6) * 2 = double (s + 6) (s + 7) (omega arith) in omega arith

loop-write :
    (k n : ℕ) (rest : List ℕ) (value shift offset : ℕ)
    → Fits k n
    → shift + 7 * k ≤ 63
    → read_varint_loop (write_varint k n ++ rest) value shift offset
      ≡ ok (value + n * 2 ^ shift, offset + length (write_varint k n))
unfolding read_varint_loop write_varint
loop-write zero n rest value shift offset f h = ground arith
loop-write (suc k) n rest value shift offset f h = elim (Bool-cases (ltb n 128)) [
  | inl last ↦ ground arith
  | inr more ↦
      let after =
        loop-write k (n / 128) rest (value + n % 128 * 2 ^ shift) (shift + 7) (offset + 1) f
          (omega arith) in
      ground (arith, after, next_shift shift, shifted n (2 ^ shift))
]

-- A varint of ten bytes at most, as the source reads it.
unfoldable pub encode_varint : ℕ → List ℕ
encode_varint n = write_varint 9 n

read-write :
    (message before rest : List ℕ) (offset n : ℕ)
    → Fits 9 n
    → message ≡ before ++ (encode_varint n ++ rest)
    → offset ≡ length before
    → read_varint message offset ≡ ok (n, offset + length (encode_varint n))
unfolding read_varint encode_varint
read-write message before rest offset n f e o =
    rw (e, o, drop-append before (encode_varint n ++ rest))
      (loop-write 9 n rest 0 0 (length before) f (omega arith)
        ∙ ap (λ k. ok (k, length before + length (write_varint 9 n))) (omega arith))

-- A length-delimited field of a message.
pub record Field : Type 0 where
  pub number : ℕ
  pub payload : List ℕ

-- The tag of wire type 2, the size, the bytes.
abbrev pub encode_field : Field → List ℕ → List ℕ
encode_field f rest =
    encode_varint (f.number * 8 + 2) ++ (encode_varint (length f.payload) ++ (f.payload ++ rest))

abbrev pub encode_fields : List Field → List ℕ
encode_fields [] = []
encode_fields (f ∷ fs) = encode_field f (encode_fields fs)

-- What the scan is to find: the payload of the one field of the number.
abbrev pub keep : ℕ → Field → Option (List ℕ) → Result FrameError (Option (List ℕ))
keep target f found =
    if f.number == target
    then (if is_some found then err duplicate_field else ok (some f.payload))
    else ok found

abbrev pub collect : ℕ → List Field → Option (List ℕ) → Result FrameError (Option (List ℕ))
collect target [] found = ok found
collect target (f ∷ fs) found = keep target f found >>= collect target fs

-- A number of 29 bits, and a payload of less than 2^53 bytes.
abbrev pub IsWritable : Field → Type 0
IsWritable f = (f.number < 536_870_912) × (length f.payload ≤ 9_007_199_254_740_991)

fits : (n : ℕ) → n ≤ 9_007_199_254_740_991 → Fits 9 n
fits n h = omega arith

abbrev pub size_of : Field → ℕ
size_of f =
    length (encode_varint (f.number * 8 + 2))
    + length (encode_varint (length f.payload))
    + length f.payload

-- What a slice of the message holds that begins after `before`.
slice :
    (before bytes rest message : List ℕ) (o : ℕ)
    → message ≡ before ++ (bytes ++ rest)
    → o ≡ length before
    → (take (length bytes) (drop o message) ≡ bytes) × (o + length bytes ≤ length message)
slice before bytes rest message o e h =
    rw (e, h)
      (
        ap (take (length bytes)) (drop-append before (bytes ++ rest)) ∙ take-append bytes rest,
        omega (arith, length-append before (bytes ++ rest), length-append bytes rest),
      )

take_field-encoded :
    (message before rest : List ℕ) (target offset : ℕ) (f : Field) (found : Option (List ℕ))
    → IsWritable f
    → offset ≡ length before
    → message ≡ before ++ (encode_varint (length f.payload) ++ (f.payload ++ rest))
    → take_field message target f.number offset found ≡ (
        keep target f found
        >>= (λ k. ok (offset + length (encode_varint (length f.payload)) + length f.payload, k)))
unfolding take_field
take_field-encoded message before rest target offset f found w o e =
    let z = encode_varint (length f.payload) in
    let size =
      read-write message before (f.payload ++ rest) offset (length f.payload) (fits _ w.1) e o in
    let bytes =
      slice (before ++ z) f.payload rest message (offset + length z)
        (e ∙ sym (append_assoc before z (f.payload ++ rest)))
        (omega (arith, o, length-append before z)) in
    ground (arith, size, bytes)

scan_field-encoded :
    (message before rest : List ℕ) (target offset : ℕ) (f : Field) (found : Option (List ℕ))
    → IsWritable f
    → offset ≡ length before
    → message ≡ before ++ encode_field f rest
    → scan_field message target offset found
      ≡ (keep target f found >>= (λ k. ok (offset + size_of f, k)))
unfolding scan_field
scan_field-encoded message before rest target offset f found w o e =
    let t = encode_varint (f.number * 8 + 2) in
    let z = encode_varint (length f.payload) in
    let tag =
      read-write message before (z ++ (f.payload ++ rest)) offset (f.number * 8 + 2)
        (fits _ (omega arith)) e o in
    let taken =
      take_field-encoded message (before ++ t) rest target (offset + length t) f found w
        (omega (arith, o, length-append before t))
        (e ∙ sym (append_assoc before t (z ++ (f.payload ++ rest)))) in
    let wire : ((f.number * 8 + 2) % 8 == 2) ≡ true = ground arith in
    let number : (f.number * 8 + 2) / 8 ≡ f.number = omega arith in
    rw (tag, wire, number)
      (taken ∙ ap (λ (s : ℕ). keep target f found >>= (λ k. ok (s, k))) (omega arith))

write_varint-length : (k n : ℕ) → 1 ≤ length (write_varint k n)
unfolding write_varint
write_varint-length zero n = omega arith
write_varint-length (suc k) n = ground arith

size_of-positive : (f : Field) → 1 ≤ size_of f
unfolding encode_varint
size_of-positive f = omega (arith, write_varint-length 9 (f.number * 8 + 2))

encode_field-length :
    (f : Field) (rest : List ℕ) → length (encode_field f rest) ≡ size_of f + length rest
encode_field-length f rest = omega (
  arith,
  length-append (encode_varint (f.number * 8 + 2))
      (encode_varint (length f.payload) ++ (f.payload ++ rest)),
  length-append (encode_varint (length f.payload)) (f.payload ++ rest),
  length-append f.payload rest,
)

-- The bytes of one field.
abbrev pub bytes_of : Field → List ℕ
bytes_of f = encode_varint (f.number * 8 + 2) ++ (encode_varint (length f.payload) ++ f.payload)

encode_field-append : (f : Field) (rest : List ℕ) → encode_field f rest ≡ bytes_of f ++ rest
encode_field-append f rest =
    let t = encode_varint (f.number * 8 + 2) in
    let z = encode_varint (length f.payload) in
    ap (λ xs. t ++ xs) (sym (append_assoc z f.payload rest))
    ∙ sym (append_assoc t (z ++ f.payload) rest)

bytes_of-length :
    (before : List ℕ) (f : Field) → length (before ++ bytes_of f) ≡ length before + size_of f
bytes_of-length before f =
    let t = encode_varint (f.number * 8 + 2) in
    let z = encode_varint (length f.payload) in
    omega (
      arith,
      length-append before (bytes_of f),
      length-append t (z ++ f.payload),
      length-append z f.payload,
    )

message-length :
    (before rest message : List ℕ)
    → message ≡ before ++ rest
    → length message ≡ length before + length rest
message-length before rest message e = ap length e ∙ length-append before rest

scan-encoded :
    (fuel : ℕ) (fs : List Field) (message before : List ℕ) (target offset : ℕ)
    (found : Option (List ℕ))
    → All IsWritable fs
    → offset ≡ length before
    → message ≡ before ++ encode_fields fs
    → length message ≤ fuel + offset
    → scan fuel message target offset found ≡ collect target fs found
unfolding scan
scan-encoded zero [] message before target offset found w o e h =
    let done : ltb offset (length message) ≡ false =
      ground (arith, message-length before [] message e) in
    rw done refl
scan-encoded zero (f ∷ fs) message before target offset found w o e h = absurd (
    omega (
      arith,
      h,
      o,
      message-length before (encode_field f (encode_fields fs)) message e,
      encode_field-length f (encode_fields fs),
      size_of-positive f,
    ))
scan-encoded (suc fuel) [] message before target offset found w o e h =
    let done : ltb offset (length message) ≡ false =
      ground (arith, message-length before [] message e) in
    rw done refl
scan-encoded (suc fuel) (f ∷ fs) message before target offset found w o e h =
    let total = message-length before (encode_field f (encode_fields fs)) message e in
    let more : ltb offset (length message) ≡ true =
      ground (arith, total, encode_field-length f (encode_fields fs), size_of-positive f) in
    rw (more, scan_field-encoded message before (encode_fields fs) target offset f found w.0 o e)
      (elim (Result-cases (keep target f found)) [
        | inr (x, stop) ↦ rw stop refl
        | inl (k, kept) ↦ rw kept (
            scan-encoded fuel fs message (before ++ bytes_of f) target (offset + size_of f) k w.1
              (omega (arith, o, bytes_of-length before f))
              (e
                ∙ ap (λ xs. before ++ xs) (encode_field-append f (encode_fields fs))
                ∙ sym (append_assoc before (bytes_of f) (encode_fields fs)))
              (omega (arith, h, size_of-positive f)))
      ])

-- On a message of length-delimited fields, each with a number of 29 bits and fewer than 2^53 bytes, the
-- scan gives the payload of the one field of the number that is asked for, and throws where two fields
-- have the number or none does.
pub extract-encode_fields :
    (fs : List Field) (target : ℕ)
    → All IsWritable fs
    → extract_length_delimited_field (encode_fields fs) target
      ≡ (collect target fs none >>= found_or_missing)
unfolding extract_length_delimited_field
extract-encode_fields fs target w =
    ap (λ r. r >>= found_or_missing)
      (scan-encoded (length (encode_fields fs)) fs (encode_fields fs) [] target 0 none w refl refl
        (omega arith))
