-- ===== src/Gateway/Receipts.antt =====
-- `summarizeSolidifiedReceipt` of src/repository.ts: what markFinalized keeps of a receipt.
pub mod Storable
use catfee_io.Base.{
  ℕ, ◌+◌, ◌*◌, ◌-◌, ◌≤◌, Bool, true, false, Option, none, some, [], ◌∷◌, ◌≡◌, ◌⊎◌, ◌==◌, ◌&&◌, ◌||◌,
  if◌then◌else◌, take,
}
use catfee_io.Base.Int.{ℤ, pos, negsuc}
use catfee_io.Base.Strings.{is_digit, is_between, trim_start, trim_end}
use catfee_io.Store.{Text, ReceiptAudit, text}

-- A field of a response: not there, null, a bigint, a number (an integer only if it is a safe one), a
-- string, or anything else.
pub data FieldValue : Type 0 where
  absent null_value other_value : FieldValue
  big_value : ℤ → FieldValue
  number_value : Option ℤ → FieldValue
  string_value : Text → FieldValue

-- `response.receipt`, where it is a plain object.
pub record ReceiptBody : Type 0 where
  pub energy_usage_total : FieldValue
  pub energy_usage : FieldValue
  pub origin_energy_usage : FieldValue
  pub net_usage : FieldValue
  pub net_fee : FieldValue
  pub energy_fee : FieldValue
  pub result : FieldValue

pub record ReceiptResponse : Type 0 where
  pub body : Option ReceiptBody
  pub fee : FieldValue
  pub result : FieldValue

abbrev pub non_negative_part : ℤ → Option ℕ
non_negative_part (pos n) = some n
non_negative_part (negsuc n) = none

-- `/^\d+$/`, and the number that the digits print.
abbrev pub are_digits : Text → Bool
are_digits [] = true
are_digits (c ∷ cs) = is_digit c && are_digits cs

abbrev pub digits_value : Text → ℕ → ℕ
digits_value [] n = n
digits_value (c ∷ cs) n = digits_value cs (10 * n + (c - 48))

unfoldable pub read_unsigned : FieldValue → Option ℕ
read_unsigned absent = some 0
read_unsigned (big_value n) = non_negative_part n
read_unsigned (number_value (some n)) = non_negative_part n
read_unsigned (string_value (c ∷ cs)) =
    if are_digits (c ∷ cs) then some (digits_value (c ∷ cs) 0) else none
read_unsigned _ = none

-- `protobufUnsigned(receipt, key)`
unfoldable pub protobuf_unsigned : Option ReceiptBody → (ReceiptBody → FieldValue) → Option ℕ
unfolding read_unsigned
protobuf_unsigned none key = none
protobuf_unsigned (some body) key = read_unsigned (key body)

abbrev pub fallback_result : Bool → Text
fallback_result true = text "SUCCESS"
fallback_result false = text "FAILED"

-- `[A-Z0-9_-]`
abbrev pub is_result_character : ℕ → Bool
is_result_character c = is_between 65 90 c || is_digit c || c == 95 || c == 45

unfoldable pub replace_others : Text → Text
replace_others [] = []
replace_others (c ∷ cs) = (if is_result_character c then c else 95) ∷ replace_others cs

abbrev pub or_fallback : Bool → Text → Text
or_fallback success [] = fallback_result success
or_fallback success (c ∷ cs) = c ∷ cs

-- `toUpperCase`, which may change the length of a text, is a parameter.
unfoldable pub normalized_receipt_result : (Text → Text) → FieldValue → Bool → Text
unfolding replace_others
normalized_receipt_result to_upper_case (string_value t) success = elim (trim_end (trim_start t)) [
  | [] ↦ fallback_result success
  | c ∷ cs ↦ or_fallback success (take 64 (replace_others (to_upper_case (c ∷ cs))))
]
normalized_receipt_result to_upper_case _ success = fallback_result success

-- `response.result ?? receipt?.result`
abbrev pub inner_result : Option ReceiptBody → FieldValue
inner_result none = absent
inner_result (some body) = body.result

abbrev pub chosen_result : FieldValue → Option ReceiptBody → FieldValue
chosen_result absent body = inner_result body
chosen_result null_value body = inner_result body
chosen_result v body = v

unfoldable pub summarize_solidified_receipt :
    (Text → Text) → ReceiptResponse → Bool → ReceiptAudit × Text
unfolding protobuf_unsigned normalized_receipt_result
summarize_solidified_receipt to_upper_case r success = (
  record {
    energy_usage_total = protobuf_unsigned r.body (λ b. b.energy_usage_total);
    energy_usage = protobuf_unsigned r.body (λ b. b.energy_usage);
    origin_energy_usage = protobuf_unsigned r.body (λ b. b.origin_energy_usage);
    net_usage = protobuf_unsigned r.body (λ b. b.net_usage);
    net_fee_sun = protobuf_unsigned r.body (λ b. b.net_fee);
    energy_fee_sun = protobuf_unsigned r.body (λ b. b.energy_fee);
    total_fee_sun = read_unsigned r.fee;
  },
  normalized_receipt_result to_upper_case (chosen_result r.result r.body) success,
)
