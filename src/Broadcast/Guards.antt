-- ===== src/Broadcast/Guards.antt =====
-- The guards of src/broadcast-processor.ts on the lifetime and the contract of a transaction.
use catfee_io.Base.{
  ℕ, ◌+◌, Bool, true, false, not, Option, none, some, [], ◌++◌, ◌==◌, ltb, ◌&&◌, ◌||◌,
  if◌then◌else◌, length,
}
use catfee_io.Base.Int.{ℤ, pos, ◌+ℤ◌, ◌-ℤ◌, ltb_ℤ, pos_part, neg_part}
use catfee_io.Base.Results.{Result, ok, err, ◌>>◌, throw_if}
use catfee_io.Store.{Address, Text, Time, text, Binding}
use catfee_io.Table.{exists}
use catfee_io.Providers.Settle.{same_text}
use catfee_io.Failures.{
  Failure, gateway, transaction_ttl_too_long, transaction_timestamp_invalid,
  transaction_ttl_too_short, unsupported_transaction,
}
use catfee_io.Gateway.Requests.{Transaction}
use catfee_io.Gateway.Quota.{has_expired}
use catfee_io.Resources.{is_provider}
use catfee_io.Base.Strings.{lower_case}
use catfee_io.Broadcast.{Config, Wire, is_reject, is_sponsor}

pub data Phase : Type 0 where
  entry broadcast : Phase

abbrev pub is_entry : Phase → Bool
is_entry entry = true
is_entry broadcast = false

-- `providerPreparationBudget`
unfoldable pub preparation_budget : Config → Phase → ℕ
preparation_budget c phase =
    if is_entry phase && is_sponsor c.mode && is_provider c.options.energy_source
    then c.options.provider_order_timeout_ms + c.options.provider_confirm_timeout_ms
      + c.options.provider_poll_ms + c.options.min_transaction_ttl_ms
    else 0

-- `requiredTtlMs`
abbrev pub required_ttl : Config → Phase → ℕ
required_ttl c phase =
    if ltb c.options.min_transaction_ttl_ms (preparation_budget c phase)
    then preparation_budget c phase
    else c.options.min_transaction_ttl_ms

-- The guards of the entry.
unfoldable pub validate_entry : Config → Transaction → Time → Result Failure (Unit {0})
validate_entry c t now = do
  throw_if (ltb_ℤ (pos c.max_transaction_ttl_ms) (t.expiration_ms -ℤ pos now))
      (gateway transaction_ttl_too_long)
  throw_if
      (ltb_ℤ (pos now +ℤ pos c.max_transaction_future_skew_ms) t.timestamp_ms
        || ltb_ℤ t.timestamp_ms (pos now -ℤ pos c.max_transaction_age_ms))
      (gateway transaction_timestamp_invalid)

unfoldable pub validate_lifetime : Config → Transaction → Phase → Time → Result Failure (Unit {0})
unfolding validate_entry preparation_budget
validate_lifetime c t phase now = do
  if is_entry phase then validate_entry c t now else ok tt
  throw_if (ltb_ℤ (t.expiration_ms -ℤ pos now) (pos (required_ttl c phase)))
      (gateway transaction_ttl_too_short)

abbrev pub trigger_smart_contract : ℤ
trigger_smart_contract = pos 31

abbrev pub transfer_contract : ℤ
transfer_contract = pos 1

abbrev pub equal_ℤ : ℤ → ℤ → Bool
equal_ℤ a b = pos_part a + neg_part b == pos_part b + neg_part a

abbrev pub is_trigger : Transaction → Bool
is_trigger t = equal_ℤ t.contract_type trigger_smart_contract

abbrev pub is_transfer : Transaction → Bool
is_transfer t = equal_ℤ t.contract_type transfer_contract

-- `(value ?? 0n) !== 0n`
abbrev pub is_not_zero : Option ℤ → Bool
is_not_zero none = false
is_not_zero (some v) = not (equal_ℤ v (pos 0))

unfoldable pub unsupported : Config → Text → Result Failure Bool
unsupported c message =
    if is_reject c.unsupported_policy
    then err (gateway (unsupported_transaction message))
    else ok false

abbrev pub is_allowed_contract : Config → Option Address → Bool
is_allowed_contract c none = false
is_allowed_contract c (some a) = exists (λ b. b == a) c.allowed_contracts

abbrev pub is_allowed_selector : Config → Option Text → Bool
is_allowed_selector c none = false
is_allowed_selector c (some s) =
    exists (λ b. same_text b (lower_case s)) c.allowed_selectors && not (same_text s [])

-- `functionSelector === "a9059cbb" || functionSelector === "095ea7b3"`
abbrev pub is_canonical_call : Option Text → Bool
is_canonical_call none = false
is_canonical_call (some s) = same_text s (text "a9059cbb") || same_text s (text "095ea7b3")

-- `triggerData?.length !== 136`
abbrev pub has_canonical_length : Option Text → Bool
has_canonical_length none = false
has_canonical_length (some d) = length d == 136

-- The part of validatePolicy for a contract call.
unfoldable pub validate_trigger : Config → Transaction → Result Failure Bool
validate_trigger c t =
    if is_not_zero t.call_value || is_not_zero t.call_token_value || is_not_zero t.token_id
    then unsupported c (text "Sponsored TRC20 calls cannot attach native TRX or TRC10 value")
    else if not (is_allowed_contract c t.contract_address)
        || not (is_allowed_selector c t.function_selector)
    then unsupported c (text "Contract address or function selector is not permitted")
    else if is_canonical_call t.function_selector && not (has_canonical_length t.trigger_data)
    then unsupported c
        (text "TRC20 transfer and approve calldata must use the canonical 68-byte ABI form")
    else ok true

-- `Contract type ${transaction.contractType} is not supported`
abbrev pub unknown_type_message : Wire → Transaction → Text
unknown_type_message w t =
    text "Contract type " ++ (w.decimal t.contract_type ++ text " is not supported")

unfoldable pub validate_policy : Wire → Config → Transaction → Result Failure Bool
unfolding validate_trigger unsupported
validate_policy w c t =
    if is_provider c.options.energy_source && ltb 0 t.memo_length
    then unsupported c (text "Paid external-energy transactions cannot include a memo")
    else if is_trigger t
    then validate_trigger c t
    else if not (is_transfer t)
    then unsupported c (unknown_type_message w t)
    else ok true

-- `isSponsorable`
unfoldable pub is_sponsorable : Transaction → Config → Bool
is_sponsorable t c =
    if is_trigger t
    then c.options.sponsor_energy || c.options.sponsor_bandwidth
    else is_transfer t && c.options.sponsor_bandwidth

-- `usable` of authorize
unfoldable pub is_usable : Option Binding → Time → Bool
is_usable none now = false
is_usable (some b) now = b.enabled && not (has_expired now b.expires_at)
