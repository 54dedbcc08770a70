-- ===== src/Broadcast/Lifetime.antt =====
-- Which transactions `validateLifetime` of src/broadcast-processor.ts lets through.
use catfee_io.Base.{ℕ, ◌+◌, Bool, false, ◌≡◌, ◌↔◌, ◌⊎◌, inl, inr, arith, Bool-cases, ◌&&◌, ◌||◌}
use catfee_io.Base.Int.{ℤ, pos, ◌+ℤ◌, ◌-ℤ◌, ◌≤ℤ◌, ltb_ℤ, +ℤ_parts, -ℤ_parts}
use catfee_io.Base.Results.{ok, ◌>>◌, throw_if}
use catfee_io.Store.{Time}
use catfee_io.Failures.{
  gateway, transaction_ttl_too_long, transaction_timestamp_invalid, transaction_ttl_too_short,
}
use catfee_io.Gateway.Requests.{Transaction}
use catfee_io.Broadcast.{Config, is_sponsor}
use catfee_io.Broadcast.Guards.{
  entry, validate_entry, validate_lifetime, required_ttl, preparation_budget,
}
use catfee_io.Resources.{is_provider}

-- At its entry a transaction is neither dated too far ahead nor too old, and expires neither too late
-- nor too soon: the configured minimum is left, and where a sponsor rents energy also the timeouts of the
-- order and of its confirmation, one poll, and the minimum on top.
abbrev pub IsTimely : Config → Transaction → Time → Type 0
IsTimely c t now =
    (t.expiration_ms ≤ℤ pos (now + c.max_transaction_ttl_ms))
    × (t.timestamp_ms ≤ℤ pos (now + c.max_transaction_future_skew_ms))
    × (pos now ≤ℤ (t.timestamp_ms +ℤ pos c.max_transaction_age_ms))
    × (pos (now + c.options.min_transaction_ttl_ms) ≤ℤ t.expiration_ms)
    × (((is_sponsor c.mode && is_provider c.options.energy_source) ≡ false)
        ⊎ (pos (
              now
              + (c.options.provider_order_timeout_ms + c.options.provider_confirm_timeout_ms
                  + c.options.provider_poll_ms + c.options.min_transaction_ttl_ms))
            ≤ℤ t.expiration_ms))

-- The four tests in a row.
four_pass :
    {E : Type 0} (a b c d : Bool) (x y z : E)
    → (((throw_if a x >> throw_if (b || c) y) >> throw_if d z) ≡ ok tt)
      ↔ ((a ≡ false) × (b ≡ false) × (c ≡ false) × (d ≡ false))
four_pass a b c d x y z =
    ((λ e. (ground arith, ground arith, ground arith, ground arith)), (λ h. ground arith))

-- A test on a difference, as a bound.
not_more : (a : ℤ) (n m : ℕ) → (ltb_ℤ (pos m) (a -ℤ pos n) ≡ false) ↔ (a ≤ℤ pos (n + m))
not_more a n m =
    ((λ h. ground (arith, -ℤ_parts a (pos n))), (λ h. ground (arith, -ℤ_parts a (pos n))))

not_less : (a : ℤ) (n m : ℕ) → (ltb_ℤ (a -ℤ pos n) (pos m) ≡ false) ↔ (pos (n + m) ≤ℤ a)
not_less a n m =
    ((λ h. ground (arith, -ℤ_parts a (pos n))), (λ h. ground (arith, -ℤ_parts a (pos n))))

not_ahead : (a : ℤ) (n m : ℕ) → (ltb_ℤ (pos n +ℤ pos m) a ≡ false) ↔ (a ≤ℤ pos (n + m))
not_ahead a n m = (
  (λ h. ground (arith, +ℤ_parts (pos n) (pos m))),
  (λ h. ground (arith, +ℤ_parts (pos n) (pos m))),
)

not_old : (a : ℤ) (n m : ℕ) → (ltb_ℤ a (pos n -ℤ pos m) ≡ false) ↔ (pos n ≤ℤ (a +ℤ pos m))
not_old a n m = (
  (λ h. ground (arith, -ℤ_parts (pos n) (pos m), +ℤ_parts a (pos m))),
  (λ h. ground (arith, -ℤ_parts (pos n) (pos m), +ℤ_parts a (pos m))),
)

-- The required time to live is the longer of the two.
enough_left :
    (c : Config) (now : Time) (e : ℤ)
    → (pos (now + required_ttl c entry) ≤ℤ e) ↔ (
        (pos (now + c.options.min_transaction_ttl_ms) ≤ℤ e)
        × (((is_sponsor c.mode && is_provider c.options.energy_source) ≡ false)
            ⊎ (pos (
                  now
                  + (c.options.provider_order_timeout_ms + c.options.provider_confirm_timeout_ms
                      + c.options.provider_poll_ms + c.options.min_transaction_ttl_ms))
                ≤ℤ e)))
unfolding preparation_budget
enough_left c now e = elim (Bool-cases (is_sponsor c.mode && is_provider c.options.energy_source)) [
  | inl rents ↦ ((λ h. (ground arith, inr (ground arith))), (λ h. ground arith))
  | inr own ↦ ((λ h. (ground arith, inl own)), (λ h. ground arith))
]

-- validateLifetime lets a transaction enter exactly if it expires within the maximum lifetime from now,
-- its timestamp is no further ahead than the skew allows and no older than the maximum age, the configured
-- minimum is left until it expires, and, where a sponsor rents its energy, the timeouts of the order and
-- of its confirmation, one poll and that minimum, all added up, are left.
pub validate_lifetime-IsTimely :
    (c : Config) (t : Transaction) (now : Time)
    → (validate_lifetime c t entry now ≡ ok tt) ↔ IsTimely c t now
unfolding validate_lifetime validate_entry
validate_lifetime-IsTimely c t now =
    let tests =
      four_pass (ltb_ℤ (pos c.max_transaction_ttl_ms) (t.expiration_ms -ℤ pos now))
        (ltb_ℤ (pos now +ℤ pos c.max_transaction_future_skew_ms) t.timestamp_ms)
        (ltb_ℤ t.timestamp_ms (pos now -ℤ pos c.max_transaction_age_ms))
        (ltb_ℤ (t.expiration_ms -ℤ pos now) (pos (required_ttl c entry)))
        (gateway transaction_ttl_too_long) (gateway transaction_timestamp_invalid)
        (gateway transaction_ttl_too_short) in
    let late = not_more t.expiration_ms now c.max_transaction_ttl_ms in
    let ahead = not_ahead t.timestamp_ms now c.max_transaction_future_skew_ms in
    let old = not_old t.timestamp_ms now c.max_transaction_age_ms in
    let soon = not_less t.expiration_ms now (required_ttl c entry) in
    let left = enough_left c now t.expiration_ms in
    (
      (λ e.
          let h = tests.0 e in
          let (least, whole) = left.0 (soon.0 h.3) in
          (late.0 h.0, ahead.0 h.1, old.0 h.2, least, whole)),
      (λ v. tests.1 (late.1 v.0, ahead.1 v.1, old.1 v.2, soon.1 (left.1 (v.3, v.4)))),
    )
