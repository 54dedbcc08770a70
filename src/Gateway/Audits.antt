-- ===== src/Gateway/Audits.antt =====
-- The methods of `GatewayRepository` (src/repository.ts) on transaction_resource_audits, with the columns
-- of sql/005_resource_audit.sql. The amounts are `bigint`s, which the model does not bound above.
pub mod Checks
pub mod Arrivals
use catfee_io.Base.{Bool, true, false, Option, none, some, ◌==◌, ltb, ◌||◌, if◌then◌else◌}
use catfee_io.Base.Int.{ℤ, pos, ltb_ℤ, leb_ℤ}
use catfee_io.Base.Results.{Result, ok, err, ◌>>=◌, ◌>>◌, throw_if}
use catfee_io.Table.{update, insert, exists}
use catfee_io.Store.{
  Database, Audit, AuditPlan, ReceiptAudit, TxId, Time, Text, StoreError, range_error,
  foreign_key_violation,
}

abbrev pub audit_of : TxId → Audit → Bool
audit_of t a = a.tx_id == t

abbrev pub no_receipt : ReceiptAudit
no_receipt = record {
  energy_usage_total = none;
  energy_usage = none;
  origin_energy_usage = none;
  net_usage = none;
  net_fee_sun = none;
  energy_fee_sun = none;
  total_fee_sun = none;
}

abbrev pub new_audit : TxId → Audit
new_audit t = record {
  tx_id = t;
  plan = none;
  planned_at = none;
  energy_package_attempted = none;
  energy_available_after = none;
  energy_arrival_observed_at = none;
  receipt = no_receipt;
  receipt_result = none;
  solidified_at = none;
}

-- INSERT … ON CONFLICT (tx_id) DO UPDATE SET f; on a row of nulls, f gives the inserted row.
unfoldable pub upsert_audit : TxId → (Audit → Audit) → Database → Result StoreError Database
upsert_audit t f db =
    if exists (audit_of t) db.audits
    then ok (record db { audits = update (audit_of t) f db.audits })
    else if exists (λ r. r.tx_id == t) db.requests
    then ok (record db { audits = insert (f (new_audit t)) db.audits })
    else err foreign_key_violation

abbrev pub is_negative : ℤ → Bool
is_negative n = ltb_ℤ n (pos 0)

-- `!== null`, and then negative or zero
abbrev pub quoted_out_of_range : Option ℤ → Bool
quoted_out_of_range none = false
quoted_out_of_range (some n) = leb_ℤ n (pos 0)

unfoldable pub plan_out_of_range : AuditPlan → Bool
plan_out_of_range p =
    is_negative p.energy_estimate_raw
    || is_negative p.energy_estimate_safe
    || is_negative p.energy_available_before
    || is_negative p.energy_price_sun
    || is_negative p.estimated_energy_burn_sun
    || is_negative p.bandwidth_bytes
    || is_negative p.bandwidth_staked_available
    || is_negative p.bandwidth_free_available
    || is_negative p.bandwidth_unit_price_sun
    || is_negative p.estimated_bandwidth_burn_sun
    || is_negative p.owner_balance_sun
    || is_negative p.fee_limit_sun
    || is_negative p.minimum_fee_limit_sun
    || is_negative p.maximum_fee_limit_sun
    || ltb_ℤ p.energy_estimate_safe p.energy_estimate_raw
    || leb_ℤ p.package_threshold (pos 0)
    || leb_ℤ p.maximum_fee_limit_sun (pos 0)
    || quoted_out_of_range p.energy_package_quoted
    || ltb p.estimate_safety_bps 10_000
    || ltb 100_000 p.estimate_safety_bps

-- Every failure of it is a RangeError, so the order of its tests does not show.
unfoldable pub assert_resource_audit_plan : AuditPlan → Result StoreError (Unit {0})
assert_resource_audit_plan p = throw_if (plan_out_of_range p) range_error

unfoldable pub upsert_resource_audit_plan :
    TxId → AuditPlan → Time → Database → Result StoreError Database
upsert_resource_audit_plan t p now db = do
  assert_resource_audit_plan p
  upsert_audit t (λ a. record a { plan = some p; planned_at = some now }) db

unfoldable pub record_energy_package_attempt : TxId → ℤ → Database → Result StoreError Database
record_energy_package_attempt t amount db = do
  throw_if (leb_ℤ amount (pos 0)) range_error
  upsert_audit t (λ a. record a { energy_package_attempted = some amount }) db

-- `energy_available_after IS NULL OR EXCLUDED.energy_available_after > energy_available_after`
abbrev pub is_arrival : ℤ → Option ℤ → Bool
is_arrival n none = true
is_arrival n (some seen) = ltb_ℤ seen n

unfoldable pub observe_arrival : ℤ → Time → Audit → Audit
observe_arrival n now a =
    if is_arrival n a.energy_available_after
    then record a { energy_available_after = some n; energy_arrival_observed_at = some now }
    else a

unfoldable pub record_energy_arrival : TxId → ℤ → Time → Database → Result StoreError Database
record_energy_arrival t n now db = do
  throw_if (is_negative n) range_error
  upsert_audit t (observe_arrival n now) db

-- COALESCE(new, old)
abbrev pub coalesce {ℓ} : {A : Type ℓ} → Option A → Option A → Option A
coalesce none old = old
coalesce (some a) old = some a

abbrev pub merge_receipt : ReceiptAudit → ReceiptAudit → ReceiptAudit
merge_receipt new old = record {
  energy_usage_total = coalesce new.energy_usage_total old.energy_usage_total;
  energy_usage = coalesce new.energy_usage old.energy_usage;
  origin_energy_usage = coalesce new.origin_energy_usage old.origin_energy_usage;
  net_usage = coalesce new.net_usage old.net_usage;
  net_fee_sun = coalesce new.net_fee_sun old.net_fee_sun;
  energy_fee_sun = coalesce new.energy_fee_sun old.energy_fee_sun;
  total_fee_sun = coalesce new.total_fee_sun old.total_fee_sun;
}

-- The second statement of markFinalized, on what summarizeSolidifiedReceipt makes of the receipt.
unfoldable pub record_receipt :
    TxId → ReceiptAudit → Text → Time → Database → Result StoreError Database
record_receipt t new result now = upsert_audit t (λ a. record a {
  receipt = merge_receipt new a.receipt;
  receipt_result = some result;
  solidified_at = some now;
})
