-- ===== src/Gateway/Audits/Checks.antt =====
-- The audit rows of src/repository.ts against the CHECKs of sql/005_resource_audit.sql.
use catfee_io.Base.{◌≤◌, ◌≡◌, false, Option, none, some, arith, inl, inr, Bool-cases}
use catfee_io.Base.Int.{ℤ, pos, ◌≤ℤ◌}
use catfee_io.Base.Results.{ok}
use catfee_io.Table.{update, insert, exists}
use catfee_io.Table.Laws.{All, All-insert, All-update}
use catfee_io.Store.{Database, Audit, AuditPlan, ReceiptAudit, TxId, Time, Text}
use catfee_io.Gateway.Audits.{
  audit_of, new_audit, upsert_audit, plan_out_of_range, assert_resource_audit_plan,
  upsert_resource_audit_plan, record_energy_package_attempt, is_arrival, observe_arrival,
  record_energy_arrival, quoted_out_of_range, is_negative, record_receipt,
}

abbrev pub IsPositive : Option ℤ → Type 0
IsPositive none = Unit
IsPositive (some n) = pos 1 ≤ℤ n

abbrev pub IsNatural : Option ℤ → Type 0
IsNatural none = Unit
IsNatural (some n) = pos 0 ≤ℤ n

-- The CHECKs on the columns of the plan.
pub record IsPlan (p : AuditPlan) : Type 0 where
  pub raw : pos 0 ≤ℤ p.energy_estimate_raw
  pub safe : p.energy_estimate_raw ≤ℤ p.energy_estimate_safe
  pub least_bps : 10_000 ≤ p.estimate_safety_bps
  pub most_bps : p.estimate_safety_bps ≤ 100_000
  pub before : pos 0 ≤ℤ p.energy_available_before
  pub threshold : pos 1 ≤ℤ p.package_threshold
  pub quoted : IsPositive p.energy_package_quoted
  pub energy_price : pos 0 ≤ℤ p.energy_price_sun
  pub energy_burn : pos 0 ≤ℤ p.estimated_energy_burn_sun
  pub bytes : pos 0 ≤ℤ p.bandwidth_bytes
  pub staked : pos 0 ≤ℤ p.bandwidth_staked_available
  pub free : pos 0 ≤ℤ p.bandwidth_free_available
  pub bandwidth_price : pos 0 ≤ℤ p.bandwidth_unit_price_sun
  pub bandwidth_burn : pos 0 ≤ℤ p.estimated_bandwidth_burn_sun
  pub balance : pos 0 ≤ℤ p.owner_balance_sun
  pub fee_limit : pos 0 ≤ℤ p.fee_limit_sun
  pub least_fee : pos 0 ≤ℤ p.minimum_fee_limit_sun
  pub most_fee : pos 1 ≤ℤ p.maximum_fee_limit_sun

abbrev pub IsPlanned : Option AuditPlan → Type 0
IsPlanned none = Unit
IsPlanned (some p) = IsPlan p

-- The CHECKs on a row, but those on the receipt.
pub record IsChecked (a : Audit) : Type 0 where
  pub planned : IsPlanned a.plan
  pub attempted : IsPositive a.energy_package_attempted
  pub arrived : IsNatural a.energy_available_after

plan_out_of_range-IsPlan : (p : AuditPlan) → plan_out_of_range p ≡ false → IsPlan p
unfolding plan_out_of_range
plan_out_of_range-IsPlan p h = record {
  raw = ground arith;
  safe = ground arith;
  least_bps = ground arith;
  most_bps = ground arith;
  before = ground arith;
  threshold = ground arith;
  quoted = quoted_lem p.energy_package_quoted (ground arith);
  energy_price = ground arith;
  energy_burn = ground arith;
  bytes = ground arith;
  staked = ground arith;
  free = ground arith;
  bandwidth_price = ground arith;
  bandwidth_burn = ground arith;
  balance = ground arith;
  fee_limit = ground arith;
  least_fee = ground arith;
  most_fee = ground arith;
}
  where
    quoted_lem : (q : Option ℤ) → quoted_out_of_range q ≡ false → IsPositive q
    quoted_lem none k = tt
    quoted_lem (some n) k = ground arith

-- An upsert whose change keeps every row within the CHECKs keeps the table within them.
upsert-All :
    (t : TxId) (f : Audit → Audit) (db db' : Database)
    → ((a : Audit) → IsChecked a → IsChecked (f a))
    → upsert_audit t f db ≡ ok db'
    → All IsChecked db.audits
    → All IsChecked db'.audits
unfolding upsert_audit
upsert-All t f db db' h e v = elim (Bool-cases (exists (audit_of t) db.audits)) [
  | inl old ↦
      let e' : record db { audits = update (audit_of t) f db.audits } ≡ db' = ground arith in
      rw (← e')
        (All-update IsChecked IsChecked (audit_of t) f (λ a _ k. h a k) (λ a k. k) db.audits v)
  | inr new ↦
      let e' : record db { audits = insert (f (new_audit t)) db.audits } ≡ db' = ground arith in
      rw (← e') (
        All-insert IsChecked (f (new_audit t)) db.audits
          (h (new_audit t) (record { planned = tt; attempted = tt; arrived = tt })) v)
]

observe_arrival-IsChecked :
    (n : ℤ) (now : Time) (a : Audit)
    → is_negative n ≡ false
    → IsChecked a
    → IsChecked (observe_arrival n now a)
unfolding observe_arrival
observe_arrival-IsChecked n now a h k = elim (Bool-cases (is_arrival n a.energy_available_after)) [
  | inl larger ↦
      rw larger (record { planned = k.planned; attempted = k.attempted; arrived = ground arith })
  | inr smaller ↦ rw smaller k
]

-- One call of a method that writes an audit row.
pub data Step (db db' : Database) : Type 0 where
  plans :
      (t : TxId) (p : AuditPlan) (now : Time)
      → upsert_resource_audit_plan t p now db ≡ ok db'
      → Step db db'
  attempts :
      (t : TxId) (amount : ℤ) → record_energy_package_attempt t amount db ≡ ok db' → Step db db'
  observes :
      (t : TxId) (n : ℤ) (now : Time) → record_energy_arrival t n now db ≡ ok db' → Step db db'
  solidifies :
      (t : TxId) (receipt : ReceiptAudit) (result : Text) (now : Time)
      → record_receipt t receipt result now db ≡ ok db'
      → Step db db'

-- What the methods let through satisfies the CHECKs of the table on the plan, the attempt and the arrival:
-- if every row of the table does before a call that succeeds, every row does after it.
pub Step-IsChecked :
    {db db' : Database} → Step db db' → All IsChecked db.audits → All IsChecked db'.audits
unfolding upsert_resource_audit_plan assert_resource_audit_plan record_energy_package_attempt
    record_energy_arrival record_receipt
Step-IsChecked {db} {db'} (plans t p now e) v =
    upsert-All t (λ a. record a { plan = some p; planned_at = some now }) db db'
      (λ a k. record {
        planned = plan_out_of_range-IsPlan p (ground arith);
        attempted = k.attempted;
        arrived = k.arrived;
      })
      (ground arith) v
Step-IsChecked {db} {db'} (attempts t amount e) v =
    upsert-All t (λ a. record a { energy_package_attempted = some amount }) db db'
      (λ a k. record { planned = k.planned; attempted = ground arith; arrived = k.arrived })
      (ground arith) v
Step-IsChecked {db} {db'} (observes t n now e) v =
    upsert-All t (observe_arrival n now) db db'
      (λ a k. observe_arrival-IsChecked n now a (ground arith) k) (ground arith) v
Step-IsChecked {db} {db'} (solidifies t receipt result now e) v =
    upsert-All t _ db db'
      (λ a k. record { planned = k.planned; attempted = k.attempted; arrived = k.arrived }) e v
