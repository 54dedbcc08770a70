-- ===== src/Resources/Survey.antt =====
-- The parts of `rentExternalEnergy` of src/resource-service.ts that change nothing: the review of the
-- account, what goes into the audit row, and the guards before the order.
use catfee_io.Base.{ℕ, ◌+◌, not, Option, none, some, if◌then◌else◌}
use catfee_io.Base.Int.{ℤ, pos, ◌+ℤ◌, ◌-ℤ◌, ◌*ℤ◌, ltb_ℤ}
use catfee_io.Base.Results.{Result, ok, throw_if, ◌>>=◌, ◌>>◌}
use catfee_io.ResourceMath.{
  energy, PaymentPlan, available_resource, account_balance_sun, plan_owner_bandwidth_payment,
  estimate_signed_transaction_bandwidth,
}
use catfee_io.Store.{AuditPlan}
use catfee_io.Failures.{
  Failure, gateway, tapos_reference_mismatch, insufficient_owner_trx_for_bandwidth,
  insufficient_owner_trx_for_resources, transaction_ttl_too_short_for_provider,
  transaction_expiration_unsafe, tapos_reference_expired, transaction_already_visible,
}
use catfee_io.Gateway.Requests.{Transaction, Requirement}
use catfee_io.Providers.Limits.{max_safe_integer}
use catfee_io.Resources.{
  Options, Prices, assert_external_energy_receiver, assert_single_owner_permission,
  assert_fee_limit_sufficient, assert_owner_bandwidth_payment_allowed,
  assert_owner_energy_payment_allowed, safe_energy_number,
}
use catfee_io.Resources.World.{Node, asks, computes, checks}
use catfee_io.Resources.Requirements.{deficit_of}

-- What the first readings of the node come to.
pub record Survey : Type 0 where
  pub owner_balance : ℤ
  pub plan : PaymentPlan
  pub prices : Prices
  pub available : ℤ
  pub minimum_fee_limit : ℤ

unfoldable pub survey : Node → Transaction → Requirement → Result Failure Survey
survey n t q = do
  account ← asks n.account
  resources ← asks n.latest_resource
  prices ← asks n.prices
  matches ← asks n.matches_tapos
  throw_if (not matches) (gateway tapos_reference_mismatch)
  checks (assert_external_energy_receiver account t.owner_address)
  checks (assert_single_owner_permission account t.owner_address)
  owner_balance ← computes (account_balance_sun account.amounts)
  plan ← computes (
      plan_owner_bandwidth_payment (estimate_signed_transaction_bandwidth t.transaction_bytes)
        resources prices.bandwidth_fee_sun)
  available ← computes (available_resource resources energy)
  ok (record {
    owner_balance = owner_balance;
    plan = plan;
    prices = prices;
    available = available;
    minimum_fee_limit = q.required *ℤ prices.energy_fee_sun;
  })

-- What upsertResourceAuditPlan is given at each of its three places, which differ in the package
-- quoted and in the energy that the owner has to burn.
unfoldable pub audit_plan : Options → Transaction → Requirement → Survey → Option ℤ → ℤ → AuditPlan
audit_plan o t q v quoted burn = record {
  energy_estimate_raw = q.estimated;
  energy_estimate_safe = q.required;
  estimate_safety_bps = o.estimate_safety_bps;
  energy_available_before = v.available;
  package_threshold = pos o.energy_package_threshold;
  energy_package_quoted = quoted;
  energy_price_sun = v.prices.energy_fee_sun;
  estimated_energy_burn_sun = burn;
  bandwidth_bytes = v.plan.required_bytes;
  bandwidth_staked_available = v.plan.staked_available;
  bandwidth_free_available = v.plan.free_available;
  bandwidth_source = v.plan.source;
  bandwidth_unit_price_sun = v.plan.unit_price_sun;
  estimated_bandwidth_burn_sun = v.plan.burn_sun;
  owner_balance_sun = v.owner_balance;
  fee_limit_sun = t.fee_limit_sun;
  minimum_fee_limit_sun = v.minimum_fee_limit;
  maximum_fee_limit_sun = v.prices.max_fee_limit_sun;
}

-- The guards where the account has the energy already.
unfoldable pub review_enough : Options → Transaction → Survey → Result Failure (Unit {0})
review_enough o t v = do
  checks (assert_fee_limit_sufficient t v.minimum_fee_limit v.prices.max_fee_limit_sun)
  checks (assert_owner_bandwidth_payment_allowed o v.plan)
  throw_if (ltb_ℤ v.owner_balance v.plan.burn_sun) (gateway insufficient_owner_trx_for_bandwidth)

-- `strictMinimumPackage`
unfoldable pub strict_minimum : Options → Requirement → Survey → Result Failure (Option ℕ)
strict_minimum o q v =
    if o.allow_owner_energy_burn
    then ok none
    else do least ← checks (safe_energy_number (q.required -ℤ v.available)); ok (some least)

-- What the owner burns for energy beside a package.
unfoldable pub burn_beside : Requirement → Survey → ℤ → ℤ
unfolding deficit_of
burn_beside q v units = deficit_of q.required (v.available +ℤ units) *ℤ v.prices.energy_fee_sun

-- `minimumBeforeOrder`
abbrev pub minimum_before_order : Options → ℤ
minimum_before_order o = pos (
    o.provider_order_timeout_ms + o.provider_confirm_timeout_ms + o.provider_poll_ms
    + o.min_transaction_ttl_ms)

-- The guards between the plan and the order. They give the deadline of the order's request.
unfoldable pub review_order : Node → Options → Transaction → Survey → ℤ → Result Failure ℤ
review_order n o t v burn = do
  checks (assert_fee_limit_sufficient t v.minimum_fee_limit v.prices.max_fee_limit_sun)
  checks (assert_owner_bandwidth_payment_allowed o v.plan)
  checks (assert_owner_energy_payment_allowed o burn)
  throw_if (ltb_ℤ v.owner_balance (v.plan.burn_sun +ℤ burn))
      (gateway insufficient_owner_trx_for_resources)
  throw_if (ltb_ℤ (t.expiration_ms -ℤ pos n.order_time) (minimum_before_order o))
      (gateway transaction_ttl_too_short_for_provider)
  let deadline = t.expiration_ms -ℤ minimum_before_order o
  throw_if (ltb_ℤ (pos max_safe_integer) deadline) (gateway transaction_expiration_unsafe)
  matches ← asks n.still_matches_tapos
  throw_if (not matches) (gateway tapos_reference_expired)
  visible ← asks n.has_transaction
  throw_if visible (gateway transaction_already_visible)
  ok deadline
