-- ===== src/ResourceMath/Bounds.antt =====
-- The amounts of resource-math.ts are right: large enough, and no larger than they have to be.
use Prim.Native.Nat.{max}
use catfee_io.Base.{
  ℕ, ◌+◌, ◌-◌, ◌*◌, ◌/◌, ◌≤◌, ◌<◌, ◌≡◌, ◌≢◌, ◌↔◌, ◌⊎◌, arith, inl, inr, if◌then◌else◌, ap, ◌∙◌,
}
use catfee_io.Base.Int.{ℤ, pos, ◌*ℤ◌, ◌≤ℤ◌, ltb_ℤ, *ℤ_pos}
use catfee_io.Base.Results.{ok, Result-cases}
use catfee_io.ResourceMath.{
  AccountResource, ResourceType, bandwidth, read_big_int, total_limit_key, total_weight_key,
  divide_round_up, apply_safety_basis_points, available_resource, plan_owner_bandwidth_payment,
  resource_units_to_stake_sun, stake_for, payment_source, staked_source, trx_source,
  bandwidth_buckets, planned_burn, sun_per_trx, Buckets, PaymentPlan,
}

-- Between numbers, `divideRoundUp` is the least quotient that covers the numerator.
divide_round_up-pos : (n d : ℕ) → 0 < d → divide_round_up (pos n) d ≡ pos ((n + d - 1) / d)
unfolding divide_round_up
divide_round_up-pos n d h = ground arith

ceiling_bounds : (n d : ℕ) → 0 < d → (n ≤ (n + d - 1) / d * d) × ((n + d - 1) / d * d < n + d)
ceiling_bounds n d h = grind arith

-- The safety margin: for an estimate that is not negative and a margin of 100% or more, the result is
-- at least the estimate, covers `value * bps / 10000`, and is the least integer that does.
pub apply_safety_basis_points_bounds :
    (v bps : ℕ)
    → 10_000 ≤ bps
    → (r : ℕ) × (apply_safety_basis_points (pos v) bps ≡ pos r)
      × (v ≤ r)
      × (v * bps ≤ r * 10_000)
      × (r * 10_000 < v * bps + 10_000)
unfolding apply_safety_basis_points
apply_safety_basis_points_bounds v bps h = (
  (v * bps + 10_000 - 1) / 10_000,
  ap (λ t. divide_round_up t 10_000) (*ℤ_pos v bps)
      ∙ divide_round_up-pos (v * bps) 10_000 (omega arith),
  grind arith,
  (ceiling_bounds (v * bps) 10_000 (omega arith)).0,
  (ceiling_bounds (v * bps) 10_000 (omega arith)).1,
)

-- What the stake of a deficit has to be: no less than the minimum, worth at least the deficit at the
-- network's rate, and no larger than one of these asks for.
abbrev pub Covers : (units weight limit minimum stake : ℕ) → Type 0
Covers units weight limit minimum stake =
    (minimum ≤ stake)
    × (units * weight * sun_per_trx ≤ stake * limit)
    × ((stake ≡ minimum) ⊎ (stake * limit < units * weight * sun_per_trx + limit))

stake_for-Covers :
    (u w l m : ℕ)
    → 0 < l
    → (s : ℕ) × (stake_for (pos u) (pos w) (pos l) (pos m) ≡ pos s) × Covers u w l m s
unfolding stake_for
stake_for-Covers u w l m h =
    rw (*ℤ_pos u w, *ℤ_pos (u * w) sun_per_trx, divide_round_up-pos (u * w * sun_per_trx) l h)
      (
        max ((u * w * sun_per_trx + l - 1) / l) m,
        ground arith,
        (
          omega arith,
          grind (arith, ceiling_bounds (u * w * sun_per_trx) l h),
          grind (arith, ceiling_bounds (u * w * sun_per_trx) l h),
        ),
      )

-- With a positive limit and weight from the node and a positive deficit, the call succeeds, and its
-- stake reaches the minimum, covers the deficit at the network's rate, and is not one sun too large
-- unless it is the minimum.
pub resource_units_to_stake_sun-Covers :
    (u w l m : ℕ) (r : AccountResource) (type : ResourceType)
    → 0 < u
    → 0 < w
    → 0 < l
    → read_big_int r (total_limit_key type) ≡ ok (pos l)
    → read_big_int r (total_weight_key type) ≡ ok (pos w)
    → (s : ℕ) × (resource_units_to_stake_sun (pos u) r type (pos m) ≡ ok (pos s)) × Covers u w l m s
unfolding resource_units_to_stake_sun
resource_units_to_stake_sun-Covers u w l m r type hu hw hl el ew =
    let (s, e, c) = stake_for-Covers u w l m hl in (s, ground (arith, e), c)

product_ne_zero : (a b : ℤ) → ¬ (a ≤ℤ pos 0) → ¬ (b ≤ℤ pos 0) → a *ℤ b ≢ pos 0
unfolding ◌*ℤ◌
product_ne_zero a b ha hb e = grind arith

-- The plan of one pair of buckets.
payment_plan_lem :
    (required price : ℤ) (b : Buckets)
    → ¬ (required ≤ℤ pos 0)
    → ¬ (price ≤ℤ pos 0)
    → let source = payment_source required b in
      ((source ≡ trx_source) ↔ ¬ (required ≤ℤ (if ltb_ℤ b.free b.staked then b.staked else b.free)))
      × ((source ≡ staked_source) ↔ (required ≤ℤ b.staked))
      × ((planned_burn source required price ≡ pos 0) ↔ (source ≡ staked_source))
      × (source ≢ staked_source → planned_burn source required price ≡ required *ℤ price)
unfolding payment_source planned_burn
payment_plan_lem required price b hr hp = ground (arith, product_ne_zero required price hr hp)

-- The payment plan and the availability agree: the plan burns the full price unless the staked bucket
-- alone covers the transaction, and it falls back to TRX exactly if the available bandwidth of the
-- account is less than what is required.
pub plan_owner_bandwidth_payment_lem :
    (required price : ℤ) (r : AccountResource) (plan : PaymentPlan) (available : ℤ)
    → plan_owner_bandwidth_payment required r price ≡ ok plan
    → available_resource r bandwidth ≡ ok available
    → ((plan.source ≡ trx_source) ↔ ¬ (required ≤ℤ available))
      × ((plan.source ≡ staked_source) ↔ (required ≤ℤ plan.staked_available))
      × ((plan.burn_sun ≡ pos 0) ↔ (plan.source ≡ staked_source))
      × (plan.source ≢ staked_source → plan.burn_sun ≡ required *ℤ price)
unfolding plan_owner_bandwidth_payment available_resource
plan_owner_bandwidth_payment_lem required price r plan available hp ha =
    elim (Result-cases (bandwidth_buckets r)) [
      | inl (b, e) ↦ ground (arith, payment_plan_lem required price b)
      | inr (x, e) ↦ ground arith
    ]
