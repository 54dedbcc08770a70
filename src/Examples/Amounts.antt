-- ===== src/Examples/Amounts.antt =====
-- The amounts of src/resource-math.ts at concrete answers of the node.
use catfee_io.Base.{ℕ, ◌*◌, ◌≤◌, ◌<◌, ◌+◌, ◌≡◌, ◌≢◌, ◌↔◌, refl, arith}
use catfee_io.Base.Int.{pos, ◌≤ℤ◌, ◌*ℤ◌}
use catfee_io.Base.Results.{ok}
use catfee_io.ResourceMath.{
  AccountResource, Key, undefined, integer, energy, PaymentPlan, staked_source, free_source,
  trx_source, apply_safety_basis_points, resource_units_to_stake_sun, plan_owner_bandwidth_payment,
  available_resource, read_big_int, bandwidth_buckets, payment_source, planned_burn,
}
use catfee_io.ResourceMath.Bounds.{
  apply_safety_basis_points_bounds, resource_units_to_stake_sun-Covers,
  plan_owner_bandwidth_payment_lem, Covers,
}

-- 300 bytes staked and 600 free; 2 of 7 energy units of the network for a weight of 2.
abbrev account : AccountResource
account Key.net_limit = integer (pos 400)
account Key.net_used = integer (pos 100)
account Key.free_net_limit = integer (pos 600)
account Key.total_energy_limit = integer (pos 7)
account Key.total_energy_weight = integer (pos 2)
account _ = undefined

abbrev free_plan : PaymentPlan
free_plan = record {
  required_bytes = pos 345;
  staked_available = pos 300;
  free_available = pos 600;
  source = free_source;
  unit_price_sun = pos 1000;
  burn_sun = pos 345_000;
}

apply_safety_basis_points_bounds_example :
    (r : ℕ) × (apply_safety_basis_points (pos 65_001) 12_000 ≡ pos r)
    × (65_001 ≤ r)
    × (65_001 * 12_000 ≤ r * 10_000)
    × (r * 10_000 < 65_001 * 12_000 + 10_000)
apply_safety_basis_points_bounds_example =
    apply_safety_basis_points_bounds 65_001 12_000 (omega arith)

resource_units_to_stake_sun-Covers_example :
    (s : ℕ) × (resource_units_to_stake_sun (pos 3) account energy (pos 1_000_000) ≡ ok (pos s))
    × Covers 3 2 7 1_000_000 s
unfolding read_big_int
resource_units_to_stake_sun-Covers_example =
    resource_units_to_stake_sun-Covers 3 2 7 1_000_000 account energy (omega arith) (omega arith)
      (omega arith) refl refl

plan_owner_bandwidth_payment_lem_example :
    ((free_source ≡ trx_source) ↔ ¬ (pos 345 ≤ℤ pos 600))
    × ((free_source ≡ staked_source) ↔ (pos 345 ≤ℤ pos 300))
    × ((pos 345_000 ≡ pos 0) ↔ (free_source ≡ staked_source))
    × (free_source ≢ staked_source → pos 345_000 ≡ pos 345 *ℤ pos 1000)
unfolding plan_owner_bandwidth_payment available_resource bandwidth_buckets payment_source
    planned_burn ◌*ℤ◌
plan_owner_bandwidth_payment_lem_example =
    plan_owner_bandwidth_payment_lem (pos 345) (pos 1000) account free_plan (pos 600) refl refl
