-- ===== src/Resources/Requirements.antt =====
-- `makeRequirement` and `calculateRequirements` of src/resource-service.ts.
use catfee_io.Base.{
  Bool, true, false, Option, some, List, [], ◌∷◌, ◌++◌, ◌&&◌, if◌then◌else◌, is_some, not,
}
use catfee_io.Base.Int.{ℤ, pos, ◌-ℤ◌, ltb_ℤ}
use catfee_io.Base.Results.{Result, ok, ◌>>=◌}
use catfee_io.ResourceMath.{
  AccountResource, ResourceType, energy, bandwidth, MathError, available_resource,
  resource_units_to_stake_sun, apply_safety_basis_points, estimate_signed_transaction_bandwidth,
}
use catfee_io.Store.{Text}
use catfee_io.Failures.{Failure}
use catfee_io.Gateway.Requests.{Transaction, Requirement}
use catfee_io.Resources.{Options, is_provider}
use catfee_io.Resources.World.{Node, asks, computes}

-- `required > available ? required - available : 0n`
unfoldable pub deficit_of : ℤ → ℤ → ℤ
deficit_of required available = if ltb_ℤ available required then required -ℤ available else pos 0

abbrev pub is_energy : ResourceType → Bool
is_energy energy = true
is_energy bandwidth = false

-- The stake of a requirement: none where the energy is rented.
unfoldable pub balance_for : Options → ResourceType → ℤ → AccountResource → Result MathError ℤ
balance_for o type deficit r =
    if is_energy type && is_provider o.energy_source
    then ok (pos 0)
    else resource_units_to_stake_sun deficit r type o.min_delegate_sun

unfoldable pub make_requirement :
    Options → ResourceType → ℤ → ℤ → AccountResource → Result MathError Requirement
unfolding deficit_of balance_for
make_requirement o type estimated required r = do
  available ← available_resource r type
  let deficit = deficit_of required available
  balance ← balance_for o type deficit r
  ok (record {
    resource_type = type;
    estimated = estimated;
    required = required;
    available = available;
    deficit = deficit;
    balance_sun = balance;
  })

-- A text that is there, and not empty.
abbrev pub is_filled : Option Text → Bool
is_filled (some (_ ∷ _)) = true
is_filled _ = false

-- `transaction.contractAddress && transaction.triggerData`
abbrev pub has_trigger : Transaction → Bool
has_trigger t = is_some t.contract_address && is_filled t.trigger_data

unfoldable pub energy_requirements :
    Node → Options → Transaction → AccountResource → Result Failure (List Requirement)
unfolding make_requirement
energy_requirements n o t r = if not (o.sponsor_energy && has_trigger t) then ok [] else do
  estimated ← asks n.energy_estimate
  q ← computes (
      make_requirement o energy estimated
        (apply_safety_basis_points estimated o.estimate_safety_bps) r)
  ok (q ∷ [])

unfoldable pub bandwidth_requirements :
    Options → Transaction → AccountResource → Result Failure (List Requirement)
unfolding make_requirement
bandwidth_requirements o t r = if not o.sponsor_bandwidth then ok [] else do
  let estimated = estimate_signed_transaction_bandwidth t.transaction_bytes
  q ← computes (make_requirement o bandwidth estimated estimated r)
  ok (q ∷ [])

unfoldable pub calculate_requirements :
    Node → Options → Transaction → Result Failure (List Requirement)
unfolding energy_requirements bandwidth_requirements
calculate_requirements n o t = do
  r ← asks n.owner_resource
  es ← energy_requirements n o t r
  bs ← bandwidth_requirements o t r
  ok (es ++ bs)
