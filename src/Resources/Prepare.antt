-- ===== src/Resources/Prepare.antt =====
-- `prepare` and `assertEnergyReadyForBroadcast` of src/resource-service.ts. The mutex makes one
-- preparation follow another, so that a run of `prepare` is one step.
pub mod Readiness
pub mod Stability
mod Statements
use catfee_io.Base.{Bool, true, false, not, none, some, List, [], ◌∷◌, ◌&&◌, ◌||◌, if◌then◌else◌}
use catfee_io.Base.Int.{ℤ, pos, leb_ℤ}
use catfee_io.Base.Results.{Result, ok, err}
use catfee_io.Base.Effects.{Effect, return, lift, when, ◌>>=◌, ◌>>◌}
use catfee_io.ResourceMath.{energy, available_resource}
use catfee_io.Table.{select}
use catfee_io.Failures.{
  Failure, Code, gateway, paid, energy_recheck_unavailable_after_provider,
  energy_recheck_unavailable, energy_not_ready_after_provider, energy_not_ready_for_broadcast,
}
use catfee_io.Gateway.Requests.{Transaction, Requirement, is_type}
use catfee_io.Resources.{Options, is_provider}
use catfee_io.Resources.World.{Node, Session, computes}
use catfee_io.Resources.Requirements.{is_energy}
use catfee_io.Resources.Leasing.{delegate}
use catfee_io.Resources.Rental.Package.{rent_external_energy}

-- One requirement, with whether a provider may have charged for one before.
unfoldable pub prepare_one :
    Node → Options → Transaction → Requirement → Bool → Effect Session Failure Bool
prepare_one n o t q charged =
    if is_energy q.resource_type && is_provider o.energy_source
    then (do rented ← rent_external_energy n o t q; return (rented || charged))
    else if leb_ℤ q.deficit (pos 0) || leb_ℤ q.balance_sun (pos 0)
    then return charged
    else (delegate n o t q >> return charged)

unfoldable pub prepare_all :
    Node → Options → Transaction → List Requirement → Bool → Effect Session Failure Bool
unfolding prepare_one
prepare_all n o t [] charged = return charged
prepare_all n o t (q ∷ qs) charged = prepare_one n o t q charged >>= prepare_all n o t qs

-- The failure of a check after a charge, and else.
abbrev pub failing : Bool → Code → Code → Failure
failing true after otherwise = paid after
failing false after otherwise = gateway otherwise

-- The comparison with a resource that was read.
unfoldable pub assert_energy_enough : Requirement → Bool → ℤ → Result Failure (Unit {0})
assert_energy_enough q charged available =
    if leb_ℤ q.required available
    then ok tt
    else err (failing charged energy_not_ready_after_provider energy_not_ready_for_broadcast)

-- What the energy requirement asks of the node's last reading.
unfoldable pub recheck_energy : Node → Requirement → Bool → Result Failure (Unit {0})
unfolding assert_energy_enough
recheck_energy n q charged = elim n.recheck [
  | err _ ↦
      err (failing charged energy_recheck_unavailable_after_provider energy_recheck_unavailable)
  | ok r ↦ elim (computes (available_resource r energy)) [
    | err e ↦ err e
    | ok available ↦ assert_energy_enough q charged available
  ]
]

unfoldable pub assert_energy_ready : Node → List Requirement → Bool → Result Failure (Unit {0})
unfolding recheck_energy
assert_energy_ready n qs charged = elim (select (is_type energy) qs) [
  | none ↦ ok tt
  | some q ↦ recheck_energy n q charged
]

unfoldable pub prepare :
    Node → Options → Transaction → List Requirement → Effect Session Failure Bool
unfolding prepare_all assert_energy_ready
prepare n o t qs = do
  charged ← prepare_all n o t qs false
  when (not o.allow_owner_energy_burn) (lift (assert_energy_ready n qs charged))
  return charged
