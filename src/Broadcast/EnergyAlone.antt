-- ===== src/Broadcast/EnergyAlone.antt =====
-- Where energy alone is sponsored, `calculateRequirements` of src/resource-service.ts asks for energy alone.
use catfee_io.Base.{true, false, List, [], ◌∷◌, ◌≡◌, inl, inr, refl, arith, Bool-cases, ◌&&◌}
use catfee_io.Base.Int.{ℤ}
use catfee_io.Base.Results.{ok, Result-cases}
use catfee_io.ResourceMath.{energy, AccountResource, available_resource, apply_safety_basis_points}
use catfee_io.Gateway.Requests.{Transaction, Requirement}
use catfee_io.Resources.{Options}
use catfee_io.Resources.World.{Node}
use catfee_io.Resources.Requirements.{
  calculate_requirements, energy_requirements, bandwidth_requirements, make_requirement,
  balance_for, deficit_of, has_trigger, is_energy,
}
use catfee_io.Resources.Prepare.Readiness.{IsEnergyAlone}

make_requirement-energy :
    (o : Options) (estimated required : ℤ) (r : AccountResource) (q : Requirement)
    → make_requirement o energy estimated required r ≡ ok q
    → is_energy q.resource_type ≡ true
unfolding make_requirement
make_requirement-energy o estimated required r q e =
    elim (Result-cases (available_resource r energy)) [
      | inr (x, bad) ↦ absurd (ground arith)
      | inl (available, ea) ↦
          elim (Result-cases (balance_for o energy (deficit_of required available) r)) [
            | inr (x, bad) ↦ absurd (ground arith)
            | inl (balance, eb) ↦ let is : q.resource_type ≡ energy = ground arith in rw is refl
          ]
    ]

-- Where bandwidth is not sponsored, the energy is the only requirement.
pub calculate_requirements-IsEnergyAlone :
    (n : Node) (o : Options) (t : Transaction) (qs : List Requirement)
    → o.sponsor_bandwidth ≡ false
    → calculate_requirements n o t ≡ ok qs
    → IsEnergyAlone qs
unfolding calculate_requirements energy_requirements bandwidth_requirements
calculate_requirements-IsEnergyAlone n o t qs no_bandwidth e =
    elim (Result-cases n.owner_resource) [
      | inr (x, bad) ↦ absurd (ground arith)
      | inl (r, er) ↦ elim (Bool-cases (o.sponsor_energy && has_trigger t)) [
        | inr nothing ↦ let none_asked : [] ≡ qs = ground arith in rw (← none_asked) tt
        | inl asked ↦ elim (Result-cases n.energy_estimate) [
          | inr (x, bad) ↦ absurd (ground arith)
          | inl (estimated, ee) ↦
              elim (Result-cases (
                make_requirement o energy estimated
                  (apply_safety_basis_points estimated o.estimate_safety_bps) r)) [
                    | inr (x, bad) ↦ absurd (ground arith)
                    | inl (q, eq) ↦
                        let one : q ∷ [] ≡ qs = ground arith in
                        rw (← one) (make_requirement-energy o _ _ r q eq)
                  ]
        ]
      ]
    ]
