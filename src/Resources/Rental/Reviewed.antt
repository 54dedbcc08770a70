-- ===== src/Resources/Rental/Reviewed.antt =====
-- What the guards before an order in `rentExternalEnergy` of src/resource-service.ts let through.
use catfee_io.Base.{true, false, ◌≡◌, ◌⊎◌, inl, inr, arith, Bool-cases}
use catfee_io.Base.Int.{ℤ, pos, ◌+ℤ◌, ◌-ℤ◌, ◌≤ℤ◌, leb_ℤ}
use catfee_io.Base.Results.{ok, Result-cases}
use catfee_io.Gateway.Requests.{Transaction, Requirement}
use catfee_io.Resources.{
  Options, Account, assert_single_owner_permission, assert_fee_limit_sufficient,
  assert_owner_bandwidth_payment_allowed, assert_owner_energy_payment_allowed,
}
use catfee_io.Resources.Keys.{IsAuthorized, assert_single_owner_permission-IsAuthorized}
use catfee_io.Resources.World.{Node}
use catfee_io.Resources.Survey.{Survey, survey, review_order, minimum_before_order}

-- The owner may be charged for `bandwidth` and `energy` beside what is rented.
abbrev pub AreWithin : Options → Survey → (bandwidth energy : ℤ) → Type 0
AreWithin o v bandwidth energy =
    ((bandwidth ≤ℤ pos 0)
      ⊎ ((o.allow_owner_bandwidth_burn ≡ true) × (bandwidth ≤ℤ o.max_owner_bandwidth_burn_sun)))
    × ((energy ≤ℤ pos 0)
        ⊎ ((o.allow_owner_energy_burn ≡ true) × (energy ≤ℤ o.max_owner_energy_burn_sun)))
    × ((bandwidth +ℤ energy) ≤ℤ v.owner_balance)

-- The guards, as they were when the deadline of the order was computed.
abbrev pub AllowsOrder : Node → Options → Transaction → Survey → ℤ → Type 0
AllowsOrder n o t v burn =
    (v.minimum_fee_limit ≤ℤ t.fee_limit_sun)
    × (t.fee_limit_sun ≤ℤ v.prices.max_fee_limit_sun)
    × AreWithin o v v.plan.burn_sun burn
    × (minimum_before_order o ≤ℤ (t.expiration_ms -ℤ pos n.order_time))
    × (n.still_matches_tapos ≡ ok true)
    × (n.has_transaction ≡ ok false)

pub review_order-AllowsOrder :
    (n : Node) (o : Options) (t : Transaction) (v : Survey) (burn deadline : ℤ)
    → review_order n o t v burn ≡ ok deadline
    → AllowsOrder n o t v burn
unfolding review_order assert_fee_limit_sufficient assert_owner_bandwidth_payment_allowed
    assert_owner_energy_payment_allowed
review_order-AllowsOrder n o t v burn deadline e = (
  ground arith,
  ground arith,
  (
    elim (Bool-cases (leb_ℤ v.plan.burn_sun (pos 0))) [
      | inl nothing ↦ inl (ground arith)
      | inr charge ↦ inr (ground arith, ground arith)
    ],
    elim (Bool-cases (leb_ℤ burn (pos 0))) [
      | inl nothing ↦ inl (ground arith)
      | inr charge ↦ inr (ground arith, ground arith)
    ],
    ground arith,
  ),
  ground arith,
  ground arith,
  ground arith,
)

-- The account that the node showed is the owner's alone.
pub survey-IsAuthorized :
    (n : Node) (t : Transaction) (q : Requirement) (v : Survey)
    → survey n t q ≡ ok v
    → (account : Account) × (n.account ≡ ok account) × IsAuthorized account t.owner_address
unfolding survey
survey-IsAuthorized n t q v e = elim (Result-cases n.account) [
  | inr (x, bad) ↦ absurd (ground arith)
  | inl (account, ea) ↦
      elim (Result-cases (assert_single_owner_permission account t.owner_address)) [
        | inr (x, bad) ↦ absurd (ground arith)
        | inl (tt, good) ↦ (
          account,
          ea,
          (assert_single_owner_permission-IsAuthorized account t.owner_address).0 good,
        )
      ]
]
