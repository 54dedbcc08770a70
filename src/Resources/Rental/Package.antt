-- ===== src/Resources/Rental/Package.antt =====
-- `rentExternalEnergy` of src/resource-service.ts: the choice of the package, its order, and what follows it.
use catfee_io.Base.{ℕ, Bool, false, not, Option, none, some, [], ◌++◌, if◌then◌else◌}
use catfee_io.Base.Int.{ℤ, pos, pos_part, ◌*ℤ◌, leb_ℤ}
use catfee_io.Base.Results.{Result, ok, err}
use catfee_io.Base.Effects.{Effect, return, throw, lift, when, ◌>>=◌, ◌>>◌}
use catfee_io.Failures.{
  Failure, gateway, paid, other, energy_provider_unavailable, energy_provider_package_unavailable,
  energy_provider_potentially_charged,
}
use catfee_io.Gateway.Requests.{Transaction, Requirement}
use catfee_io.Service.{OrderResult, OrderError, potentially_charged, order_energy}
use catfee_io.Service.Quote.{quote_minimum_energy_amount}
use catfee_io.Resources.{Options, safe_energy_number, assert_fee_limit_sufficient}
use catfee_io.Resources.World.{
  Node, Session, plan_enough, plan_unprovided, plan_ordered, packages_listed, checks, call,
}
use catfee_io.Resources.Requirements.{deficit_of}
use catfee_io.Resources.Survey.{
  Survey, survey, review_enough, strict_minimum, burn_beside, review_order,
}
use catfee_io.Resources.Rental.{
  await_delivery, consume_potentially_charged_quota, is_ordered, may_be_charged, not_ordered,
  order_of, record_attempt, write_plan,
}

-- orderEnergy, with what it throws as a value.
unfoldable pub place_order :
    Node → Transaction → ℕ → ℕ → ℤ → Effect Session Failure (Result OrderError OrderResult)
place_order n t amount units deadline s =
    let run =
      order_energy n.market
        (record {
          tx_id = t.tx_id;
          receive_address = t.owner_address;
          amount = amount;
          minimum_package_amount = some units;
          request_deadline = pos_part deadline;
        })
        s.database in
    (ok run.answer, record s { database = run.database; rentals = s.rentals ++ run.rentals })

unfoldable pub follow_order :
    Node
    → Options
    → Transaction
    → Requirement
    → Survey
    → Result OrderError OrderResult
    → Effect Session Failure Bool
unfolding consume_potentially_charged_quota record_attempt await_delivery
follow_order n o t q v (err potentially_charged) = do
  consume_potentially_charged_quota n t
  throw (paid energy_provider_potentially_charged)
follow_order n o t q v (err _) = throw (other [])
follow_order n o t q v (ok r) = do
  when (may_be_charged r) (consume_potentially_charged_quota n t)
  record_attempt n t (order_of r)
  if is_ordered r then await_delivery n o t q v (order_of r) else throw (not_ordered r)

-- What follows a quote of this package.
unfoldable pub order_package :
    Node → Options → Transaction → Requirement → Survey → ℕ → ℕ → Effect Session Failure Bool
unfolding write_plan place_order follow_order burn_beside
order_package n o t q v amount units = do
  write_plan n o t q v plan_ordered (some (pos units)) (burn_beside q v (pos units))
  deadline ← lift (review_order n o t v (burn_beside q v (pos units)))
  answer ← place_order n t amount units deadline
  follow_order n o t q v answer

-- No provider has a package.
unfoldable pub refuse_package :
    Node → Options → Transaction → Requirement → Survey → Effect Session Failure Bool
unfolding write_plan deficit_of
refuse_package n o t q v = do
  write_plan n o t q v plan_unprovided none
      (deficit_of q.required v.available *ℤ v.prices.energy_fee_sun)
  lift (checks (assert_fee_limit_sufficient t v.minimum_fee_limit v.prices.max_fee_limit_sun))
  throw (gateway energy_provider_package_unavailable)

abbrev pub quoted_or_thrown : Result OrderError (Option ℕ) → Effect Session Failure (Option ℕ)
quoted_or_thrown (ok units) = return units
quoted_or_thrown (err e) = throw (other [])

unfoldable pub quote_package : Node → ℕ → Option ℕ → Effect Session Failure (Option ℕ)
quote_package n amount minimum = do
  quoted ←
      call n packages_listed λ db. ok (quote_minimum_energy_amount n.market amount minimum db, db)
  quoted_or_thrown quoted

abbrev pub buy :
    Node → Options → Transaction → Requirement → Survey → ℕ → Option ℕ → Effect Session Failure Bool
buy n o t q v amount none = refuse_package n o t q v
buy n o t q v amount (some units) = order_package n o t q v amount units

unfoldable pub rent_missing :
    Node → Options → Transaction → Requirement → Survey → Effect Session Failure Bool
unfolding quote_package order_package refuse_package
rent_missing n o t q v = do
  amount ← lift (checks (safe_energy_number q.estimated))
  minimum ← lift (strict_minimum o q v)
  quoted ← quote_package n amount minimum
  buy n o t q v amount quoted

-- The account has the energy already.
unfoldable pub use_available :
    Node → Options → Transaction → Requirement → Survey → Effect Session Failure Bool
unfolding write_plan
use_available n o t q v = do
  write_plan n o t q v plan_enough none (pos 0)
  lift (review_enough o t v)
  return false

-- The answer is whether a provider may have charged for the energy.
unfoldable pub rent_external_energy :
    Node → Options → Transaction → Requirement → Effect Session Failure Bool
unfolding use_available rent_missing
rent_external_energy n o t q =
    if not n.has_providers then throw (gateway energy_provider_unavailable) else do
      v ← lift (survey n t q)
      if leb_ℤ q.required v.available then use_available n o t q v else rent_missing n o t q v
