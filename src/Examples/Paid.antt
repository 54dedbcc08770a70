-- ===== src/Examples/Paid.antt =====
-- The run of Examples.Sponsor, computed: one rental that is accepted, and one broadcast.
use catfee_io.Base.{◌≡◌, refl, [], ◌∷◌}
use catfee_io.Examples.Accounts.{transaction}
use catfee_io.Examples.Sponsor.{wire, config, session}
use catfee_io.ResourceMath.{available_resource, read_big_int, bandwidth_buckets}
use catfee_io.Table.{update, insert, exists, select, select_all, sum}
use catfee_io.ResourceMath.{
  non_negative, apply_safety_basis_points, payment_source, planned_burn,
  plan_owner_bandwidth_payment, account_balance_sun, estimate_signed_transaction_bandwidth,
}
use catfee_io.Gateway.Bindings.{get_binding}
use catfee_io.Gateway.Requests.{find_request, begin_request, update_requirements, set_request_state}
use catfee_io.Gateway.Claims.{try_acquire_address_claim, drop_claims_of}
use catfee_io.Gateway.Quota.{
  may_reserve, take_reservation, reserve_quota, settle_binding, holds_quota, move_quota,
  consume_quota, settle_outcome, write_outcome, finish_outcome, record_broadcast_outcome,
}
use catfee_io.Gateway.Audits.{
  upsert_audit, plan_out_of_range, assert_resource_audit_plan, upsert_resource_audit_plan,
  record_energy_package_attempt, observe_arrival, record_energy_arrival,
}
use catfee_io.Providers.Limits.{validate_energy_amount}
use catfee_io.Providers.Orders.{
  begin_order, used_orders, used_energy, provider_orders, provider_energy, attempt_refused,
  enter_ordering, reserve_attempt, attempt_transaction, start_attempt, transition_attempt,
  fits_attempts, finish_order,
}
use catfee_io.Providers.Settle.{
  accept_order, stored_acceptance, mark_accepted, finish_confirmation, mark_fulfilled,
  insert_by_priority, order_by_priority, list_enabled_providers,
}
use catfee_io.Service.{
  resolve_energy_amount, settle_rental, run_attempt, attempt_provider, try_provider, after_loop,
  finish_order_energy, try_providers, run_order, validate_order_input, order_energy,
}
use catfee_io.Service.Quote.{quote_of, quote_loop, quote_minimum_energy_amount}
use catfee_io.Resources.{
  positive_big_int, assert_external_energy_receiver, heavier, read_key, matching_weight,
  assert_keys, assert_permission, assert_fee_limit_sufficient,
  assert_owner_bandwidth_payment_allowed, assert_owner_energy_payment_allowed, safe_energy_number,
}
use catfee_io.Resources.Requirements.{
  deficit_of, make_requirement, energy_requirements, calculate_requirements,
}
use catfee_io.Resources.Survey.{
  survey, audit_plan, review_enough, strict_minimum, burn_beside, review_order,
}
use catfee_io.Resources.Rental.Package.{rent_missing}
use catfee_io.Resources.Prepare.{
  prepare_one, prepare_all, assert_energy_enough, recheck_energy, assert_energy_ready,
}
use catfee_io.Broadcast.Guards.{preparation_budget, validate_entry}
use catfee_io.Broadcast.Answers.{read_grpc_status}
use catfee_io.Broadcast.Sponsor.{
  on_session, sets, reads, outcome_of, sends, settle_forward, forward, recheck_lifetime, mark_ready,
}
use catfee_io.Base.Effects.{◌>>=◌, lift, attempt, return, ignore, when}
use catfee_io.Resources.{assert_single_owner_permission}
use catfee_io.Resources.World.{call}
use catfee_io.Resources.Rental.Package.{rent_external_energy}
use catfee_io.Resources.Prepare.{prepare}
use catfee_io.Broadcast.Guards.{validate_lifetime}
use catfee_io.Broadcast.Sponsor.Whole.{sponsor_and_forward}
use catfee_io.Link.{through}
use catfee_io.Examples.Orders.{delivered}
use catfee_io.Service.{rent_accepted}

sponsored_runs :
    ((sponsor_and_forward wire config transaction session).1.rentals ≡ rent_accepted delivered ∷ [])
    × ((sponsor_and_forward wire config transaction session).1.forwards ≡ 1)
unfolding ◌>>=◌ when return lift attempt ignore update insert exists select select_all sum
    read_big_int non_negative apply_safety_basis_points bandwidth_buckets available_resource
    payment_source planned_burn plan_owner_bandwidth_payment account_balance_sun
    estimate_signed_transaction_bandwidth find_request begin_request update_requirements
    set_request_state try_acquire_address_claim drop_claims_of may_reserve take_reservation
    reserve_quota settle_binding holds_quota move_quota settle_outcome write_outcome finish_outcome
    record_broadcast_outcome upsert_audit plan_out_of_range assert_resource_audit_plan
    upsert_resource_audit_plan record_energy_package_attempt observe_arrival record_energy_arrival
    validate_energy_amount begin_order used_orders used_energy provider_orders provider_energy
    attempt_refused enter_ordering reserve_attempt attempt_transaction start_attempt
    transition_attempt fits_attempts finish_order accept_order stored_acceptance mark_accepted
    finish_confirmation mark_fulfilled insert_by_priority order_by_priority list_enabled_providers
    resolve_energy_amount settle_rental run_attempt attempt_provider try_provider after_loop
    finish_order_energy try_providers run_order validate_order_input order_energy quote_of
    quote_loop quote_minimum_energy_amount positive_big_int assert_external_energy_receiver heavier
    read_key matching_weight assert_keys assert_permission assert_single_owner_permission
    assert_fee_limit_sufficient assert_owner_bandwidth_payment_allowed
    assert_owner_energy_payment_allowed safe_energy_number call deficit_of make_requirement
    energy_requirements calculate_requirements survey audit_plan review_enough strict_minimum
    burn_beside review_order rent_missing rent_external_energy prepare_one prepare_all
    assert_energy_enough recheck_energy assert_energy_ready prepare preparation_budget
    validate_entry validate_lifetime read_grpc_status on_session sets reads outcome_of sends
    settle_forward forward through recheck_lifetime mark_ready sponsor_and_forward get_binding
    consume_quota
sponsored_runs = (refl, refl)
