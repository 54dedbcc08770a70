-- ===== src/Resources/Rental.antt =====
-- `rentExternalEnergy` of src/resource-service.ts: the order, and the wait for its energy.
pub mod Package
pub mod Delivery
pub mod Following
pub mod Reviewed
pub mod Affordable
pub mod Charges
use catfee_io.Base.{
  ℕ, suc, zero, ◌+◌, Bool, true, false, not, Option, none, some, ◌∷◌, ◌++◌, ltb, ◌&&◌,
  if◌then◌else◌, is_some,
}
use catfee_io.Base.Int.{ℤ, pos, ◌+ℤ◌, ◌*ℤ◌, ltb_ℤ, leb_ℤ}
use catfee_io.Base.Results.{Result, ok, err}
use catfee_io.Base.Effects.{Effect, return, throw, attempt, ignore, when, ◌>>=◌, ◌>>◌}
use catfee_io.ResourceMath.{energy, available_resource}
use catfee_io.Store.{
  Database, Order, OrderState, accepted, fulfilled, Time, StoreError, is_billable_order,
}
use catfee_io.Failures.{
  Failure, gateway, paid, other, out_of_fuel, energy_provider_outcome_unknown,
  energy_provider_rejected, energy_provider_duplicate, energy_provider_confirm_timeout,
  energy_provider_confirmation_unavailable, quota_reconciliation_required,
}
use catfee_io.Gateway.Requests.{Transaction, Requirement}
use catfee_io.Gateway.Quota.{consume_quota}
use catfee_io.Gateway.Audits.{
  upsert_resource_audit_plan, record_energy_package_attempt, record_energy_arrival,
}
use catfee_io.Providers.Settle.{mark_fulfilled, mark_confirmation_timeout}
use catfee_io.Service.{OrderResult, order_accepted, order_declined, order_unknown, order_duplicate}
use catfee_io.Resources.{Options}
use catfee_io.Resources.World.{
  Node, Session, charged_consumed, attempt_recorded, arrival_recorded, fulfilled_marked,
  timeout_marked, Site, computes, call, writes, tries_to,
}
use catfee_io.Resources.Survey.{Survey, audit_plan}

unfoldable pub write_plan :
    Node
    → Options
    → Transaction
    → Requirement
    → Survey
    → Site
    → Option ℤ
    → ℤ
    → Effect Session Failure (Unit {0})
unfolding audit_plan
write_plan n o t q v site quoted burn =
    tries_to n site
      (upsert_resource_audit_plan t.tx_id (audit_plan o t q v quoted burn) (n.now site))

unfoldable pub consume_potentially_charged_quota :
    Node → Transaction → Effect Session Failure (Unit {0})
consume_potentially_charged_quota n t =
    attempt
      (writes n charged_consumed (consume_quota t.owner_address t.tx_id (n.now charged_consumed)))
      (λ _. throw (paid quota_reconciliation_required))

abbrev pub order_of : OrderResult → Order
order_of (order_accepted o) = o
order_of (order_declined o) = o
order_of (order_unknown o) = o
order_of (order_duplicate o) = o

-- `potentiallyCharged`
abbrev pub may_be_charged : OrderResult → Bool
may_be_charged (order_accepted o) = true
may_be_charged (order_unknown o) = true
may_be_charged (order_declined o) = false
may_be_charged (order_duplicate o) = is_billable_order o.state

abbrev pub has_arrived : OrderState → Bool
has_arrived accepted = true
has_arrived fulfilled = true
has_arrived _ = false

-- `ordered`
abbrev pub is_ordered : OrderResult → Bool
is_ordered (order_accepted o) = true
is_ordered (order_duplicate o) = has_arrived o.state
is_ordered _ = false

-- What is thrown where the order was not placed.
abbrev pub not_ordered : OrderResult → Failure
not_ordered (order_unknown o) = paid energy_provider_outcome_unknown
not_ordered (order_duplicate o) =
    if is_billable_order o.state
    then paid (energy_provider_duplicate o.state)
    else gateway (energy_provider_duplicate o.state)
not_ordered _ = gateway energy_provider_rejected

unfoldable pub record_attempt : Node → Transaction → Order → Effect Session Failure (Unit {0})
record_attempt n t o =
    when (is_some o.provider_id)
      (ignore (tries_to n attempt_recorded (record_energy_package_attempt t.tx_id (pos o.amount))))

-- The reading of one poll.
unfoldable pub poll : Node → ℕ → Result Failure ℤ
poll n turn = elim (n.poll_resource turn) [
  | err m ↦ err (other m)
  | ok r ↦ computes (available_resource r energy)
]

-- `highestRecordedAvailable === null || availableAfter > highestRecordedAvailable`
abbrev pub is_higher : ℤ → Option ℤ → Bool
is_higher available none = true
is_higher available (some highest) = ltb_ℤ highest available

unfoldable pub record_arrival :
    Node → Transaction → ℕ → ℤ → Option ℤ → Effect Session Failure (Unit {0})
record_arrival n t turn available highest = when (is_higher available highest) (
    ignore (
      tries_to n (arrival_recorded turn)
        (record_energy_arrival t.tx_id available (n.now (arrival_recorded turn)))))

abbrev pub highest_of : ℤ → Option ℤ → Option ℤ
highest_of available highest = if is_higher available highest then some available else highest

abbrev pub with_answer :
    Result StoreError (Order × Database) → Result StoreError (Unit {0} × Database)
with_answer (ok (o, db)) = ok (tt, db)
with_answer (err e) = err e

unfoldable pub mark_delivered : Node → Transaction → Effect Session Failure (Unit {0})
mark_delivered n t =
    ignore (
      call n fulfilled_marked
        λ db. with_answer (mark_fulfilled t.tx_id (n.now fulfilled_marked) db))

-- What follows the loop.
unfoldable pub give_up : Node → Transaction → Bool → Effect Session Failure Bool
give_up n t has_failed = do
  ignore (
      call n timeout_marked
        λ db. with_answer (mark_confirmation_timeout t.tx_id (n.now timeout_marked) db))
  throw (
      paid (
        if has_failed
        then energy_provider_confirmation_unavailable
        else energy_provider_confirm_timeout))

-- One turn, by the reading of its poll. `go_on` is the rest of the loop.
unfoldable pub take_turn :
    Node
    → Transaction
    → ℤ
    → ℕ
    → Option ℤ
    → (Option ℤ → Bool → Effect Session Failure Bool)
    → Result Failure ℤ
    → Effect Session Failure Bool
unfolding record_arrival mark_delivered
take_turn n t target turn highest go_on (err e) = go_on highest true
take_turn n t target turn highest go_on (ok available) = do
  record_arrival n t turn available highest
  if leb_ℤ target available
      then (mark_delivered n t >> return true)
      else go_on (highest_of available highest) false

-- The loop, from its turn of this number on.
unfoldable pub wait_for_energy :
    ℕ → Node → Transaction → ℤ → Time → ℕ → Option ℤ → Bool → Effect Session Failure Bool
unfolding take_turn give_up poll
wait_for_energy zero n t target deadline turn highest has_failed = throw out_of_fuel
wait_for_energy (suc fuel) n t target deadline turn highest has_failed =
    let go_on = wait_for_energy fuel n t target deadline (suc turn) in
    if ltb (n.poll_time turn) deadline
    then take_turn n t target turn highest go_on (poll n turn)
    else give_up n t has_failed

-- `confirmationTarget`
unfoldable pub confirmation_target : Options → Requirement → Survey → Order → ℤ
confirmation_target o q v order =
    let delivered = v.available +ℤ pos order.amount in
    if not o.allow_owner_energy_burn
    then q.required
    else if ltb_ℤ q.required delivered
    then q.required
    else delivered

-- The calls of the loop are as many as the milliseconds of the timeout, and one more, at most.
unfoldable pub await_delivery :
    Node → Options → Transaction → Requirement → Survey → Order → Effect Session Failure Bool
unfolding wait_for_energy confirmation_target
await_delivery n o t q v order =
    wait_for_energy (suc o.provider_confirm_timeout_ms) n t (confirmation_target o q v order)
      (n.confirm_from + o.provider_confirm_timeout_ms) 0 none false
