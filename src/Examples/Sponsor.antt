-- ===== src/Examples/Sponsor.antt =====
-- One sponsored transaction of src/broadcast-processor.ts, whose energy is rented by
-- src/resource-service.ts from the one provider of Examples.Service.
use catfee_io.Base.{◌+◌, ◌≡◌, ◌⊎◌, ◌↔◌, refl, arith, true, false, none, some, [], ◌∷◌}
use catfee_io.Base.Int.{pos}
use catfee_io.Base.Results.{ok, err}
use catfee_io.Base.Triples.{Post}
use catfee_io.ResourceMath.{
  AccountResource, Key, undefined, integer, energy, free_source, available_resource, read_big_int,
  bandwidth_buckets,
}
use catfee_io.Base.Effects.{◌>>=◌, lift, attempt, return, ignore, when}
use catfee_io.Gateway.Leases.{mark_lease_undelegate_broadcast, mark_lease_released}
use catfee_io.Resources.Leasing.{assert_successful_receipt}
use catfee_io.Resources.Release.{
  release_lease, look_for_delegation, follow_seen, take_back, try_to_send, send_undelegation,
  confirm_release,
}
use catfee_io.Resources.Release.Announced.{IsCareful, release_lease-IsCareful}
use catfee_io.Resources.{is_successful_receipt}
use catfee_io.Store.{Lease, release_pending}
use catfee_io.Store.{Order, text}
use catfee_io.Gateway.Requests.{Requirement}
use catfee_io.Resources.{
  Options, provider, Account, other_type, permission, Permission, named, valid_address, key,
  assert_single_owner_permission,
}
use catfee_io.Resources.Keys.{IsAuthorized, assert_single_owner_permission-IsAuthorized}
use catfee_io.Resources.World.{Node, Session, answered, call}
use catfee_io.Resources.Survey.{Survey}
use catfee_io.Resources.Rental.Package.{rent_external_energy}
use catfee_io.Resources.Rental.{await_delivery, confirmation_target}
use catfee_io.Resources.Rental.Delivery.{Ticks, IsDelivered, IsTimeout, await_delivery-terminates}
use catfee_io.Resources.Rental.Affordable.{IsAffordable, rent_external_energy-IsAffordable}
use catfee_io.Resources.Prepare.{prepare}
use catfee_io.Resources.Prepare.Readiness.{IsReadable, IsReady, prepare-IsReady}
use catfee_io.Broadcast.{Wire, Config, Response, sponsor, bound_address, reject_policy}
use catfee_io.Broadcast.Guards.{validate_lifetime, entry}
use catfee_io.Broadcast.Sponsor.Whole.{sponsor_run, sponsor_and_forward, start}
use catfee_io.Broadcast.Charged.{IsSettled}
use catfee_io.Broadcast.Retained.{IsPaidMode, sponsor_run-IsSettled}
use catfee_io.Broadcast.Books.{Leads}
use catfee_io.Broadcast.Refines.{sponsor_and_forward-Leads}
use catfee_io.Broadcast.Lifetime.{IsTimely, validate_lifetime-IsTimely}
use catfee_io.Providers.Orders.{new_order}
use catfee_io.Examples.Accounts.{bound, transaction}
use catfee_io.Examples.Orders.{kuaizu}
use catfee_io.Examples.Service.{world}

abbrev options : Options
options = record {
  resource_owner_address = 1;
  sponsor_energy = true;
  sponsor_bandwidth = false;
  energy_source = provider;
  estimate_safety_bps = 10_000;
  allow_owner_bandwidth_burn = true;
  max_owner_bandwidth_burn_sun = pos 1_000_000;
  allow_owner_energy_burn = false;
  max_owner_energy_burn_sun = pos 0;
  energy_package_threshold = 65_000;
  min_delegate_sun = pos 1_000_000;
  delegation_confirm_timeout_ms = 10_000;
  delegation_poll_ms = 1_000;
  provider_confirm_timeout_ms = 3_000;
  provider_order_timeout_ms = 2_000;
  provider_poll_ms = 500;
  min_transaction_ttl_ms = 1_000;
}

-- Before the order the account has nothing but its free bandwidth, and after it 65000 energy.
abbrev poor : AccountResource
poor Key.free_net_limit = integer (pos 600)
poor _ = undefined

abbrev supplied : AccountResource
supplied Key.energy_limit = integer (pos 65_000)
supplied Key.free_net_limit = integer (pos 600)
supplied _ = undefined

abbrev amounts : AccountResource
amounts Key.balance = integer (pos 50_000_000)
amounts _ = undefined

abbrev owner_permission : Permission
owner_permission = record {
  id = none;
  permission_type = some (named (text "Owner"));
  threshold = integer (pos 1);
  keys = some (key (valid_address 7) (integer (pos 1)) ∷ []);
}

abbrev account : Account
account = record {
  address = some 7;
  account_type = other_type;
  owner_permission = some (permission owner_permission);
  owner_permission_camel = none;
  amounts = amounts;
}

abbrev pub node : Node
node = record {
  link = λ _. answered;
  now = λ _. 500;
  store_message = λ _. [];
  owner_resource = ok poor;
  energy_estimate = ok (pos 60_000);
  account = ok account;
  latest_resource = ok poor;
  prices = ok (record {
    energy_fee_sun = pos 100;
    bandwidth_fee_sun = pos 1_000;
    max_fee_limit_sun = pos 15_000_000_000;
  });
  matches_tapos = ok true;
  order_time = 500;
  still_matches_tapos = ok true;
  has_transaction = ok false;
  has_providers = true;
  market = world;
  confirm_from = 500;
  poll_time = λ k. 500 + k;
  poll_resource = λ _. ok supplied;
  recheck = ok supplied;
  delegable = λ _. ok (pos 0);
  delegation = λ _. err [];
  delegation_sent = λ _. err [];
  delegation_receipt = λ _. err [];
  delegation_message = λ _. [];
  release_time = 900;
  delegation_seen = ok (some (record { result = none; body_result = none }));
  undelegation = ok 52;
  undelegation_sent = ok tt;
  undelegation_receipt = ok (record { result = none; body_result = none });
}

-- The upstream takes the transaction. The codec is one of its kind: it reads an empty body.
abbrev sent : Response
sent = record { header_status = none; body = []; trailer_status = none }

abbrev pub wire : Wire
wire = record {
  encode_return_frame = λ _ _ _. [];
  decode_return_frame = λ _. some (record { result = true; code = 0; message = [] });
  decimal = λ _. text "0";
  state_text = λ _. [];
  inspect = λ _. ok transaction;
  upstream = ok sent;
  fallback_upstream = ok sent;
  entry_time = 500;
  broadcast_time = 900;
  node = node;
}

abbrev pub config : Config
config = record {
  mode = sponsor;
  auth_mode = bound_address;
  auth_enforce_in_observe = false;
  allowed_contracts = 9 ∷ [];
  allowed_selectors = [];
  unsupported_policy = reject_policy;
  insufficient_policy = reject_policy;
  max_transaction_ttl_ms = 60_000;
  max_transaction_age_ms = 60_000;
  max_transaction_future_skew_ms = 5_000;
  reclaim_delay_ms = 5_000;
  options = options;
}

abbrev pub session : Session
session = record {
  database = record bound { providers = kuaizu ∷ [] };
  rentals = [];
  delegations = [];
  undelegations = [];
  forwards = 0;
}

pub supplied-IsReadable : IsReadable node
unfolding available_resource read_big_int bandwidth_buckets
supplied-IsReadable r e = let same : supplied ≡ r = ground arith in (pos 65_000, rw (← same) refl)

pub node-Ticks : Ticks node
node-Ticks = (omega arith, λ k. omega arith)

paid_mode : IsPaidMode wire config
paid_mode = record {
  rents = refl;
  no_bandwidth = refl;
  bound = refl;
  ticks = node-Ticks;
  readable = supplied-IsReadable;
}

sponsor_run-IsSettled_example :
    IsSettled transaction (sponsor_run wire config transaction (start session)).1
sponsor_run-IsSettled_example =
    sponsor_run-IsSettled wire config transaction session paid_mode tt refl

sponsor_and_forward-Leads_example :
    Leads session.database (sponsor_and_forward wire config transaction session).1.database
sponsor_and_forward-Leads_example = sponsor_and_forward-Leads wire config transaction session tt

abbrev requirement : Requirement
requirement = record {
  resource_type = energy;
  estimated = pos 60_000;
  required = pos 60_000;
  available = pos 0;
  deficit = pos 60_000;
  balance_sun = pos 0;
}

rent_external_energy-IsAffordable_example :
    ((rent_external_energy node options transaction requirement session).1.rentals ≡ [])
    ⊎ IsAffordable node options transaction requirement []
        (rent_external_energy node options transaction requirement session).1.rentals
rent_external_energy-IsAffordable_example =
    rent_external_energy-IsAffordable node options transaction requirement session

prepare-IsReady_example :
    Post
      (λ _ _. IsReady node (requirement ∷ []))
      (λ _ _. Unit {0})
      (prepare node options transaction (requirement ∷ []) session)
prepare-IsReady_example = prepare-IsReady node options transaction (requirement ∷ []) session refl

assert_single_owner_permission-IsAuthorized_example :
    (assert_single_owner_permission account 7 ≡ ok tt) ↔ IsAuthorized account 7
assert_single_owner_permission-IsAuthorized_example =
    assert_single_owner_permission-IsAuthorized account 7

validate_lifetime-IsTimely_example :
    (validate_lifetime config transaction entry 500 ≡ ok tt) ↔ IsTimely config transaction 500
validate_lifetime-IsTimely_example = validate_lifetime-IsTimely config transaction 500

abbrev review : Survey
review = record {
  owner_balance = pos 50_000_000;
  plan = record {
    required_bytes = pos 344;
    staked_available = pos 0;
    free_available = pos 600;
    source = free_source;
    unit_price_sun = pos 1_000;
    burn_sun = pos 344_000;
  };
  prices = record {
    energy_fee_sun = pos 100;
    bandwidth_fee_sun = pos 1_000;
    max_fee_limit_sun = pos 15_000_000_000;
  };
  available = pos 0;
  minimum_fee_limit = pos 6_000_000;
}

abbrev order : Order
order = new_order 1 40 7 65_000

await_delivery-terminates_example :
    Post
      (λ b _.
        (b ≡ true)
        × IsDelivered node (confirmation_target options requirement review order) (500 + 3_000))
      (λ e _. IsTimeout e)
      (await_delivery node options transaction requirement review order session)
await_delivery-terminates_example =
    await_delivery-terminates node options transaction requirement review order session node-Ticks

abbrev leased : Lease
leased = record {
  id = 1;
  tx_id = 40;
  resource_type = energy;
  resource_owner_address = 1;
  receiver_address = 7;
  balance_sun = 1_000_000;
  delegate_tx_id = some 51;
  undelegate_tx_id = none;
  state = release_pending;
  release_after = some 400;
  error_message = none;
  created_at = 100;
  updated_at = 300;
}

abbrev leasing : Session
leasing = record session { database = record bound { leases = leased ∷ [] } }

release_lease-IsCareful_example : IsCareful node leased [] (release_lease node leased leasing).1
release_lease-IsCareful_example = release_lease-IsCareful node leased leasing

releases_runs : (release_lease node leased leasing).1.undelegations ≡ 52 ∷ []
unfolding release_lease look_for_delegation follow_seen take_back try_to_send send_undelegation
    confirm_release is_successful_receipt ◌>>=◌ lift attempt return ignore when call
    mark_lease_undelegate_broadcast mark_lease_released assert_successful_receipt
releases_runs = refl
