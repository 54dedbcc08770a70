-- ===== src/Examples/Claims.antt =====
-- A claim that is taken, and that a rejected broadcast leaves while a lease is not finished, on
-- src/repository.ts.
use catfee_io.Base.{◌≡◌, refl, arith, true, [], ◌∷◌}
use catfee_io.Base.Int.{pos}
use catfee_io.ResourceMath.{energy}
use catfee_io.Table.{insert, exists, sum}
use catfee_io.Store.{Database, active}
use catfee_io.Gateway.Claims.{try_acquire_address_claim, has_open_order, has_unfinished_lease}
use catfee_io.Gateway.Leases.{LeaseInput, new_lease}
use catfee_io.Gateway.Quota.{expire_request}
use catfee_io.Gateway.Exclusion.{
  IsExclusive, Reach, here, next, acquires, expires, Reach-IsExclusive,
}
use catfee_io.Gateway.Exclusion.Open.{holds, is_open, Step-holds}
use catfee_io.Examples.Accounts.{begun_db}

abbrev claimed : Database
claimed = record begun_db { claims = record { owner_address = 7; tx_id = 40 } ∷ [] }

begun_db-IsExclusive : IsExclusive begun_db
unfolding sum
begun_db-IsExclusive = record { one_holder = λ a. omega arith; one_address = λ t. omega arith }

abbrev claim_life : Reach begun_db claimed
unfolding try_acquire_address_claim insert exists
claim_life = next here (acquires 7 40 true refl)

Reach-IsExclusive_example : IsExclusive claimed
Reach-IsExclusive_example = Reach-IsExclusive begun_db-IsExclusive claim_life

abbrev lease_input : LeaseInput
lease_input = record {
  tx_id = 40;
  resource_type = energy;
  resource_owner_address = 2;
  receiver_address = 7;
  balance_sun = pos 1_000_000;
}

abbrev leased : Database
leased = record claimed {
  leases = record (new_lease lease_input 1 300) { state = active } ∷ [];
  next_lease_id = 2;
}

Step-holds_example : holds 7 40 (expire_request 40 5000 400 leased) ≡ true
unfolding is_open holds has_open_order has_unfinished_lease exists
Step-holds_example = Step-holds {db = leased} 7 40 (expires 40 5000 400 refl) refl refl
