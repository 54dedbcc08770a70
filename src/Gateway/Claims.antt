-- ===== src/Gateway/Claims.antt =====
-- The methods of `GatewayRepository` on sponsor_address_claims: tryAcquireAddressClaim,
-- releaseAddressClaim, releaseTerminalAddressClaims, and the DELETE that ends a broadcast.
use catfee_io.Base.{ℕ, Bool, true, false, not, ◌==◌, ◌&&◌, if◌then◌else◌}
use catfee_io.Base.Results.{Result, ok, err}
use catfee_io.Table.{delete, insert, exists, count}
use catfee_io.Store.{
  Database, Claim, Address, TxId, StoreError, unique_violation, foreign_key_violation,
  is_open_order, is_unfinished_lease, is_terminal,
}

-- EXISTS an order of the transaction in an open state.
unfoldable pub has_open_order : TxId → Database → Bool
has_open_order t db = exists (λ o. o.tx_id == t && is_open_order o.state) db.orders

-- EXISTS a lease of the transaction that is neither released nor failed.
unfoldable pub has_unfinished_lease : TxId → Database → Bool
has_unfinished_lease t db = exists (λ l. l.tx_id == t && is_unfinished_lease l.state) db.leases

-- The two NOT EXISTS that every DELETE of a claim carries.
unfoldable pub may_drop : Database → Claim → Bool
unfolding has_open_order has_unfinished_lease
may_drop db c = not (has_open_order c.tx_id db) && not (has_unfinished_lease c.tx_id db)

-- The INSERT does nothing where the SELECT gives no row or the owner has a claim. A second claim of
-- the same transaction breaks UNIQUE, one of no request the foreign key.
unfoldable pub try_acquire_address_claim :
    Address → TxId → Database → Result StoreError (Bool × Database)
try_acquire_address_claim owner t db =
    if exists (λ o. o.receive_address == owner && is_open_order o.state) db.orders
    then ok (false, db)
    else if exists (λ c. c.owner_address == owner) db.claims
    then ok (false, db)
    else if exists (λ c. c.tx_id == t) db.claims
    then err unique_violation
    else if exists (λ r. r.tx_id == t) db.requests
    then ok (
      true,
      record db { claims = insert (record { owner_address = owner; tx_id = t }) db.claims },
    )
    else err foreign_key_violation

unfoldable pub release_address_claim : Address → TxId → Database → Database
unfolding may_drop
release_address_claim owner t db = record db {
  claims = delete (λ c. c.owner_address == owner && c.tx_id == t && may_drop db c) db.claims;
}

-- DELETE … WHERE c.tx_id = $1 AND NOT EXISTS … AND NOT EXISTS …
unfoldable pub drop_claims_of : TxId → Database → Database
unfolding may_drop
drop_claims_of t db = record db { claims = delete (λ c. c.tx_id == t && may_drop db c) db.claims }

unfoldable pub release_terminal_address_claims : Database → ℕ × Database
unfolding may_drop
release_terminal_address_claims db =
    let stale = λ (c : Claim).
      exists (λ r. r.tx_id == c.tx_id && is_terminal r.state) db.requests && may_drop db c in
    (count stale db.claims, record db { claims = delete stale db.claims })
