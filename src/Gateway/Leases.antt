-- ===== src/Gateway/Leases.antt =====
-- The methods of `GatewayRepository` on resource_leases.
use catfee_io.Base.{
  ℕ, suc, ◌+◌, Bool, true, false, Option, none, some, ◌==◌, leb, ◌&&◌, if◌then◌else◌, take, List,
  [], ◌∷◌, ltb, or_else,
}
use catfee_io.Base.Int.{ℤ, pos, pos_part, leb_ℤ}
use catfee_io.Base.Results.{Result, ok, err}
use catfee_io.ResourceMath.{ResourceType, energy, bandwidth}
use catfee_io.Table.{update, insert, exists, select_all}
use catfee_io.Store.{
  Database, Lease, LeaseState, created, delegating, active, release_pending, releasing,
  release_broadcast, released, lease_failed, failed_no_delegation, Address, TxId, Text, Time,
  StoreError, unique_violation, foreign_key_violation, check_violation, RequestState, is_active,
}
use catfee_io.Gateway.Requests.{set_request_state}

pub record LeaseInput : Type 0 where
  pub tx_id : TxId
  pub resource_type : ResourceType
  pub resource_owner_address : Address
  pub receiver_address : Address
  pub balance_sun : ℤ

abbrev pub same_type : ResourceType → ResourceType → Bool
same_type energy energy = true
same_type bandwidth bandwidth = true
same_type _ _ = false

abbrev pub new_lease : LeaseInput → ℕ → Time → Lease
new_lease input id now = record {
  id = id;
  tx_id = input.tx_id;
  resource_type = input.resource_type;
  resource_owner_address = input.resource_owner_address;
  receiver_address = input.receiver_address;
  balance_sun = pos_part input.balance_sun;
  delegate_tx_id = none;
  undelegate_tx_id = none;
  state = created;
  release_after = none;
  error_message = none;
  created_at = now;
  updated_at = now;
}

-- The table's CHECK, UNIQUE and foreign key decide whether the row goes in.
unfoldable pub create_lease : LeaseInput → Time → Database → Result StoreError (Lease × Database)
create_lease input now db =
    let l = new_lease input db.next_lease_id now in
    if leb_ℤ input.balance_sun (pos 0)
    then err check_violation
    else if exists (λ l. l.tx_id == input.tx_id && same_type l.resource_type input.resource_type)
        db.leases
    then err unique_violation
    else if exists (λ r. r.tx_id == input.tx_id) db.requests
    then ok (l, record db { leases = insert l db.leases; next_lease_id = suc db.next_lease_id })
    else err foreign_key_violation

-- UPDATE resource_leases SET … WHERE id = $1
unfoldable pub update_lease : ℕ → (Lease → Lease) → Database → Database
update_lease id f db = record db { leases = update (λ l. l.id == id) f db.leases }

unfoldable pub mark_lease_delegated : ℕ → TxId → Time → Database → Database
unfolding update_lease
mark_lease_delegated id t now =
    update_lease id λ l. record l { delegate_tx_id = some t; state = active; updated_at = now }

unfoldable pub mark_lease_delegate_broadcast : ℕ → TxId → Time → Database → Database
unfolding update_lease
mark_lease_delegate_broadcast id t now =
    update_lease id λ l. record l { delegate_tx_id = some t; state = delegating; updated_at = now }

unfoldable pub mark_lease_undelegate_broadcast : ℕ → TxId → Time → Database → Database
unfolding update_lease
mark_lease_undelegate_broadcast id t now =
    update_lease id
      λ l. record l { undelegate_tx_id = some t; state = release_broadcast; updated_at = now }

unfoldable pub fail_lease : ℕ → Text → Time → Database → Database
unfolding update_lease
fail_lease id message now = update_lease id λ l. record l {
  state = lease_failed;
  error_message = some (take 1_000 message);
  updated_at = now;
}

unfoldable pub mark_lease_released : ℕ → TxId → Time → Database → Database
unfolding update_lease
mark_lease_released id t now =
    update_lease id λ l. record l { state = released; undelegate_tx_id = some t; updated_at = now }

unfoldable pub mark_lease_without_delegation : ℕ → Text → Time → Database → Database
unfolding update_lease
mark_lease_without_delegation id message now = update_lease id λ l. record l {
  state = failed_no_delegation;
  error_message = some (take 1_000 message);
  updated_at = now;
}

unfoldable pub retry_lease_release : ℕ → Text → Time → Database → Database
unfolding update_lease
retry_lease_release id message now = update_lease id λ l. record l {
  state = release_pending;
  release_after = some (now + 30_000);
  error_message = some (take 1_000 message);
  updated_at = now;
}

abbrev pub is_release_pending : LeaseState → Bool
is_release_pending release_pending = true
is_release_pending _ = false

abbrev pub is_release_broadcast : LeaseState → Bool
is_release_broadcast release_broadcast = true
is_release_broadcast _ = false

unfoldable pub claim_lease_for_release : ℕ → Time → Database → Bool × Database
claim_lease_for_release id now db =
    let claimed = λ (l : Lease). l.id == id && is_release_pending l.state in
    (
      exists claimed db.leases,
      record db {
        leases = update claimed (λ l. record l { state = releasing; updated_at = now }) db.leases;
      },
    )

-- UPDATE resource_leases SET state = 'RELEASE_PENDING', release_after = NOW() + delay
-- WHERE tx_id = $1 AND state = 'ACTIVE'
unfoldable pub release_active_leases : TxId → ℕ → Time → Database → Database
release_active_leases t delay now db = record db {
  leases =
      update (λ l. l.tx_id == t && is_active l.state)
        (λ l. record l {
          state = release_pending;
          release_after = some (now + delay);
          updated_at = now;
        })
        db.leases;
}

unfoldable pub schedule_leases_for_release :
    TxId → ℕ → Option RequestState → Time → Database → Database
unfolding release_active_leases
schedule_leases_for_release t delay none now db = release_active_leases t delay now db
schedule_leases_for_release t delay (some state) now db =
    release_active_leases t delay now (set_request_state t state now db)

-- release_after <= NOW(); no row passes on a null.
abbrev pub is_due : Time → Option Time → Bool
is_due now none = false
is_due now (some at) = leb at now

unfoldable pub ready_to_release : Time → Lease → Bool
ready_to_release now l = is_release_pending l.state && is_due now l.release_after

-- The rows in the order of a column.
unfoldable pub insert_lease : (Lease → Time) → Lease → List Lease → List Lease
insert_lease at l [] = l ∷ []
insert_lease at l (m ∷ rest) =
    let later = m ∷ insert_lease at l rest in if ltb (at l) (at m) then l ∷ m ∷ rest else later

unfoldable pub order_leases : (Lease → Time) → List Lease → List Lease
unfolding insert_lease
order_leases at [] = []
order_leases at (l ∷ rest) = insert_lease at l (order_leases at rest)

unfoldable pub list_leases_ready_to_release : Time → ℕ → Database → List Lease
unfolding ready_to_release order_leases
list_leases_ready_to_release now limit db =
    take limit
      (order_leases (λ l. or_else l.release_after 0) (select_all (ready_to_release now) db.leases))

unfoldable pub list_release_broadcasts : ℕ → Database → List Lease
unfolding order_leases
list_release_broadcasts limit db =
    take limit
      (order_leases (λ l. l.updated_at) (select_all (λ l. is_release_broadcast l.state) db.leases))
