-- ===== src/Gateway/Requests.antt =====
-- The methods of `GatewayRepository` on broadcast_requests that move no quota: beginRequest,
-- discardUnpreparedRequest, updateRequirements, setRequestState, completeRequest, failRequest, and
-- the two worker lists.
use catfee_io.Base.{
  [], ◌∷◌, ℕ, ◌+◌, Bool, true, false, not, Option, none, some, List, ◌==◌, ltb, ◌&&◌, ◌||◌,
  if◌then◌else◌, or_else, take,
}
use catfee_io.Base.Int.{ℤ}
use catfee_io.ResourceMath.{ResourceType, energy, bandwidth}
use catfee_io.Base.Results.{Result, ok, err}
use catfee_io.Table.{update, delete, insert, exists, select, select_all}
use catfee_io.Store.{
  Database, Request, RequestState, received, resource_estimated, Address, TxId, Text, Time, text,
  quota_reserved_state, resource_ready, upstream_accepted, failed, is_received, StoreError,
  foreign_key_violation,
}

-- `InspectedTransaction`, less the bytes and signatures that nothing reads after the inspection.
pub record Transaction : Type 0 where
  pub tx_id : TxId
  pub transaction_bytes : List ℕ
  pub owner_address : Address
  pub contract_type : ℤ
  pub contract_address : Option Address
  pub function_selector : Option Text
  pub trigger_data : Option Text
  pub call_value : Option ℤ
  pub call_token_value : Option ℤ
  pub token_id : Option ℤ
  pub fee_limit_sun : ℤ
  pub ref_block_bytes : List ℕ
  pub ref_block_hash : List ℕ
  pub memo_length : ℕ
  pub permission_id : ℤ
  pub expiration_ms : ℤ
  pub timestamp_ms : ℤ

-- `ResourceRequirement`
pub record Requirement : Type 0 where
  pub resource_type : ResourceType
  pub estimated : ℤ
  pub required : ℤ
  pub available : ℤ
  pub deficit : ℤ
  pub balance_sun : ℤ

pub data BeginResult : Type 0 where
  begun : BeginResult
  cached : List ℕ → Text → BeginResult
  in_progress : Option RequestState → BeginResult

abbrev pub of_tx : TxId → Request → Bool
of_tx t r = r.tx_id == t

unfoldable pub find_request : TxId → Database → Option Request
find_request t db = select (of_tx t) db.requests

abbrev pub new_request : Transaction → Time → Request
new_request t now = record {
  tx_id = t.tx_id;
  owner_address = t.owner_address;
  contract_type = t.contract_type;
  contract_address = t.contract_address;
  function_selector = t.function_selector;
  expiration_ms = t.expiration_ms;
  state = received;
  energy_required = none;
  energy_deficit = none;
  bandwidth_required = none;
  bandwidth_deficit = none;
  quota_reserved = false;
  upstream_response = none;
  upstream_grpc_status = none;
  error_code = none;
  error_message = none;
  updated_at = now;
}

-- What beginRequest answers for a row that was there before.
unfoldable pub begin_existing : Option Request → BeginResult
begin_existing none = in_progress none
begin_existing (some r) = elim r.upstream_response [
  | none ↦ in_progress (some r.state)
  | some response ↦ cached response (or_else r.upstream_grpc_status (text "0"))
]

unfoldable pub begin_request : Transaction → Time → Database → BeginResult × Database
unfolding begin_existing find_request
begin_request t now db =
    if exists (of_tx t.tx_id) db.requests
    then (begin_existing (find_request t.tx_id db), db)
    else (begun, record db { requests = insert (new_request t now) db.requests })

-- A row of transaction_resource_audits restricts the deletion.
unfoldable pub discard_unprepared_request : TxId → Database → Result StoreError Database
discard_unprepared_request t db =
    let unprepared = λ (r : Request).
      of_tx t r
      && is_received r.state
      && not r.quota_reserved
      && not (exists (λ c. c.tx_id == r.tx_id) db.claims)
      && not (exists (λ l. l.tx_id == r.tx_id) db.leases)
      && not (exists (λ o. o.tx_id == r.tx_id) db.orders) in
    if exists unprepared db.requests && exists (λ a. a.tx_id == t) db.audits
    then err foreign_key_violation
    else ok (record db { requests = delete unprepared db.requests })

abbrev pub is_type : ResourceType → Requirement → Bool
is_type energy q = elim q.resource_type [ energy ↦ true | bandwidth ↦ false ]
is_type bandwidth q = elim q.resource_type [ energy ↦ false | bandwidth ↦ true ]

abbrev pub required_of : Option Requirement → Option ℤ
required_of none = none
required_of (some q) = some q.required

abbrev pub deficit_of : Option Requirement → Option ℤ
deficit_of none = none
deficit_of (some q) = some q.deficit

unfoldable pub update_requirements : TxId → List Requirement → Time → Database → Database
update_requirements t requirements now db =
    let e = select (is_type energy) requirements in
    let b = select (is_type bandwidth) requirements in
    record db {
      requests =
          update (of_tx t)
            (λ r. record r {
              energy_required = required_of e;
              energy_deficit = deficit_of e;
              bandwidth_required = required_of b;
              bandwidth_deficit = deficit_of b;
              state = resource_estimated;
              updated_at = now;
            })
            db.requests;
    }

unfoldable pub set_request_state : TxId → RequestState → Time → Database → Database
set_request_state t state now db = record db {
  requests = update (of_tx t) (λ r. record r { state = state; updated_at = now }) db.requests;
}

-- `errorMessage?.slice(0, 1_000) ?? null`
abbrev pub sliced : Option Text → Option Text
sliced none = none
sliced (some m) = some (take 1_000 m)

unfoldable pub complete_request :
    TxId → RequestState → List ℕ → Text → Option Text → Option Text → Time → Database → Database
complete_request t state response status code message now db = record db {
  requests =
      update (of_tx t)
        (λ r. record r {
          state = state;
          upstream_response = some response;
          upstream_grpc_status = some status;
          error_code = code;
          error_message = sliced message;
          updated_at = now;
        })
        db.requests;
}

unfoldable pub fail_request : TxId → Text → Text → Time → Database → Database
fail_request t code message now db = record db {
  requests =
      update (of_tx t)
        (λ r. record r {
          state = failed;
          error_code = some code;
          error_message = some (take 1_000 message);
          updated_at = now;
        })
        db.requests;
}

-- The WHERE clause of listStaleRequests.
abbrev pub is_preparing : RequestState → Bool
is_preparing received = true
is_preparing quota_reserved_state = true
is_preparing resource_estimated = true
is_preparing resource_ready = true
is_preparing _ = false

abbrev pub is_failed : RequestState → Bool
is_failed failed = true
is_failed _ = false

unfoldable pub is_stale : Time → Request → Bool
is_stale now r =
    (is_preparing r.state || is_failed r.state && r.quota_reserved)
    && ltb (r.updated_at + 120_000) now

-- The oldest rows that pass, by `updated_at`.
unfoldable pub insert_by_update : Request → List Request → List Request
insert_by_update r [] = r ∷ []
insert_by_update r (s ∷ rest) =
    let later = s ∷ insert_by_update r rest in
    if ltb r.updated_at s.updated_at then r ∷ s ∷ rest else later

unfoldable pub order_by_update : List Request → List Request
unfolding insert_by_update
order_by_update [] = []
order_by_update (r ∷ rest) = insert_by_update r (order_by_update rest)

unfoldable pub list_stale_requests : Time → ℕ → Database → List Request
unfolding is_stale order_by_update
list_stale_requests now limit db =
    take limit (order_by_update (select_all (is_stale now) db.requests))

abbrev pub awaits_finality : Request → Bool
awaits_finality r = elim r.state [ upstream_accepted ↦ true | _ ↦ false ]

unfoldable pub list_requests_awaiting_finality : ℕ → Database → List Request
unfolding order_by_update
list_requests_awaiting_finality limit db =
    take limit (order_by_update (select_all awaits_finality db.requests))
