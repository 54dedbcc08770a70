-- ===== src/Gateway/Quota.antt =====
-- The transactions of `GatewayRepository` that move quota: reserveQuota, moveQuota and
-- recordBroadcastOutcome; and the two that end a request, markFinalized and expireRequest.
use catfee_io.Base.{
  ℕ, ◌+◌, ◌-◌, Bool, true, false, not, Option, none, some, List, ◌==◌, ltb, leb, ◌&&◌, ◌||◌,
  if◌then◌else◌, is_some,
}
use catfee_io.Table.{update, exists}
use catfee_io.Store.{
  Database, ReceiptAudit, StoreError, Binding, quota_reserved_state, upstream_accepted,
  upstream_rejected, solidified_success, solidified_failed, expired, Address, TxId, Text, Time,
  is_billable_order,
}
use catfee_io.Gateway.Bindings.{at_address, get_binding}
use catfee_io.Gateway.Requests.{of_tx, find_request, set_request_state, sliced}
use catfee_io.Gateway.Leases.{release_active_leases}
use catfee_io.Base.Results.{Result, ok, ◌>>=◌}
use catfee_io.Gateway.Audits.{record_receipt}
use catfee_io.Gateway.Claims.{drop_claims_of}

-- `row.expires_at && row.expires_at.getTime() <= Date.now()`
abbrev pub has_expired : Time → Option Time → Bool
has_expired now none = false
has_expired now (some at) = leb at now

-- The guards of reserveQuota on the row, in their order.
unfoldable pub may_reserve : Bool → Time → Binding → Bool
may_reserve require_finite now b =
    b.enabled
    && not (has_expired now b.expires_at)
    && not (require_finite && not (is_some b.max_transactions))
    && elim b.max_transactions [
      | none ↦ true
      | some max ↦ ltb (b.used_transactions + b.reserved_transactions) max
    ]

unfoldable pub take_reservation : Address → TxId → Time → Database → Database
take_reservation a t now db = record db {
  bindings =
      update (at_address a) (λ b. record b { reserved_transactions = b.reserved_transactions + 1 })
        db.bindings;
  requests =
      update (of_tx t)
        (λ r. record r { quota_reserved = true; state = quota_reserved_state; updated_at = now })
        db.requests;
}

unfoldable pub reserve_quota : Address → TxId → Bool → Time → Database → Bool × Database
reserve_quota a t require_finite now db = elim (get_binding a db) [
  | none ↦ (false, db)
  | some b ↦
      if may_reserve require_finite now b then (true, take_reservation a t now db) else (false, db)
]

-- UPDATE address_bindings SET reserved_transactions = GREATEST(0, reserved_transactions - 1),
-- used_transactions = used_transactions + (consume ? 1 : 0)
unfoldable pub settle_binding : Bool → Binding → Binding
settle_binding consume b = record b {
  reserved_transactions = b.reserved_transactions - 1;
  used_transactions = b.used_transactions + (if consume then 1 else 0);
}

-- `request.rows[0]?.quota_reserved`
unfoldable pub holds_quota : TxId → Database → Bool
holds_quota t db = elim (find_request t db) [ none ↦ false | some r ↦ r.quota_reserved ]

unfoldable pub move_quota : Address → TxId → Bool → Time → Database → Database
move_quota a t consume now db =
    if holds_quota t db
    then record db {
      bindings = update (at_address a) (settle_binding consume) db.bindings;
      requests =
          update (of_tx t) (λ r. record r { quota_reserved = false; updated_at = now }) db.requests;
    }
    else db

unfoldable pub consume_quota : Address → TxId → Time → Database → Database
consume_quota a t = move_quota a t true

unfoldable pub release_quota : Address → TxId → Time → Database → Database
release_quota a t = move_quota a t false

pub record Outcome : Type 0 where
  pub tx_id : TxId
  pub owner_address : Address
  pub is_accepted : Bool
  pub response : List ℕ
  pub grpc_status : Text
  pub reclaim_delay_ms : ℕ
  pub error_code : Option Text
  pub error_message : Option Text

unfoldable pub provider_billable : TxId → Database → Bool
provider_billable t db = exists (λ o. o.tx_id == t && is_billable_order o.state) db.orders

-- The first UPDATE of recordBroadcastOutcome, which runs only if the request holds quota.
unfoldable pub settle_outcome : Outcome → Database → Database
settle_outcome o db =
    if holds_quota o.tx_id db
    then record db {
      bindings =
          update (at_address o.owner_address)
            (settle_binding (o.is_accepted || provider_billable o.tx_id db)) db.bindings;
    }
    else db

-- The second UPDATE, which it always makes.
unfoldable pub write_outcome : Outcome → Time → Database → Database
write_outcome o now db = record db {
  requests =
      update (of_tx o.tx_id)
        (λ r. record r {
          state = if o.is_accepted then upstream_accepted else upstream_rejected;
          quota_reserved = false;
          upstream_response = some o.response;
          upstream_grpc_status = some o.grpc_status;
          error_code = if o.is_accepted then none else o.error_code;
          error_message = if o.is_accepted then none else sliced o.error_message;
          updated_at = now;
        })
        db.requests;
}

-- The statements that follow `if (!input.accepted)`.
unfoldable pub finish_outcome : Outcome → Time → Database → Database
finish_outcome o now db =
    if o.is_accepted
    then db
    else drop_claims_of o.tx_id (release_active_leases o.tx_id o.reclaim_delay_ms now db)

unfoldable pub record_broadcast_outcome : Outcome → Time → Database → Database
record_broadcast_outcome o now db = finish_outcome o now (write_outcome o now (settle_outcome o db))

-- The receipt comes summarised, by summarizeSolidifiedReceipt (Gateway.Receipts).
unfoldable pub mark_finalized :
    TxId → Bool → ℕ → ReceiptAudit → Text → Time → Database → Result StoreError Database
mark_finalized t success delay receipt result now db = do
  audited ←
      record_receipt t receipt result now
        (set_request_state t (if success then solidified_success else solidified_failed) now db)
  ok (drop_claims_of t (release_active_leases t delay now audited))

unfoldable pub expire_request : TxId → ℕ → Time → Database → Database
expire_request t delay now db =
    drop_claims_of t (release_active_leases t delay now (set_request_state t expired now db))
