-- ===== src/Providers/Orders.antt =====
-- The life of an order and of its budget reservation. The advisory lock makes each transaction one
-- step; `day` is the UTC day of its clock and `now` its time.
use catfee_io.Base.{
  ℕ, suc, ◌+◌, Bool, true, false, not, Option, none, some, List, [], ◌∷◌, ◌++◌, ◌==◌, ltb, leb,
  length, ◌&&◌, ◌||◌, if◌then◌else◌,
}
use catfee_io.Base.Results.{Result, ok, err, ◌>>◌, throw_if}
use catfee_io.Table.{update, insert, exists, select, sum, count}
use catfee_io.Store.{
  Database, Order, OrderState, OrderEvent, LedgerEntry, LedgerState, Provider, pending, ordering,
  accepted, order_rejected, reserved, charged, TxId, Address, Text, Time, StoreError, range_error,
  missing_row, transition_rejected, foreign_key_violation, check_violation,
}
use catfee_io.Providers.Limits.{BudgetLimits, validate_energy_amount}

abbrev pub is_pending : OrderState → Bool
is_pending pending = true
is_pending _ = false

abbrev pub is_ordering : OrderState → Bool
is_ordering ordering = true
is_ordering _ = false

abbrev pub is_accepted_order : OrderState → Bool
is_accepted_order accepted = true
is_accepted_order _ = false

-- state IN ('PENDING', 'REJECTED')
abbrev pub may_attempt : OrderState → Bool
may_attempt pending = true
may_attempt order_rejected = true
may_attempt _ = false

abbrev pub is_reserved : LedgerState → Bool
is_reserved reserved = true
is_reserved _ = false

-- state IN ('RESERVED', 'CHARGED')
abbrev pub is_counted : LedgerState → Bool
is_counted reserved = true
is_counted charged = true
is_counted _ = false

abbrev pub is_id : Option ℕ → ℕ → Bool
is_id none p = false
is_id (some q) p = q == p

unfoldable pub get_order_by_tx_id : TxId → Database → Option Order
get_order_by_tx_id t db = select (λ o. o.tx_id == t) db.orders

-- CHECK (energy_amount BETWEEN 1 AND 10000000)
abbrev pub fits_energy : ℕ → Bool
fits_energy n = ltb 0 n && leb n 10_000_000

-- CHECK (jsonb_array_length(attempts) <= 256)
unfoldable pub fits_attempts : Order → Bool
fits_attempts o = leb (length o.attempts) 256

pub data BeginOrder : Type 0 where
  order_created order_existing : Order → BeginOrder

abbrev pub new_order : ℕ → TxId → Address → ℕ → Order
new_order id t receiver amount = record {
  id = id;
  tx_id = t;
  provider_id = none;
  receive_address = receiver;
  requested_amount = amount;
  amount = amount;
  rent_time = none;
  state = pending;
  provider_order_id = none;
  provider_balance_trx = none;
  order_cost_trx = none;
  delegation_tx_hash = none;
  sender_addresses = [];
  failure_code = none;
  failure_message = none;
  attempts = [];
}

-- `tx_id` is UNIQUE, and a foreign key to the request. The CHECK comes before the conflict.
unfoldable pub begin_order :
    TxId → Address → ℕ → Database → Result StoreError (BeginOrder × Database)
unfolding get_order_by_tx_id
begin_order t receiver amount db =
    if not (fits_energy amount) then err check_violation else elim (get_order_by_tx_id t db) [
      | some o ↦ ok (order_existing o, db)
      | none ↦
          let o = new_order db.next_order_id t receiver amount in
          if exists (λ r. r.tx_id == t) db.requests
          then ok (
            order_created o,
            record db { orders = insert o db.orders; next_order_id = suc db.next_order_id },
          )
          else err foreign_key_violation
    ]

abbrev pub is_attempt_at : ℕ → OrderEvent → Bool
is_attempt_at p e = is_ordering e.state && is_id e.provider_id p

-- COUNT and SUM over the day's rows that are reserved or charged.
abbrev pub counts_on : ℕ → LedgerEntry → Bool
counts_on day l = l.utc_day == day && is_counted l.state

unfoldable pub used_orders : ℕ → List LedgerEntry → ℕ
used_orders day ledger = count (counts_on day) ledger

unfoldable pub used_energy : ℕ → List LedgerEntry → ℕ
used_energy day ledger = sum (counts_on day) (λ l. l.energy_amount) ledger

unfoldable pub provider_orders : ℕ → ℕ → List LedgerEntry → ℕ
provider_orders day p ledger = count (λ l. counts_on day l && l.provider_id == p) ledger

unfoldable pub provider_energy : ℕ → ℕ → List LedgerEntry → ℕ
provider_energy day p ledger =
    sum (λ l. counts_on day l && l.provider_id == p) (λ l. l.energy_amount) ledger

-- The tests of startAttempt after which it rolls back, in their order.
unfoldable pub attempt_refused : BudgetLimits → ℕ → ℕ → Order → Provider → List LedgerEntry → Bool
attempt_refused limits amount day o p ledger =
    not p.enabled
    || not (may_attempt o.state)
    || exists (is_attempt_at p.id) o.attempts
    || ltb limits.max_energy_per_order amount
    || ltb p.max_energy_per_order amount
    || ltb limits.daily_order_limit (used_orders day ledger + 1)
    || ltb limits.daily_energy_limit (used_energy day ledger + amount)
    || ltb p.daily_order_limit (provider_orders day p.id ledger + 1)
    || ltb p.daily_energy_limit (provider_energy day p.id ledger + amount)
    || exists (λ l. l.order_id == o.id && l.provider_id == p.id) ledger

abbrev pub reservation : ℕ → ℕ → ℕ → ℕ → LedgerEntry
reservation day order_id provider_id amount = record {
  utc_day = day;
  order_id = order_id;
  provider_id = provider_id;
  energy_amount = amount;
  state = reserved;
}

-- The SET clause with which the order enters ORDERING.
unfoldable pub enter_ordering : Provider → ℕ → Time → Order → Order
enter_ordering p amount now o = record o {
  provider_id = some p.id;
  rent_time = some p.rent_time;
  amount = amount;
  state = ordering;
  failure_code = none;
  failure_message = none;
  attempts =
      o.attempts
      ++ record {
        state = ordering;
        provider_id = some p.id;
        provider_type = some p.provider_type;
        requested_amount = some o.requested_amount;
        ordered_amount = some amount;
        code = none;
        at = now;
      }
        ∷ [];
}

pub data Attempt : Type 0 where
  not_started : Attempt
  started : Order → Provider → Text → Attempt
  credential_error : Provider → Attempt

-- The key is decrypted after the commit, so a key that does not decrypt leaves the reservation.
abbrev pub decrypted : Order → Provider → Option Text → Attempt
decrypted o p none = credential_error p
decrypted o p (some key) = started o p key

-- The row with which startAttempt goes on, and the two writes of its transaction.
unfoldable pub reserve_attempt : ℕ → ℕ → Time → Order → Provider → Database → Database
reserve_attempt amount day now o p db = record db {
  ledger = insert (reservation day o.id p.id amount) db.ledger;
  orders =
      update (λ x. x.id == o.id && may_attempt x.state) (enter_ordering p amount now) db.orders;
}

-- The transaction of startAttempt, and the decryption after it.
unfoldable pub attempt_transaction :
    (Provider → Option Text)
    → BudgetLimits
    → ℕ
    → ℕ
    → ℕ
    → ℕ
    → Time
    → Database
    → Result StoreError (Attempt × Database)
attempt_transaction decrypt limits order_id provider_id amount day now db =
    elim (select (λ o. o.id == order_id) db.orders) [
      | none ↦ ok (not_started, db)
      | some o ↦ elim (select (λ p. p.id == provider_id) db.providers) [
        | none ↦ ok (not_started, db)
        | some p ↦
            if attempt_refused limits amount day o p db.ledger
            then ok (not_started, db)
            else if fits_attempts (enter_ordering p amount now o)
            then ok (
              decrypted (enter_ordering p amount now o) p (decrypt p),
              reserve_attempt amount day now o p db,
            )
            else err check_violation
      ]
    ]

unfoldable pub start_attempt :
    (Provider → Option Text)
    → BudgetLimits
    → ℕ
    → ℕ
    → ℕ
    → ℕ
    → Time
    → Database
    → Result StoreError (Attempt × Database)
start_attempt decrypt limits order_id provider_id amount day now db = do
  throw_if (order_id == 0 || provider_id == 0) range_error
  validate_energy_amount amount
  attempt_transaction decrypt limits order_id provider_id amount day now db

abbrev pub at_attempt : ℕ → ℕ → Order → Bool
at_attempt order_id provider_id o =
    o.id == order_id && is_id o.provider_id provider_id && is_ordering o.state

abbrev pub reserves_for : ℕ → ℕ → LedgerEntry → Bool
reserves_for order_id provider_id l =
    l.order_id == order_id && l.provider_id == provider_id && is_reserved l.state

-- transitionAttempt: the order must be in ORDERING at this provider, and exactly one reservation must
-- change with it; else the transaction is rolled back.
unfoldable pub transition_attempt :
    ℕ → ℕ → LedgerState → (Order → Order) → Database → Result StoreError (Order × Database)
transition_attempt order_id provider_id ledger_state f db =
    elim (select (at_attempt order_id provider_id) db.orders) [
      | none ↦ err missing_row
      | some o ↦
          if not (fits_attempts (f o))
          then err check_violation
          else if count (reserves_for order_id provider_id) db.ledger == 1
          then ok (
            f o,
            record db {
              orders = update (at_attempt order_id provider_id) f db.orders;
              ledger =
                  update (reserves_for order_id provider_id)
                    (λ l. record l { state = ledger_state }) db.ledger;
            },
          )
          else err transition_rejected
    ]

abbrev pub attempt_event : OrderState → Option ℕ → Option Text → Option Text → Time → OrderEvent
attempt_event state provider_id type code now = record {
  state = state;
  provider_id = provider_id;
  provider_type = type;
  requested_amount = none;
  ordered_amount = none;
  code = code;
  at = now;
}

unfoldable pub finish_order : OrderState → Provider → Text → Text → Time → Order → Order
finish_order state p code message now o = record o {
  state = state;
  failure_code = some code;
  failure_message = some message;
  attempts =
      o.attempts ++ attempt_event state (some p.id) (some p.provider_type) (some code) now ∷ [];
}
