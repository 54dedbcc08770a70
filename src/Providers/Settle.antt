-- ===== src/Providers/Settle.antt =====
-- How an order of src/providers/repository.ts ends: rejected, unknown, accepted, fulfilled, or found
-- in ORDERING after a restart.
use catfee_io.Base.{
  ℕ, Bool, true, false, not, Option, none, some, List, [], ◌∷◌, ◌++◌, ◌==◌, ltb, leb, ◌&&◌, ◌||◌,
  if◌then◌else◌, length, take,
}
use catfee_io.Base.Results.{Result, ok, err}
use catfee_io.Table.{update, exists, select, select_all, count}
use catfee_io.Store.{
  Database, Order, OrderState, LedgerEntry, Provider, pending, ordering, accepted, fulfilled,
  order_rejected, unknown, charged, ledger_released, TxId, Address, Text, Time, text, StoreError,
  missing_row, transition_rejected, check_violation, data_exception,
}
use catfee_io.Providers.Orders.{
  is_pending, is_ordering, is_accepted_order, is_reserved, is_id, fits_attempts, attempt_event,
  finish_order, transition_attempt, get_order_by_tx_id,
}

-- /^[A-Z0-9_-]{1,100}$/
abbrev pub is_code_unit : ℕ → Bool
is_code_unit c = leb b'A' c && leb c b'Z' || leb b'0' c && leb c b'9' || c == b'_' || c == b'-'

abbrev pub are_code_units : Text → Bool
are_code_units [] = true
are_code_units (c ∷ cs) = is_code_unit c && are_code_units cs

unfoldable pub safe_provider_code : Text → Text
safe_provider_code code =
    if are_code_units code && ltb 0 (length code) && leb (length code) 100
    then code
    else text "PROVIDER_ERROR"

unfoldable pub mark_rejected :
    ℕ → Provider → Text → Time → Database → Result StoreError (Order × Database)
mark_rejected order_id p code now = transition_attempt order_id p.id ledger_released (
    finish_order order_rejected p (safe_provider_code code)
      (text "Provider explicitly rejected the order") now)

unfoldable pub mark_unknown :
    ℕ → Provider → Text → Time → Database → Result StoreError (Order × Database)
mark_unknown order_id p code now = transition_attempt order_id p.id charged (
    finish_order unknown p (safe_provider_code code)
      (text "Provider request outcome is unknown; manual review is required") now)

-- The accepted case of `RentEnergyResult`.
pub record Acceptance : Type 0 where
  pub provider_order_id : Text
  pub provider_balance_trx : Text
  pub order_cost_trx : Text
  pub delegation_tx_hash : Text
  pub sender_addresses : List Address

unfoldable pub accept_order : Provider → Acceptance → Time → Order → Order
accept_order p outcome now o = record o {
  state = accepted;
  provider_order_id = some outcome.provider_order_id;
  provider_balance_trx = some outcome.provider_balance_trx;
  order_cost_trx = some outcome.order_cost_trx;
  delegation_tx_hash = some outcome.delegation_tx_hash;
  sender_addresses = outcome.sender_addresses;
  failure_code = none;
  failure_message = none;
  attempts = o.attempts ++ attempt_event accepted (some p.id) (some p.provider_type) none now ∷ [];
}

-- PostgreSQL: what a column NUMERIC(38, 18) and a column CHAR(64) hold of a text, where they take it.
pub record Columns : Type 0 where
  pub numeric : Text → Option Text
  pub character : Text → Option Text

abbrev pub stored_as : Acceptance → (balance cost hash : Option Text) → Option Acceptance
stored_as outcome (some balance) (some cost) (some hash) = some (record outcome {
  provider_balance_trx = balance;
  order_cost_trx = cost;
  delegation_tx_hash = hash;
})
stored_as outcome _ _ _ = none

unfoldable pub stored_acceptance : Columns → Acceptance → Option Acceptance
stored_acceptance columns outcome =
    stored_as outcome (columns.numeric outcome.provider_balance_trx)
      (columns.numeric outcome.order_cost_trx) (columns.character outcome.delegation_tx_hash)

unfoldable pub mark_accepted :
    Columns → ℕ → Provider → Acceptance → Time → Database → Result StoreError (Order × Database)
mark_accepted columns order_id p outcome now db = elim (stored_acceptance columns outcome) [
  | none ↦ err data_exception
  | some stored ↦ transition_attempt order_id p.id charged (accept_order p stored now) db
]

abbrev pub same_text : Text → Text → Bool
same_text [] [] = true
same_text (c ∷ cs) (d ∷ ds) = c == d && same_text cs ds
same_text _ _ = false

abbrev pub rejection_message : Text → Text
rejection_message code =
    if same_text code (text "NO_ENABLED_PROVIDER")
    then text "No enabled energy provider is available"
    else if same_text code (text "NO_ELIGIBLE_PROVIDER_PACKAGE")
    then text "No enabled energy provider supports the requested package amount"
    else text "No eligible energy provider capacity is available"

-- UPDATE energy_provider_orders SET f WHERE p RETURNING, which must give a row.
unfoldable pub update_orders :
    (Order → Bool) → (Order → Order) → Database → Result StoreError (Order × Database)
update_orders p f db = elim (select p db.orders) [
  | none ↦ err missing_row
  | some o ↦
      if fits_attempts (f o)
      then ok (f o, record db { orders = update p f db.orders })
      else err check_violation
]

unfoldable pub reject_without_provider :
    ℕ → Text → Time → Database → Result StoreError (Order × Database)
reject_without_provider order_id code now =
    let safe = safe_provider_code code in
    update_orders (λ o. o.id == order_id && is_pending o.state)
      λ o. record o {
        state = order_rejected;
        failure_code = some safe;
        failure_message = some (rejection_message safe);
        attempts = o.attempts ++ attempt_event order_rejected none none (some safe) now ∷ [];
      }

abbrev pub same_state : OrderState → OrderState → Bool
same_state pending pending = true
same_state ordering ordering = true
same_state accepted accepted = true
same_state fulfilled fulfilled = true
same_state order_rejected order_rejected = true
same_state unknown unknown = true
same_state _ _ = false

abbrev pub confirmation_message : Option Text → Option Text
confirmation_message none = none
confirmation_message (some code) =
    some (text "Provider accepted the order but energy delivery was not confirmed")

abbrev pub confirm_order : OrderState → Option Text → Time → Order → Order
confirm_order state code now o = record o {
  state = state;
  failure_code = code;
  failure_message = confirmation_message code;
  attempts = o.attempts ++ attempt_event state o.provider_id none code now ∷ [];
}

-- finishConfirmation: an order in ACCEPTED moves on; one that has moved there already is returned.
unfoldable pub finish_confirmation :
    TxId → OrderState → Option Text → Time → Database → Result StoreError (Order × Database)
finish_confirmation t state code now db =
    let accepted_row = λ (o : Order). o.tx_id == t && is_accepted_order o.state in
    elim (select accepted_row db.orders) [
      | some o ↦
          if fits_attempts (confirm_order state code now o)
          then ok (
            confirm_order state code now o,
            record db { orders = update accepted_row (confirm_order state code now) db.orders },
          )
          else err check_violation
      | none ↦ elim (get_order_by_tx_id t db) [
        | none ↦ err transition_rejected
        | some o ↦ if same_state o.state state then ok (o, db) else err transition_rejected
      ]
    ]

unfoldable pub mark_fulfilled : TxId → Time → Database → Result StoreError (Order × Database)
mark_fulfilled t = finish_confirmation t fulfilled none

unfoldable pub mark_confirmation_timeout :
    TxId → Time → Database → Result StoreError (Order × Database)
mark_confirmation_timeout t = finish_confirmation t unknown (some (text "CONFIRMATION_TIMEOUT"))

-- The join of the first UPDATE of recoverInterruptedOrders.
unfoldable pub is_interrupted : List Order → LedgerEntry → Bool
is_interrupted orders l =
    is_reserved l.state
    && exists (λ o. o.id == l.order_id && is_id o.provider_id l.provider_id && is_ordering o.state)
        orders

unfoldable pub interrupt_order : Time → Order → Order
interrupt_order now o = record o {
  state = unknown;
  failure_code = some (text "PROCESS_INTERRUPTED");
  failure_message = some (text "Ordering was interrupted; manual review is required");
  attempts =
      o.attempts
      ++ attempt_event unknown o.provider_id none (some (text "PROCESS_INTERRUPTED")) now ∷ [];
}

unfoldable pub recover_interrupted_orders : Time → Database → Result StoreError (ℕ × Database)
recover_interrupted_orders now db =
    if exists (λ o. is_ordering o.state && not (fits_attempts (interrupt_order now o))) db.orders
    then err check_violation
    else ok (
      count (λ o. is_ordering o.state) db.orders,
      record db {
        ledger = update (is_interrupted db.orders) (λ l. record l { state = charged }) db.ledger;
        orders = update (λ o. is_ordering o.state) (interrupt_order now) db.orders;
      },
    )

-- ORDER BY priority ASC, id ASC
abbrev pub precedes : Provider → Provider → Bool
precedes p q = ltb p.priority q.priority || p.priority == q.priority && leb p.id q.id

unfoldable pub insert_by_priority : Provider → List Provider → List Provider
insert_by_priority p [] = p ∷ []
insert_by_priority p (q ∷ qs) =
    let later = q ∷ insert_by_priority p qs in if precedes p q then p ∷ q ∷ qs else later

unfoldable pub order_by_priority : List Provider → List Provider
order_by_priority [] = []
order_by_priority (p ∷ ps) = insert_by_priority p (order_by_priority ps)

unfoldable pub list_enabled_providers : Database → List Provider
list_enabled_providers db = take 100 (order_by_priority (select_all (λ p. p.enabled) db.providers))

unfoldable pub disable_provider : ℕ → Database → Bool × Database
disable_provider id db = (
  exists (λ p. p.id == id) db.providers,
  record db {
    providers = update (λ p. p.id == id) (λ p. record p { enabled = false }) db.providers;
  },
)
