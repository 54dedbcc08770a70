-- ===== src/Service.antt =====
-- `orderEnergy` and the quote of src/providers/service.ts, on the operations of the provider repository. The adapters of
-- the registry, what their rentEnergy answers, the clock, and what becomes of each call of the repository are a parameter; the transaction id and the
-- address come normalised. `rentals` keeps what each rental that was made came to, in their order.
pub mod Quote
pub mod Rentals
pub mod Quotes
pub mod Framed
use catfee_io.Base.{
  ℕ, ◌≡◌, Bool, true, false, not, Option, none, some, List, [], ◌∷◌, ◌++◌, ◌==◌, ltb, leb, ◌&&◌,
  ◌||◌, if◌then◌else◌,
}
use catfee_io.Base.Results.{Result, ok, err}
use catfee_io.Store.{Database, Order, Provider, TxId, Address, Text, Time, text, StoreError}
use catfee_io.Link.{Fault, through}
use catfee_io.Providers.Limits.{BudgetLimits, validate_energy_amount, max_safe_integer}
use catfee_io.Providers.Orders.{
  begin_order, order_created, order_existing, start_attempt, not_started, started, credential_error,
  get_order_by_tx_id, may_attempt, is_pending,
}
use catfee_io.Providers.Settle.{
  mark_rejected, mark_unknown, mark_accepted, Acceptance, Columns, reject_without_provider,
  list_enabled_providers,
}

pub record Adapter : Type 0 where
  pub resolve : ℕ → Option ℕ
  pub resolve_at_least : Option (ℕ → ℕ → Option ℕ)

-- What rentEnergy comes to: an answer, or an exception with its code.
pub data RentOutcome : Type 0 where
  rent_rejected : Text → RentOutcome
  rent_accepted : Acceptance → RentOutcome
  rent_failed : Text → RentOutcome

-- The calls that orderEnergy makes of the repository. Those of the loop carry the id of the provider.
pub data OrderSite : Type 0 where
  order_begun providers_listed order_read order_refused : OrderSite
  attempt_started order_reread attempt_rejected attempt_unknown attempt_accepted : ℕ → OrderSite

pub record World : Type 0 where
  pub link : OrderSite → Fault
  pub registry : Text → Option Adapter
  pub rent : Provider → Text → Address → ℕ → RentOutcome
  pub decrypt : Provider → Option Text
  pub limits : BudgetLimits
  pub columns : Columns
  pub day : ℕ
  pub clock : Provider → Time
  pub start_of_loop : Time
  pub end_of_loop : Time

pub record OrderInput : Type 0 where
  pub tx_id : TxId
  pub receive_address : Address
  pub amount : ℕ
  pub minimum_package_amount : Option ℕ
  pub request_deadline : Time

pub data OrderResult : Type 0 where
  order_accepted order_declined order_unknown order_duplicate : Order → OrderResult

pub data OrderError : Type 0 where
  conflict potentially_charged invalid_input : OrderError
  store_error : StoreError → OrderError

pub record Run : Type 0 where
  pub answer : Result OrderError OrderResult
  pub database : Database
  pub rentals : List RentOutcome

abbrev pub returned : OrderResult → Database → List RentOutcome → Run
returned r db rs = record { answer = ok r; database = db; rentals = rs }

abbrev pub thrown : OrderError → Database → List RentOutcome → Run
thrown e db rs = record { answer = err e; database = db; rentals = rs }

abbrev pub at_least : Adapter → ℕ → ℕ → Option ℕ
at_least a requested minimum = elim a.resolve_at_least [
  | none ↦ none
  | some upgrade ↦ elim (upgrade requested minimum) [
    | none ↦ none
    | some n ↦ if leb minimum n then some n else none
  ]
]

unfoldable pub resolve_energy_amount : Adapter → ℕ → Option ℕ → Option ℕ
resolve_energy_amount a requested minimum = elim (a.resolve requested) [
  | none ↦ none
  | some resolved ↦ elim minimum [
    | none ↦ some resolved
    | some m ↦ if leb m resolved then some resolved else at_least a requested m
  ]
]

-- What the loop carries from one provider to the next.
pub record Progress : Type 0 where
  pub last_rejected : Option Order
  pub has_compatible_package : Bool
  pub has_package_mismatch : Bool
  pub database : Database
  pub rentals : List RentOutcome

pub data Turn : Type 0 where
  go_on : Progress → Turn
  stop : Run → Turn

-- One call of the repository on the database that the loop has reached.
abbrev pub reached {ℓ} :
    {A : Type ℓ}
    → World
    → OrderSite
    → Database
    → (Database → Result StoreError (A × Database))
    → Result (StoreError × Database) (A × Database)
reached w site db op = through (w.link site) db (op db)

-- A query, which leaves the tables as they are.
abbrev pub read {ℓ} :
    {A : Type ℓ}
    → World
    → OrderSite
    → Database
    → (Database → A)
    → Result (StoreError × Database) (A × Database)
read w site db f = reached w site db λ d. ok (f d, d)

-- A rejection that is written, after which the loop goes on.
unfoldable pub reject_and_go_on : World → ℕ → Provider → Text → Time → Progress → Turn
reject_and_go_on w id p code now s =
    elim (reached w (attempt_rejected p.id) s.database (mark_rejected id p code now)) [
      | err (e, db) ↦ stop (thrown (store_error e) db s.rentals)
      | ok (o, db) ↦ go_on (record s { last_rejected = some o; database = db })
    ]

-- The rental and what is written of it.
unfoldable pub settle_rental : World → ℕ → Provider → Time → RentOutcome → Progress → Turn
unfolding reject_and_go_on
settle_rental w id p now (rent_failed code) s =
    elim (reached w (attempt_unknown p.id) s.database (mark_unknown id p code now)) [
      | ok (o, db) ↦ stop (returned (order_unknown o) db (s.rentals ++ rent_failed code ∷ []))
      | err (e, db) ↦ stop (thrown potentially_charged db (s.rentals ++ rent_failed code ∷ []))
    ]
settle_rental w id p now (rent_rejected code) s =
    reject_and_go_on w id p code now (record s { rentals = s.rentals ++ rent_rejected code ∷ [] })
settle_rental w id p now (rent_accepted a) s =
    elim (reached w (attempt_accepted p.id) s.database (mark_accepted w.columns id p a now)) [
      | ok (o, db) ↦ stop (returned (order_accepted o) db (s.rentals ++ rent_accepted a ∷ []))
      | err (e, kept) ↦
          elim (reached w (attempt_unknown p.id) kept
            (mark_unknown id p (text "ACCEPTED_PERSISTENCE_FAILED") now)) [
              | ok (o, db) ↦
                  stop (thrown potentially_charged db (s.rentals ++ rent_accepted a ∷ []))
              | err (x, db) ↦
                  stop (thrown potentially_charged db (s.rentals ++ rent_accepted a ∷ []))
            ]
    ]

-- An attempt that has started: `Date.now() >= providerRequestDeadlineMs` ends the order.
unfoldable pub run_attempt : World → OrderInput → ℕ → Provider → Text → ℕ → Progress → Turn
run_attempt w input id p key amount s =
    if leb input.request_deadline (w.clock p)
    then elim (reached w (attempt_rejected p.id) s.database
        (mark_rejected id p (text "TRANSACTION_TTL_ELAPSED") (w.clock p))) [
          | ok (o, db) ↦ stop (returned (order_declined o) db s.rentals)
          | err (e, db) ↦ stop (thrown (store_error e) db s.rentals)
        ]
    else settle_rental w id p (w.clock p) (w.rent p key input.receive_address amount) s

-- An attempt that startAttempt does not allow: the order may have moved on meanwhile.
unfoldable pub skip_attempt : World → TxId → ℕ → Progress → Turn
skip_attempt w t c s = elim (read w (order_reread c) s.database (get_order_by_tx_id t)) [
  | err (e, db) ↦ stop (thrown (store_error e) db s.rentals)
  | ok (none, db) ↦ go_on (record s { database = db })
  | ok (some o, db) ↦
      if may_attempt o.state
      then go_on (record s { database = db })
      else stop (returned (order_duplicate o) db s.rentals)
]

unfoldable pub attempt_provider : World → OrderInput → ℕ → Provider → ℕ → Progress → Turn
attempt_provider w input id c amount s =
    elim (reached w (attempt_started c.id) s.database
      (start_attempt w.decrypt w.limits id c.id amount w.day (w.clock c))) [
        | err (e, db) ↦ stop (thrown (store_error e) db s.rentals)
        | ok (credential_error p, db) ↦
            reject_and_go_on w id p (text "CREDENTIAL_INVALID") (w.clock p)
              (record s { database = db })
        | ok (not_started, db) ↦ skip_attempt w input.tx_id c.id (record s { database = db })
        | ok (started o p key, db) ↦
            run_attempt w input id p key amount (record s { database = db })
      ]

-- One turn of the loop over the providers.
unfoldable pub try_provider : World → OrderInput → ℕ → Provider → Progress → Turn
try_provider w input id c s = elim (w.registry c.provider_type) [
  | none ↦ go_on s
  | some a ↦ elim (resolve_energy_amount a input.amount input.minimum_package_amount) [
    | none ↦ go_on (record s { has_package_mismatch = true })
    | some amount ↦
        attempt_provider w input id c amount (record s { has_compatible_package = true })
  ]
]

unfoldable pub reject_order : World → ℕ → Text → Time → Progress → Run
reject_order w id code now s =
    elim (reached w order_refused s.database (reject_without_provider id code now)) [
      | ok (o, db) ↦ returned (order_declined o) db s.rentals
      | err (e, db) ↦ thrown (store_error e) db s.rentals
    ]

-- What follows the loop: the last rejection, if there was one, or the order as it now stands.
unfoldable pub after_loop : World → OrderInput → ℕ → Text → Option Order → Progress → Run
after_loop w input id code (some o) s = returned (order_declined o) s.database s.rentals
after_loop w input id code none s =
    elim (read w order_read s.database (get_order_by_tx_id input.tx_id)) [
      | err (e, db) ↦ thrown (store_error e) db s.rentals
      | ok (none, db) ↦ reject_order w id code w.end_of_loop (record s { database = db })
      | ok (some o, db) ↦
          if is_pending o.state
          then reject_order w id code w.end_of_loop (record s { database = db })
          else if may_attempt o.state
          then returned (order_declined o) db s.rentals
          else returned (order_duplicate o) db s.rentals
    ]

unfoldable pub finish_order_energy : World → OrderInput → ℕ → Progress → Run
finish_order_energy w input id s =
    let code =
      if not s.has_compatible_package && s.has_package_mismatch
      then text "NO_ELIGIBLE_PROVIDER_PACKAGE"
      else text "NO_ELIGIBLE_PROVIDER_CAPACITY" in
    after_loop w input id code s.last_rejected s

unfoldable pub try_providers : World → OrderInput → ℕ → List Provider → Progress → Run
try_providers w input id [] s = finish_order_energy w input id s
try_providers w input id (c ∷ cs) s = elim (try_provider w input id c s) [
  | stop run ↦ run
  | go_on next ↦ try_providers w input id cs next
]

abbrev pub before_loop : Order → Database → Progress
before_loop o db = record {
  last_rejected = if may_attempt o.state && not (is_pending o.state) then some o else none;
  has_compatible_package = false;
  has_package_mismatch = false;
  database = db;
  rentals = [];
}

-- The loop over the providers, on an order that may be tried.
unfoldable pub run_order : World → OrderInput → Order → Database → Run
run_order w input o db = elim (read w providers_listed db list_enabled_providers) [
  | err (e, d) ↦ thrown (store_error e) d []
  | ok ([], d) ↦ reject_order w o.id (text "NO_ENABLED_PROVIDER") w.start_of_loop (before_loop o d)
  | ok (c ∷ cs, d) ↦ try_providers w input o.id (c ∷ cs) (before_loop o d)
]

-- An order of the transaction that is there already: the same order that is pending is run again.
unfoldable pub resume_order : World → OrderInput → Order → Database → Run
resume_order w input o db =
    if not (o.receive_address == input.receive_address) || not (o.requested_amount == input.amount)
    then thrown conflict db []
    else if is_pending o.state
    then run_order w input o db
    else returned (order_duplicate o) db []

abbrev pub is_valid_amount : ℕ → Bool
is_valid_amount n = elim (validate_energy_amount n) [ ok _ ↦ true | err _ ↦ false ]

abbrev pub is_valid_minimum : Option ℕ → Bool
is_valid_minimum none = true
is_valid_minimum (some n) = is_valid_amount n

unfoldable pub validate_order_input : OrderInput → Bool
validate_order_input input =
    is_valid_amount input.amount
    && is_valid_minimum input.minimum_package_amount
    && ltb 0 input.request_deadline
    && leb input.request_deadline max_safe_integer

unfoldable pub order_energy : World → OrderInput → Database → Run
order_energy w input db =
    if validate_order_input input
    then elim (reached w order_begun db
        (begin_order input.tx_id input.receive_address input.amount)) [
          | err (e, d) ↦ thrown (store_error e) d []
          | ok (order_created o, begun) ↦ run_order w input o begun
          | ok (order_existing o, begun) ↦ resume_order w input o begun
        ]
    else thrown invalid_input db []
