-- ===== src/Service/Rentals.antt =====
-- The rentals of one call of `orderEnergy` (src/providers/service.ts).
use catfee_io.Base.{
  ℕ, leb, not, ◌||◌, ◌==◌, ◌≡◌, true, Option, none, some, List, [], ◌∷◌, ◌++◌, refl, inl, inr,
  Option-cases, Bool-cases,
}
use catfee_io.Base.Results.{Result, ok, err, Result-cases}
use catfee_io.Table.Laws.{All, All-insert}
use catfee_io.Table.{insert}
use catfee_io.Store.{StoreError, Database, Order, Provider, Text, Time, TxId, text}
use catfee_io.Providers.Orders.{
  begin_order, start_attempt, not_started, started, credential_error, get_order_by_tx_id,
  may_attempt, is_pending, order_created, order_existing,
}
use catfee_io.Providers.Settle.{
  mark_rejected, mark_unknown, mark_accepted, reject_without_provider, list_enabled_providers,
}
use catfee_io.Service.{
  order_begun, providers_listed, order_read, order_refused, attempt_started, order_reread,
  attempt_rejected, attempt_unknown, attempt_accepted, reached, read, World, OrderInput,
  RentOutcome, rent_rejected, rent_accepted, rent_failed, Run, OrderResult, OrderError,
  order_accepted, order_declined, order_unknown, order_duplicate, potentially_charged, Progress,
  Turn, go_on, stop, reject_and_go_on, settle_rental, run_attempt, skip_attempt, attempt_provider,
  try_provider, reject_order, resolve_energy_amount, finish_order_energy, after_loop,
  validate_order_input, try_providers, run_order, resume_order, order_energy, thrown, before_loop,
  store_error,
}

-- The provider said no, so it charges nothing.
abbrev pub IsRejection : RentOutcome → Type 0
IsRejection (rent_rejected code) = Unit
IsRejection _ = ⊥

-- The rentals are rejections up to the last one.
abbrev pub EndsWith : (RentOutcome → Type 0) → List RentOutcome → Type 0
EndsWith P rs =
    (before : List RentOutcome) × (r : RentOutcome) × (rs ≡ before ++ r ∷ [])
    × All IsRejection before
    × P r

abbrev pub IsAcceptance : RentOutcome → Type 0
IsAcceptance (rent_accepted a) = Unit
IsAcceptance _ = ⊥

abbrev pub IsFailure : RentOutcome → Type 0
IsFailure (rent_failed code) = Unit
IsFailure _ = ⊥

abbrev pub MayCharge : RentOutcome → Type 0
MayCharge (rent_rejected code) = ⊥
MayCharge _ = Unit

-- What the answer says of the rentals.
abbrev pub Reports : Result OrderError OrderResult → List RentOutcome → Type 0
Reports (ok (order_accepted o)) rs = EndsWith IsAcceptance rs
Reports (ok (order_unknown o)) rs = EndsWith IsFailure rs
Reports (ok (order_declined o)) rs = All IsRejection rs
Reports (ok (order_duplicate o)) rs = All IsRejection rs
Reports (err potentially_charged) rs = EndsWith MayCharge rs
Reports (err _) rs = All IsRejection rs

abbrev pub IsHonest : Run → Type 0
IsHonest run = Reports run.answer run.rentals

abbrev pub IsClean : Turn → Type 0
IsClean (go_on s) = All IsRejection s.rentals
IsClean (stop run) = IsHonest run

snoc :
    (rs : List RentOutcome) (r : RentOutcome)
    → IsRejection r
    → All IsRejection rs
    → All IsRejection (rs ++ r ∷ [])
unfolding insert
snoc rs r h v = All-insert IsRejection r rs h v

reject_and_go_on-IsClean :
    (w : World) (id : ℕ) (p : Provider) (code : Text) (now : Time) (s : Progress)
    → All IsRejection s.rentals
    → IsClean (reject_and_go_on w id p code now s)
unfolding reject_and_go_on
reject_and_go_on-IsClean w id p code now s v =
    elim (Result-cases
      (reached w (attempt_rejected p.id) s.database (mark_rejected id p code now))) [
        | inl (o, e) ↦ rw (e, IsClean) v
        | inr ((x, d), e) ↦ rw (e, IsClean) v
      ]

settle_rental-IsClean :
    (w : World) (id : ℕ) (p : Provider) (now : Time) (r : RentOutcome) (s : Progress)
    → All IsRejection s.rentals
    → IsClean (settle_rental w id p now r s)
unfolding settle_rental
settle_rental-IsClean w id p now (rent_failed code) s v =
    elim (Result-cases (reached w (attempt_unknown p.id) s.database (mark_unknown id p code now))) [
      | inl (o, e) ↦ rw (e, IsClean) (s.rentals, rent_failed code, refl, v, tt)
      | inr ((x, d), e) ↦ rw (e, IsClean) (s.rentals, rent_failed code, refl, v, tt)
    ]
settle_rental-IsClean w id p now (rent_rejected code) s v =
    reject_and_go_on-IsClean w id p code now
      (record s { rentals = s.rentals ++ rent_rejected code ∷ [] })
      (snoc s.rentals (rent_rejected code) tt v)
settle_rental-IsClean w id p now (rent_accepted a) s v =
    elim (Result-cases
      (reached w (attempt_accepted p.id) s.database (mark_accepted w.columns id p a now))) [
        | inl (o, e) ↦ rw (e, IsClean) (s.rentals, rent_accepted a, refl, v, tt)
        | inr ((x, kept), e) ↦
            rw (e, IsClean)
              (elim (Result-cases (
                reached w (attempt_unknown p.id) kept
                  (mark_unknown id p (text "ACCEPTED_PERSISTENCE_FAILED") now))) [
                    | inl (o, k) ↦ rw (k, IsClean) (s.rentals, rent_accepted a, refl, v, tt)
                    | inr ((y, d'), k) ↦ rw (k, IsClean) (s.rentals, rent_accepted a, refl, v, tt)
                  ])
      ]

run_attempt-IsClean :
    (w : World) (input : OrderInput) (id : ℕ) (p : Provider) (key : Text) (amount : ℕ)
    (s : Progress)
    → All IsRejection s.rentals
    → IsClean (run_attempt w input id p key amount s)
unfolding run_attempt
run_attempt-IsClean w input id p key amount s v =
    elim (Bool-cases (leb input.request_deadline (w.clock p))) [
      | inl late ↦
          rw (late, IsClean)
            (elim (Result-cases (
              reached w (attempt_rejected p.id) s.database
                (mark_rejected id p (text "TRANSACTION_TTL_ELAPSED") (w.clock p)))) [
                  | inl (o, e) ↦ rw (e, IsClean) v
                  | inr ((x, d), e) ↦ rw (e, IsClean) v
                ])
      | inr early ↦
          rw (early, IsClean)
            (settle_rental-IsClean w id p (w.clock p) (w.rent p key input.receive_address amount) s
              v)
    ]

skip_attempt-IsClean :
    (w : World) (t : TxId) (c : ℕ) (s : Progress)
    → All IsRejection s.rentals
    → IsClean (skip_attempt w t c s)
unfolding skip_attempt
skip_attempt-IsClean w t c s v =
    elim (Result-cases (read w (order_reread c) s.database (get_order_by_tx_id t))) [
      | inr ((x, d), e) ↦ rw (e, IsClean) v
      | inl ((none, d), e) ↦ rw (e, IsClean) v
      | inl ((some o, d), e) ↦
          rw (e, IsClean)
            (elim (Bool-cases (may_attempt o.state)) [
              | inl left ↦ rw (left, IsClean) v
              | inr closed ↦ rw (closed, IsClean) v
            ])
    ]

attempt_provider-IsClean :
    (w : World) (input : OrderInput) (id : ℕ) (c : Provider) (amount : ℕ) (s : Progress)
    → All IsRejection s.rentals
    → IsClean (attempt_provider w input id c amount s)
unfolding attempt_provider
attempt_provider-IsClean w input id c amount s v =
    elim (Result-cases (
      reached w (attempt_started c.id) s.database
        (start_attempt w.decrypt w.limits id c.id amount w.day (w.clock c)))) [
          | inr ((x, d), e) ↦ rw (e, IsClean) v
          | inl ((not_started, db), e) ↦
              rw (e, IsClean)
                (skip_attempt-IsClean w input.tx_id c.id (record s { database = db }) v)
          | inl ((started o p key, db), e) ↦
              rw (e, IsClean)
                (run_attempt-IsClean w input id p key amount (record s { database = db }) v)
          | inl ((credential_error p, db), e) ↦
              rw (e, IsClean)
                (reject_and_go_on-IsClean w id p (text "CREDENTIAL_INVALID") (w.clock p)
                  (record s { database = db }) v)
        ]

try_provider-IsClean :
    (w : World) (input : OrderInput) (id : ℕ) (c : Provider) (s : Progress)
    → All IsRejection s.rentals
    → IsClean (try_provider w input id c s)
unfolding try_provider
try_provider-IsClean w input id c s v = elim (Option-cases (w.registry c.provider_type)) [
  | inl e ↦ rw (e, IsClean) v
  | inr (a, e) ↦
      rw (e, IsClean)
        (elim (Option-cases (resolve_energy_amount a input.amount input.minimum_package_amount)) [
          | inl k ↦ rw (k, IsClean) v
          | inr (amount, k) ↦
              rw (k, IsClean)
                (attempt_provider-IsClean w input id c amount
                  (record s { has_compatible_package = true }) v)
        ])
]

reject_order-IsHonest :
    (w : World) (id : ℕ) (code : Text) (now : Time) (s : Progress)
    → All IsRejection s.rentals
    → IsHonest (reject_order w id code now s)
unfolding reject_order
reject_order-IsHonest w id code now s v =
    elim (Result-cases (reached w order_refused s.database (reject_without_provider id code now))) [
      | inl (o, e) ↦ rw (e, IsHonest, reject_order) v
      | inr ((x, d), e) ↦ rw (e, IsHonest, reject_order) v
    ]

after_loop-IsHonest :
    (w : World) (input : OrderInput) (id : ℕ) (code : Text) (last : Option Order) (s : Progress)
    → All IsRejection s.rentals
    → IsHonest (after_loop w input id code last s)
unfolding after_loop
after_loop-IsHonest w input id code (some o) s v = v
after_loop-IsHonest w input id code none s v =
    elim (Result-cases (read w order_read s.database (get_order_by_tx_id input.tx_id))) [
      | inr ((x, d), e) ↦ rw (e, IsHonest, after_loop) v
      | inl ((none, d), e) ↦
          rw (e, IsHonest, after_loop)
            (reject_order-IsHonest w id code w.end_of_loop (record s { database = d }) v)
      | inl ((some o, d), e) ↦
          rw (e, IsHonest, after_loop)
            (elim (Bool-cases (is_pending o.state)) [
              | inl waiting ↦
                  rw (waiting, IsHonest)
                    (reject_order-IsHonest w id code w.end_of_loop (record s { database = d }) v)
              | inr moved ↦
                  rw (moved, IsHonest)
                    (elim (Bool-cases (may_attempt o.state)) [
                      | inl declined ↦ rw (declined, IsHonest, after_loop) v
                      | inr taken ↦ rw (taken, IsHonest, after_loop) v
                    ])
            ])
    ]

try_providers-IsHonest :
    (w : World) (input : OrderInput) (id : ℕ) (cs : List Provider) (s : Progress)
    → All IsRejection s.rentals
    → IsHonest (try_providers w input id cs s)
unfolding try_providers finish_order_energy
try_providers-IsHonest w input id [] s v = after_loop-IsHonest w input id _ s.last_rejected s v
try_providers-IsHonest w input id (c ∷ cs) s v =
    go (λ next h. try_providers-IsHonest w input id cs next h) (try_provider w input id c s)
      (try_provider-IsClean w input id c s v)
  where
    go :
        ((next : Progress)
          → All IsRejection next.rentals
          → IsHonest (try_providers w input id cs next))
        → (t : Turn) → IsClean t
        → IsHonest (elim t [ stop run ↦ run | go_on next ↦ try_providers w input id cs next ])
    go rest (stop run) h = h
    go rest (go_on next) h = rest next h

run_order-IsHonest :
    (w : World) (input : OrderInput) (o : Order) (db : Database) → IsHonest (run_order w input o db)
unfolding run_order
run_order-IsHonest w input o db = go (read w providers_listed db list_enabled_providers)
  where
    go :
        (r : Result (StoreError × Database) (List Provider × Database))
        → IsHonest (elim r [
          | err (e, d) ↦ thrown (store_error e) d []
          | ok ([], d) ↦
              reject_order w o.id (text "NO_ENABLED_PROVIDER") w.start_of_loop (before_loop o d)
          | ok (c ∷ rest, d) ↦ try_providers w input o.id (c ∷ rest) (before_loop o d)
        ])
    go (err (e, d)) = tt
    go (ok ([], d)) = reject_order-IsHonest w o.id (text "NO_ENABLED_PROVIDER") w.start_of_loop _ tt
    go (ok (c ∷ cs, d)) = try_providers-IsHonest w input o.id (c ∷ cs) _ tt

resume_order-IsHonest :
    (w : World) (input : OrderInput) (o : Order) (db : Database)
    → IsHonest (resume_order w input o db)
unfolding resume_order
resume_order-IsHonest w input o db =
    elim (Bool-cases (
      not (o.receive_address == input.receive_address)
      || not (o.requested_amount == input.amount))) [
        | inl other ↦ rw (other, IsHonest, resume_order) tt
        | inr same ↦
            rw (same, IsHonest, resume_order)
              (elim (Bool-cases (is_pending o.state)) [
                | inl waiting ↦ rw (waiting, IsHonest) (run_order-IsHonest w input o db)
                | inr moved ↦ rw (moved, IsHonest) tt
              ])
      ]

-- One call of orderEnergy, whatever the adapters answer, the database holds and the connection to it does: every rental but the last
-- was rejected by its provider. Where the call answers `accepted`, the last one was accepted; where it
-- answers `unknown`, the last one failed; where it throws PotentiallyChargedProviderError, the last one
-- was accepted or failed; and with any other answer or error the last one was rejected too, or no rental
-- was made.
pub order_energy-IsHonest :
    (w : World) (input : OrderInput) (db : Database) → IsHonest (order_energy w input db)
unfolding order_energy
order_energy-IsHonest w input db = elim (Bool-cases (validate_order_input input)) [
  | inr bad ↦ rw (bad, IsHonest, order_energy) tt
  | inl good ↦
      rw (good, IsHonest, order_energy)
        (elim (Result-cases
          (reached w order_begun db (begin_order input.tx_id input.receive_address input.amount))) [
            | inr ((x, d), e) ↦ rw (e, IsHonest, order_energy) tt
            | inl ((order_created o, begun), e) ↦
                rw (e, IsHonest, order_energy) (run_order-IsHonest w input o begun)
            | inl ((order_existing o, begun), e) ↦
                rw (e, IsHonest, order_energy) (resume_order-IsHonest w input o begun)
          ])
]
