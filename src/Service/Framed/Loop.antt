-- ===== src/Service/Framed/Loop.antt =====
-- The loop of `orderEnergy` of src/providers/service.ts leaves the tables of the gateway alone.
use catfee_io.Base.{
  ℕ, leb, not, ◌||◌, ◌==◌, true, Option, none, some, List, [], ◌∷◌, ◌++◌, inl, inr, Option-cases,
  Bool-cases,
}
use catfee_io.Base.Results.{Result, ok, err, Result-cases}
use catfee_io.Store.{StoreError, Database, Order, Provider, Text, Time, TxId, text}
use catfee_io.Providers.Orders.{
  begin_order, start_attempt, not_started, started, credential_error, get_order_by_tx_id,
  may_attempt, is_pending, order_created, order_existing,
}
use catfee_io.Providers.Settle.{
  mark_rejected, mark_unknown, mark_accepted, reject_without_provider, list_enabled_providers,
}
use catfee_io.Service.Framed.Calls.{
  FramesResult, through-Frames, from_ok, from_err, reads-Frames, rejects-Frames, loses-Frames,
  accepts-Frames, refuses-Frames, starts-Frames,
}
use catfee_io.Service.{
  order_begun, providers_listed, order_read, order_refused, attempt_started, order_reread,
  attempt_rejected, attempt_unknown, attempt_accepted, reached, read, before_loop, thrown,
  store_error, World, OrderInput, RentOutcome, rent_rejected, rent_accepted, rent_failed, Run,
  Progress, Turn, go_on, stop, reject_and_go_on, settle_rental, run_attempt, skip_attempt,
  attempt_provider, try_provider, reject_order, resolve_energy_amount, finish_order_energy,
  after_loop, validate_order_input, try_providers, run_order, resume_order, order_energy,
}
use catfee_io.Service.Framed.{Frame, same, begin_order-Frame}

-- A turn of the loop, and a run, leave them.
abbrev FramesTurn : Database → Turn → Type 0
FramesTurn db (go_on s) = Frame db s.database
FramesTurn db (stop run) = Frame db run.database

abbrev FramesRun : Database → Run → Type 0
FramesRun db run = Frame db run.database

module _ (db : Database) where
  reject_and_go_on-Frames :
      (w : World) (id : ℕ) (p : Provider) (code : Text) (now : Time) (s : Progress)
      → Frame db s.database
      → FramesTurn db (reject_and_go_on w id p code now s)
  unfolding reject_and_go_on
  reject_and_go_on-Frames w id p code now s v =
      let r = reached w (attempt_rejected p.id) s.database (mark_rejected id p code now) in
      let h = rejects-Frames db w (attempt_rejected p.id) id p code now s.database v in
      elim (Result-cases r) [
        | inl ((o, d), e) ↦ rw (e, FramesTurn) (from_ok db r e h)
        | inr ((x, d), e) ↦ rw (e, FramesTurn) (from_err db r e h)
      ]

  settle_rental-Frames :
      (w : World) (id : ℕ) (p : Provider) (now : Time) (r : RentOutcome) (s : Progress)
      → Frame db s.database
      → FramesTurn db (settle_rental w id p now r s)
  unfolding settle_rental
  settle_rental-Frames w id p now (rent_failed code) s v =
      let r = reached w (attempt_unknown p.id) s.database (mark_unknown id p code now) in
      let h = loses-Frames db w (attempt_unknown p.id) id p code now s.database v in
      elim (Result-cases r) [
        | inl ((o, d), e) ↦ rw (e, FramesTurn) (from_ok db r e h)
        | inr ((x, d), e) ↦ rw (e, FramesTurn) (from_err db r e h)
      ]
  settle_rental-Frames w id p now (rent_rejected code) s v =
      reject_and_go_on-Frames w id p code now
        (record s { rentals = s.rentals ++ rent_rejected code ∷ [] }) v
  settle_rental-Frames w id p now (rent_accepted a) s v =
      let r = reached w (attempt_accepted p.id) s.database (mark_accepted w.columns id p a now) in
      let h = accepts-Frames db w (attempt_accepted p.id) id p a now s.database v in
      elim (Result-cases r) [
        | inl ((o, d), e) ↦ rw (e, FramesTurn) (from_ok db r e h)
        | inr ((x, kept), e) ↦
            let code = text "ACCEPTED_PERSISTENCE_FAILED" in
            let q = reached w (attempt_unknown p.id) kept (mark_unknown id p code now) in
            let k =
              loses-Frames db w (attempt_unknown p.id) id p code now kept (from_err db r e h) in
            rw (e, FramesTurn)
              (elim (Result-cases q) [
                | inl ((o, d), f) ↦ rw (f, FramesTurn) (from_ok db q f k)
                | inr ((y, d), f) ↦ rw (f, FramesTurn) (from_err db q f k)
              ])
      ]

  run_attempt-Frames :
      (w : World) (input : OrderInput) (id : ℕ) (p : Provider) (key : Text) (amount : ℕ)
      (s : Progress)
      → Frame db s.database
      → FramesTurn db (run_attempt w input id p key amount s)
  unfolding run_attempt
  run_attempt-Frames w input id p key amount s v =
      let code = text "TRANSACTION_TTL_ELAPSED" in
      let r = reached w (attempt_rejected p.id) s.database (mark_rejected id p code (w.clock p)) in
      let h = rejects-Frames db w (attempt_rejected p.id) id p code (w.clock p) s.database v in
      elim (Bool-cases (leb input.request_deadline (w.clock p))) [
        | inl late ↦
            rw (late, FramesTurn)
              (elim (Result-cases r) [
                | inl ((o, d), e) ↦ rw (e, FramesTurn) (from_ok db r e h)
                | inr ((x, d), e) ↦ rw (e, FramesTurn) (from_err db r e h)
              ])
        | inr early ↦
            rw (early, FramesTurn)
              (settle_rental-Frames w id p (w.clock p) (w.rent p key input.receive_address amount) s
                v)
      ]

  skip_attempt-Frames :
      (w : World) (t : TxId) (c : ℕ) (s : Progress)
      → Frame db s.database
      → FramesTurn db (skip_attempt w t c s)
  unfolding skip_attempt
  skip_attempt-Frames w t c s v =
      let r = read w (order_reread c) s.database (get_order_by_tx_id t) in
      let h = reads-Frames db w (order_reread c) s.database (get_order_by_tx_id t) v in
      elim (Result-cases r) [
        | inr ((x, d), e) ↦ rw (e, FramesTurn) (from_err db r e h)
        | inl ((none, d), e) ↦ rw (e, FramesTurn) (from_ok db r e h)
        | inl ((some o, d), e) ↦
            rw (e, FramesTurn)
              (elim (Bool-cases (may_attempt o.state)) [
                | inl left ↦ rw (left, FramesTurn) (from_ok db r e h)
                | inr closed ↦ rw (closed, FramesTurn) (from_ok db r e h)
              ])
      ]

  attempt_provider-Frames :
      (w : World) (input : OrderInput) (id : ℕ) (c : Provider) (amount : ℕ) (s : Progress)
      → Frame db s.database
      → FramesTurn db (attempt_provider w input id c amount s)
  unfolding attempt_provider
  attempt_provider-Frames w input id c amount s v =
      let r =
        reached w (attempt_started c.id) s.database
          (start_attempt w.decrypt w.limits id c.id amount w.day (w.clock c)) in
      let h = starts-Frames db w (attempt_started c.id) id c.id amount (w.clock c) s.database v in
      elim (Result-cases r) [
        | inr ((x, d), e) ↦ rw (e, FramesTurn) (from_err db r e h)
        | inl ((not_started, d), e) ↦
            rw (e, FramesTurn)
              (skip_attempt-Frames w input.tx_id c.id (record s { database = d })
                (from_ok db r e h))
        | inl ((started o p key, d), e) ↦
            rw (e, FramesTurn)
              (run_attempt-Frames w input id p key amount (record s { database = d })
                (from_ok db r e h))
        | inl ((credential_error p, d), e) ↦
            rw (e, FramesTurn)
              (reject_and_go_on-Frames w id p (text "CREDENTIAL_INVALID") (w.clock p)
                (record s { database = d }) (from_ok db r e h))
      ]

  try_provider-Frames :
      (w : World) (input : OrderInput) (id : ℕ) (c : Provider) (s : Progress)
      → Frame db s.database
      → FramesTurn db (try_provider w input id c s)
  unfolding try_provider
  try_provider-Frames w input id c s v = elim (Option-cases (w.registry c.provider_type)) [
    | inl e ↦ rw (e, FramesTurn) v
    | inr (a, e) ↦
        rw (e, FramesTurn)
          (elim (Option-cases (resolve_energy_amount a input.amount input.minimum_package_amount)) [
            | inl k ↦ rw (k, FramesTurn) v
            | inr (amount, k) ↦
                rw (k, FramesTurn)
                  (attempt_provider-Frames w input id c amount
                    (record s { has_compatible_package = true }) v)
          ])
  ]

  reject_order-Frames :
      (w : World) (id : ℕ) (code : Text) (now : Time) (s : Progress)
      → Frame db s.database
      → FramesRun db (reject_order w id code now s)
  unfolding reject_order
  reject_order-Frames w id code now s v =
      let r = reached w order_refused s.database (reject_without_provider id code now) in
      let h = refuses-Frames db w order_refused id code now s.database v in
      elim (Result-cases r) [
        | inl ((o, d), e) ↦ rw (e, FramesRun, reject_order) (from_ok db r e h)
        | inr ((x, d), e) ↦ rw (e, FramesRun, reject_order) (from_err db r e h)
      ]

  after_loop-Frames :
      (w : World) (input : OrderInput) (id : ℕ) (code : Text) (last : Option Order) (s : Progress)
      → Frame db s.database
      → FramesRun db (after_loop w input id code last s)
  unfolding after_loop
  after_loop-Frames w input id code (some o) s v = v
  after_loop-Frames w input id code none s v =
      let r = read w order_read s.database (get_order_by_tx_id input.tx_id) in
      let h = reads-Frames db w order_read s.database (get_order_by_tx_id input.tx_id) v in
      elim (Result-cases r) [
        | inr ((x, d), e) ↦ rw (e, FramesRun, after_loop) (from_err db r e h)
        | inl ((none, d), e) ↦
            rw (e, FramesRun, after_loop)
              (reject_order-Frames w id code w.end_of_loop (record s { database = d })
                (from_ok db r e h))
        | inl ((some o, d), e) ↦
            rw (e, FramesRun, after_loop)
              (elim (Bool-cases (is_pending o.state)) [
                | inl waiting ↦
                    rw (waiting, FramesRun)
                      (reject_order-Frames w id code w.end_of_loop (record s { database = d })
                        (from_ok db r e h))
                | inr moved ↦
                    rw (moved, FramesRun)
                      (elim (Bool-cases (may_attempt o.state)) [
                        | inl declined ↦ rw (declined, FramesRun, after_loop) (from_ok db r e h)
                        | inr taken ↦ rw (taken, FramesRun, after_loop) (from_ok db r e h)
                      ])
              ])
      ]

  next_turn-Frames :
      (w : World) (input : OrderInput) (id : ℕ) (cs : List Provider)
      → ((next : Progress)
          → Frame db next.database
          → FramesRun db (try_providers w input id cs next))
      → (t : Turn) → FramesTurn db t
      → FramesRun db (elim t [ stop run ↦ run | go_on next ↦ try_providers w input id cs next ])
  next_turn-Frames w input id cs rest (stop run) h = h
  next_turn-Frames w input id cs rest (go_on next) h = rest next h

  try_providers-Frames :
      (w : World) (input : OrderInput) (id : ℕ) (cs : List Provider) (s : Progress)
      → Frame db s.database
      → FramesRun db (try_providers w input id cs s)
  unfolding try_providers finish_order_energy
  try_providers-Frames w input id [] s v = after_loop-Frames w input id _ s.last_rejected s v
  try_providers-Frames w input id (c ∷ cs) s v =
      next_turn-Frames w input id cs (λ next h. try_providers-Frames w input id cs next h)
        (try_provider w input id c s) (try_provider-Frames w input id c s v)

  listed-Frames :
      (w : World) (input : OrderInput) (o : Order)
      (r : Result (StoreError × Database) (List Provider × Database))
      → FramesResult db r
      → FramesRun db (elim r [
        | err (e, d) ↦ thrown (store_error e) d []
        | ok ([], d) ↦
            reject_order w o.id (text "NO_ENABLED_PROVIDER") w.start_of_loop (before_loop o d)
        | ok (c ∷ rest, d) ↦ try_providers w input o.id (c ∷ rest) (before_loop o d)
      ])
  listed-Frames w input o (err (e, d)) v = v
  listed-Frames w input o (ok ([], d)) v = reject_order-Frames w o.id _ w.start_of_loop _ v
  listed-Frames w input o (ok (c ∷ cs, d)) v = try_providers-Frames w input o.id (c ∷ cs) _ v

  run_order-Frames :
      (w : World) (input : OrderInput) (o : Order) (d : Database)
      → Frame db d
      → FramesRun db (run_order w input o d)
  unfolding run_order
  run_order-Frames w input o d v =
      listed-Frames w input o (read w providers_listed d list_enabled_providers)
        (reads-Frames db w providers_listed d list_enabled_providers v)

  resume_order-Frames :
      (w : World) (input : OrderInput) (o : Order) (d : Database)
      → Frame db d
      → FramesRun db (resume_order w input o d)
  unfolding resume_order
  resume_order-Frames w input o d v =
      elim (Bool-cases (
        not (o.receive_address == input.receive_address)
        || not (o.requested_amount == input.amount))) [
          | inl other ↦ rw (other, FramesRun, resume_order) v
          | inr matching ↦
              rw (matching, FramesRun, resume_order)
                (elim (Bool-cases (is_pending o.state)) [
                  | inl waiting ↦ rw (waiting, FramesRun) (run_order-Frames w input o d v)
                  | inr moved ↦ rw (moved, FramesRun) v
                ])
        ]

pub order_energy-Frame :
    (w : World) (input : OrderInput) (db : Database) → Frame db (order_energy w input db).database
unfolding order_energy
order_energy-Frame w input db =
    let begin = begin_order input.tx_id input.receive_address input.amount in
    let r = reached w order_begun db begin in
    let h =
      through-Frames db (w.link order_begun) db (begin db) (same db)
        (λ x d e. begin_order-Frame _ _ _ db d x e) in
    elim (Bool-cases (validate_order_input input)) [
      | inr bad ↦ rw (bad, order_energy) (same db)
      | inl good ↦
          rw (good, order_energy)
            (elim (Result-cases r) [
              | inr ((x, d), e) ↦ rw (e, order_energy) (from_err db r e h)
              | inl ((order_created o, d), e) ↦
                  rw (e, order_energy) (run_order-Frames db w input o d (from_ok db r e h))
              | inl ((order_existing o, d), e) ↦
                  rw (e, order_energy) (resume_order-Frames db w input o d (from_ok db r e h))
            ])
    ]
