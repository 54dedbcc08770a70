-- ===== src/Workers.antt =====
-- src/workers.ts: one iteration of the confirmation loop and of the reclaim loop. The loops run while the
-- mode is "sponsor"; their timers are left out.
pub mod Books
pub mod Led
pub mod Decided
pub mod Recovery
use catfee_io.Base.{
  ℕ, ◌+◌, Bool, true, false, not, Option, none, some, List, [], ◌∷◌, ltb, ◌&&◌, ◌||◌, if◌then◌else◌,
  is_some,
}
use catfee_io.Base.Int.{ℤ, pos, ◌+ℤ◌, ltb_ℤ}
use catfee_io.Base.Results.{Result, ok}
use catfee_io.Base.Effects.{Effect, return, lift, attempt, ignore, when, ◌>>=◌, ◌>>◌}
use catfee_io.Store.{Request, Lease, TxId, Text, Time, text}
use catfee_io.Failures.{Failure}
use catfee_io.Gateway.Requests.{list_stale_requests, list_requests_awaiting_finality}
use catfee_io.Gateway.Claims.{release_terminal_address_claims}
use catfee_io.Gateway.Leases.{
  mark_lease_released, retry_lease_release, claim_lease_for_release, list_release_broadcasts,
  list_leases_ready_to_release,
}
use catfee_io.Gateway.Receipts.{ReceiptResponse, summarize_solidified_receipt}
use catfee_io.Gateway.Quota.{Outcome, record_broadcast_outcome, mark_finalized, expire_request}
use catfee_io.Resources.{Receipt, is_successful_receipt}
use catfee_io.Resources.World.{
  Node, Session, claims_swept, stale_listed, awaiting_listed, broadcasts_listed, leases_listed,
  stale_recorded, request_finalized, request_expired, lease_reconciled, lease_requeued,
  lease_claimed, lease_put_back, asks, call, writes, tries_to,
}
use catfee_io.Resources.Leasing.{error_message}
use catfee_io.Resources.Release.{release_lease}

-- A solidified receipt: what the test of its success reads, and what is stored of it.
pub record Solidified : Type 0 where
  pub receipt : Receipt
  pub response : ReceiptResponse

-- The surroundings of one iteration. `node` answers the calls that belong to no row, and
-- `node_of_lease` what the release of that lease asks. The two frames are what encodeReturnFrame gives.
pub record Watch : Type 0 where
  pub node : Node
  pub node_of_lease : ℕ → Node
  pub worker_time : ℕ → Time
  pub full_node_receipt : TxId → Result Text (Option Receipt)
  pub solidified_receipt : TxId → Result Text (Option Solidified)
  pub to_upper_case : Text → Text
  pub reclaim_delay_ms : ℕ
  pub accepted_frame : List ℕ
  pub expired_frame : List ℕ

-- `Date.now() > Number(request.expirationMs) + grace`
abbrev pub is_past : Watch → Request → ℕ → Bool
is_past w r grace = ltb_ℤ (r.expiration_ms +ℤ pos grace) (pos (w.worker_time r.tx_id))

-- What recordBroadcastOutcome is given for a stale request.
unfoldable pub recovered : Watch → Request → Bool → Outcome
recovered w r accepted = record {
  tx_id = r.tx_id;
  owner_address = r.owner_address;
  is_accepted = accepted;
  response = if accepted then w.accepted_frame else w.expired_frame;
  grpc_status = text "0";
  reclaim_delay_ms = w.reclaim_delay_ms;
  error_code = none;
  error_message = none;
}

unfoldable pub record_recovery : Watch → Request → Bool → Effect Session Failure (Unit {0})
unfolding recovered
record_recovery w r accepted =
    writes w.node (stale_recorded r.tx_id)
      (record_broadcast_outcome (recovered w r accepted) (w.node.now (stale_recorded r.tx_id)))

unfoldable pub follow_receipt : Watch → Request → Option Receipt → Effect Session Failure (Unit {0})
unfolding record_recovery
follow_receipt w r (some receipt) = record_recovery w r true
follow_receipt w r none = when (is_past w r 120_000) (record_recovery w r false)

-- The first loop, over the stale requests.
unfoldable pub recover_all : Watch → List Request → Effect Session Failure (Unit {0})
unfolding follow_receipt
recover_all w [] = return tt
recover_all w (r ∷ rs) = lift (asks (w.full_node_receipt r.tx_id)) >>= λ receipt.
    follow_receipt w r receipt >> recover_all w rs

unfoldable pub follow_solidified :
    Watch → Request → Option Solidified → Effect Session Failure (Unit {0})
follow_solidified w r (some s) =
    let success = is_successful_receipt s.receipt in
    let summary = summarize_solidified_receipt w.to_upper_case s.response success in
    tries_to w.node (request_finalized r.tx_id) (
      mark_finalized r.tx_id success w.reclaim_delay_ms summary.0 summary.1
        (w.node.now (request_finalized r.tx_id)))
follow_solidified w r none = when (is_past w r 600_000) (
    writes w.node (request_expired r.tx_id)
      (expire_request r.tx_id w.reclaim_delay_ms (w.node.now (request_expired r.tx_id))))

-- The second loop, over the requests that await finality.
unfoldable pub finalize_all : Watch → List Request → Effect Session Failure (Unit {0})
unfolding follow_solidified
finalize_all w [] = return tt
finalize_all w (r ∷ rs) = lift (asks (w.solidified_receipt r.tx_id)) >>= λ receipt.
    follow_solidified w r receipt >> finalize_all w rs

-- The try block of the confirmation loop.
unfoldable pub confirm_turn : Watch → Effect Session Failure (Unit {0})
unfolding recover_all finalize_all
confirm_turn w = do
  swept ← call w.node claims_swept λ db. ok (release_terminal_address_claims db)
  stale ←
      call w.node stale_listed λ db. ok (list_stale_requests (w.node.now stale_listed) 50 db, db)
  recover_all w stale
  awaiting ← call w.node awaiting_listed λ db. ok (list_requests_awaiting_finality 50 db, db)
  finalize_all w awaiting

-- One iteration: what it throws is only logged.
unfoldable pub confirmation_loop : Watch → Effect Session Failure (Unit {0})
unfolding confirm_turn
confirmation_loop w = ignore (confirm_turn w)

-- `receipt && successfulReceipt(receipt)`
abbrev pub is_done : Option Receipt → Bool
is_done none = false
is_done (some r) = is_successful_receipt r

unfoldable pub follow_undelegation :
    Watch → Lease → TxId → Option Receipt → Effect Session Failure (Unit {0})
follow_undelegation w l t receipt =
    if is_done receipt
    then writes w.node (lease_reconciled l.id)
        (mark_lease_released l.id t (w.node.now (lease_reconciled l.id)))
    else when (is_some receipt || ltb (l.updated_at + 180_000) (w.worker_time l.id)) (
        writes w.node (lease_requeued l.id) (
          retry_lease_release l.id
            (if is_some receipt
              then text "Undelegation transaction failed"
              else text "Undelegation transaction was not observed before expiry")
            (w.node.now (lease_requeued l.id))))

unfoldable pub reconcile : Watch → Lease → Option TxId → Effect Session Failure (Unit {0})
unfolding follow_undelegation
reconcile w l none = return tt
reconcile w l (some t) = lift (asks (w.full_node_receipt t)) >>= follow_undelegation w l t

-- The first loop of the reclaim loop.
unfoldable pub reconcile_all : Watch → List Lease → Effect Session Failure (Unit {0})
unfolding reconcile
reconcile_all w [] = return tt
reconcile_all w (l ∷ ls) = reconcile w l l.undelegate_tx_id >> reconcile_all w ls

-- The inner try block, with its catch block.
unfoldable pub try_release : Watch → Lease → Effect Session Failure (Unit {0})
try_release w l = attempt (release_lease (w.node_of_lease l.id) l) (λ e.
    writes w.node (lease_put_back l.id)
      (retry_lease_release l.id (error_message e) (w.node.now (lease_put_back l.id))))

unfoldable pub release_claimed : Watch → Lease → Effect Session Failure (Unit {0})
unfolding try_release
release_claimed w l = do
  claimed ←
      call w.node (lease_claimed l.id)
        λ db. ok (claim_lease_for_release l.id (w.node.now (lease_claimed l.id)) db)
  when claimed (try_release w l)

-- The second loop.
unfoldable pub release_all : Watch → List Lease → Effect Session Failure (Unit {0})
unfolding release_claimed
release_all w [] = return tt
release_all w (l ∷ ls) = release_claimed w l >> release_all w ls

unfoldable pub reclaim_turn : Watch → Effect Session Failure (Unit {0})
unfolding reconcile_all release_all
reclaim_turn w = do
  broadcasts ← call w.node broadcasts_listed λ db. ok (list_release_broadcasts 20 db, db)
  reconcile_all w broadcasts
  leases ←
      call w.node leases_listed
        λ db. ok (list_leases_ready_to_release (w.node.now leases_listed) 20 db, db)
  release_all w leases

unfoldable pub reclaim_loop : Watch → Effect Session Failure (Unit {0})
unfolding reclaim_turn
reclaim_loop w = ignore (reclaim_turn w)
