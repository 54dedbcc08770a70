-- ===== src/Resources/Release.antt =====
-- `releaseLease` of src/resource-service.ts: the leased resources are taken back.
pub mod Announced
pub mod Framed
use catfee_io.Base.{◌+◌, Bool, true, false, Option, none, some, ◌∷◌, ltb, if◌then◌else◌}
use catfee_io.Base.Effects.{Effect, return, throw, lift, attempt, ignore, when, ◌>>=◌, ◌>>◌}
use catfee_io.Store.{Lease, TxId, Text, text}
use catfee_io.Failures.{Failure, other}
use catfee_io.Gateway.Leases.{
  mark_lease_undelegate_broadcast, mark_lease_released, mark_lease_without_delegation,
}
use catfee_io.Resources.{Receipt, is_successful_receipt}
use catfee_io.Resources.World.{
  Node, Session, release_forgotten, release_announced, release_done, asks, writes,
}
use catfee_io.Resources.Leasing.{assert_successful_receipt}

-- The lease has nothing to take back.
unfoldable pub forget_lease : Node → Lease → Text → Effect Session Failure Bool
forget_lease n l message = do
  writes n release_forgotten (mark_lease_without_delegation l.id message (n.now release_forgotten))
  return false

-- What follows the look at the delegation's receipt.
unfoldable pub follow_seen : Node → Lease → Option Receipt → Effect Session Failure Bool
unfolding forget_lease
follow_seen n l none =
    if ltb (l.created_at + 600_000) n.release_time
    then forget_lease n l (text "Delegation transaction was never observed")
    else throw (other (text "Delegation transaction is not yet visible"))
follow_seen n l (some r) =
    if is_successful_receipt r
    then return true
    else forget_lease n l (text "Delegation transaction failed")

-- `if (lease.delegateTxId) { … }`. The answer is whether there is something to take back.
unfoldable pub look_for_delegation : Node → Option TxId → Lease → Effect Session Failure Bool
unfolding follow_seen
look_for_delegation n none l = return true
look_for_delegation n (some t) l = lift (asks n.delegation_seen) >>= follow_seen n l

-- The broadcast of the undelegation.
unfoldable pub send_undelegation : Node → TxId → Effect Session Failure (Unit {0})
send_undelegation n t s =
    (asks n.undelegation_sent, record s { undelegations = t ∷ s.undelegations })

-- The first try block, whose catch returns: the answer is whether the run goes on.
unfoldable pub try_to_send : Node → TxId → Effect Session Failure Bool
unfolding send_undelegation
try_to_send n t = attempt (send_undelegation n t >> return true) (λ _. return false)

-- The second try block, whose catch only logs.
unfoldable pub confirm_release : Node → Lease → TxId → Effect Session Failure (Unit {0})
confirm_release n l t = ignore (do
  receipt ← lift (asks n.undelegation_receipt)
  lift (assert_successful_receipt n receipt)
  writes n release_done (mark_lease_released l.id t (n.now release_done)))

unfoldable pub take_back : Node → Lease → Effect Session Failure (Unit {0})
unfolding try_to_send confirm_release
take_back n l = do
  t ← lift (asks n.undelegation)
  writes n release_announced (mark_lease_undelegate_broadcast l.id t (n.now release_announced))
  sent ← try_to_send n t
  when sent (confirm_release n l t)

unfoldable pub release_lease : Node → Lease → Effect Session Failure (Unit {0})
unfolding look_for_delegation take_back
release_lease n l = do
  is_delegated ← look_for_delegation n l.delegate_tx_id l
  when is_delegated (take_back n l)
