-- ===== src/Resources/Leasing.antt =====
-- `delegate` of src/resource-service.ts: a resource lease from its creation to its delegation.
use catfee_io.Base.{not, [], ◌∷◌}
use catfee_io.Base.Int.{ltb_ℤ}
use catfee_io.Base.Results.{Result, throw_if}
use catfee_io.Base.Effects.{Effect, return, throw, lift, attempt, ◌>>=◌, ◌>>◌}
use catfee_io.ResourceMath.{ResourceType, energy, bandwidth}
use catfee_io.Store.{Lease, TxId, Text}
use catfee_io.Failures.{
  Failure, gateway, paid, other, out_of_fuel, Code, insufficient_energy, insufficient_bandwidth,
  public_message, paid_message,
}
use catfee_io.Gateway.Requests.{Transaction, Requirement}
use catfee_io.Gateway.Leases.{
  create_lease, mark_lease_delegated, mark_lease_delegate_broadcast, retry_lease_release,
  fail_lease,
}
use catfee_io.Resources.{Options, Receipt, is_successful_receipt}
use catfee_io.Resources.World.{
  Node, Session, lease_created, lease_broadcast, lease_delegated, lease_retried, lease_failed, asks,
  call, writes,
}

-- `errorMessage`
unfoldable pub error_message : Failure → Text
error_message (gateway c) = public_message c
error_message (paid c) = paid_message c
error_message (other m) = m
error_message out_of_fuel = []

abbrev pub insufficient : ResourceType → Code
insufficient energy = insufficient_energy
insufficient bandwidth = insufficient_bandwidth

-- `assertSuccessfulReceipt`, with the message that the node's receipt gives
unfoldable pub assert_successful_receipt : Node → Receipt → Result Failure (Unit {0})
assert_successful_receipt n r =
    throw_if (not (is_successful_receipt r)) (other (n.delegation_message r))

-- node.broadcastTransaction
unfoldable pub send_delegation : Node → ResourceType → TxId → Effect Session Failure (Unit {0})
send_delegation n type t s =
    (asks (n.delegation_sent type), record s { delegations = t ∷ s.delegations })

-- The part of the try block before `broadcastPrepared = true`, with its catch.
unfoldable pub announce_delegation : Node → ResourceType → Lease → Effect Session Failure TxId
announce_delegation n type l =
    attempt
      (do
        t ← lift (asks (n.delegation type))
        writes n (lease_broadcast type)
            (mark_lease_delegate_broadcast l.id t (n.now (lease_broadcast type)))
        return t)
      (λ e. do
        writes n (lease_failed type) (fail_lease l.id (error_message e) (n.now (lease_failed type)))
        throw e)

-- The part after it.
unfoldable pub confirm_delegation :
    Node → ResourceType → Lease → TxId → Effect Session Failure (Unit {0})
unfolding send_delegation
confirm_delegation n type l t =
    attempt
      (do
        send_delegation n type t
        receipt ← lift (asks (n.delegation_receipt type))
        lift (assert_successful_receipt n receipt)
        writes n (lease_delegated type)
            (mark_lease_delegated l.id t (n.now (lease_delegated type))))
      (λ e. do
        writes n (lease_retried type)
            (retry_lease_release l.id (error_message e) (n.now (lease_retried type)))
        throw e)

unfoldable pub delegate :
    Node → Options → Transaction → Requirement → Effect Session Failure (Unit {0})
unfolding announce_delegation confirm_delegation
delegate n o t q = do
  maximum ← lift (asks (n.delegable q.resource_type))
  lift (throw_if (ltb_ℤ maximum q.balance_sun) (gateway (insufficient q.resource_type)))
  l ← call n (lease_created q.resource_type) (
      create_lease
        (record {
          tx_id = t.tx_id;
          resource_type = q.resource_type;
          resource_owner_address = o.resource_owner_address;
          receiver_address = t.owner_address;
          balance_sun = q.balance_sun;
        })
        (n.now (lease_created q.resource_type)))
  delegated ← announce_delegation n q.resource_type l
  confirm_delegation n q.resource_type l delegated
