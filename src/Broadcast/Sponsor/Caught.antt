-- ===== src/Broadcast/Sponsor/Caught.antt =====
-- The catch block of `sponsorAndForward` of src/broadcast-processor.ts.
use catfee_io.Base.{Bool, true, false, not, none, some, ◌&&◌, if◌then◌else◌}
use catfee_io.Base.Effects.{return, attempt, ignore, when, ◌>>=◌, ◌>>◌}
use catfee_io.Store.{text, failed}
use catfee_io.Failures.{Failure, gateway, paid, is_insufficient}
use catfee_io.Gateway.Requests.{Transaction, complete_request}
use catfee_io.Gateway.Quota.{consume_quota, release_quota}
use catfee_io.Gateway.Claims.{release_address_claim}
use catfee_io.Gateway.Leases.{schedule_leases_for_release}
use catfee_io.Resources.World.{
  writes, fallback_recorded, quota_consumed, quota_released, claim_released, readiness_kept,
  leases_scheduled, failure_cached,
}
use catfee_io.Broadcast.{Config, Wire, Response, is_reject}
use catfee_io.Broadcast.Guards.{is_trigger}
use catfee_io.Broadcast.Answers.{returned_message, internal_code, error_response}
use catfee_io.Broadcast.Sponsor.{Run, busy, forward, on_session, reads, ready, sets}

abbrev pub is_paid : Failure → Bool
is_paid (paid c) = true
is_paid _ = false

-- The flags, as the first lines of the catch block leave them.
unfoldable pub note_failure : Wire → Transaction → Failure → Run (Unit {0})
note_failure w t e = do
  p ← reads
  when (is_paid e && p.quota_reserved) (do
    sets λ p. record p { retain_address_claim = true }
    ignore (
        on_session (
          writes w.node quota_consumed
            (consume_quota t.owner_address t.tx_id (w.node.now quota_consumed))))
    sets λ p. record p { quota_reserved = false })
  when p.provider_order_may_be_charged
      (sets λ p. record p { retain_address_claim = true; quota_reserved = false })

abbrev pub has_insufficient_code : Failure → Bool
has_insufficient_code (gateway c) = is_insufficient c
has_insufficient_code (paid c) = is_insufficient c
has_insufficient_code _ = false

-- The condition of the fallback broadcast.
abbrev pub may_fall_back : Config → Transaction → Failure → Bool
may_fall_back c t e =
    not (is_reject c.insufficient_policy)
    && has_insufficient_code e
    && not (is_trigger t && not c.options.allow_owner_energy_burn)

-- The address and the quota are given back, where the flags say so.
unfoldable pub give_back : Wire → Transaction → Run (Unit {0})
give_back w t = do
  p ← reads
  when p.quota_reserved (
      ignore (
        on_session (
          writes w.node quota_released
            (release_quota t.owner_address t.tx_id (w.node.now quota_released)))))
  when (p.address_claimed && not p.retain_address_claim) (do
    ignore
        (on_session (writes w.node claim_released (release_address_claim t.owner_address t.tx_id)))
    sets λ p. record p { address_claimed = false })

unfoldable pub keep_ready : Wire → Transaction → Run Response
keep_ready w t = do
  ignore (on_session (ready w t readiness_kept))
  return (busy w (text "Paid resource preparation is being reconciled; retry later"))

unfoldable pub cache_failure : Wire → Config → Transaction → Failure → Run Response
cache_failure w c t e = do
  ignore (
      on_session (
        writes w.node leases_scheduled (
          schedule_leases_for_release t.tx_id c.reclaim_delay_ms none
            (w.node.now leases_scheduled))))
  let response = error_response w e
  ignore (
      on_session (
        writes w.node failure_cached (
          complete_request t.tx_id failed response.body (text "0") (some (internal_code e))
            (some (returned_message e)) (w.node.now failure_cached))))
  return response

-- The end of the catch block for a transaction that was not sent.
unfoldable pub finish_unsent : Wire → Config → Transaction → Failure → Run Response
unfolding give_back keep_ready cache_failure
finish_unsent w c t e = do
  give_back w t
  p ← reads
  if p.created && p.retain_address_claim
      then keep_ready w t
      else if p.created
      then cache_failure w c t e
      else return (error_response w e)

-- The rest of the catch block, from `if (forwardAttempted)` on.
unfoldable pub clean_up : Wire → Config → Transaction → Failure → Run Response
unfolding finish_unsent
clean_up w c t e = do
  p ← reads
  if p.forward_attempted
      then return (busy w (text "Broadcast outcome is being reconciled; retry later"))
      else finish_unsent w c t e

-- The catch block.
unfoldable pub sponsor_catch : Wire → Config → Transaction → Failure → Run Response
unfolding note_failure clean_up forward
sponsor_catch w c t e = do
  note_failure w t e
  if may_fall_back c t e
      then attempt (forward w c t fallback_recorded w.fallback_upstream) (clean_up w c t)
      else clean_up w c t e
