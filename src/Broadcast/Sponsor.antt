-- ===== src/Broadcast/Sponsor.antt =====
-- `sponsorAndForward` of src/broadcast-processor.ts: the try block, the catch block and the flags that
-- they share.
pub mod Caught
pub mod Whole
use catfee_io.Base.{ℕ, suc, Bool, true, false, not, Option, none, some, ◌++◌, ◌&&◌, if◌then◌else◌}
use catfee_io.Base.Int.{pos}
use catfee_io.Base.Results.{Result, ok, err}
use catfee_io.Base.Effects.{Effect, return, lift, ignore, ◌>>=◌, ◌>>◌}
use catfee_io.Store.{Text, text, resource_ready, rejected}
use catfee_io.Providers.Settle.{same_text}
use catfee_io.Failures.{Failure, gateway, transaction_ttl_too_short}
use catfee_io.Gateway.Requests.{
  Transaction, BeginResult, begun, cached, in_progress, begin_request, discard_unprepared_request,
  update_requirements, set_request_state, complete_request,
}
use catfee_io.Gateway.Quota.{Outcome, reserve_quota, record_broadcast_outcome}
use catfee_io.Gateway.Claims.{try_acquire_address_claim, release_address_claim}
use catfee_io.Resources.{is_provider}
use catfee_io.Resources.World.{
  Session, Site, asks, call, writes, tries_to, request_begun, claim_acquired, request_discarded,
  quota_taken, claim_given_back, rejection_cached, requirements_updated, request_readied,
  outcome_recorded,
}
use catfee_io.Resources.Requirements.{calculate_requirements}
use catfee_io.Resources.Prepare.{prepare}
use catfee_io.Broadcast.{Config, Wire, Response, Return, is_bound_address}
use catfee_io.Broadcast.Guards.{broadcast, validate_lifetime}
use catfee_io.Broadcast.Answers.{read_grpc_status, cached_response, local_response}

-- The variables of sponsorAndForward, and what it changes outside.
pub record Progress : Type 0 where
  pub session : Session
  pub created : Bool
  pub address_claimed : Bool
  pub retain_address_claim : Bool
  pub quota_reserved : Bool
  pub forward_attempted : Bool
  pub provider_order_may_be_charged : Bool

abbrev pub Run {ℓ} : Type ℓ → Type ℓ
Run A = Effect Progress Failure A

abbrev pub back {ℓ} :
    {A : Type ℓ} → Progress → Result Failure A × Session → Result Failure A × Progress
back p (r, s) = (r, record p { session = s })

-- A call of the repository or of the resource service, which sees no flag.
unfoldable pub on_session {ℓ} : {A : Type ℓ} → Effect Session Failure A → Run A
on_session m p = back p (m p.session)

-- Assignments to the flags.
unfoldable pub sets : (Progress → Progress) → Run (Unit {0})
sets f p = (ok tt, f p)

unfoldable pub reads : Run Progress
reads p = (ok p, p)

abbrev pub busy : Wire → Text → Response
busy w message = local_response w 9 message

-- `TRON_${outcome.code}`
abbrev pub tron_code : Wire → Return → Text
tron_code w m = text "TRON_" ++ w.decimal (pos m.code)

unfoldable pub outcome_of : Wire → Config → Transaction → Response → Return → Outcome
outcome_of w c t r m = record {
  tx_id = t.tx_id;
  owner_address = t.owner_address;
  is_accepted = m.result;
  response = r.body;
  grpc_status = read_grpc_status r;
  reclaim_delay_ms = c.reclaim_delay_ms;
  error_code = if m.result then none else some (tron_code w m);
  error_message = if m.result then none else some m.message;
}

-- `grpcStatus === "0" ? decodeOutcome(upstreamResponse.body) : null`
abbrev pub decoded : Wire → Response → Option Return
decoded w r =
    if same_text (read_grpc_status r) (text "0") then w.decode_return_frame r.body else none

-- What follows an answer of the upstream.
unfoldable pub settle_forward :
    Wire → Config → Transaction → Site → Response → Option Return → Run Response
settle_forward w c t site r none = return r
settle_forward w c t site r (some m) = do
  on_session
      (writes w.node site (record_broadcast_outcome (outcome_of w c t r m) (w.node.now site)))
  sets λ p. record p { address_claimed = m.result; quota_reserved = false }
  return r

-- The call of the upstream. What it has taken is taken, whether or not its answer comes.
abbrev pub counted : Progress → Progress
counted p = record p { session = record p.session { forwards = suc p.session.forwards } }

unfoldable pub sends : Result Text Response → Run Response
sends upstream p = (asks upstream, counted p)

-- `forwardAttempted = true`, and what follows.
unfoldable pub forward : Wire → Config → Transaction → Site → Result Text Response → Run Response
unfolding settle_forward sends
forward w c t site upstream = do
  sets λ p. record p { forward_attempted = true }
  r ← sends upstream
  settle_forward w c t site r (decoded w r)

-- The error that a paid preparation does not mind.
abbrev pub tolerated : Failure → Result Failure (Unit {0})
tolerated (gateway transaction_ttl_too_short) = ok tt
tolerated e = err e

abbrev pub tolerate : Result Failure (Unit {0}) → Result Failure (Unit {0})
tolerate (ok u) = ok u
tolerate (err e) = tolerated e

-- The second check of the lifetime.
unfoldable pub recheck_lifetime : Wire → Config → Transaction → Bool → Result Failure (Unit {0})
recheck_lifetime w c t true = tolerate (validate_lifetime c t broadcast w.broadcast_time)
recheck_lifetime w c t false = validate_lifetime c t broadcast w.broadcast_time

abbrev pub ready : Wire → Transaction → Site → Effect Session Failure (Unit {0})
ready w t site = writes w.node site (set_request_state t.tx_id resource_ready (w.node.now site))

unfoldable pub mark_ready : Wire → Transaction → Bool → Run (Unit {0})
mark_ready w t true = ignore (on_session (ready w t request_readied))
mark_ready w t false = on_session (ready w t request_readied)

-- `if (providerOrderMayBeCharged) { … }` after the preparation
abbrev pub note_charge : Bool → Progress → Progress
note_charge true p = record p {
  provider_order_may_be_charged = true;
  quota_reserved = false;
  retain_address_claim = true;
}
note_charge false p = record p { provider_order_may_be_charged = false }

unfoldable pub prepare_and_forward : Wire → Config → Transaction → Run Response
unfolding forward recheck_lifetime mark_ready
prepare_and_forward w c t = do
  qs ← lift (calculate_requirements w.node c.options t)
  on_session (
      writes w.node requirements_updated
        (update_requirements t.tx_id qs (w.node.now requirements_updated)))
  charged ← on_session (prepare w.node c.options t qs)
  sets (note_charge charged)
  lift (recheck_lifetime w c t charged)
  mark_ready w t charged
  forward w c t outcome_recorded w.upstream

-- `rejectAndCache`
unfoldable pub reject_and_cache : Wire → Transaction → ℕ → Text → Text → Run Response
reject_and_cache w t code message internal = do
  let response = local_response w code message
  on_session (
      writes w.node rejection_cached (
        complete_request t.tx_id rejected response.body (text "0") (some internal) (some message)
          (w.node.now rejection_cached)))
  return response

-- Reserves quota where addresses are bound. The answer is whether the run may go on.
unfoldable pub take_quota : Wire → Config → Transaction → Run Bool
take_quota w c t = if not (is_bound_address c.auth_mode) then return true else do
  taken ← on_session (
      call w.node quota_taken λ db. ok (
        reserve_quota t.owner_address t.tx_id (is_provider c.options.energy_source)
          (w.node.now quota_taken) db))
  sets λ p. record p { quota_reserved = taken }
  return taken

unfoldable pub refuse_quota : Wire → Transaction → Run Response
unfolding reject_and_cache
refuse_quota w t = do
  on_session (writes w.node claim_given_back (release_address_claim t.owner_address t.tx_id))
  sets λ p. record p { address_claimed = false }
  reject_and_cache w t 2 (text "Address quota is exhausted or unavailable")
      (text "QUOTA_UNAVAILABLE")

unfoldable pub refuse_claim : Wire → Transaction → Run Response
refuse_claim w t = do
  on_session (tries_to w.node request_discarded (discard_unprepared_request t.tx_id))
  return (busy w (text "Another transaction for this address is still being finalized"))

-- What follows the claim on the address.
unfoldable pub sponsor_claimed : Wire → Config → Transaction → Bool → Run Response
unfolding take_quota prepare_and_forward refuse_quota refuse_claim
sponsor_claimed w c t false = refuse_claim w t
sponsor_claimed w c t true = do
  may_go_on ← take_quota w c t
  if may_go_on then prepare_and_forward w c t else refuse_quota w t

-- What follows the beginning of the request.
unfoldable pub sponsor_begun : Wire → Config → Transaction → BeginResult → Run Response
unfolding sponsor_claimed
sponsor_begun w c t (cached response status) = return (cached_response response status)
sponsor_begun w c t (in_progress state) =
    return
      (busy w (text "Transaction is already being processed (" ++ (w.state_text state ++ text ")")))
sponsor_begun w c t begun = do
  sets λ p. record p { created = true }
  claimed ←
      on_session (call w.node claim_acquired (try_acquire_address_claim t.owner_address t.tx_id))
  sets λ p. record p { address_claimed = claimed }
  sponsor_claimed w c t claimed

-- The try block.
unfoldable pub sponsor_try : Wire → Config → Transaction → Run Response
unfolding sponsor_begun
sponsor_try w c t = do
  result ←
      on_session
        (call w.node request_begun λ db. ok (begin_request t (w.node.now request_begun) db))
  sponsor_begun w c t result
