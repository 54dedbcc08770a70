-- ===== src/Broadcast/Handle.antt =====
-- `handle` and `authorize` of src/broadcast-processor.ts.
use catfee_io.Base.{ℕ, suc, Bool, false, not, List, ◌&&◌, ◌||◌, if◌then◌else◌, []}
use catfee_io.Base.Results.{Result, ok, err}
use catfee_io.Base.Effects.{Effect, return, throw, lift, result_of, when, ◌>>=◌, ◌>>◌}
use catfee_io.Failures.{
  Failure, gateway, other, compressed_request, address_not_bound, energy_preparation_required,
}
use catfee_io.Framing.{GrpcFrame, decode_unary_grpc_frame}
use catfee_io.Gateway.Requests.{Transaction}
use catfee_io.Gateway.Bindings.{get_binding}
use catfee_io.Resources.World.{Session, asks, call, binding_read}
use catfee_io.Broadcast.{
  Config, Wire, Response, Headers, passthrough, observe, sponsor, is_bound_address, is_sponsor,
  validate_transport,
}
use catfee_io.Broadcast.Guards.{
  entry, validate_lifetime, validate_policy, is_trigger, is_sponsorable, is_usable,
}
use catfee_io.Broadcast.Answers.{error_response}
use catfee_io.Broadcast.Sponsor.Whole.{sponsor_and_forward}

-- The body goes upstream as it came.
unfoldable pub pass_on : Wire → Effect Session Failure Response
pass_on w s = (asks w.upstream, record s { forwards = suc s.forwards })

unfoldable pub authorize : Wire → Config → Transaction → Bool → Effect Session Failure (Unit {0})
authorize w c t enforce_in_observe = if not (is_bound_address c.auth_mode) then return tt else do
  b ← call w.node binding_read λ db. ok (get_binding t.owner_address db, db)
  when (not (is_usable b w.entry_time) && (is_sponsor c.mode || enforce_in_observe))
      (throw (gateway address_not_bound))

-- An unreadable frame: decodeUnaryGrpcFrame throws an Error.
abbrev pub frame_of : List ℕ → Result Failure GrpcFrame
frame_of body = elim (decode_unary_grpc_frame body) [
  | ok f ↦ if f.compressed then err (gateway compressed_request) else ok f
  | err e ↦ err (other [])
]

pub record Inspection : Type 0 where
  pub transaction : Transaction
  pub policy_allowed : Bool

-- The second try block.
unfoldable pub inspect_request : Wire → Config → Bool → List ℕ → Effect Session Failure Inspection
unfolding authorize
inspect_request w c enforce body = do
  frame ← lift (frame_of body)
  t ← lift (w.inspect frame.payload)
  lift (validate_lifetime c t entry w.entry_time)
  allowed ← lift (validate_policy w c t)
  authorize w c t enforce
  return (record { transaction = t; policy_allowed = allowed })

-- A contract call whose energy nobody would prepare.
abbrev pub lacks_preparation : Config → Inspection → Bool
lacks_preparation c i =
    is_trigger i.transaction
    && not c.options.allow_owner_energy_burn
    && (not i.policy_allowed || not c.options.sponsor_energy)

-- The mode "sponsor", after the inspection.
unfoldable pub handle_inspected : Wire → Config → Inspection → Effect Session Failure Response
unfolding pass_on
handle_inspected w c i =
    if lacks_preparation c i
    then return (error_response w (gateway energy_preparation_required))
    else if not i.policy_allowed || not (is_sponsorable i.transaction c)
    then pass_on w
    else sponsor_and_forward w c i.transaction

unfoldable pub after_inspection :
    Wire → Config → Result Failure Inspection → Effect Session Failure Response
unfolding handle_inspected
after_inspection w c (err e) = return (error_response w e)
after_inspection w c (ok i) = handle_inspected w c i

-- The mode "observe": what the inspection says counts only where it is enforced, and the estimate of
-- the resources is only logged.
unfoldable pub after_observation :
    Wire → Config → Result Failure Inspection → Effect Session Failure Response
unfolding pass_on
after_observation w c (err e) =
    if c.auth_enforce_in_observe then return (error_response w e) else pass_on w
after_observation w c (ok i) = pass_on w

unfoldable pub handle_sponsor : Wire → Config → Headers → List ℕ → Effect Session Failure Response
unfolding inspect_request after_inspection
handle_sponsor w c h body = elim (validate_transport h) [
  | err e ↦ return (error_response w e)
  | ok _ ↦ result_of (inspect_request w c false body) >>= after_inspection w c
]

unfoldable pub handle : Wire → Config → Headers → List ℕ → Effect Session Failure Response
unfolding pass_on handle_sponsor after_observation inspect_request
handle w c h body = elim c.mode [
  | passthrough ↦ pass_on w
  | sponsor ↦ handle_sponsor w c h body
  | observe ↦
      result_of (inspect_request w c c.auth_enforce_in_observe body) >>= after_observation w c
]
