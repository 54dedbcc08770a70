-- ===== src/Broadcast.antt =====
-- src/broadcast-processor.ts: the configuration that it reads, its guards, and the answers that it makes
-- up itself. The protobuf library and the upstream are parameters, as fields of `Wire`.
pub mod Guards
pub mod Answers
pub mod Sponsor
mod Flags
pub mod Open
pub mod Handle
pub mod Lifetime
pub mod Books
pub mod Refines
pub mod Charged
pub mod EnergyAlone
pub mod Retained
use catfee_io.Base.{
  ℕ, ◌+◌, ◌-◌, Bool, true, false, not, Option, none, some, List, ◌∷◌, ◌++◌, ◌==◌, ◌&&◌, ◌||◌,
  if◌then◌else◌,
}
use catfee_io.Base.Strings.{lower_case, trim_start, trim_end}
use catfee_io.Base.Int.{ℤ, ◌+ℤ◌, ◌-ℤ◌}
use catfee_io.Base.Results.{Result, ◌>>=◌, ◌>>◌, throw_if}
use catfee_io.Store.{Address, Text, Time, text, RequestState}
use catfee_io.Providers.Settle.{same_text}
use catfee_io.Failures.{Failure, gateway, invalid_broadcast_transport}
use catfee_io.Gateway.Requests.{Transaction}
use catfee_io.Resources.{Options}
use catfee_io.Resources.World.{Node}

pub data Mode : Type 0 where
  passthrough observe sponsor : Mode

pub data AuthMode : Type 0 where
  no_auth bound_address : AuthMode

pub data Policy : Type 0 where
  forward_policy reject_policy : Policy

-- The part of `AppConfig` that the processor reads. `options` are the values that the resource service
-- is constructed with, from the same configuration.
pub record Config : Type 0 where
  pub mode : Mode
  pub auth_mode : AuthMode
  pub auth_enforce_in_observe : Bool
  pub allowed_contracts : List Address
  pub allowed_selectors : List Text
  pub unsupported_policy : Policy
  pub insufficient_policy : Policy
  pub max_transaction_ttl_ms : ℕ
  pub max_transaction_age_ms : ℕ
  pub max_transaction_future_skew_ms : ℕ
  pub reclaim_delay_ms : ℕ
  pub options : Options

abbrev pub is_sponsor : Mode → Bool
is_sponsor sponsor = true
is_sponsor _ = false

abbrev pub is_bound_address : AuthMode → Bool
is_bound_address bound_address = true
is_bound_address no_auth = false

abbrev pub is_reject : Policy → Bool
is_reject reject_policy = true
is_reject forward_policy = false

-- The headers that are read: the method, and the content type where it is one text.
pub record Headers : Type 0 where
  pub method : Option Text
  pub content_type : Option Text

-- A header or trailer: one value, or several.
pub data HeaderValue : Type 0 where
  single : Text → HeaderValue
  several : List Text → HeaderValue

-- `RawGrpcResponse`, with the status where it stands.
pub record Response : Type 0 where
  pub header_status : Option HeaderValue
  pub body : List ℕ
  pub trailer_status : Option HeaderValue

-- What decodeReturnFrame reads.
pub record Return : Type 0 where
  pub result : Bool
  pub code : ℕ
  pub message : Text

-- The message codec, the inspection of the bytes, the upstream and the clock of one request.
pub record Wire : Type 0 where
  pub encode_return_frame : Bool → ℕ → Text → List ℕ
  pub decode_return_frame : List ℕ → Option Return
  pub decimal : ℤ → Text
  pub state_text : Option RequestState → Text
  pub inspect : List ℕ → Result Failure Transaction
  pub upstream : Result Text Response
  pub fallback_upstream : Result Text Response
  pub entry_time : Time
  pub broadcast_time : Time
  pub node : Node

-- /^application\/grpc(?:\+proto)?$/i.test(contentType.trim())
unfoldable pub is_grpc : Text → Bool
is_grpc t =
    let value = lower_case (trim_end (trim_start t)) in
    same_text value (text "application/grpc") || same_text value (text "application/grpc+proto")

abbrev pub is_post : Option Text → Bool
is_post none = false
is_post (some m) = same_text m (text "POST")

abbrev pub is_grpc_type : Option Text → Bool
is_grpc_type none = false
is_grpc_type (some t) = is_grpc t

-- `validateSponsoredBroadcastTransport`
unfoldable pub validate_transport : Headers → Result Failure (Unit {0})
validate_transport h =
    throw_if (not (is_post h.method) || not (is_grpc_type h.content_type))
      (gateway invalid_broadcast_transport)
