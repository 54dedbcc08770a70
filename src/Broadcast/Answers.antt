-- ===== src/Broadcast/Answers.antt =====
-- The answers that src/broadcast-processor.ts makes itself.
use catfee_io.Base.{ℕ, false, none, some, List, [], ◌∷◌}
use catfee_io.Store.{Text, text}
use catfee_io.Failures.{
  Failure, gateway, paid, return_code, public_message, paid_message, code_text,
}
use catfee_io.Broadcast.{HeaderValue, Response, Wire, several, single}

-- `String(value[0] ?? "0")`, or the one value
abbrev pub value_text : HeaderValue → Text
value_text (single t) = t
value_text (several []) = text "0"
value_text (several (t ∷ _)) = t

-- `readGrpcStatus`
unfoldable pub read_grpc_status : Response → Text
read_grpc_status r = elim r.trailer_status [
  | some v ↦ value_text v
  | none ↦ elim r.header_status [ some v ↦ value_text v | none ↦ text "0" ]
]

abbrev pub cached_response : List ℕ → Text → Response
cached_response body status = record {
  header_status = none;
  body = body;
  trailer_status = some (single status);
}

abbrev pub local_response : Wire → ℕ → Text → Response
local_response w code message =
    cached_response (w.encode_return_frame false code message) (text "0")

-- `normalizeError`: its return code, message and internal code
unfoldable pub returned_code : Failure → ℕ
returned_code (gateway c) = return_code c
returned_code (paid c) = return_code c
returned_code _ = 9

unfoldable pub returned_message : Failure → Text
returned_message (gateway c) = public_message c
returned_message (paid c) = paid_message c
returned_message _ = text "Seamless resource service is temporarily unavailable"

unfoldable pub internal_code : Failure → Text
internal_code (gateway c) = code_text c
internal_code (paid c) = code_text c
internal_code _ = text "INTERNAL_ERROR"

-- `errorResponse`
unfoldable pub error_response : Wire → Failure → Response
error_response w e = local_response w (returned_code e) (returned_message e)
