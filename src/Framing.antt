-- ===== src/Framing.antt =====
-- src/grpc/framing.ts: the frame of a unary gRPC message, and the scan of a protobuf message for one
-- length-delimited field. A buffer is the list of its bytes.
pub mod RoundTrip
pub mod Scan
pub mod Fields
use catfee_io.Base.{
  ℕ, suc, zero, ◌+◌, ◌*◌, ◌/◌, ◌%◌, ◌^◌, Bool, Option, none, some, List, [], ◌∷◌, ◌==◌, ltb, leb,
  ◌||◌, if◌then◌else◌, is_some, length, take, drop,
}
use catfee_io.Base.Results.{Result, ok, err, ◌>>=◌, ◌>>◌, throw_if}

pub record GrpcFrame : Type 0 where
  pub compressed : Bool
  pub payload : List ℕ

-- The errors that the file throws; `out_of_fuel` is the model's own.
pub data FrameError : Type 0 where
  short_body bad_flag wrong_length out_of_range : FrameError
  bad_varint bad_length truncated bad_wire_type duplicate_field missing_field out_of_fuel :
      FrameError

unfoldable pub read_u32 : ℕ → ℕ → ℕ → ℕ → ℕ
read_u32 a b c d = a * 16_777_216 + b * 65_536 + c * 256 + d

unfoldable pub decode_unary_grpc_frame : List ℕ → Result FrameError GrpcFrame
decode_unary_grpc_frame (flag ∷ a ∷ b ∷ c ∷ d ∷ payload) =
    if ltb 1 flag
    then err bad_flag
    else if read_u32 a b c d == length payload
    then ok (record { compressed = flag == 1; payload = payload })
    else err wrong_length
decode_unary_grpc_frame _ = err short_body

-- `writeUInt32BE` throws from 2^32 on.
unfoldable pub encode_unary_grpc_frame : List ℕ → Bool → Result FrameError (List ℕ)
encode_unary_grpc_frame payload compressed =
    let n = length payload in
    if ltb n 4_294_967_296
    then ok (
        (if compressed then 1 else 0)
        ∷ n / 16_777_216
        ∷ n / 65_536 % 256
        ∷ n / 256 % 256
        ∷ n % 256
        ∷ payload)
    else err out_of_range

-- The loop of readVarint on the bytes from `offset` on. The bits that `|=` sets lie above those of
-- `value`, so it is an addition.
unfoldable pub read_varint_loop : List ℕ → ℕ → ℕ → ℕ → Result FrameError (ℕ × ℕ)
read_varint_loop [] value shift offset = err bad_varint
read_varint_loop (byte ∷ rest) value shift offset =
    let read = value + byte % 128 * 2 ^ shift in
    let more = read_varint_loop rest read (shift + 7) (offset + 1) in
    if leb shift 63 then if ltb byte 128 then ok (read, offset + 1) else more else err bad_varint

unfoldable pub read_varint : List ℕ → ℕ → Result FrameError (ℕ × ℕ)
read_varint buffer start = read_varint_loop (drop start buffer) 0 0 start

unfoldable pub checked_advance : List ℕ → ℕ → ℕ → Result FrameError ℕ
checked_advance buffer offset n =
    if ltb (length buffer) (offset + n) then err truncated else ok (offset + n)

unfoldable pub skip_wire_value : List ℕ → ℕ → ℕ → Result FrameError ℕ
skip_wire_value buffer offset wire_type =
    if wire_type == 0
    then read_varint buffer offset >>= (λ v. ok v.1)
    else if wire_type == 1
    then checked_advance buffer offset 8
    else if wire_type == 5
    then checked_advance buffer offset 4
    else err bad_wire_type

-- The bytes of a length-delimited value, with what was found before it.
unfoldable pub take_field :
    List ℕ → ℕ → ℕ → ℕ → Option (List ℕ) → Result FrameError (ℕ × Option (List ℕ))
take_field message target field offset found = do
  size ← read_varint message offset
  throw_if (ltb 9_007_199_254_740_991 size.0 || ltb (length message) (size.1 + size.0)) bad_length
  if field == target
      then throw_if (is_some found) duplicate_field
        >> ok (size.1 + size.0, some (take size.0 (drop size.1 message)))
      else ok (size.1 + size.0, found)

-- One turn of the loop: the offset after the field, and what is found by then.
unfoldable pub scan_field :
    List ℕ → ℕ → ℕ → Option (List ℕ) → Result FrameError (ℕ × Option (List ℕ))
scan_field message target offset found = do
  tag ← read_varint message offset
  if tag.0 % 8 == 2
      then take_field message target (tag.0 / 8) tag.1 found
      else skip_wire_value message tag.1 (tag.0 % 8) >>= (λ next. ok (next, found))

unfoldable pub scan : ℕ → List ℕ → ℕ → ℕ → Option (List ℕ) → Result FrameError (Option (List ℕ))
scan zero message target offset found =
    if ltb offset (length message) then err out_of_fuel else ok found
scan (suc fuel) message target offset found =
    if ltb offset (length message)
    then scan_field message target offset found >>= (λ next. scan fuel message target next.0 next.1)
    else ok found

abbrev pub found_or_missing : Option (List ℕ) → Result FrameError (List ℕ)
found_or_missing none = err missing_field
found_or_missing (some bytes) = ok bytes

-- Each turn passes one byte at least, so the length of the message is fuel enough.
unfoldable pub extract_length_delimited_field : List ℕ → ℕ → Result FrameError (List ℕ)
extract_length_delimited_field message target =
    scan (length message) message target 0 none >>= found_or_missing
