-- ===== src/Framing/RoundTrip.antt =====
-- Frames of src/grpc/framing.ts are read back as they were written.
use catfee_io.Base.{
  ℕ, ◌+◌, ◌*◌, ◌/◌, ◌%◌, ◌<◌, ◌≤◌, ◌≡◌, Bool, true, false, List, [], ◌∷◌, arith, length, ◌==◌,
}
use catfee_io.Base.Results.{ok, ◌>>=◌}
use catfee_io.Table.Laws.{All}
use catfee_io.Framing.{GrpcFrame, read_u32, decode_unary_grpc_frame, encode_unary_grpc_frame}

read_u32-bytes :
    (n : ℕ)
    → n < 4_294_967_296
    → read_u32 (n / 16_777_216) (n / 65_536 % 256) (n / 256 % 256) (n % 256) ≡ n
unfolding read_u32
read_u32-bytes n h = omega arith

-- A payload of less than 2^32 bytes, compressed or not, comes back whole from its frame.
pub decode-encode :
    (payload : List ℕ) (c : Bool)
    → length payload < 4_294_967_296
    → (encode_unary_grpc_frame payload c >>= decode_unary_grpc_frame)
      ≡ ok (record { compressed = c; payload = payload })
unfolding encode_unary_grpc_frame decode_unary_grpc_frame
decode-encode payload true h = ground (arith, read_u32-bytes (length payload) h)
decode-encode payload false h = ground (arith, read_u32-bytes (length payload) h)

u32-bytes :
    (a b c d n : ℕ)
    → a < 256
    → b < 256
    → c < 256
    → d < 256
    → a * 16_777_216 + b * 65_536 + c * 256 + d ≡ n
    → (n < 4_294_967_296)
      × (n / 16_777_216 ≡ a)
      × (n / 65_536 % 256 ≡ b)
      × (n / 256 % 256 ≡ c)
      × (n % 256 ≡ d)
u32-bytes a b c d n ha hb hc hd e =
    (omega arith, omega arith, omega arith, omega arith, omega arith)

-- A body of bytes that is accepted as a frame is the one frame of its payload: encoding what was read
-- gives the body back.
pub encode-decode :
    (body : List ℕ) (f : GrpcFrame)
    → All (λ b. b < 256) body
    → decode_unary_grpc_frame body ≡ ok f
    → encode_unary_grpc_frame f.payload f.compressed ≡ ok body
unfolding encode_unary_grpc_frame decode_unary_grpc_frame read_u32
encode-decode (flag ∷ a ∷ b ∷ c ∷ d ∷ payload) f v e =
    let flag_bit : flag ≤ 1 = ground arith in
    let size : a * 16_777_216 + b * 65_536 + c * 256 + d ≡ length payload = ground arith in
    let read : record { compressed = flag == 1; payload = payload } ≡ f = ground arith in
    let bytes = u32-bytes a b c d (length payload) v.1.0 v.1.1.0 v.1.1.1.0 v.1.1.1.1.0 size in
    rw (← read) (ground (arith, bytes))
encode-decode [] f v e = cc
encode-decode (x ∷ []) f v e = cc
encode-decode (x ∷ y ∷ []) f v e = cc
encode-decode (x ∷ y ∷ z ∷ []) f v e = cc
encode-decode (x ∷ y ∷ z ∷ w ∷ []) f v e = cc
