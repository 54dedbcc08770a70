-- ===== src/Examples/Frames.antt =====
-- A frame, and a message of two fields, on src/grpc/framing.ts.
use catfee_io.Base.{◌≡◌, refl, arith, true, false, none, List, [], ◌∷◌}
use catfee_io.Base.Results.{ok, ◌>>=◌}
use catfee_io.Framing.{
  GrpcFrame, missing_field, encode_unary_grpc_frame, decode_unary_grpc_frame, read_u32,
  extract_length_delimited_field, scan, found_or_missing,
}
use catfee_io.Framing.RoundTrip.{decode-encode, encode-decode}
use catfee_io.Framing.Scan.{is_out_of_fuel, extract_length_delimited_field-terminates}
use catfee_io.Framing.Fields.{Field, encode_fields, collect, extract-encode_fields}

abbrev frame : GrpcFrame
frame = record { compressed = true; payload = 8 ∷ 1 ∷ [] }

decode-encode_example :
    (encode_unary_grpc_frame (8 ∷ 1 ∷ []) true >>= decode_unary_grpc_frame)
    ≡ ok (record { compressed = true; payload = 8 ∷ 1 ∷ [] })
decode-encode_example = decode-encode (8 ∷ 1 ∷ []) true (omega arith)

encode-decode_example :
    encode_unary_grpc_frame (8 ∷ 1 ∷ []) true ≡ ok (1 ∷ 0 ∷ 0 ∷ 0 ∷ 2 ∷ 8 ∷ 1 ∷ [])
unfolding decode_unary_grpc_frame read_u32
encode-decode_example =
    encode-decode (1 ∷ 0 ∷ 0 ∷ 0 ∷ 2 ∷ 8 ∷ 1 ∷ []) frame
      (
        omega arith,
        (
          omega arith,
          (omega arith, (omega arith, (omega arith, (omega arith, (omega arith, tt))))),
        ),
      )
      refl

extract_length_delimited_field-terminates_example : is_out_of_fuel missing_field ≡ false
unfolding extract_length_delimited_field scan
extract_length_delimited_field-terminates_example =
    extract_length_delimited_field-terminates [] 1 missing_field refl

abbrev two_fields : List Field
two_fields =
    record { number = 1; payload = 5 ∷ 6 ∷ [] } ∷ record { number = 2; payload = 7 ∷ [] } ∷ []

extract-encode_fields_example :
    extract_length_delimited_field (encode_fields two_fields) 2
    ≡ (collect 2 two_fields none >>= found_or_missing)
extract-encode_fields_example =
    extract-encode_fields two_fields 2
      ((omega arith, omega arith), ((omega arith, omega arith), tt))

collect_runs : (collect 2 two_fields none >>= found_or_missing) ≡ ok (7 ∷ [])
collect_runs = refl
