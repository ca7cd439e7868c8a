-- ===== src/Protocol/Tests.antt =====
-- Runs of the theorems on the protocol package at concrete messages and frames.
use rpcx.Base.{
  ℕ, ◌≡◌, ◌≢◌, refl, ap, arith, [], ◌∷◌, ◌++◌, none, some, Bytes, bytes, bytes_eq, true, ◌==◌,
  length, drop, take, replicate, length-replicate, ◌⊎◌, inl, inr, Bool-cases,
}
use rpcx.Base.Dict.{Distinct, lookup, nat_eq, bytes_eq_inst}
use rpcx.Protocol.Wire.{be32}
use rpcx.Protocol.Slice.{nil_slice}
use rpcx.Protocol.Header.{
  Header, IsHeader, new_header, header_bytes, set_message_type, set_heartbeat, set_oneway,
  set_compress_type, compress_type, set_message_status_type, set_serialize_type, set_seq,
}
use rpcx.Protocol.Header.View.{view, flags_view, set_message_type-view, setters_view}
use rpcx.Protocol.Metadata.{Meta, encode_metadata, decode_metadata, decoded}
use rpcx.Protocol.Metadata.RoundTrip.{decode_metadata-encode_metadata}
use rpcx.Protocol.Message.{
  Message, new_message, Compressor, Compressors, coded, raw_compressor, default_compressors,
}
use rpcx.Protocol.Message.Encode.{compress_payload, encode_slice_pointer}
use rpcx.Protocol.Message.Frame.{field, frame, body, encode_slice_pointer-frame}
use rpcx.Protocol.Message.Write.{Writer, IsBuffer, write_to, write_to-frame, write_to_unsupported}
use rpcx.Protocol.Message.Decode.{
  DecodeError, eof, unexpected_eof, Reader, State, decode, read, returns, out_of_fuel,
}
use rpcx.Protocol.Message.RoundTrip.{at, filled}
use rpcx.Protocol.Message.Fields.{IsLossless, wire_metadata}
use rpcx.Protocol.Message.Exchange.{decode-encode}
use rpcx.Protocol.Message.Ends.{decode_ends}
use rpcx.Protocol.Message.Truncated.{decode_truncated, ends_in}
use rpcx.Protocol.Message.Faults.{read_overlong_path}

abbrev request_header : Header
request_header = record {
  magic = 8;
  version = 0;
  flags = 0x04;
  kind = 0x10;
  seq_bytes = 0 ∷ 0 ∷ 0 ∷ 0 ∷ 0 ∷ 0 ∷ 0 ∷ 9 ∷ [];
}

request_header-IsHeader : IsHeader request_header
request_header-IsHeader = record {
  magic_byte = omega arith;
  version_byte = omega arith;
  flags_byte = omega arith;
  kind_byte = omega arith;
  seq_length = refl;
}

-- A compressor that puts a byte in front.
abbrev tagging : Compressor
tagging = record { zip = λ x. coded (7 ∷ x); unzip = λ z. coded (drop 1 z) }

tagging-IsLossless : IsLossless (default_compressors tagging)
unfolding default_compressors raw_compressor
tagging-IsLossless ct c x z known zipped = elim (Bool-cases (ct == 0)) [
  | inl raw ↦ ground arith
  | inr other ↦ elim (Bool-cases (ct == 1)) [ inl tag ↦ ground arith | inr unknown ↦ ground arith ]
]

abbrev no_compressors : Compressors
no_compressors _ = none

abbrev trace_metadata : Meta
trace_metadata = (bytes "trace", 1 ∷ 2 ∷ []) ∷ (bytes "k", []) ∷ []

trace_metadata-Distinct : Distinct trace_metadata
unfolding lookup bytes_eq
trace_metadata-Distinct = (refl, (refl, tt))

abbrev request : Message
unfolding new_message
request = record new_message {
  header = request_header;
  service_path = bytes "Arith";
  service_method = bytes "Mul";
  metadata = some trace_metadata;
  payload = 6 ∷ 7 ∷ [];
}

abbrev zeros : ℕ → Bytes
zeros n = replicate n 0

length-zeros : (n : ℕ) → length (zeros n) ≡ n
length-zeros n = length-replicate n (let z : ℕ = 0 in z)

abbrev empty_reader : Reader
empty_reader = record { stream = []; final = eof }

abbrev sent_rest : Bytes
unfolding compress_payload default_compressors raw_compressor encode_metadata body
sent_rest =
    body request.service_path request.service_method (encode_metadata trace_metadata)
      (compress_payload (default_compressors tagging) request_header request.payload).1

decode-encode_example :
    decode (default_compressors tagging) 0 new_message (record empty_reader {
      stream = (encode_slice_pointer zeros (default_compressors tagging) request).1 ++ 5 ∷ [];
    })
    ≡ returns none (record {
      msg = record request { data_slice = filled nil_slice sent_rest };
      reader = record empty_reader { stream = 5 ∷ [] };
    })
unfolding compress_payload default_compressors raw_compressor encode_metadata body new_message
    wire_metadata nil_slice new_header request field be32 compress_type
decode-encode_example =
    decode-encode zeros (default_compressors tagging) 0 request new_message empty_reader (5 ∷ [])
      length-zeros tagging-IsLossless request_header-IsHeader refl trace_metadata-Distinct refl refl
      (omega arith) refl

decode_truncated_example :
    (e : DecodeError) × (s : State) × ((e ≡ eof) ⊎ (e ≡ unexpected_eof))
    × (decode no_compressors 0 new_message
          (ends_in (take 17 (header_bytes request_header ++ (be32 2 ++ (5 ∷ 6 ∷ [])))))
        ≡ returns (some e) s)
unfolding new_message new_header
decode_truncated_example =
    decode_truncated no_compressors 0 new_message request_header (5 ∷ 6 ∷ []) 17 refl refl refl
      (omega arith) refl (omega arith)

decode_ends_run :
    decode no_compressors 0 new_message empty_reader
    ≢ out_of_fuel (record { msg = new_message; reader = empty_reader })
decode_ends_run =
    decode_ends no_compressors 0 new_message empty_reader
      (record { msg = new_message; reader = empty_reader })

read_overlong_path_run :
    read no_compressors 0 (record empty_reader {
      stream =
          header_bytes request_header
          ++ (be32 (length (be32 9 ++ (65 ∷ []))) ++ ((be32 9 ++ (65 ∷ [])) ++ []));
    })
    ≡ returns none (
        at empty_reader [] (record new_message {
          header = request_header;
          data_slice = filled nil_slice (be32 9 ++ (65 ∷ []));
        }))
unfolding be32
read_overlong_path_run =
    read_overlong_path no_compressors 0 empty_reader request_header 9 (65 ∷ []) [] refl refl
      (omega arith) (omega arith) (omega arith) refl

decode_metadata-encode_metadata_example :
    decode_metadata
      (length (encode_metadata trace_metadata))
      (record { store = encode_metadata trace_metadata ++ (1 ∷ []); len = 1 })
    ≡ decoded trace_metadata
unfolding encode_metadata be32
decode_metadata-encode_metadata_example =
    decode_metadata-encode_metadata trace_metadata
      (record { store = encode_metadata trace_metadata ++ (1 ∷ []); len = 1 }) (1 ∷ [])
      trace_metadata-Distinct refl (omega arith)

encode_slice_pointer-frame_example :
    encode_slice_pointer zeros (default_compressors tagging) request ≡ (
      request,
      frame request_header
          (bytes "Arith")
          (bytes "Mul")
          (encode_metadata trace_metadata)
          (7 ∷ 6 ∷ 7 ∷ []),
    )
unfolding request compress_payload default_compressors raw_compressor new_message compress_type
encode_slice_pointer-frame_example =
    encode_slice_pointer-frame zeros (default_compressors tagging) request length-zeros refl

abbrev list_writer : Writer Bytes
list_writer = record { write = λ w b. (w ++ b, length b, none) }

list_writer-IsBuffer : IsBuffer list_writer (λ w. w)
list_writer-IsBuffer = record { takes = λ w b. refl; counts = λ w b. refl; succeeds = λ w b. refl }

write_to-frame_example :
    let r = write_to list_writer (default_compressors tagging) request (1 ∷ []) in
    (r.0
      ≡ (1 ∷ [])
        ++ frame request_header
            (bytes "Arith")
            (bytes "Mul")
            (encode_metadata trace_metadata)
            (7 ∷ 6 ∷ 7 ∷ []))
    × (r.1 ≡ 3)
    × (r.2 ≡ none)
unfolding request compress_payload default_compressors raw_compressor new_message compress_type
write_to-frame_example =
    write_to-frame list_writer (λ w. w) list_writer-IsBuffer (default_compressors tagging) request
      (1 ∷ []) request_header-IsHeader refl

cleared : (compress_payload no_compressors request.header request.payload).0 ≢ request.header
unfolding request compress_payload new_message set_compress_type compress_type
cleared p = let z : 0 ≡ 4 = ap (λ (h : Header). h.flags) p in omega (arith, z)

write_to_unsupported_run :
    let r = write_to list_writer no_compressors request [] in
    (r.0 ≡ [] ++ header_bytes request_header) × (r.1 ≡ 12) × (r.2 ≢ none)
unfolding request compress_payload new_message set_compress_type compress_type
write_to_unsupported_run =
    write_to_unsupported list_writer (λ w. w) list_writer-IsBuffer no_compressors request []
      request_header-IsHeader cleared

set_message_type-view_run :
    view (set_message_type 1 request_header)
    ≡ record (view request_header) { flags = record (flags_view request_header) { type_bit = 1 } }
set_message_type-view_run =
    set_message_type-view 1 request_header request_header-IsHeader (omega arith)

setters_view_run :
    let v = view request_header in
    let f = flags_view request_header in
    (view (set_heartbeat true request_header) ≡ record v { flags = record f { heartbeat = true } })
    × (view (set_oneway true request_header) ≡ record v { flags = record f { oneway = true } })
    × (view (set_compress_type 3 request_header) ≡ record v { flags = record f { compress = 3 } })
    × (view (set_message_status_type 1 request_header)
        ≡ record v { flags = record f { status = 1 } })
    × (view (set_serialize_type 4 request_header) ≡ record v { serialize = 4 })
    × (view (set_seq 1234567 request_header) ≡ record v { number = 1234567 })
setters_view_run =
    setters_view request_header true 3 1 4 1234567 request_header-IsHeader (omega arith)
      (omega arith) (omega arith) (omega arith)
