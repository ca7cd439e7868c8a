-- ===== src/Server/Conn/Tests.antt =====
-- Runs of the theorems on a connection, at the same deployment.
use rpcx.Base.{
  ℕ, ◌+◌, ◌≤◌, All, ◌≡◌, refl, arith, [], ◌∷◌, ◌++◌, none, some, Bytes, bytes, bytes_eq, false,
  length, replicate, if◌then◌else◌,
}
use rpcx.Base.Dict.{lookup, insert, nat_eq, bytes_eq_inst}
use rpcx.Protocol.Wire.{read_be32, be32, read_be64}
use rpcx.Protocol.Header.{
  new_header, seq, is_oneway, is_heartbeat, message_status_type, compress_type, set_compress_type,
  set_message_type, set_message_status_type,
}
use rpcx.Protocol.Metadata.{encode_metadata}
use rpcx.Protocol.Slice.{nil_slice}
use rpcx.Protocol.Message.{Message, new_message, clone}
use rpcx.Protocol.Message.Encode.{compress_payload}
use rpcx.Protocol.Message.Frame.{body, field}
use rpcx.Protocol.Message.Decode.{Reader, eof, decode, returns}
use rpcx.Client.Conn.{new_client, service_error}
use rpcx.Client.Conn.Response.{handle_response}
use rpcx.Server.Handler.{ServerError, handle_error, answer_to}
use rpcx.Server.Process.{World, compress_as, with_res_metadata, fill_missing}
use rpcx.Server.Fixtures.{
  length-zeros, no_compressors, no_compressors-IsLossless, deployment, request_header,
  request_header-IsHeader, world, waiting, setup, reader,
}
use rpcx.Protocol.Slice.{fill, reslice, allocate}
use rpcx.Protocol.Header.{check_magic_number}
use rpcx.Protocol.Message.Decode.{
  decode_body, decode_start, decode_fill, decode_fields, read_full, put_magic, put_header,
  header_of, put_data, cut, uint32, length_at, string_at, parse_metadata, decompress, ◌>>=◌,
}
use rpcx.Server.Conn.{
  Listener, read_request, read_result, round_of, after_read, admit, AuthFunc, Serving, starts,
  round, serve_round, goes_on, was_read, auth,
}
use rpcx.Server.Conn.Served.{Serving-rounds, Serving-Accepted, Accepted}
use rpcx.Server.Conn.Refused.{authentication, goes, call_gets_refusal}

-- The token has to be the name of the service.
abbrev by_name : AuthFunc ℕ
by_name m token u =
    (u, m, if bytes_eq token m.service_path then none else some (ServerError.failed 3))

abbrev listener : Listener ℕ ℕ
listener = record {
  deployment = deployment;
  auth_func = some by_name;
  is_shutdown = λ _. false;
  max_message_length = 0;
}

-- A heartbeat without a name or metadata: twelve bytes, and sixteen of four empty fields.
abbrev heartbeat_frame : Bytes
heartbeat_frame =
    8
    ∷ 0
    ∷ 64
    ∷ 16
    ∷ 0
    ∷ 0
    ∷ 0
    ∷ 0
    ∷ 0
    ∷ 0
    ∷ 0
    ∷ 5
    ∷ (be32 16 ++ (be32 0 ++ (be32 0 ++ (be32 0 ++ be32 0))))

abbrev source : Reader
source = record { stream = heartbeat_frame; final = eof }

abbrev heartbeat_request : Message
unfolding new_message
heartbeat_request = record new_message {
  header = record request_header { flags = 64 };
  data_slice = record { store = replicate 16 0; len = 16 };
}

abbrev drained : Reader
drained = record { stream = []; final = eof }

read_one : serve_round listener world source ≡ goes_on world drained (some heartbeat_request)
unfolding serve_round read_request read_result round_of after_read admit decode decode_body
    decode_start decode_fill decode_fields read_full put_magic put_header header_of fill put_data
    cut uint32 length_at string_at parse_metadata decompress ◌>>=◌ reslice allocate read_be32
    check_magic_number compress_type is_heartbeat nil_slice new_header be32 new_message
read_one = refl

after_one : Serving listener source world drained (heartbeat_request ∷ []) 1
unfolding be32 new_message
after_one = round (starts world) read_one

Serving-rounds_example : 1 + 0 ≤ length heartbeat_frame
unfolding be32
Serving-rounds_example =
    Serving-rounds listener source drained world (heartbeat_request ∷ []) 1 after_one

Serving-Accepted_example : All (Accepted listener by_name) (heartbeat_request ∷ [])
Serving-Accepted_example =
    Serving-Accepted listener by_name source drained world (heartbeat_request ∷ []) 1 refl after_one

-- No token is good enough.
abbrev closed : AuthFunc ℕ
closed m token u = (u, m, some (ServerError.failed 3))

abbrev guarded : Listener ℕ ℕ
guarded = record listener { auth_func = some closed }

-- The frame of a request without names.
abbrev plain_request : Message
unfolding new_message
plain_request = record new_message {
  header = request_header;
  data_slice = record { store = replicate 16 0; len = 16 };
}

abbrev plain_source : Reader
plain_source = record source {
  stream =
      8
      ∷ 0
      ∷ 0
      ∷ 16
      ∷ 0
      ∷ 0
      ∷ 0
      ∷ 0
      ∷ 0
      ∷ 0
      ∷ 0
      ∷ 5
      ∷ (be32 16 ++ (be32 0 ++ (be32 0 ++ (be32 0 ++ be32 0))));
}

read_plain : read_request guarded 0 plain_source ≡ was_read 0 plain_request none drained
unfolding read_request read_result decode decode_body decode_start decode_fill decode_fields
    read_full put_magic put_header header_of fill put_data cut uint32 length_at string_at
    parse_metadata decompress ◌>>=◌ reslice allocate read_be32 check_magic_number compress_type
    nil_slice new_header be32 new_message
read_plain = refl

call_gets_refusal_example :
    (frame : Bytes) × (got : Message) × (w : World ℕ) × (serve_round guarded world plain_source
      ≡ goes guarded authentication drained w)
    × (w.written ≡ [] ++ frame ∷ [])
    × (decode no_compressors 0 new_message (record reader { stream = frame ++ 1 ∷ [] })
        ≡ returns none (record { msg = got; reader = record reader { stream = 1 ∷ [] } }))
    × (let (c', e) = handle_response setup got waiting in
        (e ≡ none) × (c'.error 9 ≡ some (service_error (bytes "failed"))) × (c'.done 9 ≡ 1))
unfolding auth answer_to clone is_oneway is_heartbeat handle_error message_status_type seq read_be64
    with_res_metadata fill_missing compress_as set_message_status_type compress_payload body field
    be32 encode_metadata set_message_type set_compress_type compress_type new_message new_client
    new_header nil_slice waiting lookup insert bytes_eq
call_gets_refusal_example =
    call_gets_refusal guarded 0 reader (1 ∷ []) length-zeros no_compressors-IsLossless
      (λ q m e u. refl) setup waiting 9 authentication world plain_source drained plain_request
      world (ServerError.failed 3) (bytes "failed") refl read_plain (refl, refl, refl, refl) refl
      request_header-IsHeader refl (omega arith) refl refl refl refl (λ m. refl) refl
