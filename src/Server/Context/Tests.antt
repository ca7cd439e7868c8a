-- ===== src/Server/Context/Tests.antt =====
-- The answers of a context at one concrete deployment.
use rpcx.Base.{◌≡◌, refl, arith, [], ◌∷◌, ◌++◌, none, some, Bytes, bytes, bytes_eq}
use rpcx.Base.Dict.{lookup, insert, nat_eq, bytes_eq_inst}
use rpcx.Protocol.Wire.{be32, read_be64}
use rpcx.Protocol.Header.{
  new_header, seq, is_oneway, message_status_type, serialize_type, compress_type, set_compress_type,
  set_message_type, set_message_status_type,
}
use rpcx.Protocol.Metadata.{Meta, encode_metadata}
use rpcx.Protocol.Slice.{nil_slice}
use rpcx.Protocol.Message.{Message, new_message, clone}
use rpcx.Protocol.Message.Encode.{compress_payload}
use rpcx.Protocol.Message.Frame.{body, field}
use rpcx.Protocol.Message.Decode.{decode, returns}
use rpcx.Client.Conn.{new_client, service_error, value}
use rpcx.Client.Conn.Response.{service_error_key, handle_response}
use rpcx.Server.Handler.{answer_to}
use rpcx.Server.Process.{compress_as}
use rpcx.Server.Context.{Context, wrote, panics, new_context, payload_for, write, write_error}
use rpcx.Server.Context.Answers.{map_of, write_error_panics, write_error_reaches, write_reaches}
use rpcx.Server.Fixtures.{
  length-zeros, no_compressors, no_compressors-IsLossless, deployment, byte_codec,
  request_header-IsHeader, call_of, waiting, client_codec, setup, reader,
}

abbrev request : Message
unfolding call_of
request = call_of (bytes "Arith")

abbrev meta : Meta
meta = (bytes "k", bytes "v") ∷ []

abbrev context : Context
unfolding new_context
context = new_context (some (some meta))

abbrev bare : Context
unfolding new_context
bare = new_context none

write_error_panics_run :
    (map_of bare.res_metadata ≡ none
      → write_error deployment (bytes "failed") request bare ≡ panics)
    × (write_error deployment (bytes "failed") request bare ≡ panics
        → map_of bare.res_metadata ≡ none)
unfolding is_oneway serialize_type call_of
write_error_panics_run =
    write_error_panics deployment request request_header-IsHeader bare refl {codec = byte_codec}
      refl (bytes "failed")

write_error_reaches_example :
    (frame : Bytes) × (got : Message) × (write_error deployment (bytes "failed") request context
      ≡ wrote
          (record context {
            written = [] ++ frame ∷ [];
            res_metadata = some (some (insert service_error_key (bytes "failed") meta));
          })
          none)
    × (decode no_compressors 0 new_message (record reader { stream = frame ++ 1 ∷ [] })
        ≡ returns none (record { msg = got; reader = record reader { stream = 1 ∷ [] } }))
    × (let (c', e) = handle_response setup got waiting in
        (e ≡ none) × (c'.error 9 ≡ some (service_error (bytes "failed"))) × (c'.done 9 ≡ 1))
unfolding lookup insert bytes_eq answer_to clone is_oneway serialize_type message_status_type seq
    read_be64 set_message_status_type compress_payload body field be32 encode_metadata
    set_message_type set_compress_type compress_type new_message new_client new_header nil_slice
    call_of waiting new_context
write_error_reaches_example =
    write_error_reaches deployment request request_header-IsHeader context refl {codec = byte_codec}
      refl 0 reader (1 ∷ []) length-zeros no_compressors-IsLossless refl setup waiting 9 refl refl
      (bytes "failed") meta refl (refl, tt) (omega arith) refl refl

write_reaches_run :
    (frame : Bytes) × (got : Message) × (write deployment (λ f. none) (some 42) request context
      ≡ (record context { written = [] ++ frame ∷ [] }, none))
    × (decode no_compressors 0 new_message (record reader { stream = frame ++ 1 ∷ [] })
        ≡ returns none (record { msg = got; reader = record reader { stream = 1 ∷ [] } }))
    × (let (c', e) = handle_response setup got waiting in
        (e ≡ none) × (c'.reply 9 ≡ some (value 42)) × (c'.error 9 ≡ none) × (c'.done 9 ≡ 1))
unfolding lookup insert bytes_eq answer_to clone is_oneway serialize_type message_status_type seq
    read_be64 compress_as compress_payload body field be32 encode_metadata payload_for
    set_message_type set_compress_type compress_type new_message new_client new_header nil_slice
    call_of waiting new_context
write_reaches_run =
    write_reaches deployment request request_header-IsHeader context refl {codec = byte_codec} refl
      0 reader (1 ∷ []) length-zeros no_compressors-IsLossless refl setup waiting 9 refl refl
      (λ f. none) (some 42) (42 ∷ []) client_codec 42 refl refl (refl, tt) (omega arith) refl refl
      (λ e. cc) refl
