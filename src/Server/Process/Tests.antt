-- ===== src/Server/Process/Tests.antt =====
-- Runs of the theorems on the server at one concrete deployment.
use rpcx.Base.{ℕ, true, ◌≡◌, refl, arith, [], ◌∷◌, ◌++◌, none, some, Bytes, bytes, bytes_eq, length}
use rpcx.Base.Dict.{lookup, insert, nat_eq, bytes_eq_inst}
use rpcx.Protocol.Wire.{be32, read_be64}
use rpcx.Protocol.Header.{
  new_header, seq, is_oneway, is_heartbeat, message_status_type, serialize_type, compress_type,
  set_compress_type, set_message_type, set_serialize_type, set_seq, set_message_status_type,
}
use rpcx.Protocol.Metadata.{encode_metadata}
use rpcx.Protocol.Slice.{nil_slice}
use rpcx.Protocol.Message.{Message, new_message, clone}
use rpcx.Protocol.Message.Encode.{compress_payload}
use rpcx.Protocol.Message.Frame.{body, field}
use rpcx.Protocol.Message.Decode.{decode, returns}
use rpcx.Client.Conn.{new_client, service_error, value}
use rpcx.Client.Conn.Response.{handle_response}
use rpcx.Server.Handler.{
  no_service, handle_request, handle_error, answer_to, invoke, conclude, reply_with, service_call,
}
use rpcx.Server.Handler.Answer.{Answered, handle_request-Answered}
use rpcx.Server.Process.{
  compress_as, with_res_metadata, fill_missing, serve_service, process_one_request,
}
use rpcx.Server.Process.Once.{process_one_request-written}
use rpcx.Protocol.Message.{coded}
use rpcx.Protocol.Message.Fields.{wire_metadata}
use rpcx.Client.Conn.Send.{Outgoing, Sender, is_heartbeat_call, request_header, build_request, send}
use rpcx.Client.Conn.Send.Says.{SaysRequest}
use rpcx.Client.Conn.Send.Request.{received, waiting_for, request_arrives}
use rpcx.Server.Process.Rpc.{rpc_returns}
use rpcx.Server.Process.EndToEnd.{call_gets_reply, call_gets_error}
use rpcx.Server.Fixtures.{
  next, byte_codec, zeros, server, length-zeros, no_compressors, no_compressors-IsLossless,
  deployment, request_header-IsHeader, call_of, world, waiting, client_codec, setup, reader,
}

handle_request-Answered_example :
    Answered server (call_of (bytes "Arith")) (handle_request server (call_of (bytes "Arith")) 0)
unfolding call_of
handle_request-Answered_example =
    handle_request-Answered server (call_of (bytes "Arith")) 0 request_header-IsHeader

process_one_request-written_example :
    length (process_one_request deployment (call_of (bytes "Arith")) world).written ≡ 1
unfolding lookup is_heartbeat is_oneway call_of
process_one_request-written_example =
    process_one_request-written deployment (call_of (bytes "Arith")) world (λ _. refl)

abbrev answer : Message
unfolding answer_to clone
answer = record (answer_to server (call_of (bytes "Arith"))) { payload = 42 ∷ [] }

call_gets_reply_run :
    (frame : Bytes) × (got : Message) × ((serve_service deployment
        (call_of (bytes "Arith"))
        world).written
      ≡ [] ++ frame ∷ [])
    × (decode no_compressors 0 new_message (record reader { stream = frame ++ 1 ∷ [] })
        ≡ returns none (record { msg = got; reader = record reader { stream = 1 ∷ [] } }))
    × (let (c', e) = handle_response setup got waiting in
        (e ≡ none) × (c'.reply 9 ≡ some (value 42)) × (c'.error 9 ≡ none) × (c'.done 9 ≡ 1))
unfolding handle_request lookup bytes_eq invoke service_call conclude reply_with answer_to clone
    is_oneway serialize_type message_status_type seq read_be64 with_res_metadata compress_as
    compress_payload body field be32 encode_metadata set_message_type set_compress_type
    compress_type new_message new_client new_header nil_slice call_of waiting
call_gets_reply_run =
    call_gets_reply deployment 0 reader (1 ∷ []) length-zeros no_compressors-IsLossless
      (λ q m e u. refl) setup waiting 9 42 client_codec (call_of (bytes "Arith")) world 1 answer
      refl refl refl request_header-IsHeader refl (refl, tt) (omega arith) refl refl refl refl
      (λ e. cc) refl

abbrev refusal : Message
unfolding answer_to clone handle_error
refusal =
    (handle_error server (answer_to server (call_of (bytes "Nobody"))) (no_service (bytes "Nobody"))
      0).1

call_gets_error_example :
    (frame : Bytes) × (got : Message) × ((serve_service deployment
        (call_of (bytes "Nobody"))
        world).written
      ≡ [] ++ frame ∷ [])
    × (decode no_compressors 0 new_message (record reader { stream = frame ++ 1 ∷ [] })
        ≡ returns none (record { msg = got; reader = record reader { stream = 1 ∷ [] } }))
    × (let (c', e) = handle_response setup got waiting in
        (e ≡ none) × (c'.error 9 ≡ some (service_error (bytes "failed"))) × (c'.done 9 ≡ 1))
unfolding handle_request lookup insert bytes_eq answer_to clone refusal is_oneway handle_error
    message_status_type seq read_be64 with_res_metadata fill_missing compress_as
    set_message_status_type compress_payload body field be32 encode_metadata set_message_type
    set_compress_type compress_type new_message new_client new_header nil_slice call_of waiting
call_gets_error_example =
    call_gets_error deployment 0 reader (1 ∷ []) length-zeros no_compressors-IsLossless
      (λ q m e u. refl) setup waiting 9 (call_of (bytes "Nobody")) world 0 refusal
      (no_service (bytes "Nobody")) (bytes "failed") refl refl request_header-IsHeader refl
      (omega arith) refl refl refl refl (λ m. refl) refl

abbrev sender : Sender ℕ
sender = record {
  serialize_type = 1;
  compress_type = 0;
  codecs = λ _. some (λ a. coded (a ∷ []));
  get = zeros;
  compressors = no_compressors;
  before_encode = λ m. m;
  write = λ b. none;
}

abbrev next_of_41 : Outgoing ℕ
next_of_41 = record {
  service_path = bytes "Arith";
  service_method = bytes "Next";
  metadata = none;
  args = 41;
  has_reply = true;
}

request_arrives_example :
    (frame : Bytes) × (send sender 9 next_of_41 none new_client
      ≡ (waiting_for 9 none new_client, some frame))
    × (decode no_compressors 0 new_message (record reader { stream = frame ++ 1 ∷ [] })
        ≡ returns none (record {
          msg = received sender next_of_41 0 (41 ∷ []);
          reader = record reader { stream = 1 ∷ [] };
        }))
    × SaysRequest 0 true 1 (received sender next_of_41 0 (41 ∷ [])).header
unfolding new_client is_heartbeat_call build_request compress_payload body field be32
    encode_metadata request_header set_message_type new_message new_header lookup compress_type
    set_serialize_type set_seq
request_arrives_example =
    request_arrives sender next_of_41 9 none new_client refl refl {encode = λ a. coded (a ∷ [])}
      refl (41 ∷ []) refl (λ m. refl) (λ b. refl) 0 reader (1 ∷ []) (omega arith) (omega arith)
      (omega arith) length-zeros no_compressors-IsLossless tt (omega arith) refl

rpc_returns_example :
    (frame frame' : Bytes) × (got' : Message) × (send sender 9 next_of_41 none new_client
      ≡ (waiting_for 9 none new_client, some frame))
    × (decode no_compressors 0 new_message (record reader { stream = frame ++ 1 ∷ [] })
        ≡ returns none (record {
          msg = received sender next_of_41 0 (41 ∷ []);
          reader = record reader { stream = 1 ∷ [] };
        }))
    × ((process_one_request deployment (received sender next_of_41 0 (41 ∷ [])) world).written
        ≡ [] ++ frame' ∷ [])
    × (decode no_compressors 0 new_message (record reader { stream = frame' ++ 2 ∷ [] })
        ≡ returns none (record { msg = got'; reader = record reader { stream = 2 ∷ [] } }))
    × (let (c2, e) = handle_response setup got' (waiting_for 9 none new_client) in
        (e ≡ none) × (c2.reply 9 ≡ some (value 42)) × (c2.error 9 ≡ none) × (c2.done 9 ≡ 1))
unfolding new_client is_heartbeat_call build_request compress_payload body field be32
    encode_metadata request_header set_message_type new_message new_header lookup bytes_eq
    with_res_metadata compress_as answer_to clone set_compress_type set_serialize_type set_seq
    compress_type wire_metadata nil_slice
rpc_returns_example =
    rpc_returns sender deployment next_of_41 9 none new_client refl refl refl refl (omega arith)
      (omega arith) (omega arith) {encode = λ a. coded (a ∷ [])} {payload = 41 ∷ []} refl refl
      (λ m. refl) (λ b. refl) length-zeros length-zeros refl no_compressors-IsLossless tt 0 reader
      (1 ∷ []) (omega arith) refl (λ m u. refl) (λ p m a u. refl) (λ p m a v u. refl)
      (λ q m e u. refl) refl {mtype = next} {codec = byte_codec} {sent = 42 ∷ []} refl refl refl
      refl world refl refl (λ e. cc) (refl, tt) 0 reader (2 ∷ []) (omega arith) refl setup refl refl
