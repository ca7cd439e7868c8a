-- ===== src/Client/Conn/Input/Tests.antt =====
-- A connection on which the server pushes two messages, and then closes.
use rpcx.Base.{
  Bool, ℕ, ◌+◌, ◌≡◌, refl, arith, [], ◌∷◌, ◌++◌, none, some, Bytes, bytes, length, length-replicate,
  replicate, true, false,
}
use rpcx.Base.Dict.{nat_eq, bytes_eq_inst}
use rpcx.Protocol.Wire.{be32}
use rpcx.Protocol.Header.{
  Header, IsHeader, new_header, compress_type, message_type, is_heartbeat, is_oneway,
}
use rpcx.Protocol.Metadata.{encode_metadata}
use rpcx.Protocol.Slice.{nil_slice}
use rpcx.Protocol.Message.{Message, new_message, Compressors}
use rpcx.Protocol.Message.Encode.{compress_payload, encode_slice_pointer}
use rpcx.Protocol.Message.Frame.{body, field}
use rpcx.Protocol.Message.Decode.{Reader, eof}
use rpcx.Protocol.Message.RoundTrip.{filled}
use rpcx.Protocol.Message.Fields.{IsLossless, wire_metadata}
use rpcx.Protocol.Message.Exchange.{decode-encode}
use rpcx.Client.Conn.{
  Client, Chan, unexpected_eof, shut_down, new_client, register, call_done, set_error,
}
use rpcx.Client.Conn.Response.{decoded, handle_server_request, is_server_message}
use rpcx.Client.Conn.Input.{Receiving, input_loop, input}
use rpcx.Client.Conn.Input.Ends.{input_ends}
use rpcx.Client.Conn.Input.Order.{Frames, done, frame, with_queue, pushes_in_order}

abbrev no_compressors : Compressors
no_compressors _ = none

no_compressors-IsLossless : IsLossless no_compressors
no_compressors-IsLossless ct c x z known e = cc

abbrev zeros : ℕ → Bytes
zeros n = replicate n 0

abbrev receiving : Receiving
receiving = record {
  setup = record {
    codecs = λ _. some (λ b. decoded (length b));
    codec_error_text = λ _. bytes "codec";
    error_func = none;
  };
  compressors = no_compressors;
  max_message_length = 0;
  read_error = λ _. unexpected_eof;
  error_text = λ _. bytes "EOF";
  address = bytes "a";
}

abbrev push_header : Header
unfolding new_header
push_header = record new_header { flags = 0x20 }

push_header-IsHeader : IsHeader push_header
unfolding push_header new_header
push_header-IsHeader = record {
  magic_byte = omega arith;
  version_byte = omega arith;
  flags_byte = omega arith;
  kind_byte = omega arith;
  seq_length = refl;
}

abbrev push : ℕ → Message
unfolding push_header new_header new_message
push b = record new_message { header = push_header; payload = b ∷ [] }

abbrev channel : Chan
channel = record { capacity = 2; queue = []; is_closed = false }

abbrev client : Client
unfolding new_client
client = record new_client { server_chan = some channel; bidirectional_block = true }

-- Without `BidirectionalBlock`, and with a channel that has no room.
abbrev dropping : Client
unfolding new_client
dropping = record new_client { server_chan = some (record channel { capacity = 0 }) }

abbrev ended : Reader
ended = record { stream = []; final = eof }

abbrev frame_of : ℕ → Bytes
frame_of b = (encode_slice_pointer zeros no_compressors (push b)).1

abbrev stream : Bytes
stream = frame_of 7 ++ (frame_of 8 ++ [])

abbrev got : ℕ → Message
unfolding push push_header new_header new_message nil_slice filled
got b = record (push b) {
  data_slice = filled new_message.data_slice (body [] [] (encode_metadata []) (b ∷ []));
}

pushed : Frames receiving ended (record ended { stream = stream }) (got 7 ∷ got 8 ∷ [])
unfolding push push_header new_header new_message nil_slice got filled compress_payload
    compress_type body field be32 encode_metadata wire_metadata
pushed =
    frame _
      (decode-encode zeros no_compressors 0 (push 7) new_message ended (frame_of 8 ++ [])
        (λ n. length-replicate n (let z : ℕ = 0 in z)) no_compressors-IsLossless
        push_header-IsHeader refl tt refl refl (omega arith) refl)
      (frame _
        (decode-encode zeros no_compressors 0 (push 8) new_message ended []
          (λ n. length-replicate n (let z : ℕ = 0 in z)) no_compressors-IsLossless
          push_header-IsHeader refl tt refl refl (omega arith) refl)
        done)

pushes_in_order_example :
    input_loop receiving (2 + 5) (record ended { stream = stream }) client
    ≡ input_loop receiving 5 ended (with_queue client channel ([] ++ got 7 ∷ got 8 ∷ []))
unfolding client new_client is_server_message message_type is_heartbeat is_oneway got push
    push_header new_header new_message
pushes_in_order_example =
    pushes_in_order receiving pushed client channel 5 (refl, (refl, tt)) refl refl (omega arith)
      refl

input_ends_example :
    (c : Client) × (input receiving 1 ended dropping ≡ some c)
    × ((id : ℕ) (codec : Bool) → register id codec c ≡ call_done id (set_error id shut_down c))
unfolding new_client
input_ends_example = input_ends receiving 1 ended dropping (omega arith) refl refl

-- With `BidirectionalBlock` the loop stands at the second message where the channel has room for one.
abbrev narrow : Client
unfolding new_client
narrow = with_queue client (record channel { capacity = 1 }) (got 7 ∷ [])

full_stands : handle_server_request (got 8) narrow ≡ record narrow { blocked = some (got 8) }
unfolding handle_server_request new_client
full_stands = refl
