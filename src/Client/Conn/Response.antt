-- ===== src/Client/Conn/Response.antt =====
-- `handleResponse` and `handleServerRequest` of client/client.go.
use rpcx.Base.{
  ℕ, List, [], ◌∷◌, ◌++◌, Option, none, some, Bytes, bytes, Bool, true, false, ◌==◌, ltb, ◌&&◌, not,
  length, if◌then◌else◌,
}
use rpcx.Base.Dict.{lookup, delete, nat_eq, bytes_eq_inst}
use rpcx.Protocol.Header.{
  message_type, is_heartbeat, is_oneway, message_status_type, serialize_type, seq,
}
use rpcx.Protocol.Metadata.{Meta}
use rpcx.Protocol.Message.{Message, entries}
use rpcx.Client.Conn.{
  Client, CallError, service_error, codec_error, response_panic, Reply, value, raw_payload, at,
  set_error, call_done,
}

-- `codec.Decode`: a value for the reply, or an error.
pub data Decoded : Type 0 where
  decoded : ℕ → Decoded
  refused : ℕ → Decoded

-- `share.Codecs`, and `ClientErrorFunc` (none when it is nil).
pub record Setup : Type 0 where
  pub codecs : ℕ → Option (Bytes → Decoded)
  -- `Error()` of an error of a codec.
  pub codec_error_text : ℕ → Bytes
  pub error_func : Option (Message → Bytes → CallError)

abbrev pub service_error_key : Bytes
service_error_key = bytes "__rpcx_error__"

-- A missing key reads as the empty string.
abbrev pub get_string : Bytes → Meta → Bytes
get_string k m = elim (lookup k m) [ none ↦ [] | some v ↦ v ]

abbrev pub is_empty {ℓ} : {A : Type ℓ} → List A → Bool
is_empty [] = true
is_empty (_ ∷ _) = false

-- On a full channel the message is dropped, or, with `BidirectionalBlock`, `input` stands there until
-- somebody reads from the channel.
unfoldable pub handle_server_request : Message → Client → Client
handle_server_request msg c = elim c.server_chan [
  | none ↦ c
  | some ch ↦
      if ch.is_closed
      then record c { server_chan = none }
      else if ltb (length ch.queue) ch.capacity
      then record c { server_chan = some (record ch { queue = ch.queue ++ msg ∷ [] }) }
      else if c.bidirectional_block
      then record c { blocked = some msg }
      else c
]

unfoldable pub is_server_message : Message → Bool
is_server_message res =
    message_type res.header == 0 && (not (is_heartbeat res.header) && is_oneway res.header)

-- The error of a call whose response has the status `Error`.
unfoldable pub response_error : Setup → Message → CallError
response_error setup res =
    let text = get_string service_error_key (entries res.metadata) in
    elim setup.error_func [ none ↦ service_error text | some f ↦ f res text ]

-- `call.ResMetadata, call.Error` of a response with the status `Error`.
unfoldable pub take_error : Setup → Message → ℕ → Client → Client
take_error setup res id c =
    if is_empty (entries res.metadata)
    then c
    else set_error id (response_error setup res)
        (record c { res_metadata = at c.res_metadata id (entries res.metadata) })

unfoldable pub set_reply : ℕ → Reply → Client → Client
set_reply id r c = record c { reply = at c.reply id (some r) }

-- A response with the status `Error`. A raw call reads the error's text: on no error that is a
-- panic, which the deferred function turns into the result.
unfoldable pub error_response : Setup → Message → ℕ → Client → Client × Option CallError
error_response setup res id c0 =
    let c = take_error setup res id c0 in
    if c.raw id
    then elim (c.error id) [
      | none ↦ (set_reply id (raw_payload res.payload) c, some response_panic)
      | some _ ↦ (call_done id (set_reply id (raw_payload res.payload) c), none)
    ]
    else if is_empty res.payload
    then (call_done id c, none)
    else elim (setup.codecs (serialize_type res.header)) [
      | none ↦ (call_done id c, none)
      | some decode ↦ elim (decode res.payload) [
        | decoded v ↦ (call_done id (set_reply id (value v) c), none)
        | refused _ ↦ (call_done id c, none)
      ]
    ]

abbrev set_metadata : Message → ℕ → Client → Client
set_metadata res id c =
    if is_empty (entries res.metadata)
    then c
    else record c { res_metadata = at c.res_metadata id (entries res.metadata) }

-- Any other response to a call.
unfoldable pub normal_response : Setup → Message → ℕ → Client → Client × Option CallError
normal_response setup res id c =
    if c.raw id
    then (call_done id (set_reply id (raw_payload res.payload) c), none)
    else if is_empty res.payload
    then (call_done id (set_metadata res id c), none)
    else elim (setup.codecs (serialize_type res.header)) [
      | none ↦ (
        call_done id
            (set_metadata res id (set_error id (service_error (bytes "unsupported codec")) c)),
        none,
      )
      | some decode ↦ elim (decode res.payload) [
        | decoded v ↦ (call_done id (set_metadata res id (set_reply id (value v) c)), none)
        | refused e ↦ (
          call_done id
              (set_metadata res id (set_error id (service_error (setup.codec_error_text e)) c)),
          some (codec_error e),
        )
      ]
    ]

-- The client, and the error that makes `input` end.
unfoldable pub handle_response : Setup → Message → Client → Client × Option CallError
handle_response setup res c =
    if is_server_message res
    then (handle_server_request res c, none)
    else let n = seq res.header in
      let c' = record c { pending = delete n c.pending } in
      elim (lookup n c.pending) [
        | none ↦ (c', none)
        | some id ↦
            if message_status_type res.header == 1
            then error_response setup res id c'
            else normal_response setup res id c'
      ]
