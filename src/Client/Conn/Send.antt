-- ===== src/Client/Conn/Send.antt =====
-- `send` of client/client.go from its head to its end, for a call that no other section meets on the
-- way (`Client.Conn.Events` has those). The plugins may change the message; what they return is not
-- looked at. The deadline of an idle connection is left out.
pub mod Says
pub mod Request
use rpcx.Base.{
  ℕ, ◌≡◌, [], Option, none, some, Bytes, Bool, true, false, ◌==◌, ltb, ◌||◌, ◌&&◌, not, length,
  if◌then◌else◌,
}
use rpcx.Protocol.Header.{
  Header, new_header, is_oneway, set_message_type, set_seq, set_oneway, set_heartbeat,
  set_serialize_type, set_compress_type,
}
use rpcx.Protocol.Metadata.{Meta}
use rpcx.Protocol.Message.{Message, new_message, Compressors, Coded, coded, failed}
use rpcx.Protocol.Message.Encode.{encode_slice_pointer}
use rpcx.Client.Conn.{
  Client, codec_error, network_error, register, publish, encode_fails, write_fails, oneway_sent,
}
use rpcx.Client.Conn.Response.{is_empty}

-- What `send` reads of a `Call`; `has_reply` tells whether its `Reply` is not nil.
pub record Outgoing (A : Type 0) : Type 0 where
  pub service_path : Bytes
  pub service_method : Bytes
  pub metadata : Option Meta
  pub args : A
  pub has_reply : Bool

-- The options of a client, `share.Codecs`, the pool of buffers and the compressors, what the plugins
-- make of a message, and what `Conn.Write` says of a frame.
pub record Sender (A : Type 0) : Type 0 where
  pub serialize_type : ℕ
  pub compress_type : ℕ
  pub codecs : ℕ → Option (A → Coded)
  pub get : ℕ → Bytes
  pub compressors : Compressors
  pub before_encode : Message → Message
  pub write : Bytes → Option ℕ

abbrev pub msg_pack : ℕ
msg_pack = 3

unfoldable pub is_heartbeat_call : {A : Type 0} → Outgoing A → Bool
is_heartbeat_call call = is_empty call.service_path && is_empty call.service_method

-- The header of a request, before the payload is looked at.
unfoldable pub request_header : ℕ → Bool → Bool → ℕ → Header
request_header n has_reply heartbeat st =
    let h = set_seq n (set_message_type 0 new_header) in
    let h1 = if has_reply then h else set_oneway true h in
    if heartbeat
    then set_serialize_type msg_pack (set_heartbeat true h1)
    else set_serialize_type st h1

module _ {A : Type 0} (s : Sender A) where
  unfoldable pub build_request : ℕ → Outgoing A → Bytes → Message
  build_request n call payload =
      let h = request_header n call.has_reply (is_heartbeat_call call) s.serialize_type in
      record new_message {
        header =
            if ltb 1024 (length payload) && not (s.compress_type == 0)
            then set_compress_type s.compress_type h
            else h;
        service_path = call.service_path;
        service_method = call.service_method;
        metadata = call.metadata;
        payload = payload;
      }

  -- Behind the encoding of the arguments: the client, and the frame that was written.
  unfoldable pub write_request : ℕ → ℕ → Message → Client → Client × Option Bytes
  write_request n id req c =
      let (m, frame) = encode_slice_pointer s.get s.compressors req in
      elim (s.write frame) [
        | some e ↦ (write_fails n (network_error e) c, none)
        | none ↦ (if is_oneway m.header then oneway_sent n c else c, some frame)
      ]

  -- `send` of the call `id`, which knows the cell of its caller where `call` made it.
  unfoldable pub send : ℕ → Outgoing A → Option ℕ → Client → Client × Option Bytes
  send id call caller c =
      if c.shutdown || c.closing
      then (register id true c, none)
      else elim (s.codecs (if is_heartbeat_call call then msg_pack else s.serialize_type)) [
        | none ↦ (register id false c, none)
        | some encode ↦
            let n = c.seq in
            let c1 = register id true c in
            let c2 : Client = elim caller [ none ↦ c1 | some cell ↦ publish cell n c1 ] in
            elim (encode call.args) [
              | failed e ↦ (encode_fails n id (codec_error e) c2, none)
              | coded payload ↦
                  write_request n id (s.before_encode (build_request n call payload)) c2
            ]
      ]
