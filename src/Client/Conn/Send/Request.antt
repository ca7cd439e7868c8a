-- ===== src/Client/Conn/Send/Request.antt =====
-- What the server reads of a request that `send` wrote.
use rpcx.Base.{
  on_bool, ℕ, ◌+◌, ◌%◌, ◌^◌, ◌<◌, ◌≡◌, refl, ap, ◌∙◌, ◌++◌, Option, none, some, Bytes, true, false,
  ltb, ◌||◌, ◌&&◌, not, ◌==◌, length, if◌then◌else◌,
}
use rpcx.Base.Dict.{insert, Distinct, nat_eq, bytes_eq_inst}
use rpcx.Protocol.Header.{new_header, is_oneway}
use rpcx.Protocol.Metadata.{encode_metadata}
use rpcx.Protocol.Message.{Message, new_message, Coded, coded, entries}
use rpcx.Protocol.Message.Encode.{compress_payload, encode_slice_pointer}
use rpcx.Protocol.Message.Frame.{body}
use rpcx.Protocol.Message.Decode.{Reader, decode, returns}
use rpcx.Protocol.Message.RoundTrip.{filled}
use rpcx.Protocol.Message.Fields.{IsLossless, wire_metadata}
use rpcx.Protocol.Message.SameCall.{set_compress_type-SameCall, compress_payload-SameCall}
use rpcx.Protocol.Message.Exchange.{decode-encode}
use rpcx.Client.Conn.{Client, register, publish, oneway_sent}
use rpcx.Client.Conn.Send.{
  Outgoing, Sender, is_heartbeat_call, request_header, build_request, write_request, send,
}
use rpcx.Client.Conn.Send.Says.{SaysRequest, request_header-SaysRequest, SaysRequest-SameCall}

module _ {A : Type 0} (s : Sender A) (call : Outgoing A) (n : ℕ) (payload : Bytes) where
  -- What stands behind the length in the frame of a request.
  abbrev pub request_rest : Bytes
  request_rest =
      let req = build_request s n call payload in
      body req.service_path req.service_method (encode_metadata (entries req.metadata))
        (compress_payload s.compressors req.header req.payload).1

  -- What a reader makes of that frame.
  abbrev pub received : Message
  received =
      let req = build_request s n call payload in
      record {
        header = (compress_payload s.compressors req.header req.payload).0;
        service_path = call.service_path;
        service_method = call.service_method;
        metadata = wire_metadata (entries call.metadata);
        payload = payload;
        data_slice = filled new_message.data_slice request_rest;
      }

  module _ (plain : is_heartbeat_call call ≡ false) (fits : n < 2 ^ 64)
      (st_fits : s.serialize_type < 16) (ct_fits : s.compress_type < 8) where
    build_request-SaysRequest :
        SaysRequest n call.has_reply s.serialize_type (build_request s n call payload).header
    unfolding build_request
    build_request-SaysRequest =
        let h = request_header n call.has_reply false s.serialize_type in
        let says = request_header-SaysRequest n call.has_reply s.serialize_type fits st_fits in
        rw plain (
          on_bool (λ k. SaysRequest n call.has_reply s.serialize_type k)
            (ltb 1024 (length payload) && not (s.compress_type == 0))
            (SaysRequest-SameCall n call.has_reply s.serialize_type h _
              (set_compress_type-SameCall s.compress_type h says.in_range ct_fits) says)
            says)

    pub received-SaysRequest : SaysRequest n call.has_reply s.serialize_type received.header
    unfolding build_request
    received-SaysRequest =
        let h = (build_request s n call payload).header in
        SaysRequest-SameCall n call.has_reply s.serialize_type h _
          (compress_payload-SameCall s.compressors h payload build_request-SaysRequest.in_range)
          build_request-SaysRequest

-- The client behind `send`, where its call waits.
abbrev pub waiting_for : ℕ → Option ℕ → Client → Client
waiting_for id caller c =
    let c1 = record c { seq = (c.seq + 1) % 2 ^ 64; pending = insert c.seq id c.pending } in
    elim caller [ none ↦ c1 | some cell ↦ publish cell c.seq c1 ]

module _ {A : Type 0} (s : Sender A) (call : Outgoing A) (id : ℕ) (caller : Option ℕ) (c : Client)
    (running : c.shutdown || c.closing ≡ false) (plain : is_heartbeat_call call ≡ false)
    {encode : A → Coded} (known : s.codecs s.serialize_type ≡ some encode) (payload : Bytes)
    (encoded : encode call.args ≡ coded payload) (quiet : (m : Message) → s.before_encode m ≡ m)
    (writes : (b : Bytes) → s.write b ≡ none) where
  registered :
      register id true c
      ≡ record c { seq = (c.seq + 1) % 2 ^ 64; pending = insert c.seq id c.pending }
  unfolding register
  registered = rw running refl

  write_request-writes :
      (req : Message) (k : Client)
      → let (m, frame) = encode_slice_pointer s.get s.compressors req in
        write_request s c.seq id req k
        ≡ (if is_oneway m.header then oneway_sent c.seq k else k, some frame)
  unfolding write_request
  write_request-writes req k =
      rw (writes (encode_slice_pointer s.get s.compressors req).1, write_request) refl

  -- `send` of a call that is no heartbeat, on a client that runs: where the codec encodes the arguments
  -- and the frame is written, the call waits, or is done if it is one-way.
  pub send_lem :
      c.seq < 2 ^ 64
      → s.serialize_type < 16
      → s.compress_type < 8
      → send s id call caller c ≡ (
        if not call.has_reply
            then oneway_sent c.seq (waiting_for id caller c)
            else waiting_for id caller c,
        some (encode_slice_pointer s.get s.compressors (build_request s c.seq call payload)).1,
      )
  unfolding send
  send_lem fits st_fits ct_fits =
      let req = build_request s c.seq call payload in
      let says = received-SaysRequest s call c.seq payload plain fits st_fits ct_fits in
      let oneway : is_oneway (encode_slice_pointer s.get s.compressors req).0.header
          ≡ not call.has_reply =
        unfold encode_slice_pointer build_request in says.oneway in
      rw (running, plain, known, encoded, quiet req)
        (ap
            (λ (k : Client).
              write_request s c.seq id req
                (elim caller as (λ _. Client) [ none ↦ k | some cell ↦ publish cell c.seq k ]))
            registered
          ∙ write_request-writes req (waiting_for id caller c)
          ∙ ap
              (λ b. (
                if b then oneway_sent c.seq (waiting_for id caller c) else waiting_for id caller c,
                some (encode_slice_pointer s.get s.compressors req).1,
              ))
              oneway)

  -- What `send` writes reaches the server: `Decode` reads the frame to its end, and gives the request
  -- with the names, the metadata and the payload of the call, under a header that says no heartbeat,
  -- the codec of the client, one-way where the call has no reply, and the number under which the call
  -- waits. This needs a client that runs, a call that is no heartbeat, arguments that the codec
  -- encodes, plugins that leave the message as it is, a write that succeeds, distinct metadata keys,
  -- the same lossless compressors on both sides, buffers of the asked length from the pool, a number
  -- below 2^64, a codec and a compression that fit their bits, and a frame within `MaxMessageLength` and
  -- 2^32 bytes.
  pub request_arrives :
      (max : ℕ) (r : Reader) (rest : Bytes)
      → c.seq < 2 ^ 64
      → s.serialize_type < 16
      → s.compress_type < 8
      → ((n : ℕ) → length (s.get n) ≡ n)
      → IsLossless s.compressors
      → Distinct (entries call.metadata)
      → length (request_rest s call c.seq payload) < 2 ^ 32
      → ltb 0 max && ltb max (length (request_rest s call c.seq payload)) ≡ false
      → let got = received s call c.seq payload in
        (frame : Bytes) × (send s id call caller c ≡ (
          if not call.has_reply
              then oneway_sent c.seq (waiting_for id caller c)
              else waiting_for id caller c,
          some frame,
        ))
        × (decode s.compressors max new_message (record r { stream = frame ++ rest })
            ≡ returns none (record { msg = got; reader = record r { stream = rest } }))
        × SaysRequest c.seq call.has_reply s.serialize_type got.header
  unfolding build_request
  request_arrives max r rest fits st_fits ct_fits pool lossless distinct short allowed =
      let req = build_request s c.seq call payload in
      let says = build_request-SaysRequest s call c.seq payload plain fits st_fits ct_fits in
      (
        (encode_slice_pointer s.get s.compressors req).1,
        send_lem fits st_fits ct_fits,
        decode-encode s.get s.compressors max req new_message r rest pool lossless says.in_range
            says.has_magic distinct (unfold new_message new_header in refl)
            (unfold new_message in refl) short allowed,
        received-SaysRequest s call c.seq payload plain fits st_fits ct_fits,
      )
