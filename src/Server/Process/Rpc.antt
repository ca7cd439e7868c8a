-- ===== src/Server/Process/Rpc.antt =====
-- A call from the client's `send` over the server's method to the end of the call.
use rpcx.Base.{
  on_option, ℕ, suc, ◌^◌, ◌<◌, ◌≡◌, ◌≢◌, refl, sym, ap, ◌∙◌, subst, [], ◌∷◌, ◌++◌, Option, none,
  some, Bytes, bytes, true, false, ltb, ◌||◌, ◌&&◌, not, length, if◌then◌else◌,
}
use rpcx.Base.Dict.{lookup, lookup_inserted, Distinct, nat_eq, bytes_eq_inst}
use rpcx.Protocol.Header.{is_heartbeat, is_oneway, serialize_type}
use rpcx.Protocol.Message.{Message, new_message, Coded, coded, entries}
use rpcx.Protocol.Message.Decode.{Reader, decode, returns}
use rpcx.Protocol.Message.Fields.{IsLossless}
use rpcx.Client.Conn.{Client, value, publish, oneway_sent}
use rpcx.Client.Conn.Response.{Setup, Decoded, decoded, handle_response}
use rpcx.Client.Conn.Send.{Outgoing, Sender, is_heartbeat_call, send}
use rpcx.Client.Conn.Send.Request.{request_rest, received, waiting_for, request_arrives}
use rpcx.Server.Handler.{
  Server, ServerError, ok, Codec, Called, Method, Service, answer_to, handle_request, invoke,
  conclude, reply_with, service_call,
}
use rpcx.Server.Process.{Deployment, World, process_one_request, serve_service, with_res_metadata}
use rpcx.Server.Process.Reply.{frame_rest}
use rpcx.Server.Process.EndToEnd.{call_gets_reply}

module _ (id : ℕ) (caller : Option ℕ) (c : Client) where
  waiting_for_keeps :
      let c1 = waiting_for id caller c in
      (lookup c.seq c1.pending ≡ some id)
      × (c1.raw ≡ c.raw)
      × (c1.error ≡ c.error)
      × (c1.done ≡ c.done)
  unfolding publish
  waiting_for_keeps =
      on_option
        (λ (k : Client).
          (lookup c.seq k.pending ≡ some id)
          × (k.raw ≡ c.raw)
          × (k.error ≡ c.error)
          × (k.done ≡ c.done))
        caller (lookup_inserted c.seq id c.pending, refl, refl, refl)
        (λ cell. (lookup_inserted c.seq id c.pending, refl, refl, refl))

module _ {U V : Type 0} (s : Server U V)
    (quiet_pre : (p m : Bytes) (a : V) (u : U) → s.hooks.pre_call p m a u ≡ (u, a, none))
    (quiet_post : (p m : Bytes) (a reply : V) (u : U)
      → s.hooks.post_call p m a reply none u ≡ (u, some reply, none)) where
  -- A method that is found and returns.
  handle_request-returns :
      (req : Message) (u u1 : U) {service : Service U V} {mtype : Method U V} {codec : Codec V}
      {a reply : V} {sent : Bytes}
      → lookup req.service_path s.service_map ≡ some service
      → lookup req.service_method service.method ≡ some mtype
      → s.codecs (serialize_type req.header) ≡ some codec
      → codec.decode mtype.arg_type req.payload ≡ ok a
      → mtype.run a (s.new_value mtype.reply_type) u ≡ Called.returns u1 reply none
      → is_oneway req.header ≡ false
      → codec.encode (some reply) ≡ ok sent
      → handle_request s req u ≡ (u1, record (answer_to s req) { payload = sent }, none)
  unfolding handle_request invoke service_call conclude reply_with
  handle_request-returns req u u1 {mtype} {a} {reply} path method known args ran twoway encoded =
      let post = quiet_post req.service_path req.service_method a reply u1 in
      rw (path, handle_request)
        (rw (method, known)
          (rw (args, invoke)
            (simp (quiet_pre req.service_path req.service_method a u, service_call, ran, post)
              (rw (twoway, encoded) refl))))

process_one_request-serves :
    {U V : Type 0} (d : Deployment U V) (got : Message) (w : World U)
    → is_heartbeat got.header ≡ false
    → ((m : Message) (u : U) → d.server.hooks.pre_handle_request m u ≡ (u, m))
    → lookup (got.service_path ++ (bytes "." ++ got.service_method)) d.router ≡ none
    → process_one_request d got w
      ≡ serve_service d (record got { metadata = some (entries got.metadata) }) w
unfolding process_one_request
process_one_request-serves d got w no_heartbeat quiet free =
    simp (no_heartbeat, quiet (record got { metadata = some (entries got.metadata) }) w.user, free)
      refl

module _ {U V A : Type 0} (s : Sender A) (d : Deployment U V) (call : Outgoing A) (id : ℕ)
    (caller : Option ℕ) (c : Client) where
  -- The request as the handler gets it: a nil map of metadata is replaced.
  abbrev pub handled_request : Bytes → Message
  handled_request payload =
      let got = received s call c.seq payload in
      record got { metadata = some (entries got.metadata) }

  -- The response, with the context's metadata.
  abbrev pub response_to : Bytes → Bytes → U → Message
  response_to payload sent u =
      with_res_metadata (d.res_metadata u)
        (record (answer_to d.server (handled_request payload)) { payload = sent })

  -- A call that is sent, served by a method and answered ends, once, with the value that the client's
  -- codec makes of what the server's codec makes of the method's reply to the arguments. The client
  -- writes one frame, the server reads it to its end, runs the method, and writes one frame, which the
  -- client reads to its end. This needs a client that runs, a call with a reply that is no heartbeat and
  -- not raw, and a number below 2^64; codecs of the client's number on both sides, which take the
  -- arguments, the reply and the value; a path and a method that the server has and its router has not,
  -- and a method that returns without an error; plugins on both sides that change nothing; a write that
  -- succeeds; the same lossless compressors, and buffers of the asked length from both pools; distinct
  -- keys of the call's and of the context's metadata; a codec and a compression that fit their bits; a
  -- reply that is not empty; and frames within `MaxMessageLength` and 2^32 bytes.
  pub rpc_returns :
      c.shutdown || c.closing ≡ false
      → is_heartbeat_call call ≡ false
      → call.has_reply ≡ true
      → c.raw id ≡ false
      → c.seq < 2 ^ 64
      → s.serialize_type < 16
      → s.compress_type < 8
      → {encode : A → Coded} {payload : Bytes} → s.codecs s.serialize_type ≡ some encode
      → encode call.args ≡ coded payload
      → ((m : Message) → s.before_encode m ≡ m)
      → ((b : Bytes) → s.write b ≡ none)
      → ((n : ℕ) → length (s.get n) ≡ n)
      → ((n : ℕ) → length (d.get n) ≡ n)
      → s.compressors ≡ d.compressors
      → IsLossless d.compressors
      → Distinct (entries call.metadata)
      → (max : ℕ) (r : Reader) (rest : Bytes) → length (request_rest s call c.seq payload) < 2 ^ 32
      → ltb 0 max && ltb max (length (request_rest s call c.seq payload)) ≡ false
      → ((m : Message) (u : U) → d.server.hooks.pre_handle_request m u ≡ (u, m))
      → ((p m : Bytes) (a : V) (u : U) → d.server.hooks.pre_call p m a u ≡ (u, a, none))
      → ((p m : Bytes) (a reply : V) (u : U)
          → d.server.hooks.post_call p m a reply none u ≡ (u, some reply, none))
      → ((q m : Message) (e : Option ServerError) (u : U)
          → d.server.hooks.pre_write_response q m e u ≡ (u, q, m))
      → lookup (call.service_path ++ (bytes "." ++ call.service_method)) d.router ≡ none
      → {service : Service U V} {mtype : Method U V} {codec : Codec V} {a reply : V} {sent : Bytes}
      → lookup call.service_path d.server.service_map ≡ some service
      → lookup call.service_method service.method ≡ some mtype
      → d.server.codecs s.serialize_type ≡ some codec
      → codec.decode mtype.arg_type payload ≡ ok a
      → (w : World U) {u1 : U}
      → mtype.run a (d.server.new_value mtype.reply_type) w.user ≡ Called.returns u1 reply none
      → codec.encode (some reply) ≡ ok sent
      → sent ≢ []
      → Distinct (d.res_metadata u1)
      → (max' : ℕ) (r' : Reader) (rest' : Bytes)
      → length (frame_rest d (handled_request payload) (response_to payload sent u1)) < 2 ^ 32
      → ltb 0 max'
          && ltb max'
              (length (frame_rest d (handled_request payload) (response_to payload sent u1)))
        ≡ false
      → (setup : Setup) {decodes : Bytes → Decoded} {v : ℕ}
      → setup.codecs s.serialize_type ≡ some decodes
      → decodes sent ≡ decoded v
      → let c1 = waiting_for id caller c in
        let got = received s call c.seq payload in
        (frame frame' : Bytes) × (got' : Message) × (send s id call caller c ≡ (c1, some frame))
        × (decode d.compressors max new_message (record r { stream = frame ++ rest })
            ≡ returns none (record { msg = got; reader = record r { stream = rest } }))
        × ((process_one_request d got w).written ≡ w.written ++ frame' ∷ [])
        × (decode d.compressors max' new_message (record r' { stream = frame' ++ rest' })
            ≡ returns none (record { msg = got'; reader = record r' { stream = rest' } }))
        × (let (c2, e) = handle_response setup got' c1 in
            (e ≡ none)
            × (c2.reply id ≡ some (value v))
            × (c2.error id ≡ c.error id)
            × (c2.done id ≡ suc (c.done id)))
  rpc_returns running plain replies not_raw fits st_fits ct_fits {payload} known encoded quiet
        writes pool pool' same lossless distinct max r rest short allowed quiet_handle quiet_pre
        quiet_post quiet_write free {sent} path method server_known args w {u1} ran server_encoded
        nonempty distinct' max' r' rest' short' allowed' setup {decodes} {v} client_known good =
      let c1 = waiting_for id caller c in
      let (waits, raw, error, done) = waiting_for_keeps id caller c in
      let (frame, sends, arrives, says) =
        request_arrives s call id caller c running plain known payload encoded quiet writes max r
          rest fits st_fits ct_fits pool (subst (λ k. IsLossless k) (sym same) lossless) distinct
          short allowed in
      let got_first = received s call c.seq payload in
      let req = handled_request payload in
      let twoway : is_oneway req.header ≡ false = says.oneway ∙ ap (λ b. not b) replies in
      let handled =
        handle_request-returns d.server quiet_pre quiet_post req w.user u1 path method
          (ap d.server.codecs says.codec ∙ server_known) args ran twoway server_encoded in
      let (frame', got', written, reads, ends) =
        call_gets_reply d max' r' rest' pool' lossless quiet_write setup c1 id v decodes req w u1
          (record (answer_to d.server req) { payload = sent }) handled twoway says.normal
          says.in_range says.has_magic distinct' short' allowed'
          (ap (λ n. lookup n c1.pending) says.number ∙ waits) (ap (λ f. f id) raw ∙ not_raw)
          (ap setup.codecs says.codec ∙ client_known) nonempty good in
      let (no_error, replied, kept, once) = ends in
      (
        frame,
        frame',
        got',
        sends ∙ ap (λ b. (if not b then oneway_sent c.seq c1 else c1, some frame)) replies,
        subst
            (λ k.
              decode k max new_message (record r { stream = frame ++ rest })
              ≡ returns none (record {
                msg = received s call c.seq payload;
                reader = record r { stream = rest };
              }))
            same arrives,
        ap (λ (x : World U). x.written)
              (process_one_request-serves d got_first w says.no_heartbeat quiet_handle free)
            ∙ written,
        reads,
        (no_error, replied, kept ∙ ap (λ f. f id) error, once ∙ ap (λ f. suc (f id)) done),
      )
