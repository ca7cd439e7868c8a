-- ===== src/Server/Context/Answers.antt =====
-- What a client's call makes of the answers of a context.
use rpcx.Base.{
  ℕ, suc, ◌^◌, ◌<◌, ◌≡◌, ◌≢◌, refl, sym, ap, ◌∙◌, arith, [], ◌∷◌, ◌++◌, Option, none, some, Bytes,
  false, ltb, ◌&&◌, length,
}
use rpcx.Base.Dict.{lookup, insert, lookup-insert, Distinct, nat_eq, bytes_eq_inst}
use rpcx.Protocol.Header.{
  IsHeader, magic_number, seq, is_oneway, message_status_type, serialize_type,
  set_message_status_type,
}
use rpcx.Protocol.Metadata.{Meta}
use rpcx.Protocol.Message.{Message, clone, new_message, entries}
use rpcx.Protocol.Message.Encode.{encode_slice_pointer}
use rpcx.Protocol.Message.Decode.{Reader, decode, returns}
use rpcx.Protocol.Message.Fields.{IsLossless}
use rpcx.Client.Conn.{Client, service_error, value}
use rpcx.Client.Conn.Response.{Setup, Decoded, decoded, service_error_key, handle_response}
use rpcx.Client.Conn.Outcome.{client_reply, client_error}
use rpcx.Server.Handler.{ServerError, ok, Codec, answer_to}
use rpcx.Server.Handler.Answer.{Belongs, answer_to-Draft, error_status-Belongs}
use rpcx.Server.Process.{Deployment, compress_as}
use rpcx.Server.Process.Filled.{insert-Distinct}
use rpcx.Server.Process.Reply.{rest_of, frame_rest, encode-Delivered, compress_as-Delivered}
use rpcx.Server.Process.EndToEnd.{entries-wire_metadata, seq_of}
use rpcx.Server.Context.{
  Context, wrote, panics, with_context_metadata, shared_map, payload_for, write, write_error,
}

-- The map that a context has, if any.
abbrev pub map_of : Option (Option Meta) → Option Meta
map_of none = none
map_of (some m) = m

none-some : {m : Meta} → ¬ ((let o : Option Meta = none in o) ≡ some m)
none-some e = cc

wrote-panics : {x : Context} {e : Option ServerError} → ¬ (wrote x e ≡ panics)
wrote-panics e = cc

module _ {U V : Type 0} (d : Deployment U V) where
  -- What `WriteError` sends.
  abbrev pub error_message : Bytes → Message → Meta → Message
  error_message text req m = record (answer_to d.server req) {
    header = set_message_status_type 1 (answer_to d.server req).header;
    metadata = some (insert service_error_key text m);
  }

  -- What `Write` sends, before it is compressed.
  abbrev pub reply_message : Bytes → Message → Option Meta → Message
  reply_message payload req m = record (answer_to d.server req) { payload = payload; metadata = m }

  with_context_metadata_lem :
      (res : Message) (m : Option (Option Meta))
      → res.metadata ≡ none
      → with_context_metadata m res ≡ record res { metadata = map_of m }
  unfolding with_context_metadata
  with_context_metadata_lem res none e = rw (sym e) refl
  with_context_metadata_lem res (some m) e = rw e refl

  -- The header of what `WriteError` sends.
  error_header :
      (req : Message)
      → IsHeader req.header
      → (text : Bytes) (m : Meta)
      → Belongs req (error_message text req m)
        × (message_status_type (error_message text req m).header ≡ 1)
  error_header req i text m =
      let (b, _, _) = answer_to-Draft d.server req i in
      error_status-Belongs d.server req (answer_to d.server req)
        (some (insert service_error_key text m)) b

  module _ (req : Message) (i : IsHeader req.header) (x : Context)
      (twoway : is_oneway req.header ≡ false) {codec : Codec V}
      (known : d.server.codecs (serialize_type req.header) ≡ some codec) where
    write_error-map :
        (text : Bytes) (m : Meta)
        → x.res_metadata ≡ some (some m)
        → write_error d text req x
          ≡ wrote
              (record x {
                written =
                    x.written
                    ++ (encode_slice_pointer d.get d.compressors (error_message text req m)).1 ∷ [];
                res_metadata = some (some (insert service_error_key text m));
              })
              none
    unfolding write_error shared_map with_context_metadata answer_to clone new_message
    write_error-map text m has =
        ap (λ o. write_error d text req (record x { res_metadata = o })) has
        ∙ rw (twoway, known) refl

    write-frame :
        (write_conn : Bytes → Option ServerError) (v : Option V) (payload : Bytes)
        → payload_for codec v ≡ ok payload
        → write d write_conn v req x ≡ (
            let frame =
              (encode_slice_pointer d.get d.compressors
                (compress_as d req (reply_message payload req (map_of x.res_metadata)))).1 in
            (record x { written = x.written ++ frame ∷ [] }, write_conn frame))
    unfolding write answer_to clone new_message
    write-frame write_conn v payload encoded =
        rw (twoway, known)
          (rw
            (
              encoded,
              with_context_metadata_lem (record (answer_to d.server req) { payload = payload })
                  x.res_metadata refl,
            )
            refl)

    -- For a two-way request whose codec is known, `WriteError` panics where the context has no map
    -- for the response's metadata, and only there.
    pub write_error_panics :
        (text : Bytes)
        → (map_of x.res_metadata ≡ none → write_error d text req x ≡ panics)
          × (write_error d text req x ≡ panics → map_of x.res_metadata ≡ none)
    unfolding write_error with_context_metadata answer_to clone new_message
    write_error_panics text = go x.res_metadata refl
      where
        go :
            (o : Option (Option Meta))
            → x.res_metadata ≡ o
            → (map_of o ≡ none → write_error d text req (record x { res_metadata = o }) ≡ panics)
              × (write_error d text req (record x { res_metadata = o }) ≡ panics → map_of o ≡ none)
        go none e = (λ _. rw (twoway, known) refl, λ _. refl)
        go (some none) e = (λ _. rw (twoway, known) refl, λ _. refl)
        go (some (some m)) e = (
          λ h. absurd (none-some (sym h)),
          λ h. absurd (
              wrote-panics (
                sym (write_error-map text m e)
                ∙ ap (λ o. write_error d text req (record x { res_metadata = o })) e
                ∙ h)),
        )

    module _ (max : ℕ) (r : Reader) (rest : Bytes) (pool : (n : ℕ) → length (d.get n) ≡ n)
        (lossless : IsLossless d.compressors) (magic : req.header.magic ≡ magic_number)
        (setup : Setup) (c : Client) (id : ℕ) (waits : lookup (seq req.header) c.pending ≡ some id)
        (plain : c.raw id ≡ false) where
      -- `WriteError` for a two-way request, in a context that has a map for the response's metadata,
      -- writes one frame; the client reads it to its end, and the call that waits for the request's
      -- number ends, once, with the error that has the text. The text stays in the context's map. This
      -- needs a known codec, a header with the magic number, distinct keys in the map, the same lossless
      -- compressors on both sides, buffers of the asked length from the pool, a call that is not raw, no
      -- `ClientErrorFunc`, and a frame within `MaxMessageLength` and 2^32 bytes.
      pub write_error_reaches :
          (text : Bytes) (m : Meta)
          → x.res_metadata ≡ some (some m)
          → Distinct m
          → length (rest_of d.compressors (error_message text req m)) < 2 ^ 32
          → ltb 0 max && ltb max (length (rest_of d.compressors (error_message text req m))) ≡ false
          → setup.error_func ≡ none
          → (frame : Bytes) × (got : Message) × (write_error d text req x
              ≡ wrote
                  (record x {
                    written = x.written ++ frame ∷ [];
                    res_metadata = some (some (insert service_error_key text m));
                  })
                  none)
            × (decode d.compressors max new_message (record r { stream = frame ++ rest })
                ≡ returns none (record { msg = got; reader = record r { stream = rest } }))
            × (let (c', e) = handle_response setup got c in
                (e ≡ none)
                × (c'.error id ≡ some (service_error text))
                × (c'.done id ≡ suc (c.done id)))
      write_error_reaches text m has distinct fits allowed no_func =
          let out = error_message text req m in
          let (b, status) = error_header req i text m in
          let (got, delivered) =
            encode-Delivered d max r rest pool lossless out b.in_range (b.same_magic ∙ magic)
              (insert-Distinct service_error_key text m distinct) fits allowed in
          let k = delivered.same_call in
          (
            (encode_slice_pointer d.get d.compressors out).1,
            got,
            write_error-map text m has,
            delivered.decodes,
            client_error setup c id text got
                (ap (λ n. lookup n c.pending)
                    (seq_of got.header req.header (k.same_number ∙ b.same_number))
                  ∙ waits)
                plain (k.same_type ∙ b.is_response) (k.same_status ∙ status) no_func
                (ap (λ (o : Option Meta). lookup service_error_key (entries o))
                    delivered.same_metadata
                  ∙ ap (lookup service_error_key) (entries-wire_metadata _)
                  ∙ lookup-insert service_error_key service_error_key text m
                  ∙ unfold rpcx.Base.bytes_eq in refl),
          )

      -- `Write` of a value that the codec encodes writes one frame for a two-way request, and the call
      -- that waits for it ends, once, with what the client's codec makes of the bytes. It returns what
      -- `conn.Write` says. This needs a request with the status `Normal`, bytes that are not empty,
      -- a header with the magic number, known codecs, distinct keys in the context's map, the same
      -- lossless compressors on both sides, buffers of the asked length from the pool, a call that is not
      -- raw, and a frame within `MaxMessageLength` and 2^32 bytes.
      pub write_reaches :
          (write_conn : Bytes → Option ServerError) (v : Option V) (payload : Bytes)
          (decodes : Bytes → Decoded) (got_value : ℕ)
          → payload_for codec v ≡ ok payload
          → message_status_type req.header ≡ 0
          → Distinct (entries (map_of x.res_metadata))
          → let res = reply_message payload req (map_of x.res_metadata) in
            length (frame_rest d req res) < 2 ^ 32
            → ltb 0 max && ltb max (length (frame_rest d req res)) ≡ false
            → setup.codecs (serialize_type req.header) ≡ some decodes
            → payload ≢ []
            → decodes payload ≡ decoded got_value
            → (frame : Bytes) × (got : Message) × (write d write_conn v req x
                ≡ (record x { written = x.written ++ frame ∷ [] }, write_conn frame))
              × (decode d.compressors max new_message (record r { stream = frame ++ rest })
                  ≡ returns none (record { msg = got; reader = record r { stream = rest } }))
              × (let (c', e) = handle_response setup got c in
                  (e ≡ none)
                  × (c'.reply id ≡ some (value got_value))
                  × (c'.error id ≡ c.error id)
                  × (c'.done id ≡ suc (c.done id)))
      write_reaches write_conn v payload decodes got_value encoded status distinct fits allowed
            client_known nonempty good =
          let res = reply_message payload req (map_of x.res_metadata) in
          let (b, _, same_status) = answer_to-Draft d.server req i in
          let (got, delivered) =
            compress_as-Delivered d max r rest pool lossless req res i b.in_range
              (b.same_magic ∙ magic) distinct fits allowed in
          let k = delivered.same_call in
          (
            (encode_slice_pointer d.get d.compressors (compress_as d req res)).1,
            got,
            write-frame write_conn v payload encoded,
            delivered.decodes,
            client_reply setup c id got_value decodes got
                (ap (λ n. lookup n c.pending)
                    (seq_of got.header req.header (k.same_number ∙ b.same_number))
                  ∙ waits)
                plain (k.same_type ∙ b.is_response) (k.same_status ∙ same_status ∙ status)
                (ap setup.codecs (k.same_codec ∙ b.same_codec) ∙ client_known)
                (rw delivered.same_payload nonempty) (ap decodes delivered.same_payload ∙ good),
          )
