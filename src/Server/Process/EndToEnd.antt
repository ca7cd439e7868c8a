-- ===== src/Server/Process/EndToEnd.antt =====
-- A call from the server's answer to its end in the client.
use rpcx.Base.{
  on_option, on_bool, ℕ, suc, ◌^◌, ◌<◌, ◌≡◌, ◌≢◌, refl, sym, ap, ◌∙◌, subst, arith, List, [], ◌∷◌,
  ◌++◌, Option, none, some, Bytes, bytes, Bool, true, false, ltb, ◌&&◌, not, ◌==◌, if◌then◌else◌,
  length, Bool-cases, Option-cases, inl, inr,
}
use rpcx.Base.Dict.{lookup, Distinct, nat_eq, bytes_eq_inst}
use rpcx.Protocol.Header.{
  Header, IsHeader, magic_number, seq, is_oneway, message_type, message_status_type, serialize_type,
}
use rpcx.Protocol.Wire.{read_be64}
use rpcx.Protocol.Metadata.{Meta}
use rpcx.Protocol.Message.{Message, new_message, Compressors, entries}
use rpcx.Protocol.Message.Decode.{Reader, decode, returns}
use rpcx.Protocol.Message.Fields.{IsLossless, wire_metadata}
use rpcx.Client.Conn.{Client, service_error, value}
use rpcx.Client.Conn.Response.{
  Setup, Decoded, decoded, service_error_key, handle_response, is_empty,
}
use rpcx.Client.Conn.Outcome.{client_reply, client_error}
use rpcx.Server.Handler.{Server, ServerError, handle_request}
use rpcx.Server.Handler.Answer.{Belongs, Answered, handle_request-Answered}
use rpcx.Server.Process.{World, Deployment, report, serve_service, with_res_metadata, fill_missing}
use rpcx.Server.Process.Once.{report-written}
use rpcx.Server.Process.Filled.{
  fill_missing-Distinct, fill_missing-lookup, with_res_metadata-none, with_res_metadata-some,
  with_res_metadata_keeps,
}
use rpcx.Server.Process.Reply.{frame_rest, Delivered, send_response-Delivered}

Answered-Belongs :
    {U V : Type 0} (s : Server U V) (req res : Message) (u : U) (e : Option ServerError)
    → Answered s req (u, res, e)
    → Belongs req res
Answered-Belongs s req res u none (b, _, _) = b
Answered-Belongs s req res u (some e) (b, _, _, _) = b

pub entries-wire_metadata : (m : Meta) → entries (wire_metadata m) ≡ m
unfolding wire_metadata
entries-wire_metadata [] = refl
entries-wire_metadata (kv ∷ m) = refl

pub seq_of : (h k : Header) → h.seq_bytes ≡ k.seq_bytes → seq h ≡ seq k
unfolding seq
seq_of h k e = ap read_be64 e

-- The error of a response, delivered to the client whose call waits for it.
module _ {U V : Type 0} (s : Server U V) (req res : Message) (u : U) (err : ServerError)
    (text : Bytes) (meta : Meta) (answered : Answered s req (u, res, some err))
    (says : (m : Message) → s.error_text m err ≡ text) where
  abbrev only : Meta
  only = (service_error_key, text) ∷ []

  metadata_of : entries (with_res_metadata meta res).metadata ≡ fill_missing only meta
  metadata_of =
      let (_, _, m, said) = answered in
      with_res_metadata-some meta only res
        (said ∙ ap (λ t. some ((service_error_key, t) ∷ [])) (says m))

  pub error-Distinct : Distinct (entries (with_res_metadata meta res).metadata)
  unfolding lookup rpcx.Base.bytes_eq
  error-Distinct = rw metadata_of (fill_missing-Distinct only meta (refl, tt))

  pub error_reaches :
      (compressors : Compressors) (max : ℕ) (r : Reader) (rest frame : Bytes) (got : Message)
      (setup : Setup) (c : Client) (id : ℕ)
      → Delivered compressors max r rest (with_res_metadata meta res) got frame
      → lookup (seq req.header) c.pending ≡ some id
      → c.raw id ≡ false
      → setup.error_func ≡ none
      → is_empty text ≡ false
      → let (c', e) = handle_response setup got c in
        (e ≡ none) × (c'.error id ≡ some (service_error text)) × (c'.done id ≡ suc (c.done id))
  error_reaches compressors max r rest frame got setup c id delivered waits plain no_func nonempty =
      let (b, status, _, _) = answered in
      let (same_header, _) = with_res_metadata_keeps meta res in
      let k = delivered.same_call in
      client_error setup c id text got
        (ap (λ n. lookup n c.pending)
            (seq_of got.header req.header
              (k.same_number ∙ ap (λ (h : Header). h.seq_bytes) same_header ∙ b.same_number))
          ∙ waits)
        plain (k.same_type ∙ ap message_type same_header ∙ b.is_response)
        (k.same_status ∙ ap message_status_type same_header ∙ status) no_func
        (ap (λ (x : Option Meta). lookup service_error_key (entries x)) delivered.same_metadata
          ∙ ap (lookup service_error_key) (entries-wire_metadata _ ∙ metadata_of)
          ∙ fill_missing-lookup service_error_key text only meta
              (unfold lookup rpcx.Base.bytes_eq in refl) nonempty)

module _ {U V : Type 0} (d : Deployment U V) (max : ℕ) (r : Reader) (rest : Bytes)
    (pool : (n : ℕ) → length (d.get n) ≡ n) (lossless : IsLossless d.compressors)
    (quiet : (q m : Message) (e : Option ServerError) (u : U)
      → d.server.hooks.pre_write_response q m e u ≡ (u, q, m)) where
  serve_service-Delivered :
      (req : Message) (w : World U) (u1 : U) (res : Message) (err : Option ServerError)
      → handle_request d.server req w.user ≡ (u1, res, err)
      → is_oneway req.header ≡ false
      → IsHeader req.header
      → req.header.magic ≡ magic_number
      → let out = with_res_metadata (d.res_metadata u1) res in
        Distinct (entries out.metadata)
        → length (frame_rest d req out) < 2 ^ 32
        → ltb 0 max && ltb max (length (frame_rest d req out)) ≡ false
        → (frame : Bytes) × (got : Message) × ((serve_service d req w).written
            ≡ w.written ++ frame ∷ [])
          × Delivered d.compressors max r rest out got frame
  unfolding serve_service
  serve_service-Delivered req w u1 res err e twoway i magic distinct fits allowed =
      let a : Answered d.server req (u1, res, err) =
        subst (λ x. Answered d.server req x) e (handle_request-Answered d.server req w.user i) in
      let b = Answered-Belongs d.server req res u1 err a in
      let out = with_res_metadata (d.res_metadata u1) res in
      let (same_header, _) = with_res_metadata_keeps (d.res_metadata u1) res in
      let w1 = report d err (record w { user = u1 }) in
      let (frame, got, written, delivered) =
        send_response-Delivered d max r rest pool lossless quiet err req out w1 i
          (rw same_header b.in_range)
          (ap (λ (h : Header). h.magic) same_header ∙ b.same_magic ∙ magic) distinct fits allowed in
      (
        frame,
        got,
        rw (e, twoway)
            (written ∙ ap (λ l. l ++ frame ∷ []) (report-written d err (record w { user = u1 }))),
        delivered,
      )

  -- A two-way request that the handler serves without an error ends the call that waits for its
  -- number. The server writes one frame; the client's `Decode` reads that frame to its end, and
  -- what it reads gives the call the value that the codec of the request makes of the reply's
  -- bytes, leaves its error alone, and finishes it once. This needs a call that is not raw, a reply
  -- that is not empty, a request with the status `Normal`, plugins that leave the response as it
  -- is, the same lossless compressors on both sides, buffers of the asked length from the pool,
  -- distinct keys in the context's map, and a frame within `MaxMessageLength` and 2^32 bytes.
  pub call_gets_reply :
      (setup : Setup) (c : Client) (id v : ℕ) (codec : Bytes → Decoded) (req : Message)
      (w : World U) (u1 : U) (res : Message)
      → handle_request d.server req w.user ≡ (u1, res, none)
      → is_oneway req.header ≡ false
      → message_status_type req.header ≡ 0
      → IsHeader req.header
      → req.header.magic ≡ magic_number
      → Distinct (d.res_metadata u1)
      → length (frame_rest d req (with_res_metadata (d.res_metadata u1) res)) < 2 ^ 32
      → ltb 0 max && ltb max (length (frame_rest d req (with_res_metadata (d.res_metadata u1) res)))
        ≡ false
      → lookup (seq req.header) c.pending ≡ some id
      → c.raw id ≡ false
      → setup.codecs (serialize_type req.header) ≡ some codec
      → res.payload ≢ []
      → codec res.payload ≡ decoded v
      → (frame : Bytes) × (got : Message) × ((serve_service d req w).written
          ≡ w.written ++ frame ∷ [])
        × (decode d.compressors max new_message (record r { stream = frame ++ rest })
            ≡ returns none (record { msg = got; reader = record r { stream = rest } }))
        × (let (c', e) = handle_response setup got c in
            (e ≡ none)
            × (c'.reply id ≡ some (value v))
            × (c'.error id ≡ c.error id)
            × (c'.done id ≡ suc (c.done id)))
  call_gets_reply setup c id v codec req w u1 res e twoway status i magic distinct fits allowed
        waits plain known nonempty good =
      let (b, no_meta, same_status) =
        subst (λ x. Answered d.server req x) e (handle_request-Answered d.server req w.user i) in
      let (same_header, same_payload) = with_res_metadata_keeps (d.res_metadata u1) res in
      let (frame, got, written, delivered) =
        serve_service-Delivered req w u1 res none e twoway i magic
          (rw (with_res_metadata-none (d.res_metadata u1) res no_meta) distinct) fits allowed in
      let k = delivered.same_call in
      let payload : got.payload ≡ res.payload = delivered.same_payload ∙ same_payload in
      (
        frame,
        got,
        written,
        delivered.decodes,
        client_reply setup c id v codec got
            (ap (λ n. lookup n c.pending)
                (seq_of got.header req.header
                  (k.same_number ∙ ap (λ (h : Header). h.seq_bytes) same_header ∙ b.same_number))
              ∙ waits)
            plain (k.same_type ∙ ap message_type same_header ∙ b.is_response)
            (k.same_status ∙ ap message_status_type same_header ∙ same_status ∙ status)
            (ap setup.codecs (k.same_codec ∙ ap serialize_type same_header ∙ b.same_codec) ∙ known)
            (rw payload nonempty) (ap codec payload ∙ good),
      )

  -- A two-way request whose handler fails ends the call that waits for its number, once, with the
  -- error that has the text of the server's error. The server writes one frame, and the client's
  -- `Decode` reads that frame to its end. This needs a text that is not empty and is the same for
  -- every message, no `ClientErrorFunc`, a call that is not raw, a header with the magic number,
  -- plugins that leave the response as it is, the same lossless compressors on both sides, buffers of
  -- the asked length from the pool, and a frame within `MaxMessageLength` and 2^32 bytes.
  pub call_gets_error :
      (setup : Setup) (c : Client) (id : ℕ) (req : Message) (w : World U) (u1 : U) (res : Message)
      (err : ServerError) (text : Bytes)
      → handle_request d.server req w.user ≡ (u1, res, some err)
      → is_oneway req.header ≡ false
      → IsHeader req.header
      → req.header.magic ≡ magic_number
      → length (frame_rest d req (with_res_metadata (d.res_metadata u1) res)) < 2 ^ 32
      → ltb 0 max && ltb max (length (frame_rest d req (with_res_metadata (d.res_metadata u1) res)))
        ≡ false
      → lookup (seq req.header) c.pending ≡ some id
      → c.raw id ≡ false
      → setup.error_func ≡ none
      → ((m : Message) → d.server.error_text m err ≡ text)
      → is_empty text ≡ false
      → (frame : Bytes) × (got : Message) × ((serve_service d req w).written
          ≡ w.written ++ frame ∷ [])
        × (decode d.compressors max new_message (record r { stream = frame ++ rest })
            ≡ returns none (record { msg = got; reader = record r { stream = rest } }))
        × (let (c', e) = handle_response setup got c in
            (e ≡ none) × (c'.error id ≡ some (service_error text)) × (c'.done id ≡ suc (c.done id)))
  call_gets_error setup c id req w u1 res err text e twoway i magic fits allowed waits plain no_func
        says nonempty =
      let a =
        subst (λ x. Answered d.server req x) e (handle_request-Answered d.server req w.user i) in
      let meta = d.res_metadata u1 in
      let (frame, got, written, delivered) =
        serve_service-Delivered req w u1 res (some err) e twoway i magic
          (error-Distinct d.server req res u1 err text meta a says) fits allowed in
      (
        frame,
        got,
        written,
        delivered.decodes,
        error_reaches d.server req res u1 err text meta a says d.compressors max r rest frame got
            setup c id delivered waits plain no_func nonempty,
      )
