-- ===== src/Server/Process/Reply.antt =====
-- From a request to the end of the client's call: the response crosses the wire.
use rpcx.Base.{
  ℕ, ◌^◌, ◌<◌, ◌≡◌, refl, ap, ◌∙◌, [], ◌∷◌, ◌++◌, Option, none, Bytes, false, ltb, ◌&&◌, length,
}
use rpcx.Base.Dict.{Distinct, nat_eq, bytes_eq_inst}
use rpcx.Protocol.Header.{IsHeader, magic_number, new_header}
use rpcx.Protocol.Metadata.{encode_metadata}
use rpcx.Protocol.Message.{Message, new_message, Compressors, entries}
use rpcx.Protocol.Message.Encode.{compress_payload, encode_slice_pointer}
use rpcx.Protocol.Message.Frame.{body}
use rpcx.Protocol.Message.Decode.{Reader, decode, returns}
use rpcx.Protocol.Message.RoundTrip.{filled}
use rpcx.Protocol.Message.Fields.{IsLossless, wire_metadata}
use rpcx.Protocol.Message.Exchange.{decode-encode}
use rpcx.Server.Handler.{ServerError}
use rpcx.Server.Process.{World, Deployment, compress_as, send_response}
use rpcx.Protocol.Message.SameCall.{SameCall, SameCall-trans, compress_payload-SameCall}
use rpcx.Server.Process.Outgoing.{compress_as-SameCall, compress_as_keeps}

-- What stands behind the length in the frame of a message.
abbrev pub rest_of : Compressors → Message → Bytes
rest_of compressors out =
    body out.service_path out.service_method (encode_metadata (entries out.metadata))
      (compress_payload compressors out.header out.payload).1

-- The same in the frame that `sendResponse` writes.
abbrev pub frame_rest : {U V : Type 0} → Deployment U V → Message → Message → Bytes
frame_rest d req res = rest_of d.compressors (compress_as d req res)

-- A frame that a reader takes for the message `got`, which answers as `res` does.
pub record Delivered (compressors : Compressors) (max : ℕ) (r : Reader) (rest : Bytes)
    (res got : Message) (frame : Bytes) : Type 0 where
  pub decodes :
      decode compressors max new_message (record r { stream = frame ++ rest })
      ≡ returns none (record { msg = got; reader = record r { stream = rest } })
  pub same_call : SameCall res.header got.header
  pub same_payload : got.payload ≡ res.payload
  pub same_metadata : got.metadata ≡ wire_metadata (entries res.metadata)

module _ {U V : Type 0} (d : Deployment U V) (max : ℕ) (r : Reader) (rest : Bytes)
    (pool : (n : ℕ) → length (d.get n) ≡ n) (lossless : IsLossless d.compressors) where
  pub encode-Delivered :
      (out : Message)
      → IsHeader out.header
      → out.header.magic ≡ magic_number
      → Distinct (entries out.metadata)
      → length (rest_of d.compressors out) < 2 ^ 32
      → ltb 0 max && ltb max (length (rest_of d.compressors out)) ≡ false
      → (got : Message) × Delivered d.compressors max r rest out got
          (encode_slice_pointer d.get d.compressors out).1
  encode-Delivered out i magic distinct fits allowed = (
    record {
      header = (compress_payload d.compressors out.header out.payload).0;
      service_path = out.service_path;
      service_method = out.service_method;
      metadata = wire_metadata (entries out.metadata);
      payload = out.payload;
      data_slice = filled new_message.data_slice (rest_of d.compressors out);
    },
    record {
      decodes =
          decode-encode d.get d.compressors max out new_message r rest pool lossless i magic
            distinct (unfold new_message new_header in refl) (unfold new_message in refl) fits
            allowed;
      same_call = compress_payload-SameCall d.compressors out.header out.payload i;
      same_payload = refl;
      same_metadata = refl;
    },
  )

  -- A response that is compressed as the request was.
  pub compress_as-Delivered :
      (req res : Message)
      → IsHeader req.header
      → IsHeader res.header
      → res.header.magic ≡ magic_number
      → Distinct (entries res.metadata)
      → length (frame_rest d req res) < 2 ^ 32
      → ltb 0 max && ltb max (length (frame_rest d req res)) ≡ false
      → (got : Message) × Delivered d.compressors max r rest res got
          (encode_slice_pointer d.get d.compressors (compress_as d req res)).1
  compress_as-Delivered req res ir i magic distinct fits allowed =
      let (kept_payload, kept_metadata) = compress_as_keeps d req res in
      let same = compress_as-SameCall d req res ir i in
      let (got, out) =
        encode-Delivered (compress_as d req res) same.in_range (same.same_magic ∙ magic)
          (rw kept_metadata distinct) fits allowed in
      (
        got,
        record {
          decodes = out.decodes;
          same_call = SameCall-trans _ _ _ same out.same_call;
          same_payload = out.same_payload ∙ kept_payload;
          same_metadata = out.same_metadata ∙ ap (λ m. wire_metadata (entries m)) kept_metadata;
        },
      )

  pub send_response-Delivered :
      ((q m : Message) (e : Option ServerError) (u : U)
        → d.server.hooks.pre_write_response q m e u ≡ (u, q, m))
      → (err : Option ServerError) (req res : Message) (w : World U) → IsHeader req.header
      → IsHeader res.header
      → res.header.magic ≡ magic_number
      → Distinct (entries res.metadata)
      → length (frame_rest d req res) < 2 ^ 32
      → ltb 0 max && ltb max (length (frame_rest d req res)) ≡ false
      → (frame : Bytes) × (got : Message) × ((send_response d err req res w).written
          ≡ w.written ++ frame ∷ [])
        × Delivered d.compressors max r rest res got frame
  unfolding send_response
  send_response-Delivered quiet err req res w ir i magic distinct fits allowed =
      let (got, delivered) = compress_as-Delivered req res ir i magic distinct fits allowed in
      (
        (encode_slice_pointer d.get d.compressors (compress_as d req res)).1,
        got,
        rw (quiet req (compress_as d req res) err w.user) refl,
        delivered,
      )
