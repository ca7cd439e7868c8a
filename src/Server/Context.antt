-- ===== src/Server/Context.antt =====
-- `Context` of server/context.go, by which a function of the router answers: `Bind`, `Write` and
-- `WriteError`, over the codecs, buffers and compressors of `Server.Process`. An asynchronous write,
-- whose error is lost in a goroutine, is left out.
pub mod Answers
mod Tests
use rpcx.Base.{ℕ, List, [], ◌∷◌, ◌++◌, Option, none, some, Bytes, bytes_eq, if◌then◌else◌}
use rpcx.Base.Dict.{insert, bytes_eq_inst}
use rpcx.Protocol.Metadata.{Meta}
use rpcx.Protocol.Header.{is_oneway, serialize_type, set_message_status_type}
use rpcx.Protocol.Message.{Message, entries}
use rpcx.Protocol.Message.Encode.{encode_slice_pointer}
use rpcx.Client.Conn.Response.{service_error_key}
use rpcx.Server.Handler.{ServerError, no_codec, Result, ok, err, Codec, answer_to}
use rpcx.Server.Process.{Deployment, fill_missing, compress_as}

-- `written` has what was given to `conn.Write`. `res_metadata` is the value of `ResMetaDataKey`: none
-- is there, or a map that may be nil.
pub record Context : Type 0 where
  pub written : List Bytes
  pub res_metadata : Option (Option Meta)

-- `NewContext` over a context and a connection.
unfoldable pub new_context : Option (Option Meta) → Context
new_context m = record { written = []; res_metadata = m }

-- The write into a nil map panics.
pub data Wrote : Type 0 where
  wrote : Context → Option ServerError → Wrote
  panics : Wrote

unfoldable pub with_context_metadata : Option (Option Meta) → Message → Message
with_context_metadata none res = res
with_context_metadata (some m) res = elim res.metadata [
  | none ↦ record res { metadata = m }
  | some meta ↦ record res { metadata = some (fill_missing meta (entries m)) }
]

-- The context's value behind a write into the metadata of a response: a response that had none
-- shares the context's map.
unfoldable pub shared_map : Option Meta → Option (Option Meta) → Meta → Option (Option Meta)
shared_map (some own) m new = m
shared_map none none new = none
shared_map none (some m) new = some (some new)

-- The payload of `Write`, whose nil leaves it as `Clone` does.
unfoldable pub payload_for : {V : Type 0} → Codec V → Option V → Result Bytes
payload_for codec none = ok []
payload_for codec (some v) = codec.encode (some v)

module _ {U V : Type 0} (d : Deployment U V) where
  -- `Bind` into a value of a type, or into nil.
  unfoldable pub bind : Option ℕ → Message → Result (Option V)
  bind none req = ok none
  bind (some type) req = elim (d.server.codecs (serialize_type req.header)) [
    | none ↦ err (no_codec (serialize_type req.header))
    | some codec ↦ elim (codec.decode type req.payload) [ err e ↦ err e | ok v ↦ ok (some v) ]
  ]

  -- `write_conn` is what `conn.Write` says of a frame.
  unfoldable pub write :
      (Bytes → Option ServerError) → Option V → Message → Context → Context × Option ServerError
  write write_conn v req x =
      if is_oneway req.header
      then (x, none)
      else elim (d.server.codecs (serialize_type req.header)) [
        | none ↦ (x, some (no_codec (serialize_type req.header)))
        | some codec ↦ elim (payload_for codec v) [
          | err e ↦ (x, some e)
          | ok data_bytes ↦
              let res =
                with_context_metadata x.res_metadata
                  (record (answer_to d.server req) { payload = data_bytes }) in
              let frame = (encode_slice_pointer d.get d.compressors (compress_as d req res)).1 in
              (record x { written = x.written ++ frame ∷ [] }, write_conn frame)
        ]
      ]

  -- `WriteError` of an error's text, which does not look at the error of `conn.Write`.
  unfoldable pub write_error : Bytes → Message → Context → Wrote
  write_error text req x =
      if is_oneway req.header
      then wrote x none
      else elim (d.server.codecs (serialize_type req.header)) [
        | none ↦ wrote x (some (no_codec (serialize_type req.header)))
        | some codec ↦
            let draft = answer_to d.server req in
            let res = with_context_metadata x.res_metadata draft in
            elim res.metadata [
              | none ↦ panics
              | some meta ↦
                  let said = insert service_error_key text meta in
                  let out = record res {
                    header = set_message_status_type 1 res.header;
                    metadata = some said;
                  } in
                  wrote
                    (record x {
                      written = x.written ++ (encode_slice_pointer d.get d.compressors out).1 ∷ [];
                      res_metadata = shared_map draft.metadata x.res_metadata said;
                    })
                    none
            ]
      ]
