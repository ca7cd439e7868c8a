-- ===== src/Server/Process.antt =====
-- `processOneRequest` and `sendResponse` of server/server.go: what the server writes for a request.
-- What is handed to `conn.Write` counts as written; its errors are not looked at. Deadlines,
-- statistics, and the goroutine of an asynchronous write are left out, and so are panics, for which
-- `processOneRequest` writes nothing.
pub mod Once
pub mod Outgoing
pub mod Filled
pub mod Reply
pub mod EndToEnd
pub mod Rpc
mod Tests
use rpcx.Base.{
  ℕ, ◌≡◌, List, [], ◌∷◌, ◌++◌, Option, none, some, Bytes, bytes, Bool, true, false, not, ◌&&◌, ◌==◌,
  ltb, if◌then◌else◌, length,
}
use rpcx.Base.Dict.{lookup, insert, bytes_eq_inst}
use rpcx.Protocol.Metadata.{Meta}
use rpcx.Protocol.Header.{
  is_heartbeat, is_oneway, compress_type, set_compress_type, set_message_type,
}
use rpcx.Protocol.Message.{Message, Compressors, entries}
use rpcx.Protocol.Message.Encode.{encode_slice_pointer}
use rpcx.Client.Conn.Response.{is_empty, get_string}
use rpcx.Server.Handler.{Server, ServerError, handle_request}

-- `written` has the frames that were written, and `reported` what `HandleServiceError` or the log
-- got, both in their order.
pub record World (U : Type 0) : Type 0 where
  pub user : U
  pub written : List Bytes
  pub reported : List ServerError

-- A server with the functions of its router, which write their frames themselves, the pool of
-- buffers and the compressors. `res_metadata` reads the map that the context of a request carries
-- for the response.
pub record Deployment (U V : Type 0) : Type 0 where
  pub server : Server U V
  pub router : List (Bytes × (Message → U → U × List Bytes × Option ServerError))
  pub get : ℕ → Bytes
  pub compressors : Compressors
  pub res_metadata : U → Meta

-- The entries of the context's map whose key is missing or empty.
unfoldable pub fill_missing : Meta → Meta → Meta
fill_missing meta [] = meta
fill_missing meta ((k, v) ∷ kvs) =
    fill_missing (if is_empty (get_string k meta) then insert k v meta else meta) kvs

unfoldable pub with_res_metadata : Meta → Message → Message
with_res_metadata [] res = res
with_res_metadata (kv ∷ kvs) res = elim res.metadata [
  | none ↦ record res { metadata = some (kv ∷ kvs) }
  | some meta ↦ record res { metadata = some (fill_missing meta (kv ∷ kvs)) }
]

module _ {U V : Type 0} (d : Deployment U V) where
  -- A long response is compressed as the request was.
  unfoldable pub compress_as : Message → Message → Message
  compress_as req res =
      if ltb 1024 (length res.payload) && not (compress_type req.header == 0)
      then record res { header = set_compress_type (compress_type req.header) res.header }
      else res

  unfoldable pub send_response : Option ServerError → Message → Message → World U → World U
  send_response err req res w =
      let (u1, req1, res1) =
        d.server.hooks.pre_write_response req (compress_as req res) err w.user in
      let (m, frame) = encode_slice_pointer d.get d.compressors res1 in
      record w {
        user = d.server.hooks.post_write_response req1 m err u1;
        written = w.written ++ frame ∷ [];
      }

  unfoldable pub report : Option ServerError → World U → World U
  report none w = w
  report (some e) w = record w { reported = w.reported ++ e ∷ [] }

  unfoldable pub answer_heartbeat : Message → World U → World U
  answer_heartbeat req w =
      let (u1, req1) = d.server.hooks.heartbeat_request req w.user in
      let res = record req1 { header = set_message_type 1 req1.header } in
      record w {
        user = u1;
        written = w.written ++ (encode_slice_pointer d.get d.compressors res).1 ∷ [];
      }

  -- From the handler to the response.
  unfoldable pub serve_service : Message → World U → World U
  serve_service req w =
      let (u1, res, err) = handle_request d.server req w.user in
      let w1 = report err (record w { user = u1 }) in
      if is_oneway req.header
      then w1
      else send_response err req (with_res_metadata (d.res_metadata u1) res) w1

  unfoldable pub process_one_request : Message → World U → World U
  process_one_request req w =
      if is_heartbeat req.header
      then answer_heartbeat req w
      else let (u1, req1) =
          d.server.hooks.pre_handle_request (record req { metadata = some (entries req.metadata) })
            w.user in
        let w1 = record w { user = u1 } in
        elim (lookup (req1.service_path ++ (bytes "." ++ req1.service_method)) d.router) [
          | none ↦ serve_service req1 w1
          | some handler ↦
              let (u2, frames, err) = handler req1 u1 in
              record w1 { user = u2; written = w.written ++ frames }
        ]
