-- ===== src/Server/Handler.antt =====
-- How the server answers one request (server/server.go, and the calls of server/service.go). `U` is
-- the state of the services and plugins, `V` the type of arguments and replies; a Go type is a
-- number. The containers of plugins stand here as one record of hooks, which may change the messages
-- that they get. Object pools give zero values and are left out, as are traces.
pub mod Answer
use rpcx.Base.{
  ℕ, ◌+◌, ◌%◌, ◌<◌, ◌≡◌, List, [], ◌∷◌, ◌++◌, Option, none, some, Bytes, bytes, Bool, true, false,
  ◌==◌, if◌then◌else◌, length, get_elem?,
}
use rpcx.Base.Dict.{lookup, insert, bytes_eq_inst}
use rpcx.Protocol.Metadata.{Meta}
use rpcx.Protocol.Header.{is_oneway, serialize_type, set_message_type, set_message_status_type}
use rpcx.Protocol.Message.{Message, clone, entries}
use rpcx.Protocol.Message.Decode.{DecodeError}
use rpcx.Client.Conn.Response.{service_error_key}

pub data ServerError : Type 0 where
  no_service no_method : Bytes → ServerError
  no_function_service service_panic request_limit : ServerError
  no_codec : ℕ → ServerError
  -- An error of `Decode`.
  reading : DecodeError → ServerError
  -- An error of a codec, a plugin, a service, the authentication or the connection.
  failed : ℕ → ServerError

pub data Result (A : Type 0) : Type 0 where
  ok : A → Result A
  err : ServerError → Result A

-- `Decode` into a new value of a type, and `Encode`, where `none` is nil.
pub record Codec (V : Type 0) : Type 0 where
  pub decode : ℕ → Bytes → Result V
  pub encode : Option V → Result Bytes

-- What the reflected function does: it returns, with the reply that it has filled in, or panics.
pub data Called (U V : Type 0) : Type 0 where
  returns : U → V → Option ServerError → Called U V
  panics : U → V → Called U V

-- `methodType` and `functionType`: the function gets the argument and a new reply.
pub record Method (U V : Type 0) : Type 0 where
  pub arg_type : ℕ
  pub reply_type : ℕ
  pub run : V → V → U → Called U V

pub record Service (U V : Type 0) : Type 0 where
  pub method : List (Bytes × Method U V)
  pub function : List (Bytes × Method U V)

-- The container of plugins, and what its hooks make of the messages.
pub record Hooks (U V : Type 0) : Type 0 where
  pub pre_read_request : U → U × Option ServerError
  pub post_read_request : Message → Option ServerError → U → U × Message × Option ServerError
  pub pre_handle_request : Message → U → U × Message
  pub heartbeat_request : Message → U → U × Message
  pub pre_call : Bytes → Bytes → V → U → U × V × Option ServerError
  pub post_call : Bytes → Bytes → V → V → Option ServerError → U → U × Option V × Option ServerError
  pub pre_write_response : Message → Message → Option ServerError → U → U × Message × Message
  -- The same where there is no response to write.
  pub pre_write_nothing : Message → Option ServerError → U → U × Message
  pub post_write_response : Message → Message → Option ServerError → U → U

pub record Server (U V : Type 0) : Type 0 where
  pub service_map : List (Bytes × Service U V)
  pub codecs : ℕ → Option (Codec V)
  -- `reflectTypePools.Get`
  pub new_value : ℕ → V
  -- `ServerErrorFunc`, or the text of the error.
  pub error_text : Message → ServerError → Bytes
  pub hooks : Hooks U V

-- `service.call` and `service.callForFunction`, which recover from a panic.
unfoldable pub service_call : {U V : Type 0} → Method U V → V → V → U → U × V × Option ServerError
service_call m argv replyv u = elim (m.run argv replyv u) [
  | returns u1 reply e ↦ (u1, reply, e)
  | panics u1 reply ↦ (u1, reply, some service_panic)
]

-- The first error of two.
abbrev pub or_else : Option ServerError → Option ServerError → Option ServerError
or_else none e = e
or_else (some x) _ = some x

module _ {U V : Type 0} (s : Server U V) where
  abbrev pub Handled : Type 0
  Handled = U × Message × Option ServerError

  unfoldable pub handle_error : Message → ServerError → U → Handled
  handle_error res e u =
      let m = record res {
        header = set_message_status_type 1 res.header;
        metadata = some (entries res.metadata);
      } in
      (
        u,
        record m {
          metadata = some (insert service_error_key (s.error_text m e) (entries res.metadata));
        },
        some e,
      )

  -- The response that answers a request.
  unfoldable pub answer_to : Message → Message
  answer_to req = let res = clone req in record res { header = set_message_type 1 res.header }

  -- The end of both handlers where nothing failed.
  unfoldable pub reply_with : Codec V → Message → Message → Option V → U → Handled
  reply_with codec req res reply u =
      if is_oneway req.header then (u, res, none) else elim (codec.encode reply) [
        | ok data_bytes ↦ (u, record res { payload = data_bytes }, none)
        | err e ↦ handle_error res e u
      ]

  -- The end of `handleRequest`: a reply goes with the error.
  unfoldable pub conclude :
      Codec V → Message → Message → Option V → Option ServerError → U → Handled
  conclude codec req res reply none u = reply_with codec req res reply u
  conclude codec req res none (some e) u = handle_error res e u
  conclude codec req res (some reply) (some e) u = elim (codec.encode (some reply)) [
    | ok data_bytes ↦ handle_error (record res { payload = data_bytes }) e u
    | err e' ↦ handle_error res e' u
  ]

  -- The end of `handleRequestForFunction`.
  unfoldable pub conclude_function :
      Codec V → Message → Message → Option V → Option ServerError → U → Handled
  conclude_function codec req res reply none u = reply_with codec req res reply u
  conclude_function codec req res reply (some e) u = handle_error res e u

  -- From the argument to the end, which is `finish`.
  unfoldable pub invoke :
      Method U V
      → Codec V
      → Message
      → Message
      → (Option V → Option ServerError → U → Handled)
      → U
      → Handled
  invoke mtype codec req res finish u = elim (codec.decode mtype.arg_type req.payload) [
    | err e ↦ handle_error res e u
    | ok argv ↦
        let (u1, argv1, e1) = s.hooks.pre_call req.service_path req.service_method argv u in
        elim e1 [
          | some e ↦ handle_error res e u1
          | none ↦
              let (u2, reply, e2) = service_call mtype argv1 (s.new_value mtype.reply_type) u1 in
              let (u3, reply1, e3) =
                s.hooks.post_call req.service_path req.service_method argv1 reply e2 u2 in
              finish reply1 (or_else e2 e3) u3
        ]
  ]

  unfoldable pub handle_request_for_function : Message → U → Handled
  handle_request_for_function req u =
      let res = answer_to req in
      elim (lookup req.service_path s.service_map) [
        | none ↦ handle_error res no_function_service u
        | some service ↦ elim (lookup req.service_method service.function) [
          | none ↦ handle_error res (no_method req.service_method) u
          | some mtype ↦ elim (s.codecs (serialize_type req.header)) [
            | none ↦ handle_error res (no_codec (serialize_type req.header)) u
            | some codec ↦ invoke mtype codec req res (conclude_function codec req res) u
          ]
        ]
      ]

  -- The lock of a `LogicSync` method does not show in one request; `Server.LogicSync` has it.
  unfoldable pub handle_request : Message → U → Handled
  handle_request req u =
      let res = answer_to req in
      elim (lookup req.service_path s.service_map) [
        | none ↦ handle_error res (no_service req.service_path) u
        | some service ↦ elim (lookup req.service_method service.method) [
          | none ↦ elim (lookup req.service_method service.function) [
            | none ↦ handle_error res (no_method req.service_method) u
            | some _ ↦ handle_request_for_function req u
          ]
          | some mtype ↦ elim (s.codecs (serialize_type req.header)) [
            | none ↦ handle_error res (no_codec (serialize_type req.header)) u
            | some codec ↦ invoke mtype codec req res (conclude codec req res) u
          ]
        ]
      ]
