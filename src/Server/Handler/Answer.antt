-- ===== src/Server/Handler/Answer.antt =====
-- Every request gets an answer that belongs to it.
use rpcx.Base.{on_option, on_bool, ℕ, ◌≡◌, refl, ap, ◌∙◌, arith, [], ◌∷◌, Option, none, some, Bytes}
use rpcx.Base.Dict.{lookup, insert, bytes_eq_inst}
use rpcx.Protocol.Header.{
  IsHeader, is_oneway, compress_type, serialize_type, message_type, message_status_type,
  set_message_type, set_message_status_type, set_compress_type,
}
use rpcx.Protocol.Header.View.{
  View, view, flags_view, set_message_type-view, set_compress_type-view,
  set_message_status_type-view, set_message_type-IsHeader, set_compress_type-IsHeader,
  set_message_status_type-IsHeader,
}
use rpcx.Protocol.Metadata.{Meta}
use rpcx.Protocol.Message.{Message, new_message, clone, entries}
use rpcx.Client.Conn.Response.{service_error_key}
use rpcx.Server.Handler.{
  ServerError, Result, ok, err, Codec, Server, Method, handle_error, answer_to, reply_with,
  conclude, conclude_function, invoke, handle_request, handle_request_for_function,
}

on_result :
    {A B : Type 0} (P : B → Type 0) (r : Result A) {f : A → B} {g : ServerError → B}
    → ((a : A) → P (f a))
    → ((e : ServerError) → P (g e))
    → P (elim r [ ok a ↦ f a | err e ↦ g e ])
on_result P (ok a) h k = h a
on_result P (err e) h k = k e

-- A response that belongs to a request: its number, its names, and the type `Response`.
pub record Belongs (req res : Message) : Type 0 where
  pub same_number : res.header.seq_bytes ≡ req.header.seq_bytes
  pub same_magic : res.header.magic ≡ req.header.magic
  pub same_path : res.service_path ≡ req.service_path
  pub same_method : res.service_method ≡ req.service_method
  pub in_range : IsHeader res.header
  pub is_response : message_type res.header ≡ 1
  pub same_oneway : is_oneway res.header ≡ is_oneway req.header
  pub same_codec : serialize_type res.header ≡ serialize_type req.header
  pub not_compressed : compress_type res.header ≡ 0

-- What a handled request comes to: a response with no metadata and the request's status, or one that
-- has the status `Error` and the text of the error.
module _ {U V : Type 0} (s : Server U V) where
  abbrev pub Answered : Message → U × Message × Option ServerError → Type 0
  Answered req (u, res, none) =
      Belongs req res
      × (res.metadata ≡ none)
      × (message_status_type res.header ≡ message_status_type req.header)
  Answered req (u, res, some e) =
      Belongs req res
      × (message_status_type res.header ≡ 1)
      × (m : Message) × (res.metadata ≡ some ((service_error_key, s.error_text m e) ∷ []))

  -- The response before anything has failed.
  abbrev pub Draft : Message → Message → Type 0
  Draft req res =
      Belongs req res
      × (res.metadata ≡ none)
      × (message_status_type res.header ≡ message_status_type req.header)

  pub answer_to-Draft : (req : Message) → IsHeader req.header → Draft req (answer_to s req)
  unfolding answer_to clone new_message view flags_view
  answer_to-Draft req i =
      let h = req.header in
      let h1 = set_compress_type 0 h in
      let i1 = set_compress_type-IsHeader 0 h i (omega arith) in
      let v1 = set_compress_type-view 0 h i (omega arith) in
      let v2 = set_message_type-view 1 h1 i1 (omega arith) in
      let v = λ (f : View → ℕ). ap f v2 in
      (
        record {
          same_number = unfold set_message_type set_compress_type in refl;
          same_magic = unfold set_message_type set_compress_type in refl;
          same_path = refl;
          same_method = refl;
          in_range = set_message_type-IsHeader 1 h1 i1 (omega arith);
          is_response = ap (λ w. w.flags.type_bit) v2;
          same_oneway = ap (λ w. w.flags.oneway) v2 ∙ ap (λ w. w.flags.oneway) v1;
          same_codec = ap (λ w. w.serialize) v2 ∙ ap (λ w. w.serialize) v1;
          not_compressed = ap (λ w. w.flags.compress) v2 ∙ ap (λ w. w.flags.compress) v1;
        },
        refl,
        ap (λ w. w.flags.status) v2 ∙ ap (λ w. w.flags.status) v1,
      )

  -- A response that gets the status `Error`, and other metadata.
  pub error_status-Belongs :
      (req res : Message) (m : Option Meta)
      → Belongs req res
      → Belongs req (record res { header = set_message_status_type 1 res.header; metadata = m })
        × (message_status_type (set_message_status_type 1 res.header) ≡ 1)
  unfolding view flags_view
  error_status-Belongs req res m b =
      let v = set_message_status_type-view 1 res.header b.in_range (omega arith) in
      (
        record {
          same_number = unfold set_message_status_type in b.same_number;
          same_magic = unfold set_message_status_type in b.same_magic;
          same_path = b.same_path;
          same_method = b.same_method;
          in_range = set_message_status_type-IsHeader 1 res.header b.in_range (omega arith);
          is_response = ap (λ w. w.flags.type_bit) v ∙ b.is_response;
          same_oneway = ap (λ w. w.flags.oneway) v ∙ b.same_oneway;
          same_codec = ap (λ w. w.serialize) v ∙ b.same_codec;
          not_compressed = ap (λ w. w.flags.compress) v ∙ b.not_compressed;
        },
        ap (λ w. w.flags.status) v,
      )

  pub handle_error-Answered :
      (req res : Message) (e : ServerError) (u : U)
      → Draft req res
      → Answered req (handle_error s res e u)
  unfolding handle_error insert
  handle_error-Answered req res e u (b, no_meta, _) =
      let (b', status) = error_status-Belongs req res _ b in
      (
        b',
        status,
        record res {
          header = set_message_status_type 1 res.header;
          metadata = some (entries res.metadata);
        },
        rw no_meta refl,
      )

  with_payload :
      (req res : Message) (b : Bytes) → Draft req res → Draft req (record res { payload = b })
  with_payload req res b (b', m, st) = (
    record {
      same_number = b'.same_number;
      same_magic = b'.same_magic;
      same_path = b'.same_path;
      same_method = b'.same_method;
      in_range = b'.in_range;
      is_response = b'.is_response;
      same_oneway = b'.same_oneway;
      same_codec = b'.same_codec;
      not_compressed = b'.not_compressed;
    },
    m,
    st,
  )

  reply_with-Answered :
      (codec : Codec V) (req res : Message) (reply : Option V) (u : U)
      → Draft req res
      → Answered req (reply_with s codec req res reply u)
  unfolding reply_with
  reply_with-Answered codec req res reply u d = on_bool (Answered req) (is_oneway req.header) d (
      on_result (Answered req) (codec.encode reply) (λ b. with_payload req res b d)
        (λ e. handle_error-Answered req res e u d))

  conclude-Answered :
      (codec : Codec V) (req res : Message) (reply : Option V) (e : Option ServerError) (u : U)
      → Draft req res
      → Answered req (conclude s codec req res reply e u)
  unfolding conclude
  conclude-Answered codec req res reply none u d = reply_with-Answered codec req res reply u d
  conclude-Answered codec req res none (some e) u d = handle_error-Answered req res e u d
  conclude-Answered codec req res (some reply) (some e) u d =
      on_result (Answered req) (codec.encode (some reply))
        (λ b. handle_error-Answered req (record res { payload = b }) e u (with_payload req res b d))
        (λ e'. handle_error-Answered req res e' u d)

  conclude_function-Answered :
      (codec : Codec V) (req res : Message) (reply : Option V) (e : Option ServerError) (u : U)
      → Draft req res
      → Answered req (conclude_function s codec req res reply e u)
  unfolding conclude_function
  conclude_function-Answered codec req res reply none u d =
      reply_with-Answered codec req res reply u d
  conclude_function-Answered codec req res reply (some e) u d = handle_error-Answered req res e u d

  invoke-Answered :
      (mtype : Method U V) (codec : Codec V) (req res : Message)
      (finish : Option V → Option ServerError → U → U × Message × Option ServerError) (u : U)
      → Draft req res
      → ((reply : Option V) (e : Option ServerError) (v : U) → Answered req (finish reply e v))
      → Answered req (invoke s mtype codec req res finish u)
  unfolding invoke
  invoke-Answered mtype codec req res finish u d h =
      on_result (Answered req) (codec.decode mtype.arg_type req.payload)
        (λ argv.
          let (u1, argv1, e1) = s.hooks.pre_call req.service_path req.service_method argv u in
          on_option (Answered req) e1 (h _ _ _) (λ e. handle_error-Answered req res e u1 d))
        (λ e. handle_error-Answered req res e u d)

  handle_request_for_function-Answered :
      (req : Message) (u : U)
      → IsHeader req.header
      → Answered req (handle_request_for_function s req u)
  unfolding handle_request_for_function
  handle_request_for_function-Answered req u i =
      let res = answer_to s req in
      let d = answer_to-Draft req i in
      on_option (Answered req) (lookup req.service_path s.service_map)
        (handle_error-Answered req res _ u d)
        λ service.
          on_option (Answered req) (lookup req.service_method service.function)
            (handle_error-Answered req res _ u d)
            λ mtype.
              on_option (Answered req) (s.codecs (serialize_type req.header))
                (handle_error-Answered req res _ u d)
                λ codec.
                  invoke-Answered mtype codec req res _ u d
                    (λ reply e v. conclude_function-Answered codec req res reply e v d)

  -- Whatever the request asks for and whatever the service and the plugins do, the result of
  -- `handleRequest` is a response with the number, the names and the codec of the request, of the
  -- type `Response` and not compressed. Without an error it has no metadata and the status of the
  -- request; with an error it has the status `Error` and the text of that error, and nothing else,
  -- in its metadata. This needs a request whose header is twelve bytes.
  pub handle_request-Answered :
      (req : Message) (u : U) → IsHeader req.header → Answered req (handle_request s req u)
  unfolding handle_request
  handle_request-Answered req u i =
      let res = answer_to s req in
      let d = answer_to-Draft req i in
      on_option (Answered req) (lookup req.service_path s.service_map)
        (handle_error-Answered req res _ u d)
        λ service.
          on_option (Answered req) (lookup req.service_method service.method)
            (on_option (Answered req) (lookup req.service_method service.function)
              (handle_error-Answered req res _ u d)
              (λ _. handle_request_for_function-Answered req u i))
            λ mtype.
              on_option (Answered req) (s.codecs (serialize_type req.header))
                (handle_error-Answered req res _ u d)
                λ codec.
                  invoke-Answered mtype codec req res _ u d
                    (λ reply e v. conclude-Answered codec req res reply e v d)
