-- ===== src/Server/Registry/Serves.antt =====
-- What the server answers (`Server.Handler`) once a service is registered.
use rpcx.Base.{
  ◌≡◌, refl, ◌∙◌, ap, inl, inr, arith, Bool-cases, List, [], ◌∷◌, Option, none, some, Bytes, Bool,
  true, false, bytes_eq,
}
use rpcx.Base.Dict.{lookup, insert, lookup_inserted, bytes_eq_inst}
use rpcx.Protocol.Header.{serialize_type, is_oneway}
use rpcx.Protocol.Message.{Message}
use rpcx.Server.Handler.{
  Service, Method, Server, Codec, ok, Called, answer_to, invoke, conclude, reply_with, service_call,
  handle_request,
}
use rpcx.Server.Registry.{
  Reflection, MethodInfo, Receiver, Callable, Entry, ServiceMap, registers, suitable_methods,
  install, register,
}
use rpcx.Server.Registry.Suitable.{
  Suitable, installed, installed-Suitable, method_named, DistinctNames, lookup-suitable_methods,
}

-- What a registration of a receiver puts into the map.
abbrev pub entry_of : Reflection → Receiver → Entry
entry_of x rcvr = record { method = suitable_methods x rcvr.methods; function = none }

module _ (x : Reflection) (rcvr : Receiver) where
  install_result :
      (sname : Bytes) (sm sm' : ServiceMap) (n : Bytes)
      → install x rcvr sname sm ≡ registers sm' n
      → (n ≡ sname) × (sm' ≡ insert sname (entry_of x rcvr) sm)
  unfolding install
  install_result sname sm sm' n h = (ground arith, ground arith)

  pub register_result :
      (name : Bytes) (use_name : Bool) (sm : ServiceMap) {sm' : ServiceMap} {n : Bytes}
      → register x rcvr name use_name sm ≡ registers sm' n
      → sm' ≡ insert n (entry_of x rcvr) sm
  unfolding register
  register_result name true sm {sm'} {n} h = ground (arith, install_result name sm sm' n)
  register_result name false sm {sm'} {n} h = ground (arith, install_result rcvr.type_name sm sm' n)

module _ {U V : Type 0} (bind : Callable → Method U V) where
  abbrev pub bind_all : List (Bytes × Callable) → List (Bytes × Method U V)
  bind_all [] = []
  bind_all ((k, c) ∷ kvs) = (k, bind c) ∷ bind_all kvs

  abbrev pub functions_of : Option (List (Bytes × Callable)) → List (Bytes × Method U V)
  functions_of none = []
  functions_of (some fs) = bind_all fs

  -- The services of a map as the handlers see them: a nil map has no entries.
  abbrev pub services : ServiceMap → List (Bytes × Service U V)
  services [] = []
  services ((k, e) ∷ sm) =
      (k, record { method = bind_all e.method; function = functions_of e.function }) ∷ services sm

  unfoldable pub bound : Option Callable → Option (Method U V)
  bound none = none
  bound (some c) = some (bind c)

  unfoldable pub served : Option Entry → Option (Service U V)
  served none = none
  served (some e) = some (record { method = bind_all e.method; function = functions_of e.function })

  pub lookup-bind_all :
      (k : Bytes) (kvs : List (Bytes × Callable)) → lookup k (bind_all kvs) ≡ bound (lookup k kvs)
  unfolding lookup bound
  lookup-bind_all k [] = refl
  lookup-bind_all k ((j, c) ∷ kvs) = elim (Bool-cases (bytes_eq j k)) [
    | inl p ↦ rw p refl
    | inr p ↦ rw p (lookup-bind_all k kvs)
  ]

  pub lookup-services :
      (k : Bytes) (sm : ServiceMap) → lookup k (services sm) ≡ served (lookup k sm)
  unfolding lookup served
  lookup-services k [] = refl
  lookup-services k ((j, e) ∷ sm) = elim (Bool-cases (bytes_eq j k)) [
    | inl p ↦ rw p refl
    | inr p ↦ rw p (lookup-services k sm)
  ]

module _ {U V : Type 0} (bind : Callable → Method U V) (x : Reflection) (s : Server U V)
    (req : Message) where
  -- The server with the services of a map.
  abbrev pub with_services : ServiceMap → Server U V
  with_services sm = record s { service_map = services bind sm }

  find_registered :
      (rcvr : Receiver) (name : Bytes) (use_name : Bool) (sm : ServiceMap) {sm' : ServiceMap}
      {sname : Bytes}
      → register x rcvr name use_name sm ≡ registers sm' sname
      → req.service_path ≡ sname
      → lookup req.service_path (services bind sm')
        ≡ some (record { method = bind_all bind (suitable_methods x rcvr.methods); function = [] })
  unfolding served
  find_registered rcvr name use_name sm {sm'} {sname} r p =
      rw (p, lookup-services bind sname sm', register_result x rcvr name use_name sm r)
        (rw (lookup_inserted sname (entry_of x rcvr) sm) refl)

  -- A request for a method of the receiver goes to `invoke`.
  registered_invokes :
      (rcvr : Receiver) (name : Bytes) (use_name : Bool) (sm : ServiceMap) {sm' : ServiceMap}
      {sname : Bytes} {m : MethodInfo} {c : Callable} {codec : Codec V}
      → register x rcvr name use_name sm ≡ registers sm' sname
      → DistinctNames rcvr.methods
      → req.service_path ≡ sname
      → method_named req.service_method rcvr.methods ≡ some m
      → Suitable x m c
      → s.codecs (serialize_type req.header) ≡ some codec
      → (u : U)
      → handle_request (with_services sm') req u
        ≡ invoke
            (with_services sm')
            (bind c)
            codec
            req
            (answer_to s req)
            (conclude (with_services sm') codec req (answer_to s req))
            u
  unfolding handle_request answer_to bound
  registered_invokes rcvr name use_name sm {sm'} {sname} {m} {c} {codec} r d p found suits has u =
      let ms = suitable_methods x rcvr.methods in
      let e : lookup req.service_method ms ≡ some c =
        lookup-suitable_methods x req.service_method rcvr.methods d
        ∙ ap (λ o. installed x o none) found
        ∙ installed-Suitable x m c suits in
      rw (find_registered rcvr name use_name sm r p, handle_request)
        (rw (lookup-bind_all bind req.service_method ms, e) (rw has refl))

  -- A method that runs without an error.
  invoke-returns :
      (t : Server U V) (mtype : Method U V) (codec : Codec V) (res : Message) (u : U) {u1 u2 u3 : U}
      {a a1 reply reply1 : V} {sent : Bytes}
      → codec.decode mtype.arg_type req.payload ≡ ok a
      → t.hooks.pre_call req.service_path req.service_method a u ≡ (u1, a1, none)
      → mtype.run a1 (t.new_value mtype.reply_type) u1 ≡ Called.returns u2 reply none
      → t.hooks.post_call req.service_path req.service_method a1 reply none u2
        ≡ (u3, some reply1, none)
      → is_oneway req.header ≡ false
      → codec.encode (some reply1) ≡ ok sent
      → invoke t mtype codec req res (conclude t codec req res) u
        ≡ (u3, record res { payload = sent }, none)
  unfolding invoke service_call conclude reply_with
  invoke-returns t mtype codec res u args before ran behind twoway encoded =
      rw (args, invoke) (simp (before, service_call, ran, behind) (rw (twoway, encoded) refl))

  -- Behind a registration of a receiver that succeeds, a two-way request that names a method of the
  -- receiver is answered with the encoding of what the method leaves. The method runs on the argument
  -- that the payload decodes to, and on a new reply; the plugins stand before it, where they may change
  -- the argument, and behind it, where they may change the reply. This needs a method of that name that
  -- is exported, takes a context, an argument and a pointer to a reply of exported or builtin types, and
  -- returns an error, methods with distinct names, a codec of the request's number that decodes the
  -- argument and encodes the reply, and a method and plugins that give no error.
  pub registered_is_served :
      (rcvr : Receiver) (name : Bytes) (use_name : Bool) (sm : ServiceMap) {sm' : ServiceMap}
      {sname : Bytes} {m : MethodInfo} {c : Callable} {codec : Codec V}
      → register x rcvr name use_name sm ≡ registers sm' sname
      → DistinctNames rcvr.methods
      → req.service_path ≡ sname
      → method_named req.service_method rcvr.methods ≡ some m
      → Suitable x m c
      → s.codecs (serialize_type req.header) ≡ some codec
      → (u : U) {u1 u2 u3 : U} {a a1 reply reply1 : V} {sent : Bytes}
      → codec.decode (bind c).arg_type req.payload ≡ ok a
      → s.hooks.pre_call req.service_path req.service_method a u ≡ (u1, a1, none)
      → (bind c).run a1 (s.new_value (bind c).reply_type) u1 ≡ Called.returns u2 reply none
      → s.hooks.post_call req.service_path req.service_method a1 reply none u2
        ≡ (u3, some reply1, none)
      → is_oneway req.header ≡ false
      → codec.encode (some reply1) ≡ ok sent
      → handle_request (with_services sm') req u
        ≡ (u3, record (answer_to s req) { payload = sent }, none)
  registered_is_served rcvr name use_name sm {sm'} {c = c} {codec = codec} r d p found suits has u
        args before ran behind twoway encoded =
      registered_invokes rcvr name use_name sm r d p found suits has u
      ∙ invoke-returns (with_services sm') (bind c) codec (answer_to s req) u args before ran behind
          twoway encoded
