-- ===== src/Server/Registry/Functions.antt =====
-- Functions among the services: what a registration of a function leaves in the map.
use rpcx.Base.{
  ◌≡◌, ◌≢◌, refl, ◌∙◌, ap, inl, inr, arith, Option-cases, List, [], ◌∷◌, Option, none, some, Bytes,
  Bool, if◌then◌else◌,
}
use rpcx.Base.Dict.{lookup, insert, lookup_inserted, bytes_eq_inst}
use rpcx.Protocol.Header.{serialize_type}
use rpcx.Protocol.Message.{Message}
use rpcx.Server.Handler.{
  Method, Server, Codec, answer_to, invoke, conclude_function, handle_request,
  handle_request_for_function,
}
use rpcx.Server.Registry.{
  GoType, Reflection, FuncInfo, Receiver, Callable, Entry, ServiceMap, registers, behind_last,
  register, register_function, install_function, check_counts, check_function_types,
}
use rpcx.Server.Registry.Serves.{
  entry_of, register_result, with_services, bind_all, services, lookup-services, lookup-bind_all,
  served, bound,
}

-- The entry of a path that has none yet is empty.
abbrev pub methods_of : Option Entry → List (Bytes × Callable)
methods_of none = []
methods_of (some e) = e.method

abbrev pub known_functions : Option Entry → Option (List (Bytes × Callable))
known_functions none = some []
known_functions (some e) = e.function

module _ (x : Reflection) (path fname : Bytes) (sm : ServiceMap) where
  -- Behind a success the function stands beside those that were there.
  record Installed (f : FuncInfo) (sm' : ServiceMap) (n : Bytes) : Type 0 where
    same_name : n ≡ fname
    callable : Callable
    functions : List (Bytes × Callable)
    same_body : callable.body ≡ f.body
    known : known_functions (lookup path sm) ≡ some functions
    found :
        lookup path sm'
        ≡ some (record {
          method = methods_of (lookup path sm);
          function = some (insert fname callable functions);
        })

  install_function_result :
      (f : FuncInfo) (c : Callable) (sm' : ServiceMap) (n : Bytes)
      → c.body ≡ f.body
      → install_function path fname c sm ≡ registers sm' n
      → Installed f sm' n
  unfolding install_function insert
  install_function_result f c sm' n b h = elim (Option-cases (lookup path sm)) [
    | inl new ↦ record {
      same_name = ground arith;
      callable = c;
      functions = [];
      same_body = b;
      known = ap known_functions new;
      found = rw new (
          ground (
            arith,
            lookup_inserted path (record { method = []; function = some ((fname, c) ∷ []) }) sm,
          ));
    }
    | inr (ss, old) ↦ elim (Option-cases ss.function) [
      | inl nil ↦ absurd (ground arith)
      | inr (fs, has) ↦ record {
        same_name = ground arith;
        callable = c;
        functions = fs;
        same_body = b;
        known = ap known_functions old ∙ has;
        found = rw old (
            ground
              (arith, lookup_inserted path (record ss { function = some (insert fname c fs) }) sm));
      }
    ]
  ]

  types_result :
      (f : FuncInfo) (ctx arg reply out : GoType) (sm' : ServiceMap) (n : Bytes)
      → check_function_types x f ctx arg reply out path fname sm ≡ registers sm' n
      → Installed f sm' n
  unfolding check_function_types
  types_result f ctx arg reply out sm' n h =
      install_function_result f (record { body = f.body; arg_type = arg; reply_type = reply }) sm' n
        refl (ground arith)

  counts_result :
      (f : FuncInfo) (ins outs : List GoType) (sm' : ServiceMap) (n : Bytes)
      → check_counts x f ins outs path fname sm ≡ registers sm' n
      → Installed f sm' n
  unfolding check_counts
  counts_result f [] outs sm' n h = cc
  counts_result f (a ∷ []) outs sm' n h = cc
  counts_result f (a ∷ b ∷ []) outs sm' n h = cc
  counts_result f (a ∷ b ∷ c ∷ []) [] sm' n h = cc
  counts_result f (a ∷ b ∷ c ∷ []) (o ∷ []) sm' n h = types_result f a b c o sm' n h
  counts_result f (a ∷ b ∷ c ∷ []) (o ∷ p ∷ outs) sm' n h = cc
  counts_result f (a ∷ b ∷ c ∷ d ∷ ins) outs sm' n h = cc

  register_function_result :
      (f : FuncInfo) (name : Bytes) (use_name : Bool) (sm' : ServiceMap) (n : Bytes)
      → fname ≡ (if use_name then name else behind_last 46 f.runtime_name f.runtime_name)
      → register_function x path (some f) name use_name sm ≡ registers sm' n
      → Installed f sm' n
  unfolding register_function
  register_function_result f name use_name sm' n e h =
      counts_result f f.ins f.outs sm' n (rw e (ground arith))

module _ {U V : Type 0} (bind : Callable → Method U V) (x : Reflection) (s : Server U V)
    (req : Message) where
  -- Behind a registration of a function that succeeds, the server calls it for a request that names
  -- it, where the service has no method of that name.
  pub function_is_served :
      (path : Bytes) (f : FuncInfo) (name : Bytes) (use_name : Bool) (sm : ServiceMap)
      {sm' : ServiceMap} {fname : Bytes} {codec : Codec V}
      → register_function x path (some f) name use_name sm ≡ registers sm' fname
      → req.service_path ≡ path
      → req.service_method ≡ fname
      → lookup fname (methods_of (lookup path sm)) ≡ none
      → s.codecs (serialize_type req.header) ≡ some codec
      → (u : U)
      → (c : Callable) × (c.body ≡ f.body)
        × (handle_request (with_services bind x s req sm') req u
            ≡ invoke
                (with_services bind x s req sm')
                (bind c)
                codec
                req
                (answer_to s req)
                (conclude_function (with_services bind x s req sm') codec req (answer_to s req))
                u)
  unfolding handle_request handle_request_for_function answer_to bound served
  function_is_served path f name use_name sm {sm'} {fname} {codec} r p n free has u =
      let local = if use_name then name else behind_last 46 f.runtime_name f.runtime_name in
      let i = register_function_result x path local sm f name use_name sm' fname refl r in
      let c = i.callable in
      let e : lookup fname (insert local c i.functions) ≡ some c =
        ap (λ k. lookup k (insert local c i.functions)) i.same_name
        ∙ lookup_inserted local c i.functions in
      let l : lookup req.service_path (services bind sm')
          ≡ some (record {
            method = bind_all bind (methods_of (lookup path sm));
            function = bind_all bind (insert local c i.functions);
          }) =
        rw p (lookup-services bind path sm' ∙ ap (served bind) i.found) in
      let m1 : lookup req.service_method (bind_all bind (methods_of (lookup path sm))) ≡ none =
        rw n (lookup-bind_all bind fname (methods_of (lookup path sm)) ∙ ap (bound bind) free) in
      let m2 : lookup req.service_method (bind_all bind (insert local c i.functions))
          ≡ some (bind c) =
        rw n (lookup-bind_all bind fname (insert local c i.functions) ∙ ap (bound bind) e) in
      (
        c,
        i.same_body,
        rw (l, handle_request)
            (rw (m1, m2) (rw (l, handle_request_for_function) (rw m2 (rw has refl)))),
      )

-- Where a receiver is registered, no function can be registered under its name.
pub no_function_beside_receiver :
    (x : Reflection) (rcvr : Receiver) (name : Bytes) (use_name : Bool) (sm : ServiceMap)
    {sm' : ServiceMap} {sname : Bytes}
    → register x rcvr name use_name sm ≡ registers sm' sname
    → (f : FuncInfo) (fname : Bytes) (use_fname : Bool) (sm'' : ServiceMap) (n : Bytes)
    → register_function x sname (some f) fname use_fname sm' ≢ registers sm'' n
no_function_beside_receiver x rcvr name use_name sm {sm'} {sname} r f fname use_fname sm'' n = λ h.
    let local = if use_fname then fname else behind_last 46 f.runtime_name f.runtime_name in
    let i = register_function_result x sname local sm' f fname use_fname sm'' n refl h in
    let e : lookup sname sm' ≡ some (entry_of x rcvr) =
      rw (register_result x rcvr name use_name sm r) (lookup_inserted sname (entry_of x rcvr) sm) in
    let no : known_functions (lookup sname sm') ≡ none = ap known_functions e in
    let known = i.known in cc
