-- ===== src/Server/Registry/Tests.antt =====
-- Registrations of one receiver and one function.
use rpcx.Base.{ℕ, ◌≡◌, ◌≢◌, refl, [], ◌∷◌, none, some, bytes, Bool, false, bytes_eq}
use rpcx.Base.Dict.{lookup, insert, bytes_eq_inst}
use rpcx.Protocol.Header.{is_oneway}
use rpcx.Server.Handler.{Method, invoke, answer_to, conclude_function, handle_request}
use rpcx.Server.Registry.{
  GoType, named, pointer, Reflection, MethodInfo, FuncInfo, Receiver, Callable, ServiceMap,
  registers, panics, register, install, suitable_methods, suitable_from, suitable_method,
  check_argument, check_reply, check_out, is_exported, is_exported_or_builtin_type,
  register_function, check_counts, check_function_types, install_function, behind_last,
}
use rpcx.Server.Registry.Suitable.{Suitable}
use rpcx.Server.Registry.Serves.{with_services, registered_is_served}
use rpcx.Server.Registry.Functions.{function_is_served, no_function_beside_receiver}
use rpcx.Server.Fixtures.{server, byte_codec, next, call_of}

abbrev context_type : GoType
context_type = named (bytes "Context") (bytes "context")

abbrev error_type : GoType
error_type = named (bytes "error") []

abbrev int_type : GoType
int_type = named (bytes "int") []

-- Names are exported where they begin with a capital A.
abbrev reflection : Reflection
reflection = record {
  is_upper = λ name. bytes_eq name (bytes "Arith");
  implements_context = is_context;
  is_error_type = is_error;
}
  where
    is_context : GoType → Bool
    is_context (named n p) = bytes_eq p (bytes "context")
    is_context (pointer t) = false

    is_error : GoType → Bool
    is_error (named n p) = bytes_eq n (bytes "error")
    is_error (pointer t) = false

abbrev next_method : MethodInfo
next_method = record {
  name = bytes "Next";
  pkg_path = [];
  ins = named (bytes "Arith") (bytes "main") ∷ context_type ∷ int_type ∷ pointer int_type ∷ [];
  outs = error_type ∷ [];
  body = 7;
}

-- A method with a parameter too many is passed over.
abbrev arith : Receiver
arith = record {
  type_name = bytes "Arith";
  methods =
      next_method
      ∷ record next_method { name = bytes "Sum"; ins = int_type ∷ next_method.ins }
      ∷ [];
  pointer_methods = [];
}

abbrev callable : Callable
callable = record { body = 7; arg_type = int_type; reply_type = pointer int_type }

abbrev registered : ServiceMap
registered =
    (bytes "Arith", record { method = (bytes "Next", callable) ∷ []; function = none }) ∷ []

register_arith : register reflection arith [] false [] ≡ registers registered (bytes "Arith")
unfolding register install suitable_methods suitable_from suitable_method check_argument check_reply
    check_out is_exported is_exported_or_builtin_type bytes_eq insert
register_arith = refl

abbrev bind : Callable → Method ℕ ℕ
bind c = next

next-Suitable : Suitable reflection next_method callable
unfolding is_exported is_exported_or_builtin_type bytes_eq
next-Suitable = record {
  exported = refl;
  receiver = named (bytes "Arith") (bytes "main");
  context = context_type;
  out = error_type;
  ins_eq = refl;
  outs_eq = refl;
  context_is = refl;
  argument_is = refl;
  reply_points = refl;
  reply_is = refl;
  out_is = refl;
  same_body = refl;
}

registered_is_served_example :
    handle_request
      (with_services bind reflection server (call_of (bytes "Arith")) registered)
      (call_of (bytes "Arith"))
      0
    ≡ (1, record (answer_to server (call_of (bytes "Arith"))) { payload = 42 ∷ [] }, none)
unfolding call_of bytes_eq is_oneway
registered_is_served_example =
    registered_is_served bind reflection server (call_of (bytes "Arith")) arith [] false []
      {codec = byte_codec} register_arith (refl, (refl, tt)) refl refl next-Suitable refl 0 refl
      refl refl refl refl refl

abbrev next_function : FuncInfo
next_function = record {
  runtime_name = bytes "main.Next";
  ins = context_type ∷ int_type ∷ pointer int_type ∷ [];
  outs = error_type ∷ [];
  body = 7;
}

abbrev functions : ServiceMap
functions =
    (bytes "Arith", record { method = []; function = some ((bytes "Next", callable) ∷ []) }) ∷ []

register_next :
    register_function reflection (bytes "Arith") (some next_function) [] false []
    ≡ registers functions (bytes "Next")
unfolding register_function check_counts check_function_types install_function behind_last
    is_exported is_exported_or_builtin_type bytes_eq insert lookup
register_next = refl

function_is_served_run :
    (c : Callable) × (c.body ≡ 7)
    × (handle_request
          (with_services bind reflection server (call_of (bytes "Arith")) functions)
          (call_of (bytes "Arith"))
          0
        ≡ invoke
            (with_services bind reflection server (call_of (bytes "Arith")) functions)
            (bind c)
            byte_codec
            (call_of (bytes "Arith"))
            (answer_to server (call_of (bytes "Arith")))
            (conclude_function
              (with_services bind reflection server (call_of (bytes "Arith")) functions)
              byte_codec
              (call_of (bytes "Arith"))
              (answer_to server (call_of (bytes "Arith"))))
            0)
unfolding call_of lookup
function_is_served_run =
    function_is_served bind reflection server (call_of (bytes "Arith")) (bytes "Arith")
      next_function [] false [] {codec = byte_codec} register_next refl refl refl refl 0

no_function_beside_receiver_run :
    register_function reflection (bytes "Arith") (some next_function) [] false registered
    ≢ registers functions (bytes "Next")
no_function_beside_receiver_run =
    no_function_beside_receiver reflection arith [] false [] register_arith next_function [] false
      functions (bytes "Next")

-- It panics, since the map of functions is nil.
function_beside_receiver :
    register_function reflection (bytes "Arith") (some next_function) [] false registered ≡ panics
unfolding register_function check_counts check_function_types install_function behind_last
    is_exported is_exported_or_builtin_type bytes_eq insert lookup
function_beside_receiver = refl
