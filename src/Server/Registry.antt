-- ===== src/Server/Registry.antt =====
-- The registration of services (server/service.go). What the source asks of a Go type by reflection is
-- a data type, up to three questions, which `Reflection` answers. Its `log` calls and the pools of
-- values are left out; the container of plugins is not nil, as `NewServer` leaves it.
pub mod Suitable
pub mod Serves
pub mod Functions
pub mod Publish
mod Tests
use rpcx.Base.{
  ℕ, suc, ◌==◌, ◌||◌, ◌&&◌, not, if◌then◌else◌, List, [], ◌∷◌, ◌++◌, Option, none, some, Bytes,
  Bool, true, false, length, get_elem?,
}
use rpcx.Base.Dict.{lookup, insert, bytes_eq_inst}
use rpcx.Client.Conn.Response.{is_empty}
use rpcx.Server.Plugins.{Plugin, do_register, do_register_function, do_unregister, multi_error}

-- A type with its `Name` and `PkgPath`, or a pointer to a type.
pub data GoType : Type 0 where
  named : Bytes → Bytes → GoType
  pointer : GoType → GoType

-- `unicode.IsUpper` on the first rune, `Implements(typeOfContext)`, `== typeOfError`.
pub record Reflection : Type 0 where
  pub is_upper : Bytes → Bool
  pub implements_context : GoType → Bool
  pub is_error_type : GoType → Bool

-- `reflect.Method`: its type has the receiver as the first of the `ins`.
pub record MethodInfo : Type 0 where
  pub name : Bytes
  pub pkg_path : Bytes
  pub ins : List GoType
  pub outs : List GoType
  pub body : ℕ

-- A value whose kind is `Func`, with its name in the running program.
pub record FuncInfo : Type 0 where
  pub runtime_name : Bytes
  pub ins : List GoType
  pub outs : List GoType
  pub body : ℕ

-- A receiver: the name of its type without pointers, its methods, and those of a pointer to it.
pub record Receiver : Type 0 where
  pub type_name : Bytes
  pub methods : List MethodInfo
  pub pointer_methods : List MethodInfo

-- `methodType` and `functionType`.
pub record Callable : Type 0 where
  pub body : ℕ
  pub arg_type : GoType
  pub reply_type : GoType

-- `service`: a nil map of functions is `none`.
pub record Entry : Type 0 where
  pub method : List (Bytes × Callable)
  pub function : Option (List (Bytes × Callable))

abbrev pub ServiceMap : Type 0
ServiceMap = List (Bytes × Entry)

pub data RegisterError : Type 0 where
  no_service_name no_function_name not_a_function wrong_ins wrong_outs no_context not_an_error :
      RegisterError
  type_not_exported no_methods pass_a_pointer : Bytes → RegisterError
  argument_not_exported reply_not_pointer reply_not_exported : GoType → RegisterError

-- What a registration does: it returns a name, fails, or panics.
pub data Outcome : Type 0 where
  registers : ServiceMap → Bytes → Outcome
  fails : RegisterError → Outcome
  panics : Outcome

-- What stands behind the last byte `sep`, or all.
unfoldable pub behind_last : ℕ → Bytes → Bytes → Bytes
behind_last sep [] acc = acc
behind_last sep (b ∷ bs) acc = behind_last sep bs (if b == sep then bs else acc)

abbrev pub is_pointer : GoType → Bool
is_pointer (named n p) = false
is_pointer (pointer t) = true

-- `ss.function[fname] = ...`, and the service goes into the map.
unfoldable pub install_function : Bytes → Bytes → Callable → ServiceMap → Outcome
install_function path fname c sm = elim (lookup path sm) [
  | none ↦
      registers (insert path (record { method = []; function = some ((fname, c) ∷ []) }) sm) fname
  | some ss ↦ elim ss.function [
    | none ↦ panics
    | some fs ↦ registers (insert path (record ss { function = some (insert fname c fs) }) sm) fname
  ]
]

module _ (x : Reflection) where
  unfoldable pub is_exported : Bytes → Bool
  is_exported name = x.is_upper name

  unfoldable pub is_exported_or_builtin_type : GoType → Bool
  is_exported_or_builtin_type (named name pkg) = is_exported name || is_empty pkg
  is_exported_or_builtin_type (pointer t) = is_exported_or_builtin_type t

  -- The results of a method, when its parameters are right.
  unfoldable pub check_out : List GoType → Callable → Option Callable
  check_out outs c = if not (length outs == 1) then none else elim (get_elem? outs 0) [
    | none ↦ none
    | some out ↦ if x.is_error_type out then some c else none
  ]

  unfoldable pub check_reply : MethodInfo → GoType → Option Callable
  check_reply m arg = elim (get_elem? m.ins 3) [
    | none ↦ none
    | some reply ↦
        if not (is_pointer reply)
        then none
        else if not (is_exported_or_builtin_type reply)
        then none
        else check_out m.outs (record { body = m.body; arg_type = arg; reply_type = reply })
  ]

  unfoldable pub check_argument : MethodInfo → Option Callable
  check_argument m = elim (get_elem? m.ins 2) [
    | none ↦ none
    | some arg ↦ if is_exported_or_builtin_type arg then check_reply m arg else none
  ]

  -- A round of `suitableMethods`; `none` is `continue`.
  unfoldable pub suitable_method : MethodInfo → Option Callable
  suitable_method m =
      if not (is_empty m.pkg_path)
      then none
      else if not (length m.ins == 4)
      then none
      else elim (get_elem? m.ins 1) [
        | none ↦ none
        | some ctx ↦ if x.implements_context ctx then check_argument m else none
      ]

  unfoldable pub suitable_from : List MethodInfo → List (Bytes × Callable) → List (Bytes × Callable)
  suitable_from [] methods = methods
  suitable_from (m ∷ ms) methods =
      suitable_from ms
        (elim (suitable_method m) [ none ↦ methods | some c ↦ insert m.name c methods ])

  unfoldable pub suitable_methods : List MethodInfo → List (Bytes × Callable)
  suitable_methods ms = suitable_from ms []

  -- The end of `register`.
  unfoldable pub install : Receiver → Bytes → ServiceMap → Outcome
  install rcvr sname sm = elim (suitable_methods rcvr.methods) [
    | [] ↦ elim (suitable_methods rcvr.pointer_methods) [
      | [] ↦ fails (no_methods sname)
      | m ∷ ms ↦ fails (pass_a_pointer sname)
    ]
    | m ∷ ms ↦ registers (insert sname (record { method = m ∷ ms; function = none }) sm) sname
  ]

  unfoldable pub register : Receiver → Bytes → Bool → ServiceMap → Outcome
  register rcvr name use_name sm =
      let sname = if use_name then name else rcvr.type_name in
      if is_empty sname
      then fails no_service_name
      else if not use_name && not (is_exported sname)
      then fails (type_not_exported sname)
      else install rcvr sname sm

  unfoldable pub check_function_types :
      FuncInfo → GoType → GoType → GoType → GoType → Bytes → Bytes → ServiceMap → Outcome
  check_function_types f ctx arg reply out path fname sm =
      if not (x.implements_context ctx)
      then fails no_context
      else if not (is_exported_or_builtin_type arg)
      then fails (argument_not_exported arg)
      else if not (is_pointer reply)
      then fails (reply_not_pointer reply)
      else if not (is_exported_or_builtin_type reply)
      then fails (reply_not_exported reply)
      else if not (x.is_error_type out)
      then fails not_an_error
      else install_function path fname
          (record { body = f.body; arg_type = arg; reply_type = reply }) sm

  -- The counts of parameters and results.
  unfoldable pub check_counts :
      FuncInfo → List GoType → List GoType → Bytes → Bytes → ServiceMap → Outcome
  check_counts f (ctx ∷ arg ∷ reply ∷ []) (out ∷ []) path fname sm =
      check_function_types f ctx arg reply out path fname sm
  check_counts f (ctx ∷ arg ∷ reply ∷ []) outs path fname sm = fails wrong_outs
  check_counts f ins outs path fname sm = fails wrong_ins

  -- `registerFunction`; a value of another kind is `none`.
  unfoldable pub register_function : Bytes → Option FuncInfo → Bytes → Bool → ServiceMap → Outcome
  register_function path none name use_name sm = fails not_a_function
  register_function path (some f) name use_name sm =
      let fname = if use_name then name else behind_last 46 f.runtime_name f.runtime_name in
      if is_empty fname then fails no_function_name else check_counts f f.ins f.outs path fname sm
