-- ===== src/Server/Registry/Publish.antt =====
-- The registrations that a program calls (server/service.go): behind a registration the container of
-- plugins (server/plugin.go) publishes the service. `value` is the receiver or the function.
use rpcx.Base.{ℕ, List, [], ◌∷◌, Option, none, some, Bytes, true, false}
use rpcx.Server.Plugins.{Plugin, do_register, do_register_function, do_unregister}
use rpcx.Server.Registry.{
  Reflection, FuncInfo, Receiver, ServiceMap, RegisterError, Outcome, registers, fails, panics,
  register, register_function,
}

pub data PublishError : Type 0 where
  refused : RegisterError → PublishError
  -- The errors of the plugins.
  unpublished : List ℕ → PublishError

-- The map of services, the state of the plugins and the error; or a panic.
pub data Published (W : Type 0) : Type 0 where
  returns : ServiceMap → W → Option PublishError → Published W
  panicked : Published W

unfoldable pub plugin_error : Option (List ℕ) → Option PublishError
plugin_error none = none
plugin_error (some es) = some (unpublished es)

module _ {W : Type 0} where
  -- `tell` is the container's `DoRegister` or `DoRegisterFunction` for a name.
  unfoldable pub publish :
      Outcome → (Bytes → W → W × Option (List ℕ)) → ServiceMap → W → Published W
  publish (registers sm' name) tell sm w =
      let (w1, es) = tell name w in returns sm' w1 (plugin_error es)
  publish (fails e) tell sm w = returns sm w (some (refused e))
  publish panics tell sm w = panicked

module _ {W : Type 0} (x : Reflection) (ps : List (Plugin W)) where
  -- `Register`
  unfoldable pub register_service : Receiver → ℕ → Bytes → ServiceMap → W → Published W
  register_service rcvr value metadata sm w =
      publish (register x rcvr [] false sm) (λ sname. do_register ps sname value metadata) sm w

  -- `RegisterName`
  unfoldable pub register_name : Bytes → Receiver → ℕ → Bytes → ServiceMap → W → Published W
  register_name name rcvr value metadata sm w =
      publish (register x rcvr name true sm) (λ _. do_register ps name value metadata) sm w

  -- `RegisterFunction`
  unfoldable pub publish_function :
      Bytes → Option FuncInfo → ℕ → Bytes → ServiceMap → W → Published W
  publish_function path f value metadata sm w =
      publish (register_function x path f [] false sm)
        (λ fname. do_register_function ps path fname value metadata) sm w

  -- `RegisterFunctionName`
  unfoldable pub publish_function_name :
      Bytes → Bytes → Option FuncInfo → ℕ → Bytes → ServiceMap → W → Published W
  publish_function_name path name f value metadata sm w =
      publish (register_function x path f name true sm)
        (λ _. do_register_function ps path name value metadata) sm w

module _ {W : Type 0} (ps : List (Plugin W)) where
  -- The errors of the services that a plugin could not take back.
  unfoldable pub unregister_each : ServiceMap → W → W × List (List ℕ)
  unregister_each [] w = (w, [])
  unregister_each ((k, ss) ∷ sm) w =
      let (w1, e) = do_unregister ps k w in
      let (w2, es) = unregister_each sm w1 in
      elim e [ none ↦ (w2, es) | some errs ↦ (w2, errs ∷ es) ]

  -- `UnregisterAll`, which leaves the map of services as it is.
  unfoldable pub unregister_all : ServiceMap → W → W × Option (List (List ℕ))
  unregister_all sm w =
      let (w1, es) = unregister_each sm w in
      elim es [ [] ↦ (w1, none) | e ∷ es' ↦ (w1, some (e ∷ es')) ]
