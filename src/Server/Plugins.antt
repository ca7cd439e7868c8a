-- ===== src/Server/Plugins.antt =====
-- The plugin container of the server (server/plugin.go) and errors/error.go. A plugin may implement
-- any of the interfaces: a field is `none` where it does not. `W` is all that a hook can read and
-- change: the context and the messages that it gets by reference, and its own state. A reference, a
-- connection, an argument and an error are numbers.
pub mod Order
use rpcx.Base.{
  ℕ, List, [], ◌∷◌, ◌++◌, Option, none, some, Bytes, Bool, true, false, ◌==◌, if◌then◌else◌,
}

abbrev pub Hook : Type 0 → Type 0
Hook W = W → W × Option ℕ

-- `RegisterPlugin`
pub record Registry (W : Type 0) : Type 0 where
  pub register : Bytes → ℕ → Bytes → Hook W
  pub unregister : Bytes → Hook W

pub record Plugin (W : Type 0) : Type 0 where
  -- What `==` on interfaces compares.
  pub identity : ℕ
  pub registry : Option (Registry W)
  pub register_function : Option (Bytes → Bytes → ℕ → Bytes → Hook W)
  pub handle_conn_accept : Option (ℕ → W → W × ℕ × Bool)
  pub handle_conn_close : Option (ℕ → W → W × Bool)
  pub pre_read_request : Option (ℕ → Hook W)
  pub post_read_request : Option (ℕ → ℕ → Option ℕ → Hook W)
  pub post_http_request : Option (ℕ → ℕ → ℕ → Hook W)
  pub pre_handle_request : Option (ℕ → ℕ → Hook W)
  pub pre_call : Option (ℕ → Bytes → Bytes → ℕ → W → W × ℕ × Option ℕ)
  pub post_call : Option (ℕ → Bytes → Bytes → ℕ → ℕ → Option ℕ → W → W × ℕ × Option ℕ)
  pub pre_write_response : Option (ℕ → ℕ → ℕ → Option ℕ → Hook W)
  pub post_write_response : Option (ℕ → ℕ → ℕ → Option ℕ → Hook W)
  pub pre_write_request : Option (ℕ → Hook W)
  pub post_write_request : Option (ℕ → ℕ → Option ℕ → Hook W)
  pub heartbeat_request : Option (ℕ → ℕ → Hook W)

-- `NewMultiError` of the errors, or nil when there is none.
unfoldable pub multi_error : List ℕ → Option (List ℕ)
multi_error [] = none
multi_error (e ∷ es) = some (e ∷ es)

abbrev pub given : {A B : Type 0} → Option A → (A → B) → Option B
given none f = none
given (some a) f = some (f a)

module _ {W : Type 0} where
  unfoldable pub add : Plugin W → List (Plugin W) → List (Plugin W)
  add p ps = ps ++ p ∷ []

  unfoldable pub remove : Plugin W → List (Plugin W) → List (Plugin W)
  remove q [] = []
  remove q (p ∷ ps) = if p.identity == q.identity then remove q ps else p ∷ remove q ps

  -- A loop over the plugins that goes on after an error: all errors, in their order.
  unfoldable pub collect : List (Plugin W) → (Plugin W → Option (Hook W)) → W → W × List ℕ
  collect [] f w = (w, [])
  collect (p ∷ ps) f w = elim (f p) [
    | none ↦ collect ps f w
    | some h ↦
        let (w1, e) = h w in
        let (w2, es) = collect ps f w1 in elim e [ none ↦ (w2, es) | some x ↦ (w2, x ∷ es) ]
  ]

  unfoldable pub do_register : List (Plugin W) → Bytes → ℕ → Bytes → W → W × Option (List ℕ)
  do_register ps name rcvr metadata w =
      let (w', es) = collect ps (λ p. given p.registry (λ r. r.register name rcvr metadata)) w in
      (w', multi_error es)

  unfoldable pub do_register_function :
      List (Plugin W) → Bytes → Bytes → ℕ → Bytes → W → W × Option (List ℕ)
  do_register_function ps service fname fn metadata w =
      let (w', es) =
        collect ps (λ p. given p.register_function (λ h. h service fname fn metadata)) w in
      (w', multi_error es)

  unfoldable pub do_unregister : List (Plugin W) → Bytes → W → W × Option (List ℕ)
  do_unregister ps name w =
      let (w', es) = collect ps (λ p. given p.registry (λ r. r.unregister name)) w in
      (w', multi_error es)

  -- `close` is `conn.Close()`.
  unfoldable pub do_post_conn_accept : (ℕ → W → W) → List (Plugin W) → ℕ → W → W × ℕ × Bool
  do_post_conn_accept close [] conn w = (w, conn, true)
  do_post_conn_accept close (p ∷ ps) conn w = elim p.handle_conn_accept [
    | none ↦ do_post_conn_accept close ps conn w
    | some h ↦
        let (w1, conn1, flag) = h conn w in
        elim flag [
          | true ↦ do_post_conn_accept close ps conn1 w1
          | false ↦ (close conn1 w1, conn1, false)
        ]
  ]

  unfoldable pub do_post_conn_close : List (Plugin W) → ℕ → W → W × Bool
  do_post_conn_close [] conn w = (w, true)
  do_post_conn_close (p ∷ ps) conn w = elim p.handle_conn_close [
    | none ↦ do_post_conn_close ps conn w
    | some h ↦
        let (w1, flag) = h conn w in
        elim flag [ true ↦ do_post_conn_close ps conn w1 | false ↦ (w1, false) ]
  ]

  -- A loop over the plugins that ends at the first error.
  unfoldable pub first_error : List (Plugin W) → (Plugin W → Option (Hook W)) → Hook W
  first_error [] f w = (w, none)
  first_error (p ∷ ps) f w = elim (f p) [
    | none ↦ first_error ps f w
    | some h ↦ let (w1, e) = h w in elim e [ none ↦ first_error ps f w1 | some x ↦ (w1, some x) ]
  ]

  unfoldable pub do_pre_read_request : List (Plugin W) → ℕ → Hook W
  do_pre_read_request ps ctx = first_error ps λ p. given p.pre_read_request λ h. h ctx

  unfoldable pub do_post_read_request : List (Plugin W) → ℕ → ℕ → Option ℕ → Hook W
  do_post_read_request ps ctx r e = first_error ps λ p. given p.post_read_request λ h. h ctx r e

  unfoldable pub do_post_http_request : List (Plugin W) → ℕ → ℕ → ℕ → Hook W
  do_post_http_request ps ctx r params =
      first_error ps λ p. given p.post_http_request λ h. h ctx r params

  unfoldable pub do_pre_handle_request : List (Plugin W) → ℕ → ℕ → Hook W
  do_pre_handle_request ps ctx r = first_error ps λ p. given p.pre_handle_request λ h. h ctx r

  -- The arguments that one plugin returns are those of the next.
  unfoldable pub do_pre_call : List (Plugin W) → ℕ → Bytes → Bytes → ℕ → W → W × ℕ × Option ℕ
  do_pre_call [] ctx service method args w = (w, args, none)
  do_pre_call (p ∷ ps) ctx service method args w = elim p.pre_call [
    | none ↦ do_pre_call ps ctx service method args w
    | some h ↦
        let (w1, args1, e) = h ctx service method args w in
        elim e [ none ↦ do_pre_call ps ctx service method args1 w1 | some x ↦ (w1, args1, some x) ]
  ]

  -- Each plugin gets the error of the call.
  unfoldable pub do_post_call :
      List (Plugin W) → ℕ → Bytes → Bytes → ℕ → ℕ → Option ℕ → W → W × ℕ × Option ℕ
  do_post_call [] ctx service method args reply err w = (w, reply, none)
  do_post_call (p ∷ ps) ctx service method args reply err w = elim p.post_call [
    | none ↦ do_post_call ps ctx service method args reply err w
    | some h ↦
        let (w1, reply1, e) = h ctx service method args reply err w in
        elim e [
          | none ↦ do_post_call ps ctx service method args reply1 err w1
          | some x ↦ (w1, reply1, some x)
        ]
  ]

  unfoldable pub do_pre_write_response : List (Plugin W) → ℕ → ℕ → ℕ → Option ℕ → Hook W
  do_pre_write_response ps ctx req res err =
      first_error ps λ p. given p.pre_write_response λ h. h ctx req res err

  unfoldable pub do_post_write_response : List (Plugin W) → ℕ → ℕ → ℕ → Option ℕ → Hook W
  do_post_write_response ps ctx req res e =
      first_error ps λ p. given p.post_write_response λ h. h ctx req res e

  unfoldable pub do_pre_write_request : List (Plugin W) → ℕ → Hook W
  do_pre_write_request ps ctx = first_error ps λ p. given p.pre_write_request λ h. h ctx

  unfoldable pub do_post_write_request : List (Plugin W) → ℕ → ℕ → Option ℕ → Hook W
  do_post_write_request ps ctx r e = first_error ps λ p. given p.post_write_request λ h. h ctx r e

  unfoldable pub do_heartbeat_request : List (Plugin W) → ℕ → ℕ → Hook W
  do_heartbeat_request ps ctx r = first_error ps λ p. given p.heartbeat_request λ h. h ctx r
