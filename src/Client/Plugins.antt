-- ===== src/Client/Plugins.antt =====
-- The plugin container of the client (client/plugin.go). As for the server's, `W` is all that a hook
-- can read and change, and references, connections, arguments and errors are numbers.
use rpcx.Base.{
  ℕ, ◌≡◌, refl, arith, List, [], ◌∷◌, ◌++◌, Option, none, some, Bytes, Bool, true, false, ◌==◌,
  if◌then◌else◌, Option-cases, Bool-cases, inl, inr,
}

-- A function that selects a server.
abbrev pub SelectFunc : Type 0
SelectFunc = ℕ → Bytes → Bytes → ℕ → Bytes

pub record Plugin (W : Type 0) : Type 0 where
  pub identity : ℕ
  pub pre_call : Option (ℕ → Bytes → Bytes → ℕ → W → W × Option ℕ)
  pub post_call : Option (ℕ → Bytes → Bytes → ℕ → ℕ → Option ℕ → W → W × Option ℕ)
  pub conn_created : Option (ℕ → W → W × ℕ × Option ℕ)
  pub conn_create_failed : Option (Bytes → Bytes → W → W)
  pub client_connected : Option (ℕ → W → W × ℕ × Option ℕ)
  pub client_connection_close : Option (ℕ → W → W × Option ℕ)
  pub client_before_encode : Option (ℕ → W → W × Option ℕ)
  pub client_after_decode : Option (ℕ → W → W × Option ℕ)
  pub wrap_select : Option (SelectFunc → SelectFunc)

abbrev given : {A B : Type 0} → Option A → (A → B) → Option B
given none f = none
given (some a) f = some (f a)

module _ {W : Type 0} where
  unfoldable pub add : Plugin W → List (Plugin W) → List (Plugin W)
  add p ps = ps ++ p ∷ []

  unfoldable pub remove : Plugin W → List (Plugin W) → List (Plugin W)
  remove q [] = []
  remove q (p ∷ ps) = if p.identity == q.identity then remove q ps else p ∷ remove q ps

  -- A loop over the plugins that ends at the first error.
  unfoldable pub first_error :
      List (Plugin W) → (Plugin W → Option (W → W × Option ℕ)) → W → W × Option ℕ
  first_error [] f w = (w, none)
  first_error (p ∷ ps) f w = elim (f p) [
    | none ↦ first_error ps f w
    | some h ↦ let (w1, e) = h w in elim e [ none ↦ first_error ps f w1 | some x ↦ (w1, some x) ]
  ]

  unfoldable pub do_pre_call : List (Plugin W) → ℕ → Bytes → Bytes → ℕ → W → W × Option ℕ
  do_pre_call ps ctx path method args =
      first_error ps λ p. given p.pre_call λ h. h ctx path method args

  -- The result of each plugin takes the place of the error that the next one gets.
  unfoldable pub do_post_call :
      List (Plugin W) → ℕ → Bytes → Bytes → ℕ → ℕ → Option ℕ → W → W × Option ℕ
  do_post_call [] ctx path method args reply err w = (w, none)
  do_post_call (p ∷ ps) ctx path method args reply err w = elim p.post_call [
    | none ↦ do_post_call ps ctx path method args reply err w
    | some h ↦
        let (w1, e) = h ctx path method args reply err w in
        elim e [ none ↦ do_post_call ps ctx path method args reply none w1 | some x ↦ (w1, some x) ]
  ]

  -- The loop of `DoConnCreated` and `DoClientConnected`: each plugin may replace the connection.
  unfoldable pub through_conn :
      List (Plugin W) → (Plugin W → Option (ℕ → W → W × ℕ × Option ℕ)) → ℕ → W → W × ℕ × Option ℕ
  through_conn [] f conn w = (w, conn, none)
  through_conn (p ∷ ps) f conn w = elim (f p) [
    | none ↦ through_conn ps f conn w
    | some h ↦
        let (w1, conn1, e) = h conn w in
        elim e [ none ↦ through_conn ps f conn1 w1 | some x ↦ (w1, conn1, some x) ]
  ]

  unfoldable pub do_conn_created : List (Plugin W) → ℕ → W → W × ℕ × Option ℕ
  do_conn_created ps = through_conn ps (λ p. p.conn_created)

  unfoldable pub do_client_connected : List (Plugin W) → ℕ → W → W × ℕ × Option ℕ
  do_client_connected ps = through_conn ps (λ p. p.client_connected)

  unfoldable pub do_conn_create_failed : List (Plugin W) → Bytes → Bytes → W → W
  do_conn_create_failed [] network address w = w
  do_conn_create_failed (p ∷ ps) network address w = elim p.conn_create_failed [
    | none ↦ do_conn_create_failed ps network address w
    | some h ↦ do_conn_create_failed ps network address (h network address w)
  ]

  unfoldable pub do_client_connection_close : List (Plugin W) → ℕ → W → W × Option ℕ
  do_client_connection_close ps conn =
      first_error ps λ p. given p.client_connection_close λ h. h conn

  unfoldable pub do_client_before_encode : List (Plugin W) → ℕ → W → W × Option ℕ
  do_client_before_encode ps req = first_error ps λ p. given p.client_before_encode λ h. h req

  unfoldable pub do_client_after_decode : List (Plugin W) → ℕ → W → W × Option ℕ
  do_client_after_decode ps req = first_error ps λ p. given p.client_after_decode λ h. h req

  -- The plugin that was added last is the outermost.
  unfoldable pub do_wrap_select : List (Plugin W) → SelectFunc → SelectFunc
  do_wrap_select [] fn = fn
  do_wrap_select (p ∷ ps) fn = elim p.wrap_select [
    | none ↦ do_wrap_select ps fn
    | some wrap ↦ do_wrap_select ps (wrap fn)
  ]

  -- Some plugin has a `PostCall`.
  abbrev pub has_post_call : List (Plugin W) → Bool
  has_post_call [] = false
  has_post_call (p ∷ ps) = elim p.post_call [ none ↦ has_post_call ps | some h ↦ true ]

  -- Plugins behind others are told that the call succeeded, whatever it did, when one before them
  -- has a `PostCall` and all of these returned nil; they get the call's error only if none of
  -- those before has a `PostCall`.
  pub do_post_call_forgets :
      (ps qs : List (Plugin W)) (ctx : ℕ) (path method : Bytes) (args reply : ℕ) (err : Option ℕ)
      (w : W)
      → let (w1, e) = do_post_call ps ctx path method args reply err w in
        do_post_call (ps ++ qs) ctx path method args reply err w ≡ elim e [
          | none ↦
              do_post_call qs ctx path method args reply (if has_post_call ps then none else err) w1
          | some x ↦ (w1, some x)
        ]
  unfolding do_post_call
  do_post_call_forgets [] qs ctx path method args reply err w = refl
  do_post_call_forgets (p ∷ ps) qs ctx path method args reply err w =
      elim (Option-cases p.post_call) [
        | inl absent ↦ ground (arith, do_post_call_forgets ps qs ctx path method args reply err w)
        | inr (h, there) ↦
            let (w1, _) = h ctx path method args reply err w in
            elim (Bool-cases (has_post_call ps)) [
              | inl more ↦
                  ground (arith, do_post_call_forgets ps qs ctx path method args reply none w1)
              | inr last ↦
                  ground (arith, do_post_call_forgets ps qs ctx path method args reply none w1)
            ]
      ]

  -- The wrappers of plugins behind others go around theirs.
  pub do_wrap_select-append :
      (ps qs : List (Plugin W)) (fn : SelectFunc)
      → do_wrap_select (ps ++ qs) fn ≡ do_wrap_select qs (do_wrap_select ps fn)
  unfolding do_wrap_select
  do_wrap_select-append [] qs fn = refl
  do_wrap_select-append (p ∷ ps) qs fn = elim (Option-cases p.wrap_select) [
    | inl absent ↦ ground (arith, do_wrap_select-append ps qs fn)
    | inr (wrap, there) ↦ ground (arith, do_wrap_select-append ps qs (wrap fn))
  ]
