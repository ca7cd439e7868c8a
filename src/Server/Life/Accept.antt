-- ===== src/Server/Life/Accept.antt =====
-- `serveListener` of server/server.go, over what `Accept` returns. The options of a TCP connection are
-- left out, and the goroutine of each connection is that of `Server.Life`.
use rpcx.Base.{
  ℕ, ◌*◌, ◌≤◌, ◌≡◌, refl, ◌==◌, ltb, if◌then◌else◌, arith, List, [], ◌∷◌, ◌++◌, Bool, true, false,
  All, inl, inr, ◌⊎◌,
}
use rpcx.Server.Plugins.{Plugin, do_post_conn_accept}
use rpcx.Server.Life.{Life, accept_conn}

-- An error of `Accept`: one that is temporary, `cmux.ErrListenerClosed`, or another.
pub data AcceptError : Type 0 where
  temporary listener_closed : AcceptError
  broken : ℕ → AcceptError

-- What `Accept` returns; with an error, the value of `isShutdown` then.
pub data Accepted : Type 0 where
  conn : ℕ → Accepted
  fails : AcceptError → Bool → Accepted

pub data ServeError : Type 0 where
  server_closed : ServeError
  accept_failed : ℕ → ServeError

-- The state of the server and the sleeps in milliseconds; the loop waits in `Accept`, or returns, for
-- a server that is shut down behind `doneChan`.
pub data Served (W : Type 0) : Type 0 where
  waits : Life W → List ℕ → Served W
  returns : Life W → List ℕ → ServeError → Served W

-- `tempDelay`: 5 milliseconds, doubled up to a second.
unfoldable pub next_delay : ℕ → ℕ
next_delay d = let longer = if d == 0 then 5 else d * 2 in if ltb 1000 longer then 1000 else longer

-- A sleep of the loop.
abbrev pub IsSleep : ℕ → Type 0
IsSleep d = (5 ≤ d) × (d ≤ 1000)

next_delay-IsSleep : (d : ℕ) → (d ≡ 0) ⊎ IsSleep d → IsSleep (next_delay d)
unfolding next_delay
next_delay-IsSleep d (inl z) = (ground arith, ground arith)
next_delay-IsSleep d (inr (l, u)) = (ground arith, ground arith)

All-append_one {ℓ} :
    {A : Type ℓ} (P : A → Type 0) (l : List A) (a : A) → All P l → P a → All P (l ++ a ∷ [])
All-append_one P [] a h p = (p, tt)
All-append_one P (x ∷ l) a (q, h) p = (q, All-append_one P l a h p)

module _ {W : Type 0} where
  -- The sleeps of a run.
  abbrev pub sleeps_of : Served W → List ℕ
  sleeps_of (waits s l) = l
  sleeps_of (returns s l e) = l

module _ {W : Type 0} (ps : List (Plugin W)) (close : ℕ → W → W) where
  -- A connection that the plugins refuse is closed.
  unfoldable pub take_conn : ℕ → Life W → Life W
  take_conn c s =
      let (w1, c1, allowed) = do_post_conn_accept close ps c s.world in
      if allowed
      then accept_conn c1 (record s { world = w1 })
      else record s { world = close c1 w1; closed = s.closed ++ c1 ∷ [] }

  unfoldable pub serve_listener : List Accepted → ℕ → List ℕ → Life W → Served W
  serve_listener [] delay sleeps s = waits s sleeps
  serve_listener (conn c ∷ events) delay sleeps s = serve_listener events 0 sleeps (take_conn c s)
  serve_listener (fails e true ∷ events) delay sleeps s = returns s sleeps server_closed
  serve_listener (fails temporary false ∷ events) delay sleeps s =
      serve_listener events (next_delay delay) (sleeps ++ next_delay delay ∷ []) s
  serve_listener (fails listener_closed false ∷ events) delay sleeps s =
      returns s sleeps server_closed
  serve_listener (fails (broken n) false ∷ events) delay sleeps s =
      returns s sleeps (accept_failed n)

  sleeps_from :
      (events : List Accepted) (delay : ℕ) (sleeps : List ℕ) (s : Life W)
      → (delay ≡ 0) ⊎ IsSleep delay
      → All IsSleep sleeps
      → All IsSleep (sleeps_of (serve_listener events delay sleeps s))
  unfolding serve_listener
  sleeps_from [] delay sleeps s d h = h
  sleeps_from (conn c ∷ events) delay sleeps s d h =
      sleeps_from events 0 sleeps (take_conn c s) (inl refl) h
  sleeps_from (fails e true ∷ events) delay sleeps s d h = h
  sleeps_from (fails temporary false ∷ events) delay sleeps s d h =
      let next = next_delay-IsSleep delay d in
      sleeps_from events (next_delay delay) (sleeps ++ next_delay delay ∷ []) s (inr next)
        (All-append_one IsSleep sleeps (next_delay delay) h next)
  sleeps_from (fails listener_closed false ∷ events) delay sleeps s d h = h
  sleeps_from (fails (broken n) false ∷ events) delay sleeps s d h = h

  -- Whatever `Accept` returns, each sleep of the loop is of 5 milliseconds at least and of a second at
  -- most.
  pub serve_listener_sleeps :
      (events : List Accepted) (s : Life W) → All IsSleep (sleeps_of (serve_listener events 0 [] s))
  serve_listener_sleeps events s = sleeps_from events 0 [] s (inl refl) tt
