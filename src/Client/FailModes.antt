-- ===== src/Client/FailModes.antt =====
-- `Call` of client/xclient.go in the modes `Failfast`, `Failtry` and `Failover`. What it uses of the
-- rest of the xclient and of a client is an interface over a state `W`; a client is a number, and
-- `none` is nil.
pub mod Results
pub mod Attempts
pub mod Raw
mod Tests
use rpcx.Base.{ℕ, zero, suc, Option, none, some, Bytes, Bool, true, false, ◌||◌, if◌then◌else◌}

-- Errors as `uncoverError` and `contextCanceled` tell them apart.
pub data Error : Type 0 where
  xclient_shutdown deadline_exceeded canceled server_unavailable : Error
  service_error other : ℕ → Error

unfoldable pub is_service_error : Error → Bool
is_service_error (service_error _) = true
is_service_error _ = false

unfoldable pub context_canceled : Error → Bool
context_canceled deadline_exceeded = true
context_canceled canceled = true
context_canceled _ = false

-- A nil error counts as one that the connection is to blame for.
unfoldable pub uncover_error : Option Error → Bool
uncover_error none = true
uncover_error (some (service_error _)) = false
uncover_error (some deadline_exceeded) = false
uncover_error (some canceled) = false
uncover_error (some _) = true

-- `selectClient` (key, client, error), `getCachedClient`, `removeClient`, and the call of a client
-- between its plugins in `wrapCall`.
pub record XClient (W : Type 0) : Type 0 where
  pub select_client : W → W × Bytes × Option ℕ × Option Error
  pub get_cached_client : Bytes → W → W × Option ℕ × Option Error
  pub remove_client : Bytes → Option ℕ → W → W
  pub client_call : ℕ → W → W × Option Error

-- The option `Retries`, a Go int.
pub data ℤ : Type 0 where
  pos : ℕ → ℤ
  negsuc : ℕ → ℤ

-- How often `for retries >= 0 { retries-- ... }` goes round.
unfoldable pub rounds : ℤ → ℕ
rounds (pos n) = suc n
rounds (negsuc n) = zero

pub data FailMode : Type 0 where
  failover failfast failtry : FailMode

-- What one round does before the next client is looked for.
pub data Step (W : Type 0) : Type 0 where
  stops : W → Option Error → Step W
  goes_on : W → Option Error → Step W

module _ {W : Type 0} (x : XClient W) where
  unfoldable pub wrap_call : Option ℕ → W → W × Option Error
  wrap_call none w = (w, some server_unavailable)
  wrap_call (some c) w = x.client_call c w

  -- `err` is the error so far.
  unfoldable pub attempt : Option ℕ → Option Error → W → Step W
  attempt none err w = goes_on w err
  attempt (some c) err w =
      let (w1, r) = wrap_call (some c) w in
      elim r [
        | none ↦ stops w1 none
        | some e ↦
            if context_canceled e || is_service_error e
            then stops w1 (some e)
            else goes_on w1 (some e)
      ]

  unfoldable pub remove_uncovered : Bytes → Option ℕ → Option Error → W → W
  remove_uncovered k client err w = if uncover_error err then x.remove_client k client w else w

  -- The error behind the loop: the last error of a call, or that of the last look for a client.
  abbrev pub or_else : Option Error → Option Error → Option Error
  or_else none e = e
  or_else (some err) e = some err

  -- The loop; `next` looks for the client of the next round.
  unfoldable pub retry :
      (Bytes → W → W × Bytes × Option ℕ × Option Error)
      → ℕ
      → Bytes
      → Option ℕ
      → Option Error
      → Option Error
      → W
      → W × Option Error
  retry next zero k client err e w = (w, or_else err e)
  retry next (suc n) k client err e w = elim (attempt client err w) [
    | stops w1 r ↦ (w1, r)
    | goes_on w1 err1 ↦
        let (w2, k2, client2, e2) = next k (remove_uncovered k client err1 w1) in
        retry next n k2 client2 err1 e2 w2
  ]

  -- `Failtry`: the client of the same key.
  unfoldable pub try_same : Bytes → W → W × Bytes × Option ℕ × Option Error
  try_same k w = let (w1, client, e) = x.get_cached_client k w in (w1, k, client, e)

  -- `Failover`: another server.
  unfoldable pub try_other : Bytes → W → W × Bytes × Option ℕ × Option Error
  try_other k w = x.select_client w

  unfoldable pub call_once : Bytes → Option ℕ → W → W × Option Error
  call_once k client w =
      let (w1, err) = wrap_call client w in
      elim err [ none ↦ (w1, none) | some e ↦ (remove_uncovered k client (some e) w1, some e) ]

  unfoldable pub call_mode : FailMode → ℤ → Bytes → Option ℕ → Option Error → W → W × Option Error
  call_mode failfast retries k client err w = call_once k client w
  call_mode failtry retries k client err w = retry try_same (rounds retries) k client err none w
  call_mode failover retries k client err w = retry try_other (rounds retries) k client err none w

  -- An error of the selection ends the call in these cases.
  unfoldable pub gives_up : FailMode → Option Error → Bool
  gives_up mode none = false
  gives_up failfast (some e) = true
  gives_up failover (some e) = context_canceled e
  gives_up failtry (some e) = context_canceled e

  unfoldable pub call : Bool → FailMode → ℤ → W → W × Option Error
  call is_shutdown mode retries w =
      if is_shutdown
      then (w, some xclient_shutdown)
      else let (w1, k, client, err) = x.select_client w in
        if gives_up mode err then (w1, err) else call_mode mode retries k client err w1
