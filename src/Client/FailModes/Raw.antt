-- ===== src/Client/FailModes/Raw.antt =====
-- `SendRaw` of client/xclient.go in the modes `Failfast`, `Failtry` and `Failover`. A reply is the map
-- and the payload that a client's `SendRaw` returns, and `empty` is the pair of nils. An error that
-- is a `ServiceError` says so by `IsServiceError`.
use rpcx.Base.{
  ℕ, zero, suc, ◌≡◌, refl, Option, none, some, Bytes, Bool, true, false, ◌||◌, if◌then◌else◌,
}
use rpcx.Client.FailModes.{
  Error, xclient_shutdown, server_unavailable, XClient, ℤ, rounds, FailMode, failover, failfast,
  failtry, context_canceled, is_service_error, remove_uncovered, or_else, try_same, try_other,
}

-- What one round does before the next client is looked for: the `err` of the round is its own.
pub data RawStep (W R : Type 0) : Type 0 where
  stops : W → R → Option Error → RawStep W R
  goes_on : W → RawStep W R

module _ {W R : Type 0} (x : XClient W) (empty : R)
    (client_send : ℕ → W → W × R × Option Error) where
  unfoldable pub wrap_send_raw : Option ℕ → W → W × R × Option Error
  wrap_send_raw none w = (w, empty, some server_unavailable)
  wrap_send_raw (some c) w = client_send c w

  -- An error that ends the loop.
  abbrev pub is_final : Error → Bool
  is_final e = context_canceled e || is_service_error e

  unfoldable pub raw_attempt : Option ℕ → W → RawStep W R
  raw_attempt none w = goes_on w
  raw_attempt (some c) w =
      let (w1, m, r) = wrap_send_raw (some c) w in
      elim r [
        | none ↦ stops w1 m none
        | some e ↦ if is_final e then stops w1 empty (some e) else goes_on w1
      ]

  -- The loop; `err` is the error of the selection before it, which no round changes.
  unfoldable pub raw_retry :
      (Bytes → W → W × Bytes × Option ℕ × Option Error)
      → ℕ
      → Bytes
      → Option ℕ
      → Option Error
      → Option Error
      → W
      → W × R × Option Error
  raw_retry next zero k client err e w = (w, empty, or_else x err e)
  raw_retry next (suc n) k client err e w = elim (raw_attempt client w) [
    | stops w1 m r ↦ (w1, m, r)
    | goes_on w1 ↦
        let (w2, k2, client2, e2) = next k (remove_uncovered x k client err w1) in
        raw_retry next n k2 client2 err e2 w2
  ]

  unfoldable pub raw_once : Bytes → Option ℕ → W → W × R × Option Error
  raw_once k client w =
      let (w1, m, err) = wrap_send_raw client w in
      elim err [
        | none ↦ (w1, m, none)
        | some e ↦ (remove_uncovered x k client (some e) w1, m, none)
      ]

  unfoldable pub raw_mode :
      FailMode → ℤ → Bytes → Option ℕ → Option Error → W → W × R × Option Error
  raw_mode failfast retries k client err w = raw_once k client w
  raw_mode failtry retries k client err w =
      raw_retry (try_same x) (rounds retries) k client err none w
  raw_mode failover retries k client err w =
      raw_retry (try_other x) (rounds retries) k client err none w

  unfoldable pub raw_gives_up : FailMode → Option Error → Bool
  raw_gives_up mode none = false
  raw_gives_up failfast (some e) = true
  raw_gives_up failtry (some e) = is_final e
  raw_gives_up failover (some e) = is_final e

  unfoldable pub send_raw : Bool → FailMode → ℤ → W → W × R × Option Error
  send_raw is_shutdown mode retries w =
      if is_shutdown
      then (w, empty, some xclient_shutdown)
      else let (w1, k, client, err) = x.select_client w in
        if raw_gives_up mode err then (w1, empty, err) else raw_mode mode retries k client err w1

  -- A call that fails with an error that does not end the loop.
  abbrev pub Fails : ℕ → W → Type 0
  Fails c w = (e : Error) × ((client_send c w).2 ≡ some e) × (is_final e ≡ false)

  module _ (fails : (c : ℕ) (w : W) → Fails c w) where
    attempt_fails : (client : Option ℕ) (w : W) → (w1 : W) × (raw_attempt client w ≡ goes_on w1)
    unfolding raw_attempt wrap_send_raw
    attempt_fails none w = (w, refl)
    attempt_fails (some c) w =
        let (e, failed, more) = fails c w in
        ((client_send c w).0, rw (failed, more, raw_attempt) refl)

    -- Where each look for a client succeeds, the loop ends with nothing.
    retry_fails :
        (next : Bytes → W → W × Bytes × Option ℕ × Option Error)
        → ((k : Bytes) (w : W) → (next k w).3 ≡ none)
        → (n : ℕ) (k : Bytes) (client : Option ℕ) (w : W)
        → (raw_retry next n k client none none w).2 ≡ none
    unfolding raw_retry
    retry_fails next finds zero k client w = refl
    retry_fails next finds (suc n) k client w =
        let (w1, e) = attempt_fails client w in
        let w2 = remove_uncovered x k client none w1 in
        rw (e, raw_retry)
          (rw (finds k w2) (retry_fails next finds n (next k w2).1 (next k w2).2 (next k w2).0))

    once_fails : (k : Bytes) (client : Option ℕ) (w : W) → (raw_once k client w).2 ≡ none
    unfolding raw_once wrap_send_raw
    once_fails k none w = refl
    once_fails k (some c) w = let (e, failed, more) = fails c w in rw (failed, raw_once) refl

    -- Where every call of a client fails, with an error that is neither a context's nor a service's,
    -- and every look for a client gives no error, `SendRaw` returns a nil error, in each of the three
    -- modes and whatever `Retries` is.
    pub send_raw_hides_errors :
        ((w : W) → (x.select_client w).3 ≡ none)
        → ((k : Bytes) (w : W) → (x.get_cached_client k w).2 ≡ none)
        → (mode : FailMode) (retries : ℤ) (w : W) → (send_raw false mode retries w).2 ≡ none
    unfolding send_raw raw_mode raw_gives_up try_same try_other
    send_raw_hides_errors selects caches failfast retries w =
        rw (selects w)
          (once_fails (x.select_client w).1 (x.select_client w).2 (x.select_client w).0)
    send_raw_hides_errors selects caches failtry retries w = rw (selects w) (
        retry_fails (try_same x) (λ k v. caches k v) (rounds retries) (x.select_client w).1
          (x.select_client w).2 (x.select_client w).0)
    send_raw_hides_errors selects caches failover retries w = rw (selects w) (
        retry_fails (try_other x) (λ k v. selects v) (rounds retries) (x.select_client w).1
          (x.select_client w).2 (x.select_client w).0)
