-- ===== src/Client/FailModes/Results.antt =====
-- What `Call` of the xclient returns, and how often it calls.
use rpcx.Base.{
  ℕ, zero, suc, ◌≡◌, ◌≢◌, refl, Option, none, some, Bytes, Bool, true, false, ◌||◌, if◌then◌else◌,
  ◌⊎◌, inl, inr,
}
use rpcx.Client.FailModes.{
  Error, XClient, pos, rounds, FailMode, failover, failfast, failtry, Step, stops, goes_on,
  context_canceled, is_service_error, wrap_call, attempt, remove_uncovered, retry, try_same,
  try_other, call_once, call_mode, gives_up, call,
}

abbrev pub Outcome : Type 0 → Type 0
Outcome W = W × Option Error

module _ {W : Type 0} (x : XClient W) where
  -- What the loop does with a round.
  abbrev pub behind :
      (Bytes → W → W × Bytes × Option ℕ × Option Error) → ℕ → Bytes → Option ℕ → Step W → Outcome W
  behind next n k client (stops w r) = (w, r)
  behind next n k client (goes_on w err) =
      let (w2, k2, client2, e2) = next k (remove_uncovered x k client err w) in
      retry x next n k2 client2 err e2 w2

  pub retry_step :
      (next : Bytes → W → W × Bytes × Option ℕ × Option Error) (n : ℕ) (k : Bytes)
      (client : Option ℕ) (err e : Option Error) (w : W)
      → retry x next (suc n) k client err e w ≡ behind next n k client (attempt x client err w)
  unfolding retry
  retry_step next n k client err e w = go (attempt x client err w)
    where
      go :
          (s : Step W)
          → elim s [
            | stops w1 r ↦ (w1, r)
            | goes_on w1 err1 ↦
                let (w2, k2, client2, e2) = next k (remove_uncovered x k client err1 w1) in
                retry x next n k2 client2 err1 e2 w2
          ]
            ≡ behind next n k client s
      go (stops w1 r) = refl
      go (goes_on w1 err1) = refl

  module _ (Good : W → Type 0)
      (good : (c : ℕ) (w : W) → (x.client_call c w).1 ≡ none → Good (x.client_call c w).0) where
    abbrev Sound : Outcome W → Type 0
    Sound (w, r) = r ≡ none → Good w

    -- A round stops rightly, or leaves an error.
    abbrev RoundSound : Step W → Type 0
    RoundSound (stops w r) = Sound (w, r)
    RoundSound (goes_on w err) = err ≢ none

    attempt_lem :
        (client : Option ℕ) (err : Option Error) (w : W)
        → (client ≢ none) ⊎ (err ≢ none)
        → RoundSound (attempt x client err w)
    unfolding attempt wrap_call
    attempt_lem none err w (inl there) = absurd (there refl)
    attempt_lem none err w (inr failed) = failed
    attempt_lem (some c) err w h = go (x.client_call c w).1 refl
      where
        either :
            (b : Bool) (e : Error)
            → RoundSound (
                if b
                then stops (x.client_call c w).0 (some e)
                else goes_on (x.client_call c w).0 (some e))
        either true e = λ p. cc
        either false e = λ p. cc

        go :
            (r : Option Error)
            → (x.client_call c w).1 ≡ r
            → RoundSound (elim r [
              | none ↦ stops (x.client_call c w).0 none
              | some e ↦
                  if context_canceled e || is_service_error e
                  then stops (x.client_call c w).0 (some e)
                  else goes_on (x.client_call c w).0 (some e)
            ])
        go none e = λ p. good c w e
        go (some f) e = either (context_canceled f || is_service_error f) f

    -- The loop is sound once there is an error.
    abbrev LoopSound : (Bytes → W → W × Bytes × Option ℕ × Option Error) → ℕ → Type 0
    LoopSound next n =
        (k : Bytes) (client : Option ℕ) (err e : Option Error) (w : W)
        → err ≢ none
        → Sound (retry x next n k client err e w)

    behind-Sound :
        (next : Bytes → W → W × Bytes × Option ℕ × Option Error) (n : ℕ)
        → LoopSound next n
        → (k : Bytes) (client : Option ℕ) (s : Step W) → RoundSound s
        → Sound (behind next n k client s)
    behind-Sound next n loop k client (stops w r) h = h
    behind-Sound next n loop k client (goes_on w err) h =
        let (w2, k2, client2, e2) = next k (remove_uncovered x k client err w) in
        loop k2 client2 err e2 w2 h

    retry-LoopSound :
        (next : Bytes → W → W × Bytes × Option ℕ × Option Error) (n : ℕ) → LoopSound next n
    unfolding retry
    retry-LoopSound next zero k client none e w h = absurd (h refl)
    retry-LoopSound next zero k client (some err) e w h = λ p. cc
    retry-LoopSound next (suc n) k client err e w h = rw (retry_step next n k client err e w) (
        behind-Sound next n (retry-LoopSound next n) k client (attempt x client err w)
          (attempt_lem client err w (inr h)))

    retry_first-Sound :
        (next : Bytes → W → W × Bytes × Option ℕ × Option Error) (n : ℕ) (k : Bytes)
        (client : Option ℕ) (err e : Option Error) (w : W)
        → (client ≢ none) ⊎ (err ≢ none)
        → Sound (retry x next (suc n) k client err e w)
    retry_first-Sound next n k client err e w h = rw (retry_step next n k client err e w) (
        behind-Sound next n (retry-LoopSound next n) k client (attempt x client err w)
          (attempt_lem client err w h))

    call_once-Sound : (k : Bytes) (client : Option ℕ) (w : W) → Sound (call_once x k client w)
    unfolding call_once wrap_call
    call_once-Sound k none w = λ p. cc
    call_once-Sound k (some c) w = go (x.client_call c w).1 refl
      where
        go :
            (r : Option Error)
            → (x.client_call c w).1 ≡ r
            → Sound (elim r [
              | none ↦ ((x.client_call c w).0, none)
              | some e ↦ (remove_uncovered x k (some c) (some e) (x.client_call c w).0, some e)
            ])
        go none e = λ p. good c w e
        go (some f) e = λ p. cc

    call_mode-Sound :
        (mode : FailMode) (n : ℕ) (k : Bytes) (client : Option ℕ) (err : Option Error) (w : W)
        → (client ≢ none) ⊎ (err ≢ none)
        → Sound (call_mode x mode (pos n) k client err w)
    unfolding call_mode rounds
    call_mode-Sound failfast n k client err w h = call_once-Sound k client w
    call_mode-Sound failtry n k client err w h =
        retry_first-Sound (try_same x) n k client err none w h
    call_mode-Sound failover n k client err w h =
        retry_first-Sound (try_other x) n k client err none w h

    -- Where `Retries` is not negative, `Call` returns nil only right after a client's call that
    -- returned nil, in each of the three modes: what holds after every such call holds then. The
    -- selection has to give a client or an error.
    pub call_success :
        ((w : W) → ((x.select_client w).2 ≢ none) ⊎ ((x.select_client w).3 ≢ none))
        → (is_shutdown : Bool) (mode : FailMode) (n : ℕ) (w : W)
        → (call x is_shutdown mode (pos n) w).1 ≡ none
        → Good (call x is_shutdown mode (pos n) w).0
    unfolding call gives_up
    call_success selects true mode n w = λ p. cc
    call_success selects false mode n w = go (x.select_client w).3 (selects w)
      where
        either :
            (b : Bool) (e : Error)
            → Sound (
                if b
                then ((x.select_client w).0, some e)
                else call_mode x mode
                    (pos n)
                    (x.select_client w).1
                    (x.select_client w).2
                    (some e)
                    (x.select_client w).0)
        either true e = λ p. cc
        either false e = call_mode-Sound mode n _ _ (some e) _ (inr (λ p. cc))

        go :
            (err : Option Error)
            → ((x.select_client w).2 ≢ none) ⊎ (err ≢ none)
            → Sound (
                if gives_up x mode err
                then ((x.select_client w).0, err)
                else call_mode x mode
                    (pos n)
                    (x.select_client w).1
                    (x.select_client w).2
                    err
                    (x.select_client w).0)
        go none h = call_mode-Sound mode n _ _ none _ h
        go (some e) h = either (gives_up x mode (some e)) e
