-- ===== src/Client/Cache/Kept.antt =====
-- What the cache of clients gives and takes.
use rpcx.Base.{on_option, on_bool, ℕ, ◌≡◌, ◌≢◌, ◌⊎◌, inl, inr, Option, none, some, Bytes, Bool, not}
use rpcx.Base.Dict.{nat_eq, bytes_eq_inst}
use rpcx.Client.Conn.Response.{is_empty}
use rpcx.Client.FailModes.{Error, FailMode, pos, call}
use rpcx.Client.FailModes.Results.{call_success}
use rpcx.Client.Cache.{
  Config, Cache, no_server, closed_xclient, open_breaker, is_gone, find_cached_client,
  generate_client, add_client, look_again, get_cached_client, drop_gone_sticky, select_new,
  select_client, xclient,
}

module _ {U : Type 0} (x : Config U) where
  -- A client or an error.
  abbrev pub HasResult : Option ℕ → Option Error → Type 0
  HasResult client e = (client ≢ none) ⊎ (e ≢ none)

  abbrev Answers : Cache U × Option ℕ × Option Error → Type 0
  Answers (w, client, e) = HasResult client e

  is_client : (c : ℕ) → some c ≢ none
  is_client c e = cc

  is_error : (e : Error) → some e ≢ none
  is_error e h = cc

  add_client-Answers : (k : Bytes) (w : Cache U) → Answers (add_client x k w)
  unfolding add_client
  add_client-Answers k w =
      on_option Answers (generate_client x k w).1 (inl (is_client _)) (λ e. inr (is_error e))

  look_again-Answers : (k : Bytes) (w : Cache U) → Answers (look_again x k w)
  unfolding look_again
  look_again-Answers k w =
      on_option Answers (find_cached_client x k w) (add_client-Answers k w)
        (λ c. on_bool Answers (w.shutdown c) (add_client-Answers k w) (inl (is_client c)))

  get_cached_client-Answers : (k : Bytes) (w : Cache U) → Answers (get_cached_client x k w)
  unfolding get_cached_client
  get_cached_client-Answers k w =
      let (u, ready) = x.ready k w.user in
      let w1 : Cache U = record w { user = u } in
      on_bool Answers w.is_shutdown (inr (is_error closed_xclient)) (
        on_bool Answers (not ready) (inr (is_error open_breaker)) (
          on_option Answers (find_cached_client x k w1) (look_again-Answers k w1)
            (λ c. on_bool Answers (is_gone c w1) (look_again-Answers k _) (inl (is_client c)))))

  abbrev Chooses : Cache U × Bytes × Option ℕ × Option Error → Type 0
  Chooses (w, k, client, e) = HasResult client e

  select_new-Chooses : (w : Cache U) → Chooses (select_new x w)
  unfolding select_new
  select_new-Chooses w =
      let (u, k) = x.select w.user in
      on_bool Chooses (is_empty k) (inr (is_error no_server))
        (get_cached_client-Answers k (record w { user = u }))

  select_client-Chooses : (w : Cache U) → Chooses (select_client x w)
  unfolding select_client
  select_client-Chooses w =
      let w1 = drop_gone_sticky x w in
      on_option Chooses w1.sticky_client (select_new-Chooses w1)
        (λ c. on_bool Chooses x.is_sticky (inl (is_client c)) (select_new-Chooses w1))

  -- `Call` over these clients, sticky or not, with `Retries` not negative, returns nil only right
  -- after a client's call that returned nil: what holds after every such call holds then.
  pub cached_call_success :
      (client_call : ℕ → Cache U → Cache U × Option Error) (Good : Cache U → Type 0)
      → ((c : ℕ) (w : Cache U) → (client_call c w).1 ≡ none → Good (client_call c w).0)
      → (is_shutdown : Bool) (mode : FailMode) (n : ℕ) (w : Cache U)
      → (call (xclient x client_call) is_shutdown mode (pos n) w).1 ≡ none
      → Good (call (xclient x client_call) is_shutdown mode (pos n) w).0
  unfolding xclient
  cached_call_success client_call Good good is_shutdown mode n w =
      call_success (xclient x client_call) Good good (λ v. select_client-Chooses v) is_shutdown mode
        n w
