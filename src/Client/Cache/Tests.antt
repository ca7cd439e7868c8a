-- ===== src/Client/Cache/Tests.antt =====
-- Runs of the theorems on the cache of clients.
use rpcx.Base.{
  ℕ, suc, ◌≡◌, ◌≢◌, refl, [], ◌∷◌, Option, none, some, Bytes, bytes, bytes_eq, true, false,
}
use rpcx.Base.Dict.{lookup, insert, delete, bytes_eq_inst}
use rpcx.Client.FailModes.{
  Error, failover, pos, call, gives_up, call_mode, rounds, retry, attempt, wrap_call,
}
use rpcx.Client.Cache.{
  Config, Cache, is_gone, get_cached_client, remove_client, xclient, select_client,
  drop_gone_sticky, select_new, find_cached_client, delete_cached_client, look_again, add_client,
  generate_client, set_cached_client, close_client, store_sticky, safe_close_client,
  split_network_and_address, cut_at_byte,
}
use rpcx.Client.Cache.Kept.{cached_call_success}
use rpcx.Client.Cache.Live.{IsKept, get_cached_client-IsKept, remove_client_lem}

abbrev home : Bytes
home = bytes "h:1"

-- A sticky xclient of one server that can be reached.
abbrev config : Config ℕ
config = record {
  is_sticky = true;
  select = λ u. (u, home);
  builders = λ _. none;
  ready = λ _ u. (u, true);
  new_breaker = λ _ u. u;
  fail = λ _ u. u;
  connect = λ _ _ u. (u, none);
  client_connected = λ _ u. suc u;
}

-- The client 4 of the server is closing.
abbrev broken : Cache ℕ
broken = record {
  sticky_k = home;
  sticky_client = some 4;
  cached_client = (home, 4) ∷ [];
  is_shutdown = false;
  closing = λ c. true;
  shutdown = λ c. false;
  has_chan = λ c. true;
  next_client = 7;
  user = 0;
}

get_cached_client-IsKept_example : IsKept config home refl (get_cached_client config home broken)
get_cached_client-IsKept_example = get_cached_client-IsKept config home refl broken

remove_client_lem_run :
    let w1 = remove_client config home (some 4) broken in
    (is_gone 4 w1 ≡ true)
    × (lookup home w1.cached_client ≢ some 4)
    × (w1.sticky_client ≡ none)
    × (lookup [] w1.cached_client ≡ none)
    × (w1.closing 5 ≡ true)
unfolding lookup bytes_eq
remove_client_lem_run = remove_client_lem config home refl 4 5 [] broken (λ e. cc) (λ e. cc)

-- The second client of the server answers.
abbrev client_call : ℕ → Cache ℕ → Cache ℕ × Option Error
client_call c w = (record w { user = 9 }, none)

cached_call_success_example :
    (call (xclient config client_call) false failover (pos 2) broken).0.user ≡ 9
unfolding call gives_up call_mode rounds retry attempt wrap_call xclient select_client
    drop_gone_sticky select_new get_cached_client delete_cached_client find_cached_client look_again
    add_client generate_client set_cached_client close_client split_network_and_address cut_at_byte
    store_sticky safe_close_client lookup insert delete bytes_eq
cached_call_success_example =
    cached_call_success config client_call (λ w. w.user ≡ 9) (λ c w e. refl) false failover 2 broken
      refl
