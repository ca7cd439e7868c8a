-- ===== src/Client/FanOut/Tests.antt =====
-- Runs with one client, whose call fails, or with one whose call returns nil.
use rpcx.Base.{
  bytes_eq, ℕ, ◌+◌, ◌≡◌, ◌≢◌, refl, ◌⊎◌, List, [], ◌∷◌, Option, none, some, Bytes, bytes, true,
  false, ◌==◌, if◌then◌else◌,
}
use rpcx.Client.FailModes.{Error, other, XClient, wrap_call}
use rpcx.Base.Dict.{lookup, insert, delete, bytes_eq_inst}
use rpcx.Client.Cache.{
  Config, Cache, get_cached_client, find_cached_client, delete_cached_client, generate_client,
  set_cached_client, split_network_and_address, cut_at_byte, close_client,
}
use rpcx.Client.FanOut.Gather.{
  get_without_lock, look_without_lock, add_without_lock, gather, told, get_without_lock_lem,
}
use rpcx.Client.FanOut.{
  Kind, broadcast, fork, inform, returned, reported, Fan, launch, call_returns, report, receive,
  verdict, returns, reports, receives, Run, here, next,
}
use rpcx.Client.FanOut.Reports.{AllSucceeded, AllFailed, ErrorIsMissing}
use rpcx.Client.FanOut.Broadcast.{broadcast_nil}
use rpcx.Client.FanOut.Fork.{fork_nil}
use rpcx.Client.FanOut.Progress.{loop_can_receive}

abbrev key : Bytes
key = bytes "tcp@a"

-- Client 0 answers, client 1 fails.
abbrev two_kinds : XClient ℕ
two_kinds = record {
  select_client = λ w. (w, key, none, none);
  get_cached_client = λ k w. (w, none, none);
  remove_client = λ k c w. w;
  client_call = λ c w. (w, if c == 0 then none else some (other 9));
}

abbrev one_client : ℕ → List (Bytes × ℕ)
one_client c = (key, c) ∷ []

abbrev failed : Option Error
failed = some (other 9)

-- The states of a run: the call has returned, it is reported, the report is received.
abbrev after_call : Kind → ℕ → Fan ℕ
after_call kind c =
    call_returns two_kinds kind key c (λ r. (key, c, returned r) ∷ [])
      (launch true (one_client c) 0)

abbrev after_report : Kind → ℕ → Option Error → Fan ℕ
after_report kind c r = report two_kinds kind r ((key, c, reported r) ∷ []) (after_call kind c)

failing_run :
    (kind : Kind) → Run two_kinds kind (launch true (one_client 1) 0) (after_report kind 1 failed)
unfolding launch call_returns report wrap_call
failing_run kind = next (next here (returns [] [] key 1 refl)) (reports [] [] key 1 failed refl)

answered_run :
    (kind : Kind) → Run two_kinds kind (launch true (one_client 0) 0) (after_report kind 0 none)
unfolding launch call_returns report wrap_call
answered_run kind = next (next here (returns [] [] key 0 refl)) (reports [] [] key 0 none refl)

broadcast_nil_example :
    AllSucceeded (receive broadcast false [] (after_report broadcast 1 failed)).tasks
    ⊎ ErrorIsMissing (receive broadcast false [] (after_report broadcast 1 failed)).tasks
unfolding launch call_returns report wrap_call receive verdict
broadcast_nil_example =
    broadcast_nil two_kinds true (one_client 1) 0 {rs = []} (failing_run broadcast) refl
      (receives false [] refl refl) refl

fork_nil_example :
    ((receive fork true [] (after_report fork 0 none)).reply ≢ none)
    ⊎ (AllFailed (receive fork true [] (after_report fork 0 none)).tasks
        × ErrorIsMissing (receive fork true [] (after_report fork 0 none)).tasks)
unfolding launch call_returns report wrap_call receive verdict
fork_nil_example =
    fork_nil two_kinds (one_client 0) 0 {rs = []} (answered_run fork) refl
      (receives true [] refl refl) refl

loop_can_receive_example : (after_report inform 1 failed).done ≢ []
unfolding launch call_returns report wrap_call
loop_can_receive_example =
    loop_can_receive two_kinds inform true (one_client 1) 0 (λ e. cc) (failing_run inform) refl
      (refl, tt)

-- Broadcast returns nil though the call failed.
broadcast_race :
    (receive broadcast false [] (after_report broadcast 1 failed)).outcome ≡ some ([], [])
unfolding launch call_returns report wrap_call receive verdict
broadcast_race = refl

-- An xclient of a server that can be reached and whose cached client 4 is closing.
abbrev config : Config ℕ
config = record {
  is_sticky = false;
  select = λ u. (u, key);
  builders = λ _. none;
  ready = λ _ u. (u, true);
  new_breaker = λ _ u. u;
  fail = λ _ u. u;
  connect = λ _ _ u. (u, none);
  client_connected = λ _ u. u + 1;
}

abbrev broken : Cache ℕ
broken = record {
  sticky_k = [];
  sticky_client = none;
  cached_client = (key, 4) ∷ [];
  is_shutdown = false;
  closing = λ c. true;
  shutdown = λ c. false;
  has_chan = λ c. true;
  next_client = 7;
  user = 0;
}

get_without_lock_lem_example :
    get_cached_client config key broken ≡ told config (get_without_lock config key broken)
get_without_lock_lem_example = get_without_lock_lem config key broken refl refl

-- A new client, of which the plugins are to be told, takes the place of the closing one.
gathered : (gather config (key ∷ []) broken [] []).1 ≡ (key, 7) ∷ []
unfolding gather get_without_lock find_cached_client delete_cached_client look_without_lock
    add_without_lock generate_client set_cached_client split_network_and_address cut_at_byte
    close_client lookup delete insert bytes_eq
gathered = refl
