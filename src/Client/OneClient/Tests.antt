-- ===== src/Client/OneClient/Tests.antt =====
-- A OneClient of a discovery that knows one service.
use rpcx.Base.{
  ℕ, ◌+◌, ◌≡◌, ◌≢◌, on_bool, ◌==◌, refl, [], Option, none, Bytes, bytes, bytes_eq, if◌then◌else◌,
}
use rpcx.Base.Dict.{lookup, insert, bytes_eq_inst}
use rpcx.Client.OneClient.{
  Made, made, failed, interrupted, put_xclient, by_mode, Settings, OneClient, panics, set_each,
  known, new_one_client, with_settings, set_plugins, auth, close, first_settings, new_xclient,
  get_or_make, Operations, sets_auth, gets, Run, here, next,
}
use rpcx.Client.OneClient.Uniform.{IsUniform, settings_follow}
use rpcx.Client.OneClient.Kept.{nil_panics}

abbrev arith_path : Bytes
arith_path = bytes "Arith"

-- The state counts the attempts.
abbrev make : Bytes → ℕ → ℕ × Made ℕ
make path w = (w + 1, if bytes_eq path arith_path then made else failed 9)

abbrev nothing : ℕ → ℕ → ℕ × Option ℕ
nothing x w = (w, none)

-- A call that leaves the number of its xclient.
abbrev counts : ℕ → ℕ → ℕ × Option ℕ
counts x w = (w + x, none)

abbrev ops : Operations ℕ ℕ
ops = record {
  go = nothing;
  call = nothing;
  send_raw = nothing;
  broadcast = nothing;
  fork = nothing;
  send_file = nothing;
  download_file = nothing;
  stream = nothing;
}

abbrev fresh : ℕ → Settings
fresh x = record { auth = []; plugins = none; selector = by_mode }

abbrev world : ℕ
world = 0

abbrev start : OneClient ℕ
unfolding new_one_client
start = new_one_client none fresh world

abbrev with_arith : OneClient ℕ
unfolding start new_one_client get_or_make new_xclient put_xclient first_settings known lookup
    insert bytes_eq
with_arith = (get_or_make make arith_path start).0

-- The token is set behind the making.
abbrev with_token : OneClient ℕ
unfolding with_arith start new_one_client get_or_make new_xclient put_xclient first_settings known
    lookup insert bytes_eq
with_token = record with_arith {
  auth = bytes "token";
  settings = λ y.
      if y == 0
      then record (with_arith.settings 0) { auth = bytes "token" }
      else with_arith.settings y;
}

make_calm : (path : Bytes) (w e : ℕ) → (make path w).1 ≢ interrupted e
make_calm path w e =
    on_bool (λ (m : Made ℕ). m ≢ interrupted e) (bytes_eq path arith_path) (λ p. cc) (λ p. cc)

token_run : Run make ops (new_one_client none fresh world) with_token
unfolding with_token with_arith start new_one_client get_or_make new_xclient put_xclient
    first_settings known lookup insert bytes_eq auth with_settings set_each
token_run = next (next here (gets arith_path)) (sets_auth (bytes "token") refl)

settings_follow_example : IsUniform with_token
settings_follow_example = settings_follow make ops make_calm none fresh world token_run

nil_panics_example :
    (close (get_or_make make (bytes "Other") with_arith).0 ≡ panics)
    × (auth (bytes "t") (get_or_make make (bytes "Other") with_arith).0 ≡ panics)
    × (set_plugins 3 (get_or_make make (bytes "Other") with_arith).0 ≡ panics)
unfolding with_arith start new_one_client get_or_make new_xclient put_xclient known lookup insert
    bytes_eq
nil_panics_example = nil_panics make (bytes "Other") with_arith refl refl (bytes "t") 3
