-- ===== src/Server/LogicSync/Tests.antt =====
-- Two requests of one user, of which the first holds the lock and the second waits.
use rpcx.Base.{ℕ, ◌≡◌, refl, arith, [], ◌∷◌, none, some, bytes, length, ◌⊎◌, bytes_eq}
use rpcx.Base.Dict.{lookup, insert, bytes_eq_inst, nat_eq}
use rpcx.Protocol.Message.{Message, new_message}
use rpcx.Client.Conn.{at}
use rpcx.Server.LogicSync.{
  Options, with_logic_sync, default_pool, Request, is_logic_sync, key_of, logic_sync_lock_of,
  lock_for, waiting, inside, gone, Locks, no_calls, Step, arrives, locks, Run, here, next,
}
use rpcx.Server.LogicSync.Exclusion.{same_key_serialized, waits_for_another}

abbrev options : Options
unfolding with_logic_sync insert bytes_eq default_pool
options = default_pool (
    with_logic_sync (bytes "Game.Move") (record { logic_sync_method = []; logic_lock_pool = none }))

abbrev message : Message
unfolding new_message
message = record new_message {
  service_path = bytes "Game";
  service_method = bytes "Move";
  metadata = some ((bytes "__hash", bytes "u7") ∷ []);
}

abbrev request : ℕ → Request
request i = record { message = message; remote = [] }

abbrev state : Locks
unfolding no_calls
state = record {
  phase = at (at (at no_calls.phase 1 waiting) 1 inside) 2 waiting;
  held = at no_calls.held 2 (some 1);
}

state_run : Run length options request no_calls state
unfolding no_calls lock_for is_logic_sync logic_sync_lock_of key_of lookup bytes_eq options
    with_logic_sync default_pool insert message new_message
state_run = next (next (next here (arrives 1 refl)) (locks 1 2 refl refl refl)) (arrives 2 refl)

same_key_serialized_example : (let i : ℕ = 1 in i) ≡ 1
unfolding is_logic_sync lookup bytes_eq options with_logic_sync default_pool insert message
    new_message state
same_key_serialized_example =
    same_key_serialized length options request {s = state} 5000 1 1 state_run refl (omega arith)
      refl refl refl refl refl

waits_for_another_example :
    ((t : Locks) × Step length options request state t × (t.phase 2 ≡ inside))
    ⊎ ((j : ℕ) × (lock_for length options (request j) ≡ lock_for length options (request 2))
        × (state.phase j ≡ inside)
        × (t : Locks) × Step length options request state t
        × (t.phase j ≡ gone))
unfolding state
waits_for_another_example = waits_for_another length options request {s = state} 2 state_run refl
