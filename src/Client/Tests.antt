-- ===== src/Client/Tests.antt =====
-- Runs of the theorems on the client package at concrete breakers and connections.
use rpcx.Base.{
  List, Option, ℕ, suc, ◌+◌, ◌≤◌, ◌≡◌, refl, arith, [], ◌∷◌, bytes, none, some, true, false, length,
}
use rpcx.Base.Dict.{lookup, insert, nat_eq}
use rpcx.Protocol.Header.{
  new_header, seq, message_type, is_heartbeat, is_oneway, message_status_type,
}
use rpcx.Protocol.Wire.{read_be64}
use rpcx.Protocol.Message.{Message, new_message}
use rpcx.Client.Plugins.{Plugin, do_post_call, do_post_call_forgets}
use rpcx.Client.Breaker.{
  Breaker, timeout, late, new_breaker, ready, fails, call, outcome, ready-fails, call_lem,
}
use rpcx.Client.Conn.{
  Client, context_error, network_error, new_client, register, cancel, register_raw, terminate,
  close,
}
use rpcx.Client.Conn.Response.{Setup, decoded, handle_response, is_server_message}
use rpcx.Client.Conn.Events.{Run, start, registers, responds, count, held}
use rpcx.Client.Conn.Account.{never_lost, done_once, close_finishes}
use rpcx.Client.Conn.Account.Invariant.{Inv}
use rpcx.Client.Conn.Faults.{
  cancel_unregistered, error_without_metadata, register_raw_replaces, terminate-close_twice,
}

abbrev setup : Setup
setup = record {
  codecs = λ _. some (λ b. decoded (length b));
  codec_error_text = λ _. bytes "codec";
  error_func = none;
}

-- The answer to call 0.
abbrev answer : Message
unfolding new_message new_header
answer = record new_message {
  header = record new_header { flags = 0x80; kind = 0x10 };
  payload = 1 ∷ 2 ∷ [];
}

-- The answer to call 0 with the status `Error` and nothing else.
abbrev error_answer : Message
unfolding new_message new_header
error_answer = record new_message { header = record new_header { flags = 0x81 } }

-- Two calls, of which the first is answered.
abbrev two_calls : Client
two_calls = (handle_response setup answer (register 8 true (register 7 true new_client))).0

abbrev two_calls_run : Run setup two_calls (8 ∷ 7 ∷ [])
unfolding new_client register
two_calls_run = responds (registers (registers start 7 true) 8 true) refl answer

never_lost_example : count 7 (8 ∷ 7 ∷ []) ≤ two_calls.done 7 + held 7 two_calls.pending
unfolding two_calls_run new_client register
never_lost_example = never_lost two_calls_run tt (omega arith) 7

done_once_example : count 8 (8 ∷ 7 ∷ []) ≡ two_calls.done 8 + held 8 two_calls.pending
unfolding two_calls_run new_client register
done_once_example = done_once two_calls_run tt tt (omega arith) 8

close_finishes_example :
    ((close two_calls).0.pending ≡ [])
    × ((j : ℕ) → count j (8 ∷ 7 ∷ []) ≤ (close two_calls).0.done j)
unfolding two_calls_run new_client register
close_finishes_example = close_finishes two_calls_run tt (omega arith)

abbrev breaker : Breaker
unfolding new_breaker
breaker = new_breaker 2 100

-- Two failures at the time 50.
abbrev tripped : Breaker
unfolding new_breaker
tripped = record breaker { failures = 2; last_failure_time = 50 }

ready-fails_example :
    ready (fails breaker (40 ∷ 50 ∷ [])) 60 61 ≡ (fails breaker (40 ∷ 50 ∷ []), false)
unfolding new_breaker
ready-fails_example = ready-fails breaker 40 (50 ∷ []) 60 61 refl (omega arith) (omega arith)

call_lem_example :
    let r = call tripped 5 (late none) 200 201 206 in
    (r.2 ≡ true)
    × (r.1 ≡ some timeout)
    × (r.0.last_failure_time ≡ 206)
    × (r.0.failures ≡ 1)
    × (r.0.failure_threshold ≡ tripped.failure_threshold)
    × (r.0.window ≡ tripped.window)
unfolding new_breaker outcome
call_lem_example = call_lem tripped 5 (late none) 200 201 206 (omega arith)

-- One call waits under the number 0.
abbrev waiting : Client
unfolding new_client register insert
waiting = register 7 true new_client

cancel_unregistered_run :
    let d = cancel 8 (context_error 1) waiting in
    (d.error 7 ≡ some (context_error 1)) × (d.done 7 ≡ 1) × (lookup 0 d.pending ≡ none)
unfolding new_client register insert lookup
cancel_unregistered_run = cancel_unregistered 8 7 (context_error 1) waiting refl refl

error_without_metadata_run :
    let (d, err) = handle_response setup error_answer waiting in
    (d.error 7 ≡ none) × (d.done 7 ≡ 1) × (err ≡ none)
unfolding new_client register insert lookup new_message new_header seq is_server_message
    message_type message_status_type is_heartbeat is_oneway read_be64
error_without_metadata_run =
    error_without_metadata setup error_answer 7 waiting refl refl refl refl refl refl

-- A raw call waits under the number 0.
abbrev waiting_raw : Client
unfolding new_client register_raw insert
waiting_raw = register_raw 0 7 new_client

register_raw_replaces_run :
    let d = register_raw 0 9 waiting_raw in
    (lookup 0 d.pending ≡ some 9)
    × (d.done 7 ≡ 0)
    × (held 7 waiting_raw.pending ≡ suc (held 7 d.pending))
unfolding new_client register_raw insert lookup
register_raw_replaces_run = register_raw_replaces 0 9 7 waiting_raw refl (λ p. omega (arith, p))

waiting-Inv : Inv 1 waiting
unfolding new_client register insert lookup
waiting-Inv = record {
  distinct = (refl, tt);
  below = (omega arith, tt);
  in_range = omega arith;
  no_raw = λ id. refl;
}

terminate-close_twice_run : (close (terminate (network_error 1) waiting)).0.done 7 ≡ 2
unfolding new_client register insert
terminate-close_twice_run = terminate-close_twice 1 (network_error 1) waiting 7 waiting-Inv

-- A plugin that notes the error that it gets, and returns nil.
abbrev noting : Plugin (List (Option ℕ))
noting = record {
  identity = 1;
  pre_call = none;
  post_call = some (λ ctx path method args reply err w. (err ∷ w, none));
  conn_created = none;
  conn_create_failed = none;
  client_connected = none;
  client_connection_close = none;
  client_before_encode = none;
  client_after_decode = none;
  wrap_select = none;
}

do_post_call_forgets_run :
    do_post_call (noting ∷ noting ∷ []) 0 [] [] 1 2 (some 9) []
    ≡ do_post_call (noting ∷ []) 0 [] [] 1 2 none (some 9 ∷ [])
unfolding do_post_call
do_post_call_forgets_run = do_post_call_forgets (noting ∷ []) (noting ∷ []) 0 [] [] 1 2 (some 9) []
