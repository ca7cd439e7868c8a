-- ===== src/Server/Life/Tests.antt =====
-- A connection that `Close` closes while its goroutine is in the loop, and a listener with errors.
use rpcx.Base.{ℕ, ◌+◌, ◌≡◌, refl, List, [], ◌∷◌, false, All}
use rpcx.Base.Dict.{lookup, insert, nat_eq}
use rpcx.Server.Plugins.{Plugin, do_post_conn_close}
use rpcx.Server.Life.{
  leaving, closing, gone, Life, without, close_conn, close_each, close_done, close_server,
  set_phase, accept_conn, start_conn, may_close, accepts, starts, leaves, passes, closes, Run, here,
  next, new_life,
}
use rpcx.Server.Life.Told.{times, told_at_end}
use rpcx.Server.Life.Accept.{
  conn, fails, temporary, listener_closed, IsSleep, sleeps_of, serve_listener, next_delay,
  serve_listener_sleeps,
}

abbrev no_plugins : List (Plugin ℕ)
no_plugins = []

abbrev world : ℕ
world = 0

abbrev closed_under_way : Life ℕ
unfolding new_life accept_conn start_conn set_phase insert close_server close_each close_conn
    close_done without do_post_conn_close
closed_under_way =
    set_phase 3 closing (
      set_phase 3 leaving (close_server no_plugins (start_conn 3 (accept_conn 3 (new_life world)))))

closing_run : Run no_plugins (new_life world) closed_under_way
unfolding new_life accept_conn start_conn set_phase insert lookup close_server close_each close_conn
    close_done without may_close do_post_conn_close
closing_run =
    next (next (next (next (next here (accepts 3 refl)) (starts 3 refl)) closes) (leaves 3 refl))
      (passes 3 refl refl)

-- The plugins are told twice.
told_at_end_example :
    (times 3 (set_phase 3 gone (close_conn no_plugins 3 closed_under_way)).active ≡ 0)
    × (times 3 (set_phase 3 gone (close_conn no_plugins 3 closed_under_way)).told
          + times 3 closed_under_way.active
        ≡ 2)
unfolding lookup closed_under_way
told_at_end_example = told_at_end no_plugins 3 world closing_run refl

serve_listener_sleeps_example : All IsSleep (
    sleeps_of (
      serve_listener no_plugins
        (λ c w. w)
        (fails temporary false ∷ conn 3 ∷ fails temporary false ∷ fails listener_closed false ∷ [])
        0
        []
        (new_life world)))
serve_listener_sleeps_example =
    serve_listener_sleeps no_plugins (λ c w. w)
      (fails temporary false ∷ conn 3 ∷ fails temporary false ∷ fails listener_closed false ∷ [])
      (new_life world)

-- The delay is reset behind a connection.
sleeps_reset :
    sleeps_of (
      serve_listener no_plugins
        (λ c w. w)
        (fails temporary false ∷ fails temporary false ∷ conn 3 ∷ fails temporary false ∷ [])
        0
        []
        (new_life world))
    ≡ 5 ∷ 10 ∷ 5 ∷ []
unfolding serve_listener next_delay
sleeps_reset = refl
