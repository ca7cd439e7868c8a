-- ===== src/Server/Life.antt =====
-- The life of a server and of its connections (server/server.go): `serveListener` behind an accepted
-- connection, the head and the end of `serveConn`, `closeConn`, `Close` and `Shutdown`, as the
-- sections between which the goroutines may interleave. What a connection reads is `Server.Conn`.
-- The gateway, the worker pool and the errors of closing are left out.
pub mod Accept
pub mod Told
mod Tests
use rpcx.Base.{
  ℕ, zero, suc, ◌+◌, ◌-◌, ◌<◌, ◌≡◌, ◌==◌, if◌then◌else◌, List, [], ◌∷◌, ◌++◌, Option, none, some,
  Bool, true, false,
}
use rpcx.Base.Dict.{lookup, insert, nat_eq}
use rpcx.Server.Plugins.{Plugin, do_post_conn_close, do_unregister}
use rpcx.Server.Registry.{ServiceMap}
use rpcx.Server.Registry.Publish.{unregister_each}

-- The goroutine of a connection: it has not looked at `inShutdown`, it is in its loop, it has left
-- the loop, it may close the connection, it has ended.
pub data Phase : Type 0 where
  accepted serving leaving closing gone : Phase

-- The goroutine of `Shutdown`: before it, while it waits for the requests, behind the wait, behind all.
pub data ShutdownPhase : Type 0 where
  idle draining drained finished : ShutdownPhase

-- `closed` has the connections on which the server called `Close`, and `told` those with which it
-- called `DoPostConnClose`, in their order; `handling` is `handlerMsgNum`.
pub record Life (W : Type 0) : Type 0 where
  pub active : List ℕ
  pub conns : List (ℕ × Phase)
  pub closed : List ℕ
  pub told : List ℕ
  pub in_shutdown : Bool
  pub done_closed : Bool
  pub shutdown : ShutdownPhase
  pub handling : ℕ
  pub world : W

-- `delete(s.activeConn, conn)`
unfoldable pub without : ℕ → List ℕ → List ℕ
without c [] = []
without c (d ∷ ds) = if d == c then without c ds else d ∷ without c ds

module _ {W : Type 0} where
  -- `closeDoneChanLocked`: a closed channel is not closed again.
  unfoldable pub close_done : Life W → Life W
  close_done s = record s { done_closed = true }

  -- `checkProcessMsg`
  unfoldable pub is_idle : Life W → Bool
  is_idle s = s.handling == 0

  unfoldable pub set_phase : ℕ → Phase → Life W → Life W
  set_phase c p s = record s { conns = insert c p s.conns }

  -- The listener gives a connection that the plugins let pass, or HTTP and websockets do.
  unfoldable pub accept_conn : ℕ → Life W → Life W
  accept_conn c s = set_phase c accepted (record s { active = c ∷ s.active })

  -- The test at the head of `serveConn`.
  unfoldable pub start_conn : ℕ → Life W → Life W
  start_conn c s = set_phase c (if s.in_shutdown then closing else serving) s

  -- The test at the end, which waits for `doneChan` in a shutdown.
  unfoldable pub may_close : Life W → Bool
  may_close s = if s.in_shutdown then s.done_closed else true

module _ {W : Type 0} (ps : List (Plugin W)) where
  unfoldable pub close_conn : ℕ → Life W → Life W
  close_conn c s = record s {
    active = without c s.active;
    closed = s.closed ++ c ∷ [];
    told = s.told ++ c ∷ [];
    world = (do_post_conn_close ps c s.world).0;
  }

  -- The loop of `Close` and `Shutdown` over the active connections.
  unfoldable pub close_each : List ℕ → Life W → Life W
  close_each [] s = s
  close_each (c ∷ cs) s = close_each cs (close_conn c s)

  -- `Close`
  unfoldable pub close_server : Life W → Life W
  close_server s = close_done (close_each s.active s)

  -- The head of `Shutdown`, for the caller that sets `inShutdown`.
  unfoldable pub begin_shutdown : ServiceMap → Life W → Life W
  begin_shutdown sm s = record s {
    in_shutdown = true;
    shutdown = draining;
    world = (unregister_each ps sm s.world).0;
  }

  -- The end of `Shutdown`.
  unfoldable pub end_shutdown : Life W → Life W
  end_shutdown s = record (close_server s) { shutdown = finished }

  pub data Step : Life W → Life W → Type 0 where
    accepts : {s : Life W} (c : ℕ) → lookup c s.conns ≡ none → Step s (accept_conn c s)
    starts : {s : Life W} (c : ℕ) → lookup c s.conns ≡ some accepted → Step s (start_conn c s)
    leaves : {s : Life W} (c : ℕ) → lookup c s.conns ≡ some serving → Step s (set_phase c leaving s)
    passes :
        {s : Life W} (c : ℕ)
        → lookup c s.conns ≡ some leaving
        → may_close s ≡ true
        → Step s (set_phase c closing s)
    ends :
        {s : Life W} (c : ℕ)
        → lookup c s.conns ≡ some closing
        → Step s (set_phase c gone (close_conn c s))
    handles : {s : Life W} → Step s (record s { handling = s.handling + 1 })
    handled : {s : Life W} → 0 < s.handling → Step s (record s { handling = s.handling - 1 })
    closes : {s : Life W} → Step s (close_server s)
    begins : {s : Life W} (sm : ServiceMap) → s.in_shutdown ≡ false → Step s (begin_shutdown sm s)
    drains :
        {s : Life W}
        → s.shutdown ≡ draining
        → is_idle s ≡ true
        → Step s (record s { shutdown = drained })
    expires : {s : Life W} → s.shutdown ≡ draining → Step s (record s { shutdown = drained })
    finishes : {s : Life W} → s.shutdown ≡ drained → Step s (end_shutdown s)

  pub data Run (s : Life W) : Life W → Type 0 where
    here : Run s s
    next : {t u : Life W} → Run s t → Step t u → Run s u

-- `NewServer`
unfoldable pub new_life : {W : Type 0} → W → Life W
new_life w = record {
  active = [];
  conns = [];
  closed = [];
  told = [];
  in_shutdown = false;
  done_closed = false;
  shutdown = idle;
  handling = 0;
  world = w;
}
