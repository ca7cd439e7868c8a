-- ===== src/Server/Conn.antt =====
-- The loop of one connection (`serveConn`, `readRequest`, `auth` of server/server.go). A request goes
-- to the pool or to a goroutine of its own: it is handed over, and what it does later is a step of
-- somebody else. Deadlines and the TLS handshake are left out, and so is the log.
pub mod Served
pub mod Refused
mod Tests
use rpcx.Base.{
  ℕ, zero, suc, ◌≡◌, List, [], ◌∷◌, ◌++◌, Option, none, some, Bytes, bytes, Bool, true, false,
  if◌then◌else◌,
}
use rpcx.Base.Dict.{bytes_eq_inst}
use rpcx.Protocol.Header.{is_heartbeat, is_oneway}
use rpcx.Protocol.Message.{Message, new_message, entries}
use rpcx.Protocol.Message.Decode.{
  DecodeError, eof, Reader, DecodeResult, returns, out_of_fuel, decode,
}
use rpcx.Client.Conn.Response.{get_string}
use rpcx.Server.Handler.{
  ServerError, reading, request_limit, Hooks, Server, or_else, handle_error, answer_to,
}
use rpcx.Server.Process.{World, Deployment, send_response, report}

abbrev pub auth_key : Bytes
auth_key = bytes "__AUTH"

-- `AuthFunc`: it gets the token, and may change the request.
abbrev pub AuthFunc : Type 0 → Type 0
AuthFunc U = Message → Bytes → U → U × Message × Option ServerError

-- A server, with `MaxMessageLength`. The flag `inShutdown` is part of the state of the others.
pub record Listener (U V : Type 0) : Type 0 where
  pub deployment : Deployment U V
  pub auth_func : Option (AuthFunc U)
  pub is_shutdown : U → Bool
  pub max_message_length : ℕ

-- What `readRequest` returns: no message where a plugin refuses to read.
pub data ReadResult (U : Type 0) : Type 0 where
  unread : U → ServerError → ReadResult U
  was_read : U → Message → Option ServerError → Reader → ReadResult U
  -- No Go value: `Decode` ends (`decode_ends`).
  stuck : ReadResult U

-- How a round of the loop ends: with the next round, and the request that was handed over; with the
-- end of the connection; or with a panic, which also ends the connection.
pub data Round (U : Type 0) : Type 0 where
  goes_on : World U → Reader → Option Message → Round U
  ends : World U → Round U
  panics : World U → Round U
  stuck : Round U

abbrev pub is_eof : DecodeError → Bool
is_eof eof = true
is_eof _ = false

module _ {U V : Type 0} (l : Listener U V) where
  -- Behind `Decode`: the plugins see its error, but not the end of the stream.
  unfoldable pub read_result : U → DecodeResult → ReadResult U
  read_result u (out_of_fuel _) = ReadResult.stuck
  read_result u (returns none s) =
      let (u1, req, perr) = l.deployment.server.hooks.post_read_request s.msg none u in
      was_read u1 req perr s.reader
  read_result u (returns (some e) s) =
      let (u1, req, _) = l.deployment.server.hooks.post_read_request s.msg (some (reading e)) u in
      if is_eof e
      then was_read u s.msg (some (reading e)) s.reader
      else was_read u1 req (some (reading e)) s.reader

  unfoldable pub read_request : U → Reader → ReadResult U
  read_request u r =
      let (u1, refused) = l.deployment.server.hooks.pre_read_request u in
      elim refused [
        | some e ↦ unread u1 e
        | none ↦ read_result u1 (decode l.deployment.compressors l.max_message_length new_message r)
      ]

  unfoldable pub auth : Message → U → U × Message × Option ServerError
  auth req u = elim l.auth_func [
    | none ↦ (u, req, none)
    | some f ↦ f req (get_string auth_key (entries req.metadata)) u
  ]

  -- The answer to a request that is not handed over.
  unfoldable pub refuse : Message → ServerError → World U → World U
  refuse req e w =
      if is_oneway req.header
      then record w { user = (l.deployment.server.hooks.pre_write_nothing req (some e) w.user).0 }
      else let (u1, res, _) =
          handle_error l.deployment.server (answer_to l.deployment.server req) e w.user in
        send_response l.deployment (some e) req res (record w { user = u1 })

  -- A request that was read without an error.
  unfoldable pub admit : Message → Reader → World U → Round U
  admit req r w =
      if is_heartbeat req.header
      then goes_on w r (some req)
      else let (u1, req1, err) = auth req w.user in
        let w1 = record w { user = u1 } in
        elim err [
          | none ↦ goes_on w1 r (some req1)
          | some e ↦ ends (report l.deployment (some e) (refuse req1 e w1))
        ]

  -- A limit on a plugin's side refuses the request, and any other error ends the connection.
  unfoldable pub after_read : Message → Option ServerError → Reader → World U → Round U
  after_read req none r w = admit req r w
  after_read req (some request_limit) r w = goes_on (refuse req request_limit w) r none
  after_read req (some e) r w = ends (report l.deployment (some e) w)

  -- The request is nil where a plugin refused to read.
  unfoldable pub unread_request : ServerError → World U → Round U
  unread_request request_limit w = panics w
  unread_request e w = ends (report l.deployment (some e) w)

  unfoldable pub round_of : World U → ReadResult U → Round U
  round_of w (unread u e) = unread_request e (record w { user = u })
  round_of w (was_read u req err r) = after_read req err r (record w { user = u })
  round_of w ReadResult.stuck = Round.stuck

  unfoldable pub serve_round : World U → Reader → Round U
  serve_round w r = if l.is_shutdown w.user then ends w else round_of w (read_request w.user r)

  abbrev pub handed : Option Message → List Message
  handed none = []
  handed (some m) = m ∷ []

  -- The head of the loop, after some rounds: the requests that were handed over, and the number of
  -- rounds. Between two rounds the others may change everything but the reader.
  pub data Serving (first : Reader) : World U → Reader → List Message → ℕ → Type 0 where
    starts : (w : World U) → Serving first w first [] 0
    round :
        {w w1 : World U} {r r1 : Reader} {hs : List Message} {n : ℕ} {h : Option Message}
        → Serving first w r hs n
        → serve_round w r ≡ goes_on w1 r1 h
        → Serving first w1 r1 (hs ++ handed h) (suc n)
    others :
        {w : World U} {r : Reader} {hs : List Message} {n : ℕ}
        → Serving first w r hs n
        → (w' : World U) → Serving first w' r hs n
