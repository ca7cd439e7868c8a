-- ===== src/Client/Conn/Faults.antt =====
-- Where client/client.go finishes the wrong call, a call twice, or a call never.
use rpcx.Base.{ℕ, suc, ◌+◌, ◌≡◌, ◌≢◌, refl, arith, List, [], ◌∷◌, none, some, true, false}
use rpcx.Base.Dict.{lookup, insert, delete, nat_eq, lookup-delete, lookup-insert}
use rpcx.Protocol.Header.{seq, message_status_type}
use rpcx.Protocol.Message.{Message, entries}
use rpcx.Client.Conn.{
  Client, CallError, response_panic, set_error, call_done, take_pending, cancel, register_raw,
  terminate, close,
}
use rpcx.Client.Conn.Response.{
  Setup, is_server_message, error_response, take_error, set_reply, handle_response,
}
use rpcx.Client.Conn.Events.{held}
use rpcx.Client.Conn.Account.Invariant.{Inv}
use rpcx.Client.Conn.Account.Sections.{terminate_lem, close_lem}

-- A caller whose context ends before `send` registers its call has 0 in its cell: it finishes the
-- call that waits under the number 0, whosever it is, with the error of its own context.
pub cancel_unregistered :
    (caller id : ℕ) (e : CallError) (c : Client)
    → c.cell caller ≡ 0
    → lookup 0 c.pending ≡ some id
    → let d = cancel caller e c in
      (d.error id ≡ some e) × (d.done id ≡ suc (c.done id)) × (lookup 0 d.pending ≡ none)
unfolding cancel take_pending call_done set_error
cancel_unregistered caller id e c unset waits =
    rw (unset, waits, take_pending)
      (ground arith, ground arith, ground (arith, lookup-delete 0 0 c.pending))

-- A response with the status `Error`, no metadata and no payload finishes its call without an
-- error, where the call had none.
pub error_without_metadata :
    (setup : Setup) (res : Message) (id : ℕ) (c : Client)
    → is_server_message res ≡ false
    → lookup (seq res.header) c.pending ≡ some id
    → message_status_type res.header ≡ 1
    → entries res.metadata ≡ []
    → res.payload ≡ []
    → c.raw id ≡ false
    → let (d, err) = handle_response setup res c in
      (d.error id ≡ c.error id) × (d.done id ≡ suc (c.done id)) × (err ≡ none)
unfolding handle_response error_response take_error call_done
error_without_metadata setup res id c answer waits failed no_meta no_payload plain =
    (ground arith, ground arith, ground arith)

-- The same response to a raw call ends the loop of `input` by a panic, after the call was taken
-- from the table: it is not done, and the end of `input` does not find it any more.
pub raw_error_without_metadata :
    (setup : Setup) (res : Message) (id : ℕ) (c : Client)
    → is_server_message res ≡ false
    → lookup (seq res.header) c.pending ≡ some id
    → message_status_type res.header ≡ 1
    → entries res.metadata ≡ []
    → c.raw id ≡ true
    → c.error id ≡ none
    → let (d, err) = handle_response setup res c in
      (err ≡ some response_panic)
      × (d.done id ≡ c.done id)
      × (lookup (seq res.header) d.pending ≡ none)
unfolding handle_response error_response take_error set_reply
raw_error_without_metadata setup res id c answer waits failed no_meta raw clear =
    let gone : lookup (seq res.header) (delete (seq res.header) c.pending) ≡ none =
      ground (arith, lookup-delete (seq res.header) (seq res.header) c.pending) in
    (ground arith, ground arith, ground (arith, gone))

held-insert :
    (n id other : ℕ) (m : List (ℕ × ℕ))
    → lookup n m ≡ some other
    → id ≢ other
    → held other m ≡ suc (held other (insert n id m))
unfolding lookup insert
held-insert n id other [] h ne = cc
held-insert n id other ((k, i) ∷ m) h ne = ground (arith, held-insert n id other m)

-- `SendRaw` under a number at which another call waits takes that call's place: it waits once less,
-- and is not done.
pub register_raw_replaces :
    (n id other : ℕ) (c : Client)
    → lookup n c.pending ≡ some other
    → id ≢ other
    → let d = register_raw n id c in
      (lookup n d.pending ≡ some id)
      × (d.done other ≡ c.done other)
      × (held other c.pending ≡ suc (held other d.pending))
unfolding register_raw
register_raw_replaces n id other c waits ne = (
  ground (arith, lookup-insert n n id c.pending),
  refl,
  held-insert n id other c.pending waits ne,
)

-- When `input` has ended, `Close` finishes the calls that waited a second time.
pub terminate-close_twice :
    (b : ℕ) (e : CallError) (c : Client) (j : ℕ)
    → Inv b c
    → (close (terminate e c)).0.done j ≡ held j c.pending + held j c.pending + c.done j
terminate-close_twice b e c j v =
    let (v', p, dn) = terminate_lem b e c v in
    let ((_, k), empty) = close_lem b (terminate e c) v' in
    let none_left : held j (close (terminate e c)).0.pending ≡ 0 = rw empty in
    let waits : held j (terminate e c).pending ≡ held j c.pending = rw p in
    omega (arith, k j, none_left, waits, dn j)
