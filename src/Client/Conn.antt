-- ===== src/Client/Conn.antt =====
-- One connection of the client (client/client.go): the calls that wait for an answer, and every
-- section of the code that runs under the mutex. A call is known by a number; its fields, and the
-- number of its `done()`, are functions of that number.
pub mod Response
pub mod Events
pub mod Account
pub mod Faults
pub mod Outcome
pub mod Send
pub mod Input
use rpcx.Base.{
  ℕ, suc, ◌+◌, ◌%◌, ◌^◌, ◌<◌, ◌≡◌, List, [], ◌∷◌, ◌++◌, Option, none, some, Bytes, Bool, true,
  false, ◌==◌, ltb, ◌||◌, ◌&&◌, not, length, if◌then◌else◌,
}
use rpcx.Base.Dict.{Eq, nat_eq, lookup, insert, delete}
use rpcx.Protocol.Message.{Message}
use rpcx.Protocol.Metadata.{Meta}

-- The errors that a call ends with. The numbers stand for errors of other packages.
pub data CallError : Type 0 where
  shut_down unsupported_codec unexpected_eof : CallError
  context_error codec_error write_error network_error : ℕ → CallError
  service_error : Bytes → CallError
  custom_error : ℕ → CallError
  response_panic : CallError

pub data Reply : Type 0 where
  value : ℕ → Reply
  raw_payload : Bytes → Reply

-- The channel `ServerMessageChan`.
pub record Chan : Type 0 where
  pub capacity : ℕ
  pub queue : List Message
  pub is_closed : Bool

pub record Client : Type 0 where
  pub seq : ℕ
  pub pending : List (ℕ × ℕ)
  pub closing : Bool
  pub shutdown : Bool
  pub plugin_closed : Bool
  pub server_chan : Option Chan
  pub bidirectional_block : Bool
  -- The message with which `input` stands at a full channel.
  pub blocked : Option Message
  -- The fields of the calls, and the number of times that each was done.
  pub raw : ℕ → Bool
  pub error : ℕ → Option CallError
  pub reply : ℕ → Option Reply
  pub res_metadata : ℕ → Meta
  pub done : ℕ → ℕ
  -- The cell of each caller of `call` into which `send` puts the sequence number.
  pub cell : ℕ → ℕ

unfoldable pub new_client : Client
new_client = record {
  seq = 0;
  pending = [];
  closing = false;
  shutdown = false;
  plugin_closed = false;
  server_chan = none;
  bidirectional_block = false;
  blocked = none;
  raw = λ _. false;
  error = λ _. none;
  reply = λ _. none;
  res_metadata = λ _. [];
  done = λ _. 0;
  cell = λ _. 0;
}

abbrev pub at {ℓ} : {A : Type ℓ} → (ℕ → A) → ℕ → A → ℕ → A
at f i a j = if j == i then a else f j

unfoldable pub set_error : ℕ → CallError → Client → Client
set_error id e c = record c { error = at c.error id (some e) }

-- `call.done()`
unfoldable pub call_done : ℕ → Client → Client
call_done id c = record c { done = at c.done id (suc (c.done id)) }

-- `call = client.pending[seq]; delete(client.pending, seq)`, then `then_do` on a call that is there.
unfoldable pub take_pending : ℕ → (ℕ → Client → Client) → Client → Client
take_pending seq then_do c =
    let c' = record c { pending = delete seq c.pending } in
    elim (lookup seq c.pending) [ none ↦ c' | some id ↦ then_do id c' ]

-- The first section of `send`: the call is refused, or gets the next sequence number. `codec` says
-- whether there is a codec for the serialization type.
unfoldable pub register : ℕ → Bool → Client → Client
register id codec c =
    if c.shutdown || c.closing
    then call_done id (set_error id shut_down c)
    else if not codec
    then call_done id (set_error id unsupported_codec c)
    else record c { seq = (c.seq + 1) % 2 ^ 64; pending = insert c.seq id c.pending }

-- `*cseq = seq`
unfoldable pub publish : ℕ → ℕ → Client → Client
publish id seq c = record c { cell = at c.cell id seq }

-- `send` when the codec cannot encode the arguments.
unfoldable pub encode_fails : ℕ → ℕ → CallError → Client → Client
encode_fails seq id e c =
    call_done id (set_error id e (record c { pending = delete seq c.pending }))

-- `send` and `SendRaw` when the write fails.
unfoldable pub write_fails : ℕ → CallError → Client → Client
write_fails seq e = take_pending seq (λ id c. call_done id (set_error id e c))

-- `send` and `SendRaw` when a one-way message is written.
unfoldable pub oneway_sent : ℕ → Client → Client
oneway_sent seq = take_pending seq call_done

-- `call` when its context ends first: it takes the number that its cell has.
unfoldable pub cancel : ℕ → CallError → Client → Client
cancel caller e c = take_pending (c.cell caller) (λ id c'. call_done id (set_error id e c')) c

-- `SendRaw` registers under the sequence number that its message has.
unfoldable pub register_raw : ℕ → ℕ → Client → Client
register_raw seq id c = record c { raw = at c.raw id true; pending = insert seq id c.pending }

-- `SendRaw` when its context ends first.
unfoldable pub cancel_raw : ℕ → CallError → Client → Client
cancel_raw seq e = take_pending seq (λ id c. call_done id (set_error id e c))

-- The error and the `done()` of each call of a list.
unfoldable pub finish_all : CallError → List (ℕ × ℕ) → Client → Client
finish_all e [] c = c
finish_all e ((_, id) ∷ rest) c = finish_all e rest (call_done id (set_error id e c))

-- The end of `input`: `e` is the error of the read, already turned into the one for the calls.
unfoldable pub terminate : CallError → Client → Client
terminate e c = finish_all e c.pending (record c { plugin_closed = true; shutdown = true })

-- The error that `input` gives to the calls: the end of the stream is `ErrShutdown` on a client
-- that is closing and `ErrUnexpectedEOF` otherwise; other errors stay.
unfoldable pub terminal_error : Bool → Option CallError → CallError
terminal_error closing (some e) = e
terminal_error closing none = if closing then shut_down else unexpected_eof

-- `Close`: the client and the error that it returns.
unfoldable pub close : Client → Client × Option CallError
close c =
    let c1 = record (finish_all shut_down c.pending c) { pending = []; plugin_closed = true } in
    if c1.closing || c1.shutdown then (c1, some shut_down) else (record c1 { closing = true }, none)
