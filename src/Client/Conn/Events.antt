-- ===== src/Client/Conn/Events.antt =====
-- The runs of a connection: every interleaving of the sections of client/client.go that run under
-- the mutex, for calls made by `Go`, `Call` and `SendRaw`, and those of `input` at the channel of server
-- messages.
use rpcx.Base.{
  ℕ, ◌+◌, ◌≡◌, List, [], ◌∷◌, Option, none, some, Bytes, bytes, Bool, ◌==◌, if◌then◌else◌,
}
use rpcx.Base.Dict.{lookup, insert, nat_eq, bytes_eq_inst}
use rpcx.Protocol.Header.{new_header, set_message_type, set_message_status_type}
use rpcx.Protocol.Message.{Message, new_message}
use rpcx.Client.Conn.{
  Client, Chan, CallError, new_client, register, register_raw, cancel_raw, publish, encode_fails,
  write_fails, oneway_sent, cancel, terminate, close,
}
use rpcx.Client.Conn.Response.{Setup, handle_response, handle_server_request, service_error_key}

-- What the end of `input` tells the channel of server messages.
unfoldable pub terminal_notice : Bytes → Bytes → Message
terminal_notice text address = record new_message {
  header = set_message_status_type 1 (set_message_type 0 new_header);
  metadata = some (insert (bytes "server") address ((service_error_key, text) ∷ []));
}

-- Behind the loop of `input`; `none` where it stands at the channel of server messages.
unfoldable pub input_end : Bytes → Bytes → CallError → Client → Option Client
input_end text address e c =
    let c1 = handle_server_request (terminal_notice text address) c in
    elim c1.blocked [ none ↦ some (terminate e c1) | some _ ↦ none ]

-- A state that the sections lead to from a new client, with the calls that `send` was given.
-- `send` deletes its own entry when the arguments cannot be encoded: another section may have taken
-- it before, and then it is `encode_fails_late`.
pub data Run (setup : Setup) : Client → List ℕ → Type 0 where
  start : Run setup new_client []
  registers :
      {c : Client} {ids : List ℕ}
      → Run setup c ids
      → (id : ℕ) (codec : Bool) → Run setup (register id codec c) (id ∷ ids)
  publishes :
      {c : Client} {ids : List ℕ} → Run setup c ids → (id n : ℕ) → Run setup (publish id n c) ids
  encode_fails_own :
      {c : Client} {ids : List ℕ}
      → Run setup c ids
      → (n id : ℕ) (e : CallError) → lookup n c.pending ≡ some id
      → Run setup (encode_fails n id e c) ids
  encode_fails_late :
      {c : Client} {ids : List ℕ}
      → Run setup c ids
      → (n id : ℕ) (e : CallError) → lookup n c.pending ≡ none
      → Run setup (encode_fails n id e c) ids
  writes_fail :
      {c : Client} {ids : List ℕ}
      → Run setup c ids
      → (n : ℕ) (e : CallError) → Run setup (write_fails n e c) ids
  oneway : {c : Client} {ids : List ℕ} → Run setup c ids → (n : ℕ) → Run setup (oneway_sent n c) ids
  cancels :
      {c : Client} {ids : List ℕ}
      → Run setup c ids
      → (caller : ℕ) (e : CallError) → Run setup (cancel caller e c) ids
  registers_raw :
      {c : Client} {ids : List ℕ}
      → Run setup c ids
      → (n id : ℕ) → Run setup (register_raw n id c) ids
  cancels_raw :
      {c : Client} {ids : List ℕ}
      → Run setup c ids
      → (n : ℕ) (e : CallError) → Run setup (cancel_raw n e c) ids
  responds :
      {c : Client} {ids : List ℕ}
      → Run setup c ids
      → c.blocked ≡ none
      → (res : Message) → Run setup (handle_response setup res c).0 ids
  -- The end of `input`: the notice to the channel, and the section under the mutex.
  notices :
      {c : Client} {ids : List ℕ}
      → Run setup c ids
      → c.blocked ≡ none
      → (text address : Bytes)
      → Run setup (handle_server_request (terminal_notice text address) c) ids
  terminates :
      {c : Client} {ids : List ℕ}
      → Run setup c ids
      → c.blocked ≡ none
      → (e : CallError) → Run setup (terminate e c) ids
  -- The program registers a channel or reads from it, and `input` goes on where it stood there.
  channels :
      {c : Client} {ids : List ℕ}
      → Run setup c ids
      → (o : Option Chan) (b : Option Message)
      → Run setup (record c { server_chan = o; blocked = b }) ids
  closes : {c : Client} {ids : List ℕ} → Run setup c ids → Run setup (close c).0 ids

-- How often a call was given to `send`.
abbrev pub count : ℕ → List ℕ → ℕ
count j [] = 0
count j (i ∷ ids) = (if j == i then 1 else 0) + count j ids

-- How often a call waits.
abbrev pub held : ℕ → List (ℕ × ℕ) → ℕ
held j [] = 0
held j ((_, i) ∷ rest) = (if j == i then 1 else 0) + held j rest

-- No call of `SendRaw`.
abbrev pub IsRawFree : {setup : Setup} {c : Client} {ids : List ℕ} → Run setup c ids → Type 0
IsRawFree start = Unit {0}
IsRawFree (registers r id codec) = IsRawFree r
IsRawFree (publishes r id n) = IsRawFree r
IsRawFree (encode_fails_own r n id e h) = IsRawFree r
IsRawFree (encode_fails_late r n id e h) = IsRawFree r
IsRawFree (writes_fail r n e) = IsRawFree r
IsRawFree (oneway r n) = IsRawFree r
IsRawFree (cancels r caller e) = IsRawFree r
IsRawFree (registers_raw r n id) = ⊥
IsRawFree (cancels_raw r n e) = ⊥
IsRawFree (responds r free res) = IsRawFree r
IsRawFree (notices r free text address) = IsRawFree r
IsRawFree (terminates r free e) = IsRawFree r
IsRawFree (channels r o b) = IsRawFree r
IsRawFree (closes r) = IsRawFree r

-- No end of `input`, and no late failure to encode.
abbrev pub IsClean : {setup : Setup} {c : Client} {ids : List ℕ} → Run setup c ids → Type 0
IsClean start = Unit {0}
IsClean (registers r id codec) = IsClean r
IsClean (publishes r id n) = IsClean r
IsClean (encode_fails_own r n id e h) = IsClean r
IsClean (encode_fails_late r n id e h) = ⊥
IsClean (writes_fail r n e) = IsClean r
IsClean (oneway r n) = IsClean r
IsClean (cancels r caller e) = IsClean r
IsClean (registers_raw r n id) = IsClean r
IsClean (cancels_raw r n e) = IsClean r
IsClean (responds r free res) = IsClean r
IsClean (notices r free text address) = IsClean r
IsClean (terminates r free e) = ⊥
IsClean (channels r o b) = IsClean r
IsClean (closes r) = IsClean r
