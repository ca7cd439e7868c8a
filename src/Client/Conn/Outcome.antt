-- ===== src/Client/Conn/Outcome.antt =====
-- How a call that waits for a response ends (`handleResponse` of client/client.go).
use rpcx.Base.{ℕ, suc, ◌≡◌, ◌≢◌, refl, ap, arith, [], ◌∷◌, Option, none, some, Bytes, false}
use rpcx.Base.Dict.{lookup, delete, nat_eq, bytes_eq_inst}
use rpcx.Protocol.Header.{seq, message_type, message_status_type, serialize_type}
use rpcx.Protocol.Metadata.{Meta}
use rpcx.Protocol.Message.{Message, entries}
use rpcx.Client.Conn.{Client, service_error, value, at, set_error, call_done}
use rpcx.Client.Conn.Response.{
  Setup, Decoded, decoded, service_error_key, handle_response, normal_response, error_response,
  take_error, response_error, is_server_message, set_reply, get_string, is_empty,
}

-- What a response does to a call that waits for it, and is not raw.
pub client_reply :
    (setup : Setup) (c : Client) (id v : ℕ) (codec : Bytes → Decoded) (got : Message)
    → lookup (seq got.header) c.pending ≡ some id
    → c.raw id ≡ false
    → message_type got.header ≡ 1
    → message_status_type got.header ≡ 0
    → setup.codecs (serialize_type got.header) ≡ some codec
    → got.payload ≢ []
    → codec got.payload ≡ decoded v
    → let (c', e) = handle_response setup got c in
      (e ≡ none)
      × (c'.reply id ≡ some (value v))
      × (c'.error id ≡ c.error id)
      × (c'.done id ≡ suc (c.done id))
unfolding handle_response normal_response is_server_message set_reply call_done
client_reply setup c id v codec got waits plain typ status known nonempty good =
    (ground arith, ground arith, ground arith, ground arith)

pub is_empty-lookup :
    (k t : Bytes) (m : Meta) → lookup k m ≡ some t → (get_string k m ≡ t) × (is_empty m ≡ false)
is_empty-lookup k t [] h = unfold lookup in cc
is_empty-lookup k t (kv ∷ m) h =
    (ap (λ (o : Option Bytes). elim o [ none ↦ [] | some v ↦ v ]) h, refl)

take_error_lem :
    (setup : Setup) (c : Client) (id : ℕ) (text : Bytes) (got : Message)
    → setup.error_func ≡ none
    → lookup service_error_key (entries got.metadata) ≡ some text
    → take_error setup got id c
      ≡ set_error id
          (service_error text)
          (record c { res_metadata = at c.res_metadata id (entries got.metadata) })
unfolding take_error response_error
take_error_lem setup c id text got no_func said =
    let (text_eq, nonempty) = is_empty-lookup service_error_key text (entries got.metadata) said in
    rw (nonempty, no_func, text_eq) refl

pub client_error :
    (setup : Setup) (c : Client) (id : ℕ) (text : Bytes) (got : Message)
    → lookup (seq got.header) c.pending ≡ some id
    → c.raw id ≡ false
    → message_type got.header ≡ 1
    → message_status_type got.header ≡ 1
    → setup.error_func ≡ none
    → lookup service_error_key (entries got.metadata) ≡ some text
    → let (c', e) = handle_response setup got c in
      (e ≡ none) × (c'.error id ≡ some (service_error text)) × (c'.done id ≡ suc (c.done id))
unfolding handle_response error_response is_server_message set_error set_reply call_done
client_error setup c id text got waits plain typ status no_func said =
    let c1 : Client = record c { pending = delete (seq got.header) c.pending } in
    let t = take_error_lem setup c1 id text got no_func said in
    (ground (arith, t), ground (arith, t), ground (arith, t))
