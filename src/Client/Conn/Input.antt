-- ===== src/Client/Conn/Input.antt =====
-- `input` of client/client.go: the loop that reads responses, and its end. Here no other section comes
-- between (`Client.Conn.Events` has those); the deadline of an idle connection is left out.
pub mod Ends
pub mod Order
mod Tests
use rpcx.Base.{ℕ, zero, suc, Option, none, some, Bytes, Bool, true, false}
use rpcx.Protocol.Message.{Message, new_message, Compressors}
use rpcx.Protocol.Message.Decode.{
  DecodeError, eof, Reader, DecodeResult, returns, out_of_fuel, decode,
}
use rpcx.Client.Conn.{Client, CallError, terminal_error}
use rpcx.Client.Conn.Response.{Setup, handle_response}
use rpcx.Client.Conn.Events.{input_end}

-- What a connection reads with, and what an error of `Decode` is as the error of a call; the text of an
-- error and the address of the server, which the channel of server messages is told.
pub record Receiving : Type 0 where
  pub setup : Setup
  pub compressors : Compressors
  pub max_message_length : ℕ
  pub read_error : DecodeError → CallError
  pub error_text : CallError → Bytes
  pub address : Bytes

-- Why the loop ended: `Decode` gave an error, or `handleResponse` did. Where it stands at a full channel
-- of server messages it has not ended, and `exhausted` is no end of the source: the model has no fuel
-- left.
pub data Stopped : Type 0 where
  at_read : DecodeError → Stopped
  at_response : CallError → Stopped
  at_channel exhausted : Stopped

module _ (x : Receiving) where
  -- A round, behind `Decode`, with what goes on behind it.
  unfoldable pub input_round :
      (Reader → Client → Client × Stopped) → Client → DecodeResult → Client × Stopped
  input_round rest c (out_of_fuel s) = (c, exhausted)
  input_round rest c (returns (some err) s) = (c, at_read err)
  input_round rest c (returns none s) =
      let (c1, failed) = handle_response x.setup s.msg c in
      elim failed [
        | none ↦ elim c1.blocked [ none ↦ rest s.reader c1 | some _ ↦ (c1, at_channel) ]
        | some err ↦ (c1, at_response err)
      ]

  -- The loop, with fuel for its rounds.
  unfoldable pub input_loop : ℕ → Reader → Client → Client × Stopped
  input_loop zero r c = (c, exhausted)
  input_loop (suc fuel) r c =
      input_round (input_loop fuel) c (decode x.compressors x.max_message_length new_message r)

  -- The error that the calls get for an error of `Decode`: none stands for `io.EOF`.
  abbrev pub error_of : DecodeError → Option CallError
  error_of eof = none
  error_of err = some (x.read_error err)

  -- What stands behind the loop; `none` where `input` does not return.
  unfoldable pub end_input : Client × Stopped → Option Client
  end_input (c, exhausted) = none
  end_input (c, at_channel) = none
  end_input (c, at_read err) =
      input_end (x.error_text (x.read_error err)) x.address
        (terminal_error c.closing (error_of err)) c
  end_input (c, at_response err) =
      input_end (x.error_text err) x.address (terminal_error c.closing (some err)) c

  unfoldable pub input : ℕ → Reader → Client → Option Client
  input fuel r c = end_input (input_loop fuel r c)
