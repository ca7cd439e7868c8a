-- ===== src/Client/Conn/Input/Order.antt =====
-- The loop of `input` takes the messages of the server in their order.
use rpcx.Base.{
  ℕ, suc, ◌+◌, ◌<◌, ◌≤◌, ◌≡◌, refl, sym, ap, ◌∙◌, arith, ltb, List, [], ◌∷◌, ◌++◌, append-nil,
  append_assoc, length-append, Option, none, some, true, false, length, All,
}
use rpcx.Protocol.Message.{Message, new_message}
use rpcx.Protocol.Message.Decode.{Reader, State, DecodeResult, returns, decode}
use rpcx.Client.Conn.{Client, CallError, Chan}
use rpcx.Client.Conn.Response.{is_server_message, handle_server_request, handle_response}
use rpcx.Client.Conn.Input.{Receiving, Stopped, at_response, at_channel, input_round, input_loop}

abbrev pub IsPush : Message → Type 0
IsPush m = is_server_message m ≡ true

-- A client whose channel of server messages has some messages.
abbrev pub with_queue : Client → Chan → List Message → Client
with_queue c ch ms = record c { server_chan = some (record ch { queue = ms }) }

module _ (x : Receiving) where
  abbrev reads : Reader → DecodeResult
  reads r = decode x.compressors x.max_message_length new_message r

  -- Frames that follow one another on a stream, up to the reader behind them.
  pub data Frames (t : Reader) : Reader → List Message → Type 0 where
    done : Frames t t []
    frame :
        {r : Reader} {ms : List Message} (s : State)
        → reads r ≡ returns none s
        → Frames t s.reader ms
        → Frames t r (s.msg ∷ ms)

  handle_push :
      (m : Message) (c : Client) (ch : Chan) (ms : List Message)
      → IsPush m
      → c.blocked ≡ none
      → length ms < ch.capacity
      → ch.is_closed ≡ false
      → handle_response x.setup m (with_queue c ch ms) ≡ (with_queue c ch (ms ++ m ∷ []), none)
  unfolding handle_response handle_server_request
  handle_push m c ch ms push free room open_chan =
      let r : ltb (length ms) ch.capacity ≡ true = ground arith in rw push (rw (open_chan, r) refl)

  round_on :
      (rest : Reader → Client → Client × Stopped) (s : State) (k : Client) {k' : Client}
      → handle_response x.setup s.msg k ≡ (k', none)
      → k'.blocked ≡ none
      → input_round x rest k (returns none s) ≡ rest s.reader k'
  unfolding input_round
  round_on rest s k {k'} e free =
      ap
        (λ (p : Client × Option CallError). elim p.1 as (λ _. Client × Stopped) [
          | none ↦ elim p.0.blocked as (λ _. Client × Stopped) [
            | none ↦ rest s.reader p.0
            | some m ↦ (p.0, at_channel)
          ]
          | some err ↦ (p.0, at_response err)
        ])
        e
      ∙ ap
          (λ (o : Option Message). elim o as (λ _. Client × Stopped) [
            | none ↦ rest s.reader k'
            | some m ↦ (k', at_channel)
          ])
          free

  pushes_from :
      {t r : Reader} {ms : List Message}
      → Frames t r ms
      → (c : Client) (ch : Chan) (fuel : ℕ) (q : List Message) → All IsPush ms
      → c.blocked ≡ none
      → length q + length ms ≤ ch.capacity
      → ch.is_closed ≡ false
      → input_loop x (length ms + fuel) r (with_queue c ch q)
        ≡ input_loop x fuel t (with_queue c ch (q ++ ms))
  unfolding input_loop input_round
  pushes_from {t} done c ch fuel q pushes free room open_chan =
      let none_left : 0 + fuel ≡ fuel = omega arith in
      ap (λ n. input_loop x n t (with_queue c ch q)) none_left
      ∙ ap (λ l. input_loop x fuel t (with_queue c ch l)) (sym (append-nil q))
  pushes_from {t} {r} (frame {ms = ms} s e fs) c ch fuel q (push, pushes) free room open_chan =
      let again : length (s.msg ∷ ms) + fuel ≡ suc (length ms + fuel) = omega arith in
      ap (λ n. input_loop x n r (with_queue c ch q)) again
      ∙ ap (λ d. input_round x (input_loop x (length ms + fuel)) (with_queue c ch q) d) e
      ∙ round_on (input_loop x (length ms + fuel)) s (with_queue c ch q)
          (handle_push s.msg c ch q push free (omega (arith, room)) open_chan) free
      ∙ pushes_from fs c ch fuel (q ++ s.msg ∷ []) pushes free
          (omega (arith, room, length-append q (s.msg ∷ []))) open_chan
      ∙ ap (λ l. input_loop x fuel t (with_queue c ch l)) (append_assoc q (s.msg ∷ []) ms)

  -- Messages that the server sends of itself reach the channel of server messages in the order of
  -- their frames, each once, and the loop goes on behind them. This needs a channel that is not closed
  -- and has room for all of them, and an `input` that does not stand at it already.
  pub pushes_in_order :
      {t r : Reader} {ms : List Message}
      → Frames t r ms
      → (c : Client) (ch : Chan) (fuel : ℕ) → All IsPush ms
      → c.blocked ≡ none
      → c.server_chan ≡ some ch
      → length ch.queue + length ms ≤ ch.capacity
      → ch.is_closed ≡ false
      → input_loop x (length ms + fuel) r c ≡ input_loop x fuel t (with_queue c ch (ch.queue ++ ms))
  pushes_in_order {r = r} {ms = ms} fs c ch fuel pushes free has room open_chan =
      ap (λ o. input_loop x (length ms + fuel) r (record c { server_chan = o })) has
      ∙ pushes_from fs c ch fuel ch.queue pushes free room open_chan
