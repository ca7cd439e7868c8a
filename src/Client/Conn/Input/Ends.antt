-- ===== src/Client/Conn/Input/Ends.antt =====
-- The loop of `input` ends where the channel of server messages cannot hold it up.
use rpcx.Base.{
  Bool, ap, on_option, on_option_eq, ℕ, zero, suc, ◌<◌, ◌≡◌, ◌≢◌, refl, sym, ◌∙◌, arith, List, [],
  ◌∷◌, Option, none, some, Bytes, true, false, length, ◌==◌, Bool-cases, Option-cases, inl, inr,
}
use rpcx.Base.Dict.{lookup, delete, nat_eq}
use rpcx.Protocol.Header.{seq, message_status_type}
use rpcx.Protocol.Message.{Message, new_message}
use rpcx.Protocol.Message.Decode.{Reader, State, DecodeResult, returns, out_of_fuel, decode}
use rpcx.Protocol.Message.Consumes.{decode_takes}
use rpcx.Protocol.Message.Ends.{decode_ends}
use rpcx.Client.Conn.{
  Client, CallError, shut_down, set_error, call_done, register, finish_all, terminate,
}
use rpcx.Client.Conn.Events.{input_end, terminal_notice}
use rpcx.Client.Conn.Response.{
  Setup, is_server_message, handle_server_request, handle_response, error_response, normal_response,
  take_error, set_reply,
}
use rpcx.Client.Conn.Input.{
  Receiving, Stopped, at_read, at_response, at_channel, exhausted, input_round, input_loop,
  end_input, input,
}

shutdown-finish_all :
    (e : CallError) (l : List (ℕ × ℕ)) (c : Client) → (finish_all e l c).shutdown ≡ c.shutdown
unfolding finish_all call_done set_error
shutdown-finish_all e [] c = refl
shutdown-finish_all e ((n, id) ∷ l) c = shutdown-finish_all e l (call_done id (set_error id e c))

shutdown-terminate : (e : CallError) (c : Client) → (terminate e c).shutdown ≡ true
unfolding terminate
shutdown-terminate e c =
    shutdown-finish_all e c.pending (record c { plugin_closed = true; shutdown = true })

-- `input` does not stand at the channel of server messages, and never will.
abbrev IsFree : Client → Type 0
IsFree c = (c.bidirectional_block ≡ false) × (c.blocked ≡ none)

server_request-IsFree : (m : Message) (c : Client) → IsFree c → IsFree (handle_server_request m c)
unfolding handle_server_request
server_request-IsFree m c (block, free) = (ground arith, ground arith)

error_response-IsFree :
    (setup : Setup) (res : Message) (id : ℕ) (c : Client)
    → IsFree c
    → IsFree (error_response setup res id c).0
unfolding error_response take_error set_reply call_done set_error
error_response-IsFree setup res id c (block, free) = (ground arith, ground arith)

normal_response-IsFree :
    (setup : Setup) (res : Message) (id : ℕ) (c : Client)
    → IsFree c
    → IsFree (normal_response setup res id c).0
unfolding normal_response set_reply call_done set_error
normal_response-IsFree setup res id c (block, free) = (ground arith, ground arith)

response-IsFree :
    (setup : Setup) (res : Message) (c : Client) → IsFree c → IsFree (handle_response setup res c).0
unfolding handle_response
response-IsFree setup res c h =
    let n = seq res.header in
    let c1 : Client = record c { pending = delete n c.pending } in
    elim (Bool-cases (is_server_message res)) [
      | inl server ↦ rw (server, handle_response) (server_request-IsFree res c h)
      | inr answer ↦ elim (Option-cases (lookup n c.pending)) [
        | inl e ↦ rw (answer, e, handle_response) h
        | inr (id, e) ↦ elim (Bool-cases (message_status_type res.header == 1)) [
          | inl failed ↦
              rw (answer, e, failed, handle_response) (error_response-IsFree setup res id c1 h)
          | inr fine ↦
              rw (answer, e, fine, handle_response) (normal_response-IsFree setup res id c1 h)
        ]
      ]
    ]

-- The loop has ended.
abbrev HasEnded : Client × Stopped → Type 0
HasEnded p = (p.1 ≢ exhausted) × (p.1 ≢ at_channel) × IsFree p.0

module _ (x : Receiving) where
  abbrev reads : Reader → DecodeResult
  reads r = decode x.compressors x.max_message_length new_message r

  round_ends :
      (rest : Reader → Client → Client × Stopped) (r : Reader) (c : Client) (d : DecodeResult)
      → reads r ≡ d
      → IsFree c
      → ((s : State) (k : Client)
          → reads r ≡ returns none s
          → IsFree k
          → HasEnded (rest s.reader k))
      → HasEnded (input_round x rest c d)
  unfolding input_round
  round_ends rest r c (out_of_fuel s) e h go_on =
      absurd (decode_ends x.compressors x.max_message_length new_message r s e)
  round_ends rest r c (returns (some err) s) e h go_on = (λ p. cc, λ p. cc, h)
  round_ends rest r c (returns none s) e h go_on =
      let (c1, failed) = handle_response x.setup s.msg c in
      let h1 : IsFree c1 = response-IsFree x.setup s.msg c h in
      on_option (λ (o : Client × Stopped). HasEnded o) failed
        (on_option_eq (λ (o : Client × Stopped). HasEnded o) c1.blocked (λ free. go_on s c1 e h1)
          (λ m stands. let bad : ◌≡◌ {A = Option Message} none (some m) = sym h1.1 ∙ stands in cc))
        (λ err. (λ p. cc, λ p. cc, h1))

  loop_ends :
      (fuel : ℕ) (r : Reader) (c : Client)
      → length r.stream < fuel
      → IsFree c
      → HasEnded (input_loop x fuel r c)
  unfolding input_loop
  loop_ends zero r c less h = absurd (omega arith)
  loop_ends (suc fuel) r c less h = round_ends (input_loop x fuel) r c (reads r) refl h (λ s k e.
      loop_ends fuel s.reader k
        (omega (arith, decode_takes x.compressors x.max_message_length new_message r s e, less)))

  -- A client that is shut down, and with it the end of `input`.
  abbrev Refuses : Option Client → Type 0
  Refuses o =
      (c' : Client) × (o ≡ some c')
      × ((id : ℕ) (codec : Bool) → register id codec c' ≡ call_done id (set_error id shut_down c'))

  input_end-Refuses :
      (text address : Bytes) (e : CallError) (c : Client)
      → IsFree c
      → Refuses (input_end text address e c)
  unfolding input_end register
  input_end-Refuses text address e c h =
      let c1 = handle_server_request (terminal_notice text address) c in
      let h1 : IsFree c1 = server_request-IsFree (terminal_notice text address) c h in
      (
        terminate e c1,
        ap
            (λ (o : Option Message). elim o as (λ _. Option Client) [
              | none ↦ some (terminate e c1)
              | some _ ↦ none
            ])
            h1.1,
        λ id codec. rw (shutdown-terminate e c1) refl,
      )

  -- Without `BidirectionalBlock`, and where it does not stand at the channel of server messages,
  -- `input` ends on every stream that ends, with fuel for one round more than the stream has bytes, and
  -- leaves a client that is shut down, so that `send` refuses every call from then on.
  pub input_ends :
      (fuel : ℕ) (r : Reader) (c : Client)
      → length r.stream < fuel
      → c.bidirectional_block ≡ false
      → c.blocked ≡ none
      → (c' : Client) × (input x fuel r c ≡ some c')
        × ((id : ℕ) (codec : Bool)
            → register id codec c' ≡ call_done id (set_error id shut_down c'))
  unfolding input end_input
  input_ends fuel r c less block free =
      go (input_loop x fuel r c) (loop_ends fuel r c less (block, free))
    where
      go : (p : Client × Stopped) → HasEnded p → Refuses (end_input x p)
      go (c1, at_read err) h = input_end-Refuses _ _ _ c1 h.2
      go (c1, at_response err) h = input_end-Refuses _ _ _ c1 h.2
      go (c1, at_channel) h = absurd (h.1 refl)
      go (c1, exhausted) h = absurd (h.0 refl)
