-- ===== src/Client/Conn/Account/Responses.antt =====
-- What `handleResponse`, and what happens at the channel of server messages, do to the account of a call.
use rpcx.Base.{ℕ, ◌≡◌, refl, arith, inl, inr, Option, false, ◌==◌, Bool-cases, Option-cases}
use rpcx.Base.Dict.{lookup, delete, nat_eq}
use rpcx.Protocol.Header.{seq, message_status_type}
use rpcx.Protocol.Message.{Message}
use rpcx.Client.Conn.{Client, Chan, set_error, call_done, publish}
use rpcx.Client.Conn.Response.{
  Setup, handle_response, handle_server_request, is_server_message, error_response, normal_response,
  take_error, set_reply,
}
use rpcx.Client.Conn.Account.Table.{delete_absent}
use rpcx.Client.Conn.Account.Invariant.{
  Inv, Finishes, Inv-delete, Inv-Finishes, taken_account, Keeps,
}

-- A response to a call that is not raw finishes it, on every branch.
error_response-Finishes :
    (setup : Setup) (res : Message) (id : ℕ) (c : Client)
    → c.raw id ≡ false
    → Finishes id c (error_response setup res id c).0
unfolding error_response take_error set_reply call_done set_error
error_response-Finishes setup res id c plain = record {
  done_once = λ j. ground arith;
  same_pending = ground arith;
  same_seq = ground arith;
  same_raw = ground arith;
}

normal_response-Finishes :
    (setup : Setup) (res : Message) (id : ℕ) (c : Client)
    → c.raw id ≡ false
    → Finishes id c (normal_response setup res id c).0
unfolding normal_response set_reply call_done set_error
normal_response-Finishes setup res id c plain = record {
  done_once = λ j. ground arith;
  same_pending = ground arith;
  same_seq = ground arith;
  same_raw = ground arith;
}

-- A message of the server changes no call.
handle_server_request-same :
    (msg : Message) (c : Client)
    → let d = handle_server_request msg c in
      (d.pending ≡ c.pending) × (d.done ≡ c.done) × (d.seq ≡ c.seq) × (d.raw ≡ c.raw)
unfolding handle_server_request
handle_server_request-same msg c = (ground arith, ground arith, ground arith, ground arith)

same-Keeps :
    (b : ℕ) (c d : Client)
    → d.pending ≡ c.pending
    → d.done ≡ c.done
    → d.seq ≡ c.seq
    → d.raw ≡ c.raw
    → Inv b c
    → Keeps b c d
same-Keeps b c d ep ed es er v = (
  record {
    distinct = rw ep v.distinct;
    below = rw (ep, es) v.below;
    in_range = rw es v.in_range;
    no_raw = rw er v.no_raw;
  },
  λ j. rw (ep, ed) refl,
)

pub server_request-Keeps :
    (b : ℕ) (msg : Message) (c : Client) → Inv b c → Keeps b c (handle_server_request msg c)
server_request-Keeps b msg c v =
    let (ep, ed, es, er) = handle_server_request-same msg c in same-Keeps b c _ ep ed es er v

pub handle_response-Keeps :
    (b : ℕ) (setup : Setup) (res : Message) (c : Client)
    → Inv b c
    → Keeps b c (handle_response setup res c).0
unfolding handle_response
handle_response-Keeps b setup res c v =
    let n = seq res.header in
    let c1 : Client = record c { pending = delete n c.pending } in
    elim (Bool-cases (is_server_message res)) [
      | inl server ↦ rw (server, handle_response) (server_request-Keeps b res c v)
      | inr answer ↦ elim (Option-cases (lookup n c.pending)) [
        | inl e ↦
            rw (answer, e, handle_response)
              (Inv-delete b n c v, λ j. rw (delete_absent n c.pending e) refl)
        | inr (id, e) ↦
            let bad = error_response-Finishes setup res id c1 (v.no_raw id) in
            let good = normal_response-Finishes setup res id c1 (v.no_raw id) in
            elim (Bool-cases (message_status_type res.header == 1)) [
              | inl failed ↦
                  rw (answer, e, failed, handle_response)
                    (
                      Inv-Finishes b id _ _ bad (Inv-delete b n c v),
                      λ j. taken_account b j n id c _ v e bad,
                    )
              | inr fine ↦
                  rw (answer, e, fine, handle_response)
                    (
                      Inv-Finishes b id _ _ good (Inv-delete b n c v),
                      λ j. taken_account b j n id c _ v e good,
                    )
            ]
      ]
    ]

pub publish-Keeps : (b id n : ℕ) (c : Client) → Inv b c → Keeps b c (publish id n c)
unfolding publish
publish-Keeps b id n c v = same-Keeps b c _ refl refl refl refl v

-- Nothing that happens at the channel of server messages changes a call.
pub channel-Keeps :
    (b : ℕ) (o : Option Chan) (m : Option Message) (c : Client)
    → Inv b c
    → Keeps b c (record c { server_chan = o; blocked = m })
channel-Keeps b o m c v = same-Keeps b c _ refl refl refl refl v
