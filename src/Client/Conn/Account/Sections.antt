-- ===== src/Client/Conn/Account/Sections.antt =====
-- What each section of client/client.go but `handleResponse` does to the account of a call.
use rpcx.Base.{
  ℕ, ◌+◌, ◌%◌, ◌^◌, ◌<◌, ◌≡◌, refl, ◌∙◌, arith, inl, inr, [], ◌∷◌, none, some, Bool, true, not,
  ◌||◌, ◌==◌, if◌then◌else◌, Bool-cases,
}
use rpcx.Base.Dict.{lookup, insert, nat_eq, insert_new}
use rpcx.Client.Conn.{
  Client, CallError, set_error, call_done, register, encode_fails, write_fails, oneway_sent, cancel,
  finish_all, terminate, close, shut_down,
}
use rpcx.Client.Conn.Events.{held}
use rpcx.Client.Conn.Account.Table.{
  Table, Below-mono, lookup-Below, delete_absent, held-append, append-Below, append-Distinct,
}
use rpcx.Client.Conn.Account.Invariant.{
  Inv, account, call_done-Finishes, error_done-Finishes, Inv-delete, Inv-Finishes, taken_account,
  Keeps, take_pending-Keeps,
}

pub write_fails-Keeps :
    (b n : ℕ) (e : CallError) (c : Client) → Inv b c → Keeps b c (write_fails n e c)
unfolding write_fails
write_fails-Keeps b n e c = take_pending-Keeps b n _ c (λ id x. error_done-Finishes id e x)

pub oneway_sent-Keeps : (b n : ℕ) (c : Client) → Inv b c → Keeps b c (oneway_sent n c)
unfolding oneway_sent
oneway_sent-Keeps b n c = take_pending-Keeps b n _ c call_done-Finishes

pub cancel-Keeps :
    (b caller : ℕ) (e : CallError) (c : Client) → Inv b c → Keeps b c (cancel caller e c)
unfolding cancel
cancel-Keeps b caller e c = take_pending-Keeps b _ _ c (λ id x. error_done-Finishes id e x)

pub encode_fails_own-Keeps :
    (b n id : ℕ) (e : CallError) (c : Client)
    → lookup n c.pending ≡ some id
    → Inv b c
    → Keeps b c (encode_fails n id e c)
unfolding encode_fails
encode_fails_own-Keeps b n id e c h v = (
  Inv-Finishes b id _ _ (error_done-Finishes id e _) (Inv-delete b n c v),
  λ j. taken_account b j n id c _ v h (error_done-Finishes id e _),
)

-- A late failure finishes a call that was finished before.
pub encode_fails_late_lem :
    (b n id : ℕ) (e : CallError) (c : Client)
    → lookup n c.pending ≡ none
    → Inv b c
    → Inv b (encode_fails n id e c)
      × ((j : ℕ) → account j (encode_fails n id e c) ≡ (if j == id then 1 else 0) + account j c)
unfolding encode_fails
encode_fails_late_lem b n id e c h v = (
  Inv-Finishes b id _ _ (error_done-Finishes id e _) (Inv-delete b n c v),
  λ j. unfold call_done set_error in rw (delete_absent n c.pending h) (ground arith),
)

Inv-weaken : (b : ℕ) (c : Client) → Inv b c → Inv (b + 1) c
Inv-weaken b c v = record {
  distinct = v.distinct;
  below = v.below;
  in_range = omega arith;
  no_raw = v.no_raw;
}

-- What a section that is given a call proves.
abbrev pub Adds : ℕ → ℕ → Client → Client → Type 0
Adds b id c d = Inv (b + 1) d × ((j : ℕ) → account j d ≡ (if j == id then 1 else 0) + account j c)

refused-Adds :
    (b id : ℕ) (e : CallError) (c : Client)
    → Inv b c
    → Adds b id c (call_done id (set_error id e c))
refused-Adds b id e c v = (
  Inv-Finishes (b + 1) id _ _ (error_done-Finishes id e c) (Inv-weaken b c v),
  λ j. unfold call_done set_error in ground arith,
)

waiting-Adds :
    (b id : ℕ) (c : Client)
    → b + 1 < 2 ^ 64
    → Inv b c
    → Adds b id c (record c { seq = (c.seq + 1) % 2 ^ 64; pending = insert c.seq id c.pending })
waiting-Adds b id c small v =
    let new = lookup-Below c.seq c.pending v.below in
    let next : (c.seq + 1) % 2 ^ 64 ≡ c.seq + 1 = omega (arith, v.in_range) in
    rw (insert_new c.seq id c.pending new, next)
      (
        record {
          distinct = append-Distinct c.seq id c.pending new v.distinct;
          below =
              append-Below (c.seq + 1) c.seq id c.pending (omega arith)
                (Below-mono c.seq (c.seq + 1) c.pending (omega arith) v.below);
          in_range = omega (arith, v.in_range);
          no_raw = v.no_raw;
        },
        λ j. omega (arith, held-append j c.seq id c.pending),
      )

-- A call that is registered waits, or is refused and done.
pub register-Adds :
    (b id : ℕ) (codec : Bool) (c : Client)
    → b + 1 < 2 ^ 64
    → Inv b c
    → Adds b id c (register id codec c)
unfolding register
register-Adds b id codec c small v = elim (Bool-cases (c.shutdown || c.closing)) [
  | inl stopped ↦ rw (stopped, register) (refused-Adds b id shut_down c v)
  | inr running ↦ elim (Bool-cases (not codec)) [
    | inl unknown ↦ rw (running, unknown, register) (refused-Adds b id _ c v)
    | inr known ↦ rw (running, known, register) (waiting-Adds b id c small v)
  ]
]

-- Finishing a list of calls finishes each as often as it stands there.
finish_all_lem :
    (e : CallError) (l : Table) (c : Client)
    → ((j : ℕ) → (finish_all e l c).done j ≡ held j l + c.done j)
      × ((finish_all e l c).pending ≡ c.pending)
      × ((finish_all e l c).seq ≡ c.seq)
      × ((finish_all e l c).raw ≡ c.raw)
unfolding finish_all
finish_all_lem e [] c = (λ j. omega arith, refl, refl, refl)
finish_all_lem e ((k, id) ∷ l) c =
    let d = call_done id (set_error id e c) in
    let (dn, p, s, r) = finish_all_lem e l d in
    let f = error_done-Finishes id e c in
    (λ j. omega (arith, dn j, f.done_once j), p ∙ f.same_pending, s ∙ f.same_seq, r ∙ f.same_raw)

-- The end of `input` finishes all that wait, and leaves them in the table.
pub terminate_lem :
    (b : ℕ) (e : CallError) (c : Client)
    → Inv b c
    → Inv b (terminate e c)
      × ((terminate e c).pending ≡ c.pending)
      × ((j : ℕ) → (terminate e c).done j ≡ held j c.pending + c.done j)
unfolding terminate
terminate_lem b e c v =
    let c1 : Client = record c { plugin_closed = true; shutdown = true } in
    let (dn, p, s, r) = finish_all_lem e c.pending c1 in
    (
      record {
        distinct = rw p v.distinct;
        below = rw (p, s) v.below;
        in_range = rw s v.in_range;
        no_raw = rw r v.no_raw;
      },
      p,
      dn,
    )

emptied-Keeps :
    (b : ℕ) (c d : Client)
    → Inv b c
    → d.pending ≡ []
    → d.done ≡ (finish_all shut_down c.pending c).done
    → d.seq ≡ c.seq
    → d.raw ≡ c.raw
    → Keeps b c d
emptied-Keeps b c d v ep ed es er =
    let (dn, _, _, _) = finish_all_lem shut_down c.pending c in
    (
      record {
        distinct = rw ep tt;
        below = rw ep tt;
        in_range = rw es v.in_range;
        no_raw = rw er v.no_raw;
      },
      λ j. rw (ep, ed) (omega (arith, dn j)),
    )

-- `Close` finishes all that wait and empties the table.
pub close_lem : (b : ℕ) (c : Client) → Inv b c → Keeps b c (close c).0 × ((close c).0.pending ≡ [])
unfolding close
close_lem b c v =
    let (_, _, s, r) = finish_all_lem shut_down c.pending c in
    let c1 : Client = record (finish_all shut_down c.pending c) {
      pending = [];
      plugin_closed = true;
    } in
    elim (Bool-cases (c1.closing || c1.shutdown)) [
      | inl e ↦ rw (e, close) (emptied-Keeps b c _ v refl refl s r, refl)
      | inr e ↦ rw (e, close) (emptied-Keeps b c _ v refl refl s r, refl)
    ]
