-- ===== src/Client/Conn/Account.antt =====
-- Every call that is given to `send` waits or is done, along every run of a connection without
-- `SendRaw`, which may put its call in the place of another.
pub mod Table
pub mod Invariant
pub mod Sections
pub mod Responses
use rpcx.Base.{ℕ, suc, ◌+◌, ◌^◌, ◌≤◌, ◌<◌, ◌≡◌, ◌∙◌, refl, sym, arith, List, [], ◌∷◌, length}
use rpcx.Client.Conn.{Client, new_client, publish, close}
use rpcx.Client.Conn.Response.{Setup, handle_response, handle_server_request}
use rpcx.Client.Conn.Events.{
  Run, start, registers, publishes, encode_fails_own, encode_fails_late, writes_fail, oneway,
  cancels, registers_raw, cancels_raw, responds, notices, terminates, channels, closes, IsClean,
  IsRawFree, count, held, terminal_notice,
}
use Invariant.{Inv, account, Keeps}
use Sections.{
  Adds, write_fails-Keeps, oneway_sent-Keeps, cancel-Keeps, encode_fails_own-Keeps,
  encode_fails_late_lem, register-Adds, terminate_lem, close_lem,
}
use Responses.{handle_response-Keeps, server_request-Keeps, channel-Keeps, publish-Keeps}

-- What holds along a run: nothing is lost.
abbrev Covers : List ℕ → Client → Type 0
Covers ids c = Inv (length ids) c × ((j : ℕ) → count j ids ≤ account j c)

kept-Covers : (ids : List ℕ) {c d : Client} → Covers ids c → Keeps (length ids) c d → Covers ids d
kept-Covers ids (_, h) (v, e) = (v, λ j. omega (arith, h j, e j))

added-Covers :
    (ids : List ℕ) {c d : Client} (id : ℕ)
    → Covers ids c
    → Adds (length ids) id c d
    → Covers (id ∷ ids) d
added-Covers ids id (_, h) (v, e) = (
  let p : length ids + 1 ≡ suc (length ids) = omega arith in rw p at v,
  λ j. ground (arith, h j, e j),
)

run-Covers :
    {setup : Setup} {c : Client} {ids : List ℕ} (r : Run setup c ids)
    → IsRawFree r
    → length ids < 2 ^ 64
    → Covers ids c
run-Covers start plain small =
    unfold new_client in
    (
      record { distinct = tt; below = tt; in_range = omega arith; no_raw = λ id. refl },
      λ j. omega arith,
    )
run-Covers (registers {c} {ids} r id codec) plain small =
    let h = run-Covers r plain (omega arith) in
    added-Covers ids id h (register-Adds (length ids) id codec c (omega arith) h.0)
run-Covers (publishes {c} {ids} r id n) plain small =
    let h = run-Covers r plain small in kept-Covers ids h (publish-Keeps _ id n c h.0)
run-Covers (encode_fails_own {c} {ids} r n id e o) plain small =
    let h = run-Covers r plain small in kept-Covers ids h (encode_fails_own-Keeps _ n id e c o h.0)
run-Covers (encode_fails_late {c} {ids} r n id e o) plain small =
    let (v, h) = run-Covers r plain small in
    let (v', k) = encode_fails_late_lem (length ids) n id e c o v in
    (v', λ j. ground (arith, h j, k j))
run-Covers (writes_fail {c} {ids} r n e) plain small =
    let h = run-Covers r plain small in kept-Covers ids h (write_fails-Keeps _ n e c h.0)
run-Covers (oneway {c} {ids} r n) plain small =
    let h = run-Covers r plain small in kept-Covers ids h (oneway_sent-Keeps _ n c h.0)
run-Covers (cancels {c} {ids} r caller e) plain small =
    let h = run-Covers r plain small in kept-Covers ids h (cancel-Keeps _ caller e c h.0)
run-Covers (registers_raw r n id) plain small = absurd plain
run-Covers (cancels_raw r n e) plain small = absurd plain
run-Covers {setup} (responds {c} {ids} r free res) plain small =
    let h = run-Covers r plain small in kept-Covers ids h (handle_response-Keeps _ setup res c h.0)
run-Covers (notices {c} {ids} r free text address) plain small =
    let h = run-Covers r plain small in
    kept-Covers ids h (server_request-Keeps _ (terminal_notice text address) c h.0)
run-Covers (terminates {c} {ids} r free e) plain small =
    let (v, h) = run-Covers r plain small in
    let (v', p, dn) = terminate_lem (length ids) e c v in (v', λ j. rw p (omega (arith, h j, dn j)))
run-Covers (channels {c} {ids} r o b) plain small =
    let h = run-Covers r plain small in kept-Covers ids h (channel-Keeps _ o b c h.0)
run-Covers (closes {c} {ids} r) plain small =
    let h = run-Covers r plain small in kept-Covers ids h (close_lem _ c h.0).0

-- Without an end of `input` and a late failure to encode, nothing is finished twice.
run_balanced :
    {setup : Setup} {c : Client} {ids : List ℕ} (r : Run setup c ids)
    → IsRawFree r
    → IsClean r
    → length ids < 2 ^ 64
    → (j : ℕ) → count j ids ≡ account j c
run_balanced start plain clean small j = unfold new_client in omega arith
run_balanced (registers {c} {ids} r id codec) plain clean small j =
    let h = run_balanced r plain clean (omega arith) j in
    let k =
      (register-Adds (length ids) id codec c (omega arith) (run-Covers r plain (omega arith)).0).1
        j in
    ground (arith, h, k)
run_balanced (publishes {c} r id n) plain clean small j =
    let h = run_balanced r plain clean small j in
    let k = (publish-Keeps _ id n c (run-Covers r plain small).0).1 j in h ∙ sym k
run_balanced (encode_fails_own {c} r n id e o) plain clean small j =
    let h = run_balanced r plain clean small j in
    let k = (encode_fails_own-Keeps _ n id e c o (run-Covers r plain small).0).1 j in h ∙ sym k
run_balanced (encode_fails_late r n id e o) plain clean small j = absurd clean
run_balanced (writes_fail {c} r n e) plain clean small j =
    let h = run_balanced r plain clean small j in
    let k = (write_fails-Keeps _ n e c (run-Covers r plain small).0).1 j in h ∙ sym k
run_balanced (oneway {c} r n) plain clean small j =
    let h = run_balanced r plain clean small j in
    let k = (oneway_sent-Keeps _ n c (run-Covers r plain small).0).1 j in h ∙ sym k
run_balanced (cancels {c} r caller e) plain clean small j =
    let h = run_balanced r plain clean small j in
    let k = (cancel-Keeps _ caller e c (run-Covers r plain small).0).1 j in h ∙ sym k
run_balanced (registers_raw r n id) plain clean small j = absurd plain
run_balanced (cancels_raw r n e) plain clean small j = absurd plain
run_balanced (notices {c} r free text address) plain clean small j =
    let h = run_balanced r plain clean small j in
    let k =
      (server_request-Keeps _ (terminal_notice text address) c (run-Covers r plain small).0).1 j in
    h ∙ sym k
run_balanced (channels {c} r o b) plain clean small j =
    let h = run_balanced r plain clean small j in
    let k = (channel-Keeps _ o b c (run-Covers r plain small).0).1 j in h ∙ sym k
run_balanced {setup} (responds {c} r free res) plain clean small j =
    let h = run_balanced r plain clean small j in
    let k = (handle_response-Keeps _ setup res c (run-Covers r plain small).0).1 j in h ∙ sym k
run_balanced (terminates r free e) plain clean small j = absurd clean
run_balanced (closes {c} r) plain clean small j =
    let h = run_balanced r plain clean small j in
    let k = (close_lem _ c (run-Covers r plain small).0).0.1 j in h ∙ sym k

-- In every run of fewer than 2^64 calls and without `SendRaw`, a call that was given to `send` n times is done, or waits
-- for its answer, n times at least: no call is forgotten.
pub never_lost :
    {setup : Setup} {c : Client} {ids : List ℕ} (r : Run setup c ids)
    → IsRawFree r
    → length ids < 2 ^ 64
    → (j : ℕ) → count j ids ≤ c.done j + held j c.pending
never_lost r plain small = (run-Covers r plain small).1

-- In a run of fewer than 2^64 calls, without `SendRaw`, with no end of `input`, and in which no arguments fail to
-- encode after another section took the call, a call that was given to `send` n times is done, or
-- waits, exactly n times: no call is finished twice.
pub done_once :
    {setup : Setup} {c : Client} {ids : List ℕ} (r : Run setup c ids)
    → IsRawFree r
    → IsClean r
    → length ids < 2 ^ 64
    → (j : ℕ) → count j ids ≡ c.done j + held j c.pending
done_once = run_balanced

-- After any run of fewer than 2^64 calls and without `SendRaw`, `Close` leaves no call waiting, and
-- each was done at least as often as it was given to `send`.
pub close_finishes :
    {setup : Setup} {c : Client} {ids : List ℕ} (r : Run setup c ids)
    → IsRawFree r
    → length ids < 2 ^ 64
    → ((close c).0.pending ≡ []) × ((j : ℕ) → count j ids ≤ (close c).0.done j)
close_finishes {c = c} {ids = ids} r plain small =
    let (v, h) = run-Covers r plain small in
    let ((v', k), empty) = close_lem (length ids) c v in
    (
      empty,
      λ j. let none_left : held j (close c).0.pending ≡ 0 = rw empty in omega (arith, h j, k j),
    )
