-- ===== src/Server/Conn/Refused.antt =====
-- A request that is refused before it is handled, to the end of the client's call.
use rpcx.Base.{
  ℕ, suc, ◌^◌, ◌<◌, ◌≡◌, ◌∙◌, refl, sym, ap, [], ◌∷◌, ◌++◌, Option, none, some, Bytes, false, ltb,
  ◌&&◌, length,
}
use rpcx.Base.Dict.{lookup, nat_eq, bytes_eq_inst}
use rpcx.Protocol.Header.{IsHeader, magic_number, seq, is_heartbeat, is_oneway}
use rpcx.Protocol.Message.{Message, new_message}
use rpcx.Protocol.Message.Decode.{Reader, decode, returns}
use rpcx.Protocol.Message.Fields.{IsLossless}
use rpcx.Client.Conn.{Client, service_error}
use rpcx.Client.Conn.Response.{Setup, handle_response, is_empty}
use rpcx.Server.Handler.{ServerError, request_limit, handle_error, answer_to}
use rpcx.Server.Handler.Answer.{Answered, answer_to-Draft, handle_error-Answered}
use rpcx.Server.Process.{World, report, with_res_metadata}
use rpcx.Server.Process.Reply.{frame_rest, send_response-Delivered}
use rpcx.Server.Process.EndToEnd.{error-Distinct, error_reaches}
use rpcx.Server.Process.Once.{report-written}
use rpcx.Server.Conn.{
  Listener, Round, goes_on, ends, ReadResult, was_read, auth, refuse, admit, after_read, round_of,
  read_request, serve_round,
}

-- Why a request that was read is refused: by a limit on a plugin's side, or by the authentication.
pub data Cause : Type 0 where
  limit authentication : Cause

module _ {U V : Type 0} (l : Listener U V) where
  -- What was read, with the error of the read, is refused with `err`: `req` is the request and `w` the
  -- state behind the check.
  abbrev pub IsRefused :
      Cause → Message → Option ServerError → World U → Message → ServerError → World U → Type 0
  IsRefused limit read given w0 req err w =
      (given ≡ some request_limit) × (err ≡ request_limit) × (req ≡ read) × (w ≡ w0)
  IsRefused authentication read given w0 req err w =
      (given ≡ none)
      × (is_heartbeat read.header ≡ false)
      × (auth l read w0.user ≡ (w.user, req, some err))
      × (w ≡ record w0 { user = w.user })

  -- The connection stays open behind a limit, and ends behind a failed authentication.
  abbrev pub goes : Cause → Reader → World U → Round U
  goes limit next w = goes_on w next none
  goes authentication next w = ends w

  -- A refusal writes what `refuse` does.
  refusal_round :
      (cause : Cause) (read : Message) (given : Option ServerError) (w0 w : World U) (req : Message)
      (err : ServerError) (next : Reader)
      → IsRefused cause read given w0 req err w
      → (w' : World U) × (after_read l read given next w0 ≡ goes cause next w')
        × (w'.written ≡ (refuse l req err w).written)
  unfolding after_read admit
  refusal_round limit read given w0 w req err next (g, e, q, k) =
      (refuse l read request_limit w0, rw g refl, rw (e, q, k) refl)
  refusal_round authentication read given w0 w req err next (g, b, a, k) = (
    report l.deployment (some err) (refuse l req err w),
    rw (g, b) (simp (a, sym k) refl),
    report-written l.deployment (some err) (refuse l req err w),
  )

  refused-written :
      (cause : Cause) (read : Message) (given : Option ServerError) (w0 w : World U) (req : Message)
      (err : ServerError)
      → IsRefused cause read given w0 req err w
      → w.written ≡ w0.written
  refused-written limit read given w0 w req err (g, e, q, k) = ap (λ (v : World U). v.written) k
  refused-written authentication read given w0 w req err (g, b, a, k) =
      ap (λ (v : World U). v.written) k

  refused_round :
      (cause : Cause) (w0 w' : World U) (r0 next : Reader) {u : U} {read : Message}
      {given : Option ServerError}
      → l.is_shutdown w0.user ≡ false
      → read_request l w0.user r0 ≡ was_read u read given next
      → after_read l read given next (record w0 { user = u }) ≡ goes cause next w'
      → serve_round l w0 r0 ≡ goes cause next w'
  unfolding serve_round round_of
  refused_round cause w0 w' r0 next up reads e =
      rw up (ap (λ (k : ReadResult U). round_of l w0 k) reads ∙ e)

-- The frame of a refusal, to the end of the call.
refuse_reaches :
    {U V : Type 0} (l : Listener U V) (max : ℕ) (r : Reader) (rest : Bytes)
    → ((n : ℕ) → length (l.deployment.get n) ≡ n)
    → IsLossless l.deployment.compressors
    → ((q m : Message) (e : Option ServerError) (u : U)
        → l.deployment.server.hooks.pre_write_response q m e u ≡ (u, q, m))
    → (setup : Setup) (c : Client) (id : ℕ) (req : Message) (w : World U) (err : ServerError)
      (text : Bytes)
    → is_oneway req.header ≡ false
    → IsHeader req.header
    → req.header.magic ≡ magic_number
    → let s = l.deployment.server in
      let (_, res, _) = handle_error s (answer_to s req) err w.user in
      length (frame_rest l.deployment req res) < 2 ^ 32
      → ltb 0 max && ltb max (length (frame_rest l.deployment req res)) ≡ false
      → lookup (seq req.header) c.pending ≡ some id
      → c.raw id ≡ false
      → setup.error_func ≡ none
      → ((m : Message) → s.error_text m err ≡ text)
      → is_empty text ≡ false
      → (frame : Bytes) × (got : Message) × ((refuse l req err w).written ≡ w.written ++ frame ∷ [])
        × (decode l.deployment.compressors max new_message (record r { stream = frame ++ rest })
            ≡ returns none (record { msg = got; reader = record r { stream = rest } }))
        × (let (c', e) = handle_response setup got c in
            (e ≡ none) × (c'.error id ≡ some (service_error text)) × (c'.done id ≡ suc (c.done id)))
unfolding refuse with_res_metadata handle_error
refuse_reaches l max r rest pool lossless quiet setup c id req w err text twoway i magic fits
      allowed waits plain no_func says nonempty =
    let d = l.deployment in
    let s = d.server in
    let (u1, res, _) = handle_error s (answer_to s req) err w.user in
    let a : Answered s req (u1, res, some err) =
      handle_error-Answered s req (answer_to s req) err w.user (answer_to-Draft s req i) in
    let (b, _, _, _) = a in
    let (frame, got, written, delivered) =
      send_response-Delivered d max r rest pool lossless quiet (some err) req res
        (record w { user = u1 }) i b.in_range (b.same_magic ∙ magic)
        (error-Distinct s req res u1 err text [] a says) fits allowed in
    (
      frame,
      got,
      rw twoway written,
      delivered.decodes,
      error_reaches s req res u1 err text [] a says d.compressors max r rest frame got setup c id
          delivered waits plain no_func nonempty,
    )

-- A two-way request that a plugin's limit refuses, or that is no heartbeat and that the authentication
-- refuses, gets one frame in its round of the loop, and the client's call for it ends, once, with the
-- error that has the text of the refusal, which is not empty. The connection goes on with the next
-- frame behind a limit, and ends behind a failed authentication. This needs a server that is not shut
-- down, a header with the magic number, a call that is not raw and waits for the request's number,
-- plugins that leave the response as it is, the same lossless compressors on both sides, buffers of the
-- asked length from the pool, a frame within `MaxMessageLength` and 2^32 bytes, and no
-- `ClientErrorFunc`.
pub call_gets_refusal :
    {U V : Type 0} (l : Listener U V) (max : ℕ) (r : Reader) (rest : Bytes)
    → ((n : ℕ) → length (l.deployment.get n) ≡ n)
    → IsLossless l.deployment.compressors
    → ((q m : Message) (e : Option ServerError) (u : U)
        → l.deployment.server.hooks.pre_write_response q m e u ≡ (u, q, m))
    → (setup : Setup) (c : Client) (id : ℕ) (cause : Cause) (w0 : World U) (r0 next : Reader)
      {u : U} {read : Message} {given : Option ServerError} (req : Message) (w : World U)
      (err : ServerError) (text : Bytes)
    → l.is_shutdown w0.user ≡ false
    → read_request l w0.user r0 ≡ was_read u read given next
    → IsRefused l cause read given (record w0 { user = u }) req err w
    → is_oneway req.header ≡ false
    → IsHeader req.header
    → req.header.magic ≡ magic_number
    → let s = l.deployment.server in
      let (_, res, _) = handle_error s (answer_to s req) err w.user in
      length (frame_rest l.deployment req res) < 2 ^ 32
      → ltb 0 max && ltb max (length (frame_rest l.deployment req res)) ≡ false
      → lookup (seq req.header) c.pending ≡ some id
      → c.raw id ≡ false
      → setup.error_func ≡ none
      → ((m : Message) → s.error_text m err ≡ text)
      → is_empty text ≡ false
      → (frame : Bytes) × (got : Message) × (w' : World U) × (serve_round l w0 r0
          ≡ goes l cause next w')
        × (w'.written ≡ w0.written ++ frame ∷ [])
        × (decode l.deployment.compressors max new_message (record r { stream = frame ++ rest })
            ≡ returns none (record { msg = got; reader = record r { stream = rest } }))
        × (let (c', e) = handle_response setup got c in
            (e ≡ none) × (c'.error id ≡ some (service_error text)) × (c'.done id ≡ suc (c.done id)))
call_gets_refusal l max r rest pool lossless quiet setup c id cause w0 r0 next {u} {read} {given}
      req w err text up reads refused twoway i magic fits allowed waits plain no_func says
      nonempty =
    let w1 : World _ = record w0 { user = u } in
    let (frame, got, written, decodes, ended) =
      refuse_reaches l max r rest pool lossless quiet setup c id req w err text twoway i magic fits
        allowed waits plain no_func says nonempty in
    let (w', left, same) = refusal_round l cause read given w1 w req err next refused in
    (
      frame,
      got,
      w',
      refused_round l cause w0 w' r0 next up reads left,
      same
          ∙ written
          ∙ ap (λ b. b ++ frame ∷ []) (refused-written l cause read given w1 w req err refused),
      decodes,
      ended,
    )
