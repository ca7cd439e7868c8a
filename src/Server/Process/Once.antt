-- ===== src/Server/Process/Once.antt =====
-- Which requests are answered, and with how many frames.
use rpcx.Base.{
  ◌+◌, ◌≡◌, refl, ap, arith, [], ◌∷◌, ◌++◌, Option, none, some, bytes, false, if◌then◌else◌, length,
  length-append, Bool-cases, inl, inr,
}
use rpcx.Base.Dict.{lookup, bytes_eq_inst}
use rpcx.Protocol.Header.{is_heartbeat, is_oneway}
use rpcx.Protocol.Message.{Message, entries}
use rpcx.Server.Handler.{ServerError, handle_request}
use rpcx.Server.Process.{
  World, Deployment, send_response, report, answer_heartbeat, serve_service, process_one_request,
  with_res_metadata,
}

module _ {U V : Type 0} (d : Deployment U V) where
  pub report-written : (e : Option ServerError) (w : World U) → (report d e w).written ≡ w.written
  unfolding report
  report-written none w = refl
  report-written (some e) w = refl

  send_response-written :
      (err : Option ServerError) (req res : Message) (w : World U)
      → length (send_response d err req res w).written ≡ length w.written + 1
  unfolding send_response
  send_response-written err req res w = omega (arith, length-append w.written (_ ∷ []))

  serve_service-written :
      (req : Message) (w : World U)
      → length (serve_service d req w).written
        ≡ length w.written + (if is_oneway req.header then 0 else 1)
  unfolding serve_service
  serve_service-written req w =
      let (u1, res, err) = handle_request d.server req w.user in
      let w1 = report d err (record w { user = u1 }) in
      let same = ap length (report-written err (record w { user = u1 })) in
      elim (Bool-cases (is_oneway req.header)) [
        | inl oneway ↦ rw oneway (omega (arith, same))
        | inr twoway ↦ rw twoway (
            omega (
              arith,
              same,
              send_response-written err req (with_res_metadata (d.res_metadata u1) res) w1,
            ))
      ]

  -- A heartbeat gets one frame, whether the router has its names or not. Of the other requests, where
  -- no function of the router takes them, a two-way request gets one frame and a one-way request gets
  -- none. A request is one-way, and has the names, that the plugins' `PreHandleRequest` leaves it.
  pub process_one_request-written :
      (req : Message) (w : World U)
      → let (u1, req1) =
          d.server.hooks.pre_handle_request
            (record req { metadata = some (entries req.metadata) })
            w.user in
        (is_heartbeat req.header ≡ false
          → lookup (req1.service_path ++ (bytes "." ++ req1.service_method)) d.router ≡ none)
        → length (process_one_request d req w).written
          ≡ length w.written
            + (if is_heartbeat req.header then 1 else if is_oneway req1.header then 0 else 1)
  unfolding process_one_request answer_heartbeat
  process_one_request-written req w free =
      let (u1, req1) =
        d.server.hooks.pre_handle_request (record req { metadata = some (entries req.metadata) })
          w.user in
      elim (Bool-cases (is_heartbeat req.header)) [
        | inl beat ↦ rw beat (omega (arith, length-append w.written (_ ∷ [])))
        | inr other ↦ rw (other, free other) (serve_service-written req1 (record w { user = u1 }))
      ]
