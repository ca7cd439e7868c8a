-- ===== src/Server/Conn/Served.antt =====
-- Which requests the loop of a connection hands over, and when it ends.
use rpcx.Base.{
  on_option, on_bool, ℕ, ◌+◌, ◌≤◌, ◌<◌, ◌≡◌, refl, sym, ◌∙◌, subst, arith, List, [], ◌∷◌, ◌++◌,
  Option, none, some, true, length, All, ◌⊎◌, inl, inr, Bool-cases,
}
use rpcx.Protocol.Header.{is_heartbeat}
use rpcx.Protocol.Message.{Message, new_message, entries}
use rpcx.Protocol.Message.Decode.{Reader, State, DecodeResult, returns, out_of_fuel, decode}
use rpcx.Protocol.Message.Consumes.{decode_takes}
use rpcx.Client.Conn.Response.{get_string}
use rpcx.Server.Handler.{ServerError, reading, request_limit}
use rpcx.Server.Process.{World, report}
use rpcx.Server.Conn.{
  auth_key, AuthFunc, Listener, ReadResult, is_eof, read_result, round_of, Round, goes_on, ends,
  panics, read_request, auth, refuse, admit, after_read, unread_request, serve_round, handed,
  Serving, starts, round, others,
}

module _ {U V : Type 0} (l : Listener U V) where
  -- What holds of the ends and of what follows a frame that was read holds of a round.
  module _ (P : Round U → Type 0) (at_end : (w : World U) → P (ends w))
      (at_panic : (w : World U) → P (panics w)) (at_stuck : P Round.stuck) where
    on_unread : (e : ServerError) (w : World U) → P (unread_request l e w)
    unfolding unread_request
    on_unread request_limit w = at_panic w
    on_unread (ServerError.no_service n) w = at_end _
    on_unread (ServerError.no_method n) w = at_end _
    on_unread ServerError.no_function_service w = at_end _
    on_unread ServerError.service_panic w = at_end _
    on_unread (ServerError.no_codec n) w = at_end _
    on_unread (reading e) w = at_end _
    on_unread (ServerError.failed n) w = at_end _

    on_read :
        (w : World U) (u : U) (x : DecodeResult)
        → ((s : State) (v : U)
            → x ≡ returns none s
            → let (v1, req, perr) = l.deployment.server.hooks.post_read_request s.msg none v in
              P (after_read l req perr s.reader (record w { user = v1 })))
        → P (round_of l w (read_result l u x))
    unfolding round_of read_result after_read
    on_read w u (out_of_fuel _) good = at_stuck
    on_read w u (returns none s) good = good s u refl
    on_read w u (returns (some e) s) good =
        let (u1, req, _) = l.deployment.server.hooks.post_read_request s.msg (some (reading e)) u in
        on_bool (λ (x : ReadResult U). P (round_of l w x)) (is_eof e) (at_end _) (at_end _)

    on_round :
        (w : World U) (r : Reader)
        → ((s : State) (req : Message) (perr : Option ServerError) (w1 : World U)
            → decode l.deployment.compressors l.max_message_length new_message r ≡ returns none s
            → P (after_read l req perr s.reader w1))
        → P (serve_round l w r)
    unfolding serve_round read_request round_of
    on_round w r good =
        let (u1, refused) = l.deployment.server.hooks.pre_read_request w.user in
        on_bool P (l.is_shutdown w.user) (at_end w) (
          on_option (λ (x : ReadResult U). P (round_of l w x)) refused
            (on_read w u1 _ (λ s v e. good s _ _ _ e)) (λ e. on_unread e _))

    on_after_read :
        (req : Message) (perr : Option ServerError) (r : Reader) (w : World U)
        → P (admit l req r w)
        → P (goes_on (refuse l req request_limit w) r none)
        → P (after_read l req perr r w)
    unfolding after_read
    on_after_read req none r w a b = a
    on_after_read req (some request_limit) r w a b = b
    on_after_read req (some (ServerError.no_service n)) r w a b = at_end _
    on_after_read req (some (ServerError.no_method n)) r w a b = at_end _
    on_after_read req (some ServerError.no_function_service) r w a b = at_end _
    on_after_read req (some ServerError.service_panic) r w a b = at_end _
    on_after_read req (some (ServerError.no_codec n)) r w a b = at_end _
    on_after_read req (some (reading e)) r w a b = at_end _
    on_after_read req (some (ServerError.failed n)) r w a b = at_end _

    on_admit :
        (req : Message) (r : Reader) (w : World U)
        → (is_heartbeat req.header ≡ true → P (goes_on w r (some req)))
        → ((u : U) (req1 : Message)
            → auth l req w.user ≡ (u, req1, none)
            → P (goes_on (record w { user = u }) r (some req1)))
        → P (admit l req r w)
    unfolding admit
    on_admit req r w beat accepted = elim (Bool-cases (is_heartbeat req.header)) [
      | inl beats ↦ rw beats (beat beats)
      | inr calls ↦ rw calls (go (auth l req w.user) refl)
    ]
      where
        go :
            (x : U × Message × Option ServerError)
            → auth l req w.user ≡ x
            → P (
                let (u1, req1, err) = x in
                let w1 = record w { user = u1 } in
                elim err [
                  | none ↦ goes_on w1 r (some req1)
                  | some e ↦ ends (report l.deployment (some e) (refuse l req1 e w1))
                ])
        go (u, req1, none) e = accepted u req1 e
        go (u, req1, some e') e = at_end _

  -- A round after which the loop goes on leaves fewer bytes than it found.
  abbrev Advances : ℕ → Round U → Type 0
  Advances n (goes_on w r h) = length r.stream < n
  Advances n (ends w) = Unit {0}
  Advances n (panics w) = Unit {0}
  Advances n Round.stuck = Unit {0}

  serve_round-Advances : (w : World U) (r : Reader) → Advances (length r.stream) (serve_round l w r)
  serve_round-Advances w r =
      let P = Advances (length r.stream) in
      on_round P (λ w. tt) (λ w. tt) tt w r
        λ s req perr w1 e.
          let less = decode_takes l.deployment.compressors l.max_message_length new_message r s e in
          on_after_read P (λ w. tt) (λ w. tt) tt req perr s.reader w1
            (on_admit P (λ w. tt) (λ w. tt) tt req s.reader w1 (λ _. less) (λ u req1 a. less)) less

  -- The loop of a connection ends: however the others change the state between its rounds, there
  -- are no more of them, but for the last, than bytes that the connection brings.
  pub Serving-rounds :
      (first r : Reader) (w : World U) (hs : List Message) (n : ℕ)
      → Serving l first w r hs n
      → n + length r.stream ≤ length first.stream
  Serving-rounds first r w hs n (starts v) = omega arith
  Serving-rounds first r w hs n (others s w') = Serving-rounds first r _ hs n s
  Serving-rounds first r w hs n (round {w = w0} {r = r0} {n = m} s e) =
      let less = subst (Advances (length r0.stream)) e (serve_round-Advances w0 r0) in
      omega (arith, less, Serving-rounds first r0 w0 _ m s)

  -- What makes the server take a request: it is a heartbeat, or what `AuthFunc` made of a request
  -- without an error.
  abbrev pub Accepted : AuthFunc U → Message → Type 0
  Accepted f m =
      (is_heartbeat m.header ≡ true)
      ⊎ ((req : Message) × (u : U) × (u1 : U) × (f req (get_string auth_key (entries req.metadata))
              u
            ≡ (u1, m, none)))

  abbrev Accepts : AuthFunc U → Round U → Type 0
  Accepts f (goes_on w r none) = Unit {0}
  Accepts f (goes_on w r (some m)) = Accepted f m
  Accepts f (ends w) = Unit {0}
  Accepts f (panics w) = Unit {0}
  Accepts f Round.stuck = Unit {0}

  auth_known :
      (f : AuthFunc U) (req : Message) (u : U)
      → l.auth_func ≡ some f
      → auth l req u ≡ f req (get_string auth_key (entries req.metadata)) u
  unfolding auth
  auth_known f req u known = rw known refl

  serve_round-Accepts :
      (f : AuthFunc U) (w : World U) (r : Reader)
      → l.auth_func ≡ some f
      → Accepts f (serve_round l w r)
  serve_round-Accepts f w r known =
      let P = Accepts f in
      on_round P (λ w. tt) (λ w. tt) tt w r
        λ s req perr w1 e.
          on_after_read P (λ w. tt) (λ w. tt) tt req perr s.reader w1
            (on_admit P (λ w. tt) (λ w. tt) tt req s.reader w1 (λ beat. inl beat)
              (λ u req1 a. inr (req, w1.user, u, sym (auth_known f req w1.user known) ∙ a)))
            tt

  All-handed :
      (P : Message → Type 0) (hs : List Message) (h : Option Message)
      → All P hs
      → ((m : Message) → h ≡ some m → P m)
      → All P (hs ++ handed l h)
  All-handed P [] none a k = tt
  All-handed P [] (some m) a k = (k m refl, tt)
  All-handed P (x ∷ xs) h (p, a) k = (p, All-handed P xs h a k)

  -- With an `AuthFunc`, every request that the loop hands over is a heartbeat or one that the
  -- function accepted, with the token that stood in its metadata, whatever the others do between
  -- the rounds.
  pub Serving-Accepted :
      (f : AuthFunc U) (first r : Reader) (w : World U) (hs : List Message) (n : ℕ)
      → l.auth_func ≡ some f
      → Serving l first w r hs n
      → All (Accepted f) hs
  Serving-Accepted f first r w hs n known (starts v) = tt
  Serving-Accepted f first r w hs n known (others s w') = Serving-Accepted f first r _ hs n known s
  Serving-Accepted f first r w hs n known (round {w = w0} {r = r0} {hs = hs0} {n = m} {h = h} s e) =
      All-handed (Accepted f) hs0 h (Serving-Accepted f first r0 w0 hs0 m known s) (λ x eq.
        subst (λ k. Accepts f (goes_on w r k)) eq
          (subst (Accepts f) e (serve_round-Accepts f w0 r0 known)))
