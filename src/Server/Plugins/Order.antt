-- ===== src/Server/Plugins/Order.antt =====
-- In which order the hooks of the server's plugins run, and when they stop.
use rpcx.Base.{
  ℕ, ◌+◌, ◌≡◌, refl, append-nil, ap, arith, List, [], ◌∷◌, ◌++◌, Option, none, some, Bytes, ◌==◌,
  if◌then◌else◌, inl, inr, Option-cases,
}
use rpcx.Server.Plugins.{
  Plugin, Hook, multi_error, given, add, remove, collect, do_register, first_error,
  do_pre_read_request, do_post_read_request, do_pre_handle_request, do_pre_write_response,
  do_post_write_response, do_post_call, do_post_http_request, do_pre_write_request,
  do_post_write_request, do_heartbeat_request,
}

-- The events whose hooks stop at the first error.
pub data Event : Type 0 where
  pre_read pre_write_req : ℕ → Event
  post_read post_write_req : ℕ → ℕ → Option ℕ → Event
  pre_handle heartbeat : ℕ → ℕ → Event
  post_http : ℕ → ℕ → ℕ → Event
  pre_write_res post_write_res : ℕ → ℕ → ℕ → Option ℕ → Event

-- All errors of two groups of plugins.
abbrev pub join_errors : Option (List ℕ) → Option (List ℕ) → Option (List ℕ)
join_errors none e = e
join_errors (some es) none = some es
join_errors (some es) (some fs) = some (es ++ fs)

multi_error-append :
    (es fs : List ℕ) → multi_error (es ++ fs) ≡ join_errors (multi_error es) (multi_error fs)
unfolding multi_error
multi_error-append [] fs = refl
multi_error-append (e ∷ es) [] = ap some (append-nil (e ∷ es))
multi_error-append (e ∷ es) (f ∷ fs) = refl

module _ {W : Type 0} where
  -- The container's method for an event.
  abbrev pub fire : Event → List (Plugin W) → Hook W
  fire (pre_read ctx) ps = do_pre_read_request ps ctx
  fire (pre_write_req ctx) ps = do_pre_write_request ps ctx
  fire (post_read ctx r e) ps = do_post_read_request ps ctx r e
  fire (post_write_req ctx r e) ps = do_post_write_request ps ctx r e
  fire (pre_handle ctx r) ps = do_pre_handle_request ps ctx r
  fire (heartbeat ctx r) ps = do_heartbeat_request ps ctx r
  fire (post_http ctx r params) ps = do_post_http_request ps ctx r params
  fire (pre_write_res ctx req res e) ps = do_pre_write_response ps ctx req res e
  fire (post_write_res ctx req res e) ps = do_post_write_response ps ctx req res e

  -- One hook after another, if the first did not fail.
  abbrev pub and_then : Hook W → Hook W → Hook W
  and_then h k w = let (w1, e) = h w in elim e [ none ↦ k w1 | some x ↦ (w1, some x) ]

  first_error-append :
      (ps qs : List (Plugin W)) (f : Plugin W → Option (Hook W)) (w : W)
      → first_error (ps ++ qs) f w ≡ and_then (first_error ps f) (first_error qs f) w
  unfolding first_error
  first_error-append [] qs f w = refl
  first_error-append (p ∷ ps) qs f w = elim (Option-cases (f p)) [
    | inl absent ↦ ground (arith, first_error-append ps qs f w)
    | inr (h, there) ↦ ground (arith, first_error-append ps qs f (h w).0)
  ]

  -- For every event, plugins behind others run after these, on the state that they leave, and only
  -- if none of them failed; the first error is the result.
  pub fire-append :
      (event : Event) (ps qs : List (Plugin W)) (w : W)
      → fire event (ps ++ qs) w ≡ and_then (fire event ps) (fire event qs) w
  unfolding do_pre_read_request do_post_read_request do_pre_handle_request do_pre_write_response
      do_post_write_response do_post_http_request do_pre_write_request do_post_write_request
      do_heartbeat_request
  fire-append (pre_read ctx) ps qs w = first_error-append ps qs _ w
  fire-append (pre_write_req ctx) ps qs w = first_error-append ps qs _ w
  fire-append (post_read ctx r e) ps qs w = first_error-append ps qs _ w
  fire-append (post_write_req ctx r e) ps qs w = first_error-append ps qs _ w
  fire-append (pre_handle ctx r) ps qs w = first_error-append ps qs _ w
  fire-append (heartbeat ctx r) ps qs w = first_error-append ps qs _ w
  fire-append (post_http ctx r params) ps qs w = first_error-append ps qs _ w
  fire-append (pre_write_res ctx req res e) ps qs w = first_error-append ps qs _ w
  fire-append (post_write_res ctx req res e) ps qs w = first_error-append ps qs _ w

  collect-append :
      (ps qs : List (Plugin W)) (f : Plugin W → Option (Hook W)) (w : W)
      → let (w1, es) = collect ps f w in
        let (w2, fs) = collect qs f w1 in collect (ps ++ qs) f w ≡ (w2, es ++ fs)
  unfolding collect
  collect-append [] qs f w = refl
  collect-append (p ∷ ps) qs f w = elim (Option-cases (f p)) [
    | inl absent ↦ ground (arith, collect-append ps qs f w)
    | inr (h, there) ↦ ground (arith, collect-append ps qs f (h w).0)
  ]

  -- A registration goes to every plugin, also behind one that failed, and the errors of all are
  -- returned in their order.
  pub do_register-append :
      (ps qs : List (Plugin W)) (name : Bytes) (rcvr : ℕ) (metadata : Bytes) (w : W)
      → let (w1, e1) = do_register ps name rcvr metadata w in
        let (w2, e2) = do_register qs name rcvr metadata w1 in
        do_register (ps ++ qs) name rcvr metadata w ≡ (w2, join_errors e1 e2)
  unfolding do_register
  do_register-append ps qs name rcvr metadata w =
      let f = λ (p : Plugin W). given p.registry (λ r. r.register name rcvr metadata) in
      let es = (collect ps f w).1 in
      let fs = (collect qs f (collect ps f w).0).1 in
      rw (collect-append ps qs f w, multi_error-append es fs) refl

  -- Plugins behind others get the reply that these leave, but the error of the call itself, and
  -- none of them is asked when one before has failed.
  pub do_post_call-append :
      (ps qs : List (Plugin W)) (ctx : ℕ) (service method : Bytes) (args reply : ℕ) (err : Option ℕ)
      (w : W)
      → let (w1, reply1, e) = do_post_call ps ctx service method args reply err w in
        do_post_call (ps ++ qs) ctx service method args reply err w ≡ elim e [
          | none ↦ do_post_call qs ctx service method args reply1 err w1
          | some x ↦ (w1, reply1, some x)
        ]
  unfolding do_post_call
  do_post_call-append [] qs ctx service method args reply err w = refl
  do_post_call-append (p ∷ ps) qs ctx service method args reply err w =
      elim (Option-cases p.post_call) [
        | inl absent ↦ ground (arith, do_post_call-append ps qs ctx service method args reply err w)
        | inr (h, there) ↦
            let (w1, reply1, _) = h ctx service method args reply err w in
            ground (arith, do_post_call-append ps qs ctx service method args reply1 err w1)
      ]

  -- How many plugins of a list have an identity.
  abbrev pub occurrences : ℕ → List (Plugin W) → ℕ
  occurrences i [] = 0
  occurrences i (p ∷ ps) = (if p.identity == i then 1 else 0) + occurrences i ps

  -- `Remove` takes out each occurrence of the plugin, the ones that `Add` puts at the end too, and
  -- no other plugin.
  pub occurrences-remove :
      (q : Plugin W) (ps : List (Plugin W)) (i : ℕ)
      → occurrences i (remove q (add q ps)) ≡ (if q.identity == i then 0 else occurrences i ps)
  unfolding remove add
  occurrences-remove q [] i = ground arith
  occurrences-remove q (p ∷ ps) i = ground (arith, occurrences-remove q ps i)
