-- ===== src/Client/Cache/Live.antt =====
-- Clients that are gone do not come back from the cache.
use rpcx.Base.{
  on_option, on_option_eq, on_bool, on_bool_eq, ℕ, ◌≡◌, ◌≢◌, refl, sym, ap, subst, ◌∙◌, arith, [],
  Option, none, some, Bytes, true, false, not, if◌then◌else◌,
}
use rpcx.Base.Dict.{
  lookup, insert, delete, lookup_inserted, lookup-delete, bytes_eq_inst, bytes_eq_iff,
}
use rpcx.Client.Conn.{at}
use rpcx.Client.FailModes.{Error}
use rpcx.Client.Cache.{
  Config, Cache, closed_xclient, open_breaker, is_gone, close_client, builder_of, set_cached_client,
  find_cached_client, delete_cached_client, generate_client, add_client, look_again,
  get_cached_client, split_network_and_address, remove_client, same_client,
}

module _ {U : Type 0} (x : Config U) (k : Bytes) (plain : builder_of x k ≡ none) where
  -- An error, or a client that is not gone and that stands in the cache.
  abbrev pub IsKept : Cache U × Option ℕ × Option Error → Type 0
  IsKept (w, none, e) = e ≢ none
  IsKept (w, some c, e) = (e ≡ none) × (is_gone c w ≡ false) × (lookup k w.cached_client ≡ some c)

  find_plain : (w : Cache U) → find_cached_client x k w ≡ lookup k w.cached_client
  unfolding find_cached_client lookup
  find_plain w = rw (plain, find_cached_client) refl

  set_plain :
      (c : ℕ) (w : Cache U)
      → set_cached_client x c k w ≡ record w { cached_client = insert k c w.cached_client }
  unfolding set_cached_client insert
  set_plain c w = rw (plain, set_cached_client) refl

  delete_plain :
      (c : ℕ) (w : Cache U)
      → delete_cached_client x (some c) k w
        ≡ close_client c (record w { cached_client = delete k w.cached_client })
  unfolding delete_cached_client close_client
  delete_plain c w = rw (plain, delete_cached_client) refl

  some_error : (e : Error) → some e ≢ none
  some_error e h = cc

  at_same : {A : Type 0} (f : ℕ → A) (c : ℕ) (v : A) → at f c v c ≡ v
  at_same f c v = ground arith

  -- A new client that is connected is not gone.
  generate_client_lem :
      (w : Cache U)
      → (generate_client x k w).1 ≡ none
      → is_gone (generate_client x k w).2 (generate_client x k w).0 ≡ false
  unfolding generate_client
  generate_client_lem w =
      let c = w.next_client in
      let (network, addr) = split_network_and_address k in
      let e = (x.connect network addr (x.new_breaker k w.user)).1 in
      let P = λ (v : Cache U × Option Error × ℕ). v.1 ≡ none → is_gone v.2 v.0 ≡ false in
      rw (plain, generate_client)
        (on_option P e (λ _. ground (arith, at_same w.closing c false, at_same w.shutdown c false))
          (λ err h. cc))

  add_client-IsKept : (w : Cache U) → IsKept (add_client x k w)
  unfolding add_client
  add_client-IsKept w =
      let (w1, e, c) = generate_client x k w in
      on_option_eq IsKept e
        (λ none_e.
          subst (λ (v : Cache U). IsKept (v, some c, none)) (sym (set_plain c _))
            (refl, generate_client_lem w none_e, lookup_inserted k c _))
        (λ err e1. some_error err)

  look_again-IsKept : (w : Cache U) → lookup k w.cached_client ≡ none → IsKept (look_again x k w)
  unfolding look_again
  look_again-IsKept w gone =
      on_option_eq IsKept (find_cached_client x k w) (λ e. add_client-IsKept w)
        (λ c e. absurd (let h : some c ≡ none = sym e ∙ find_plain w ∙ gone in cc))

  close_client_cached : (c : ℕ) (w : Cache U) → (close_client c w).cached_client ≡ w.cached_client
  unfolding close_client
  close_client_cached c w =
      on_bool (λ (v : Cache U). v.cached_client ≡ w.cached_client) (is_gone c w) refl refl

  deleted :
      (c : ℕ) (w : Cache U) → lookup k (delete_cached_client x (some c) k w).cached_client ≡ none
  deleted c w =
      ap (λ (v : Cache U). lookup k v.cached_client) (delete_plain c w)
      ∙ ap (lookup k) (close_client_cached c _)
      ∙ ground (arith, lookup-delete k k w.cached_client, bytes_eq_iff k k)

  -- Where no builder has the network of a server, `getCachedClient` returns an error, or a client
  -- that is neither closing nor shut down and that stands in the cache of the server.
  pub get_cached_client-IsKept : (w : Cache U) → IsKept (get_cached_client x k w)
  unfolding get_cached_client
  get_cached_client-IsKept w =
      let (u, ready) = x.ready k w.user in
      let w1 : Cache U = record w { user = u } in
      on_bool IsKept w.is_shutdown (some_error closed_xclient) (
        on_bool IsKept (not ready) (some_error open_breaker) (
          on_option_eq IsKept (find_cached_client x k w1)
            (λ e. look_again-IsKept w1 (sym (find_plain w1) ∙ e))
            (λ c e.
              on_bool_eq IsKept (is_gone c w1) (λ _. look_again-IsKept _ (deleted c w1))
                (λ here. (refl, here, sym (find_plain w1) ∙ e)))))

  close_client_lem :
      (c d : ℕ) (w : Cache U)
      → d ≢ c
      → let v = close_client c w in
        (is_gone c v ≡ true)
        × (v.cached_client ≡ w.cached_client)
        × (v.sticky_client ≡ w.sticky_client)
        × (v.closing d ≡ w.closing d)
  unfolding close_client
  close_client_lem c d w other =
      on_bool_eq
        (λ (v : Cache U).
          (is_gone c v ≡ true)
          × (v.cached_client ≡ w.cached_client)
          × (v.sticky_client ≡ w.sticky_client)
          × (v.closing d ≡ w.closing d))
        (is_gone c w) (λ gone. (gone, refl, refl, refl))
        (λ _. (ground (arith, at_same w.closing c true), refl, refl, ground arith))

  module _ (c d : ℕ) (j : Bytes) (w : Cache U) (other_server : j ≢ k) (other_client : d ≢ c) where
    -- What is left behind when the client is taken out of the cache.
    abbrev TakenOut : Cache U → Type 0
    TakenOut v =
        (lookup k v.cached_client ≢ some c)
        × (v.sticky_client ≡ (if x.is_sticky then none else w.sticky_client))
        × (lookup j v.cached_client ≡ lookup j w.cached_client)
        × (v.closing d ≡ w.closing d)

    close_client-TakenOut : (v : Cache U) → TakenOut v → TakenOut (close_client c v)
    close_client-TakenOut v (out, st, same, kept) =
        let (_, cached, sticky, closing) = close_client_lem c d v other_client in
        (rw cached out, sticky ∙ st, rw cached same, closing ∙ kept)

    same_client_refl : same_client (some c) (some c) ≡ true
    same_client_refl = ground arith

    take_out :
        (w1 : Cache U)
        → w1.sticky_client ≡ (if x.is_sticky then none else w.sticky_client)
        → w1.cached_client ≡ w.cached_client
        → w1.closing ≡ w.closing
        → TakenOut (
            if same_client (find_cached_client x k w1) (some c)
            then delete_cached_client x (some c) k w1
            else w1)
    take_out w1 st cached closing =
        let nothing : lookup k (delete k w1.cached_client) ≡ none =
          ground (arith, lookup-delete k k w1.cached_client, bytes_eq_iff k k) in
        let not_here : lookup k (delete k w1.cached_client) ≢ some c = rw nothing (λ e. cc) in
        on_bool_eq TakenOut (same_client (find_cached_client x k w1) (some c))
          (λ _. subst TakenOut (sym (delete_plain c w1)) (
            close_client-TakenOut (record w1 { cached_client = delete k w1.cached_client })
              (
                not_here,
                st,
                ground (
                  arith,
                  lookup-delete k j w1.cached_client,
                  bytes_eq_iff k j,
                  ap (lookup j) cached,
                ),
                ap (λ f. f d) closing,
              )))
          (λ differs. (
            λ here. absurd (
                let found : find_cached_client x k w1 ≡ some c = find_plain w1 ∙ here in
                let e : true ≡ false =
                  sym same_client_refl ∙ ap (λ o. same_client o (some c)) (sym found) ∙ differs in
                cc),
            st,
            ap (lookup j) cached,
            ap (λ f. f d) closing,
          ))

    -- Where no builder has the network of a server, a client that `removeClient` takes is gone and
    -- does not stand in the cache of the server any more; a sticky xclient forgets its client. No
    -- other server loses its client, and no other client is closed.
    pub remove_client_lem :
        let w1 = remove_client x k (some c) w in
        (is_gone c w1 ≡ true)
        × (lookup k w1.cached_client ≢ some c)
        × (w1.sticky_client ≡ (if x.is_sticky then none else w.sticky_client))
        × (lookup j w1.cached_client ≡ lookup j w.cached_client)
        × (w1.closing d ≡ w.closing d)
    unfolding remove_client
    remove_client_lem =
        let w1 : Cache U =
          if x.is_sticky then record w { sticky_k = []; sticky_client = none } else w in
        let t =
          take_out w1
            (on_bool_eq
              (λ (v : Cache U). v.sticky_client ≡ (if x.is_sticky then none else w.sticky_client))
              x.is_sticky (λ e. rw e refl) (λ e. rw e refl))
            (on_bool (λ (v : Cache U). v.cached_client ≡ w.cached_client) x.is_sticky refl refl)
            (on_bool (λ (v : Cache U). v.closing ≡ w.closing) x.is_sticky refl refl) in
        let w2 : Cache U =
          if same_client (find_cached_client x k w1) (some c)
          then delete_cached_client x (some c) k w1
          else w1 in
        let w3 : Cache U = record w2 { has_chan = at w2.has_chan c false } in
        let (gone, _, _, _) = close_client_lem c d w3 other_client in
        let (out, st, same, kept) = close_client-TakenOut w3 t in (gone, out, st, same, kept)
