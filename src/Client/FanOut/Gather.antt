-- ===== src/Client/FanOut/Gather.antt =====
-- How `Broadcast`, `Fork` and `Inform` (client/xclient.go) get a client of each server before they
-- start the goroutines: `getCachedClientWithoutLock`, and the plugins behind it.
use rpcx.Base.{
  ℕ, ◌≡◌, refl, ◌∙◌, List, [], ◌∷◌, ◌++◌, Option, none, some, Bytes, Bool, true, false, not, ap,
  if◌then◌else◌, Bool-cases, Option-cases, inl, inr,
}
use rpcx.Client.Conn.{at}
use rpcx.Client.FailModes.{Error, xclient_shutdown}
use rpcx.Client.Cache.{
  Config, Cache, is_gone, no_server, closed_xclient, open_breaker, find_cached_client,
  delete_cached_client, generate_client, set_cached_client, look_again, add_client,
  get_cached_client,
}
use rpcx.Client.FanOut.{Fan, launch}

pub data Start (W : Type 0) : Type 0 where
  fails : Cache W → Error → Start W
  runs : Fan (Cache W) → Start W

module _ {U : Type 0} (x : Config U) where
  -- A client, whether the plugins have yet to be told of it, and an error.
  abbrev pub Found : Type 0
  Found = Cache U × Option ℕ × Bool × Option Error

  unfoldable pub add_without_lock : Bytes → Cache U → Found
  add_without_lock k w =
      let (w1, e, c) = generate_client x k w in
      elim e [
        | some err ↦ (w1, none, false, some err)
        | none ↦ (
          set_cached_client x c k (record w1 { has_chan = at w1.has_chan c true }),
          some c,
          true,
          none,
        )
      ]

  unfoldable pub look_without_lock : Bytes → Cache U → Found
  look_without_lock k w = elim (find_cached_client x k w) [
    | none ↦ add_without_lock k w
    | some c ↦ if w.shutdown c then add_without_lock k w else (w, some c, false, none)
  ]

  unfoldable pub get_without_lock : Bytes → Cache U → Found
  get_without_lock k w = elim (find_cached_client x k w) [
    | none ↦ look_without_lock k w
    | some c ↦
        if is_gone c w
        then look_without_lock k (delete_cached_client x (some c) k w)
        else (w, some c, false, none)
  ]

  -- The loop over the servers, with `clients` and `callPlugins`.
  unfoldable pub gather :
      List Bytes → Cache U → List (Bytes × ℕ) → List ℕ → Cache U × List (Bytes × ℕ) × List ℕ
  gather [] w clients plugins = (w, clients, plugins)
  gather (k ∷ ks) w clients plugins =
      let (w1, client, tell, e) = get_without_lock k w in
      elim client [
        | none ↦ gather ks w1 clients plugins
        | some c ↦
            gather ks w1 (clients ++ (k, c) ∷ []) (if tell then plugins ++ c ∷ [] else plugins)
      ]

  unfoldable pub tell_plugins : List ℕ → Cache U → Cache U
  tell_plugins [] w = w
  tell_plugins (c ∷ cs) w = tell_plugins cs (record w { user = x.client_connected c w.user })

  -- The three functions up to their goroutines; `servers` are the keys of `c.servers`.
  unfoldable pub start : Bool → List Bytes → Cache U → Start U
  start wants servers w =
      let (w1, clients, plugins) = gather servers w [] [] in
      let w2 = tell_plugins plugins w1 in
      if w.is_shutdown
      then fails w xclient_shutdown
      else elim clients [ [] ↦ fails w2 no_server | c ∷ cs ↦ runs (launch wants (c ∷ cs) w2) ]

  -- The plugins are told of a client that is new.
  unfoldable pub told : Found → Cache U × Option ℕ × Option Error
  told (w, none, tell, e) = (w, none, e)
  told (w, some c, tell, e) =
      if tell then (record w { user = x.client_connected c w.user }, some c, e) else (w, some c, e)

  add_told : (k : Bytes) (w : Cache U) → add_client x k w ≡ told (add_without_lock k w)
  unfolding told add_client add_without_lock
  add_told k w = go (generate_client x k w).1 refl
    where
      go :
          (e : Option Error)
          → (generate_client x k w).1 ≡ e
          → add_client x k w ≡ told (add_without_lock k w)
      go none p = rw (p, add_client, add_without_lock) refl
      go (some err) p = rw (p, add_client, add_without_lock) refl

  look_told : (k : Bytes) (w : Cache U) → look_again x k w ≡ told (look_without_lock k w)
  unfolding told look_again look_without_lock
  look_told k w = elim (Option-cases (find_cached_client x k w)) [
    | inl n ↦ rw (n, look_again, look_without_lock) (add_told k w)
    | inr (c, p) ↦ elim (Bool-cases (w.shutdown c)) [
      | inl gone ↦ rw (p, gone, look_again, look_without_lock) (add_told k w)
      | inr alive ↦ rw (p, alive, look_again, look_without_lock) refl
    ]
  ]

  -- `getCachedClient` behind its two guards.
  abbrev unguarded : Bytes → Cache U → Cache U × Option ℕ × Option Error
  unguarded k w = elim (find_cached_client x k w) [
    | none ↦ look_again x k w
    | some c ↦
        if is_gone c w
        then look_again x k (delete_cached_client x (some c) k w)
        else (w, some c, none)
  ]

  unguarded-told : (k : Bytes) (w : Cache U) → unguarded k w ≡ told (get_without_lock k w)
  unfolding told get_without_lock
  unguarded-told k w = elim (Option-cases (find_cached_client x k w)) [
    | inl n ↦ rw (n, unguarded, get_without_lock) (look_told k w)
    | inr (c, p) ↦ elim (Bool-cases (is_gone c w)) [
      | inl gone ↦
          rw (p, gone, unguarded, get_without_lock)
            (look_told k (delete_cached_client x (some c) k w))
      | inr alive ↦ rw (p, alive, unguarded, get_without_lock) refl
    ]
  ]

  -- Where the xclient is not shut down, and the breaker of the server is ready and stays as it is,
  -- `Call` gets the same client, cache and error as the fan-out functions get behind the plugins that
  -- are told of a new client.
  pub get_without_lock_lem :
      (k : Bytes) (w : Cache U)
      → w.is_shutdown ≡ false
      → x.ready k w.user ≡ (w.user, true)
      → get_cached_client x k w ≡ told (get_without_lock k w)
  unfolding get_cached_client
  get_without_lock_lem k w up ready =
      ap
        (λ (q : U × Bool).
          let w1 = record w { user = q.0 } in
          if w.is_shutdown
          then (w, none, some closed_xclient)
          else if not q.1
          then (w1, none, some open_breaker)
          else unguarded k w1)
        ready
      ∙ ap (λ b. if b then (w, none, some closed_xclient) else unguarded k w) up
      ∙ unguarded-told k w
