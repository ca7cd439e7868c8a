-- ===== src/Client/Cache.antt =====
-- The clients that an xclient keeps (client/xclient.go): `selectClient`, `getCachedClient`,
-- `removeClient` and what they call, each run without an interruption. A client is a number. What
-- the source hands to others is a function over their state `U`; a `GenerateClient` that returns
-- neither a client nor an error is left out, and so are the calls that `singleflight` shares.
pub mod Kept
pub mod Live
mod Tests
use rpcx.Base.{
  ℕ, suc, ◌+◌, ◌≡◌, List, [], ◌∷◌, Option, none, some, Bytes, bytes, Bool, true, false, ◌==◌, ◌&&◌,
  ◌||◌, not, if◌then◌else◌,
}
use rpcx.Base.Dict.{lookup, insert, delete, nat_eq, bytes_eq_inst}
use rpcx.Client.Conn.{at}
use rpcx.Client.Conn.Response.{is_empty}
use rpcx.Client.FailModes.{Error, other, XClient}

-- `CacheClientBuilder`
pub record Builder (U : Type 0) : Type 0 where
  pub set_cached_client : ℕ → Bytes → U → U
  pub find_cached_client : Bytes → U → Option ℕ
  pub delete_cached_client : ℕ → Bytes → U → U
  pub generate_client : Bytes → U → U × Option Error × ℕ

-- What an xclient is made with: `Select` behind the plugins' wrappers, the breakers (`ready` is true
-- where a server has none), `Connect`, and the plugins' `DoClientConnected`.
pub record Config (U : Type 0) : Type 0 where
  pub is_sticky : Bool
  pub select : U → U × Bytes
  pub builders : Bytes → Option (Builder U)
  pub ready : Bytes → U → U × Bool
  pub new_breaker : Bytes → U → U
  pub fail : Bytes → U → U
  pub connect : Bytes → Bytes → U → U × Option Error
  pub client_connected : ℕ → U → U

pub record Cache (U : Type 0) : Type 0 where
  pub sticky_k : Bytes
  pub sticky_client : Option ℕ
  pub cached_client : List (Bytes × ℕ)
  pub is_shutdown : Bool
  -- Of each client: `IsClosing`, `IsShutdown`, and whether it has the channel of server messages.
  pub closing : ℕ → Bool
  pub shutdown : ℕ → Bool
  pub has_chan : ℕ → Bool
  pub next_client : ℕ
  pub user : U

abbrev pub no_server : Error
no_server = other 0

abbrev pub closed_xclient : Error
closed_xclient = other 1

abbrev pub open_breaker : Error
open_breaker = other 2

-- What stands before and behind the first byte `sep`.
unfoldable pub cut_at_byte : ℕ → Bytes → Option (Bytes × Bytes)
cut_at_byte sep [] = none
cut_at_byte sep (b ∷ bs) =
    let rest = cut_at_byte sep bs in
    if b == sep
    then some ([], bs)
    else elim rest [ none ↦ none | some (front, back) ↦ some (b ∷ front, back) ]

unfoldable pub split_network_and_address : Bytes → Bytes × Bytes
split_network_and_address server = elim (cut_at_byte 64 server) [
  | none ↦ (bytes "tcp", server)
  | some parts ↦ parts
]

abbrev pub same_client : Option ℕ → Option ℕ → Bool
same_client none none = true
same_client none (some b) = false
same_client (some a) none = false
same_client (some a) (some b) = a == b

module _ {U : Type 0} where
  abbrev pub is_gone : ℕ → Cache U → Bool
  is_gone c w = w.closing c || w.shutdown c

  -- `client.Close`, whose error is dropped.
  unfoldable pub close_client : ℕ → Cache U → Cache U
  close_client c w = if is_gone c w then w else record w { closing = at w.closing c true }

  unfoldable pub safe_close_client : Option ℕ → Cache U → Cache U
  safe_close_client none w = w
  safe_close_client (some c) w = close_client c w

module _ {U : Type 0} (x : Config U) where
  abbrev pub builder_of : Bytes → Option (Builder U)
  builder_of k = x.builders (split_network_and_address k).0

  unfoldable pub set_cached_client : ℕ → Bytes → Cache U → Cache U
  set_cached_client c k w = elim (builder_of k) [
    | none ↦ record w { cached_client = insert k c w.cached_client }
    | some b ↦ record w { user = b.set_cached_client c k w.user }
  ]

  unfoldable pub find_cached_client : Bytes → Cache U → Option ℕ
  find_cached_client k w = elim (builder_of k) [
    | none ↦ lookup k w.cached_client
    | some b ↦ b.find_cached_client k w.user
  ]

  unfoldable pub delete_cached_client : Option ℕ → Bytes → Cache U → Cache U
  delete_cached_client none k w = record w { cached_client = delete k w.cached_client }
  delete_cached_client (some c) k w = elim (builder_of k) [
    | none ↦ close_client c (record w { cached_client = delete k w.cached_client })
    | some b ↦ close_client c (record w { user = b.delete_cached_client c k w.user })
  ]

  -- A new client, if it connects.
  unfoldable pub generate_client : Bytes → Cache U → Cache U × Option Error × ℕ
  generate_client k w = elim (builder_of k) [
    | some b ↦ let (u, e, c) = b.generate_client k w.user in (record w { user = u }, e, c)
    | none ↦
        let (network, addr) = split_network_and_address k in
        let c = w.next_client in
        let (u, e) = x.connect network addr (x.new_breaker k w.user) in
        let w1 = record w {
          user = u;
          next_client = suc c;
          closing = at w.closing c false;
          shutdown = at w.shutdown c false;
        } in
        elim e [ none ↦ (w1, none, c) | some err ↦ (record w1 { user = x.fail k u }, some err, c) ]
  ]

  -- The end of `getCachedClient` where no client is cached.
  unfoldable pub add_client : Bytes → Cache U → Cache U × Option ℕ × Option Error
  add_client k w =
      let (w1, e, c) = generate_client k w in
      elim e [
        | some err ↦ (w1, none, some err)
        | none ↦
            let w2 = set_cached_client c k (record w1 { has_chan = at w1.has_chan c true }) in
            (record w2 { user = x.client_connected c w2.user }, some c, none)
      ]

  -- The client that is left in the cache when a broken one was deleted.
  unfoldable pub look_again : Bytes → Cache U → Cache U × Option ℕ × Option Error
  look_again k w = elim (find_cached_client k w) [
    | none ↦ add_client k w
    | some c ↦ if w.shutdown c then add_client k w else (w, some c, none)
  ]

  unfoldable pub get_cached_client : Bytes → Cache U → Cache U × Option ℕ × Option Error
  get_cached_client k w =
      let (u, ready) = x.ready k w.user in
      let w1 = record w { user = u } in
      if w.is_shutdown
      then (w, none, some closed_xclient)
      else if not ready
      then (w1, none, some open_breaker)
      else elim (find_cached_client k w1) [
        | none ↦ look_again k w1
        | some c ↦
            if is_gone c w1
            then look_again k (delete_cached_client (some c) k w1)
            else (w1, some c, none)
      ]

  -- A sticky client that is gone is forgotten.
  unfoldable pub drop_gone_sticky : Cache U → Cache U
  drop_gone_sticky w = elim w.sticky_client [
    | none ↦ w
    | some c ↦ if x.is_sticky && is_gone c w then record w { sticky_client = none } else w
  ]

  -- The client becomes the sticky one.
  unfoldable pub store_sticky : Bytes → Option ℕ → Cache U → Cache U
  store_sticky k none w = w
  store_sticky k (some c) w =
      if x.is_sticky
      then record (safe_close_client w.sticky_client w) { sticky_k = k; sticky_client = some c }
      else w

  unfoldable pub select_new : Cache U → Cache U × Bytes × Option ℕ × Option Error
  select_new w =
      let (u, k) = x.select w.user in
      let w1 = record w { user = u } in
      if is_empty k
      then (w1, [], none, some no_server)
      else let (w2, client, e) = get_cached_client k w1 in (store_sticky k client w2, k, client, e)

  unfoldable pub select_client : Cache U → Cache U × Bytes × Option ℕ × Option Error
  select_client w =
      let w1 = drop_gone_sticky w in
      elim w1.sticky_client [
        | none ↦ select_new w1
        | some c ↦ if x.is_sticky then (w1, w1.sticky_k, some c, none) else select_new w1
      ]

  unfoldable pub remove_client : Bytes → Option ℕ → Cache U → Cache U
  remove_client k client w =
      let w1 = if x.is_sticky then record w { sticky_k = []; sticky_client = none } else w in
      let w2 =
        if same_client (find_cached_client k w1) client
        then delete_cached_client client k w1
        else w1 in
      elim client [
        | none ↦ w2
        | some c ↦ close_client c (record w2 { has_chan = at w2.has_chan c false })
      ]

  -- What `Call` uses; `client_call` is a client's call.
  unfoldable pub xclient : (ℕ → Cache U → Cache U × Option Error) → XClient (Cache U)
  xclient client_call = record {
    select_client = select_client;
    get_cached_client = get_cached_client;
    remove_client = remove_client;
    client_call = client_call;
  }
