-- ===== src/Server/LogicSync.antt =====
-- The methods that are served one after the other for each user (server/server.go and
-- server/option.go): the pool of locks, the lock of a request, and the locking around the call in
-- `handleRequest`, with the requests as goroutines whose sections interleave. `HashString`
-- (share/hash.go) is an argument, since it is a function of the Go library; the hash is kept in the
-- metadata of the request.
pub mod Exclusion
mod Tests
use rpcx.Base.{
  ℕ, ◌+◌, ◌%◌, ◌≡◌, ◌==◌, if◌then◌else◌, List, [], ◌∷◌, ◌++◌, Option, none, some, Bytes, bytes,
  Bool, true, false,
}
use rpcx.Base.Dict.{lookup, insert, nat_eq, bytes_eq_inst}
use rpcx.Protocol.Message.{Message, entries}
use rpcx.Client.Conn.{at}
use rpcx.Client.Conn.Response.{is_empty, get_string}

abbrev pub context_key_hash : Bytes
context_key_hash = bytes "__hash"

-- A server's set of methods and its pool of locks, nil or of a length.
pub record Options : Type 0 where
  pub logic_sync_method : List (Bytes × Bool)
  pub logic_lock_pool : Option ℕ

-- `WithLogicSync`
unfoldable pub with_logic_sync : Bytes → Options → Options
with_logic_sync service_method o = record o {
  logic_sync_method = insert service_method true o.logic_sync_method;
}

-- `WithLogicSyncPoolSize`, where a size that is negative counts as 0.
unfoldable pub with_logic_sync_pool_size : ℕ → Options → Options
with_logic_sync_pool_size size o = if size == 0 then o else record o { logic_lock_pool = some size }

abbrev pub default_logic_sync_lock_pool_size : ℕ
default_logic_sync_lock_pool_size = 5000

-- What `NewServer` makes of the options.
unfoldable pub default_pool : Options → Options
default_pool o = elim o.logic_lock_pool [
  | some n ↦ o
  | none ↦ elim o.logic_sync_method [
    | [] ↦ o
    | _ ∷ _ ↦ record o { logic_lock_pool = some default_logic_sync_lock_pool_size }
  ]
]

-- A request, and the address of its connection, empty where there is none.
pub record Request : Type 0 where
  pub message : Message
  pub remote : Bytes

unfoldable pub is_logic_sync : Options → Message → Bool
is_logic_sync o m =
    elim (lookup (m.service_path ++ (bytes "." ++ m.service_method)) o.logic_sync_method) [
      | none ↦ false
      | some b ↦ b
    ]

-- The key of a request: its hash, or its connection.
unfoldable pub key_of : Request → Bytes
key_of r =
    let key = get_string context_key_hash (entries r.message.metadata) in
    if is_empty key then r.remote else key

module _ (hash_string : Bytes → ℕ) (o : Options) where
  -- `logicSyncLockOf`: the place of the lock in the pool.
  unfoldable pub logic_sync_lock_of : Request → Option ℕ
  logic_sync_lock_of r = elim o.logic_lock_pool [
    | none ↦ none
    | some n ↦ if n == 0 then none else some (hash_string (key_of r) % n)
  ]

  -- The lock that `handleRequest` takes.
  unfoldable pub lock_for : Request → Option ℕ
  lock_for r = if is_logic_sync o r.message then logic_sync_lock_of r else none

-- A goroutine in `handleRequest`: before the lock, at the lock, behind it, at its end.
pub data Phase : Type 0 where
  absent waiting inside gone : Phase

-- `held` has who holds a lock.
pub record Locks : Type 0 where
  pub phase : ℕ → Phase
  pub held : ℕ → Option ℕ

unfoldable pub no_calls : Locks
no_calls = record { phase = λ i. absent; held = λ l. none }

-- The deferred `Unlock`, which a panic meets too.
unfoldable pub unlock : Option ℕ → Locks → Locks
unlock none s = s
unlock (some l) s = record s { held = at s.held l none }

-- `request` has the request of each goroutine, a request of the service's method.
module _ (hash_string : Bytes → ℕ) (o : Options) (request : ℕ → Request) where
  pub data Step : Locks → Locks → Type 0 where
    arrives :
        {s : Locks} (i : ℕ)
        → s.phase i ≡ absent
        → Step s (record s { phase = at s.phase i waiting })
    passes :
        {s : Locks} (i : ℕ)
        → s.phase i ≡ waiting
        → lock_for hash_string o (request i) ≡ none
        → Step s (record s { phase = at s.phase i inside })
    locks :
        {s : Locks} (i l : ℕ)
        → s.phase i ≡ waiting
        → lock_for hash_string o (request i) ≡ some l
        → s.held l ≡ none
        → Step s (record { phase = at s.phase i inside; held = at s.held l (some i) })
    leaves :
        {s : Locks} (i : ℕ)
        → s.phase i ≡ inside
        → Step s
            (unlock (lock_for hash_string o (request i)) (record s { phase = at s.phase i gone }))

  pub data Run (s : Locks) : Locks → Type 0 where
    here : Run s s
    next : {t u : Locks} → Run s t → Step t u → Run s u
