-- ===== src/Server/Tests.antt =====
-- Runs of the theorems on plugins at concrete containers.
use rpcx.Base.{
  ℕ, ◌+◌, ◌≡◌, refl, List, [], ◌∷◌, some, Bytes, bytes, bytes_eq, Bool, true, false, ◌==◌,
  if◌then◌else◌,
}
use rpcx.Base.Dict.{lookup, bytes_eq_inst}
use rpcx.Protocol.Message.{Message, new_message}
use rpcx.Server.Plugins.{Plugin, do_post_conn_accept}
use rpcx.Server.Access.{AccessList, bare, whitelist_plugin, blacklist_plugin, access_lists}
use rpcx.Server.Alias.{
  new_alias_plugin, alias, post_read_request, pre_write_response, alias_restored,
}

-- A plugin whose hooks write its number into the state and return an error.
abbrev failing : ℕ → Plugin (List ℕ)
unfolding bare
failing i = record (bare i) {
  registry = some (record {
    register = λ name rcvr metadata w. (i ∷ w, some i);
    unregister = λ name w. (i ∷ w, some i);
  });
  post_call = some (λ ctx service method args reply err w. (i ∷ w, reply + 1, some i));
  heartbeat_request = some (λ ctx r w. (i ∷ w, some i));
}

abbrev local : AccessList (ℕ → Bool)
local = record { hosts = (bytes "a", true) ∷ []; masks = (λ ip. ip == 7) ∷ [] }

abbrev banned : AccessList (ℕ → Bool)
banned = record { hosts = (bytes "b", true) ∷ []; masks = [] }

-- The host of connection 1 is "a", the one of the others "b"; all have the address 7.
abbrev host_of : ℕ → Bytes
host_of n = if n == 1 then bytes "a" else bytes "b"

access_lists_run :
    do_post_conn_accept {W = List ℕ}
      (λ c w. c ∷ w)
      (whitelist_plugin host_of some (λ h. 7) (λ m ip. m ip) 1 local
        ∷ blacklist_plugin host_of some (λ h. 7) (λ m ip. m ip) 2 banned
        ∷ [])
      2
      []
    ≡ (2 ∷ [], 2, false)
unfolding lookup bytes_eq
access_lists_run =
    access_lists host_of some (λ h. 7) (λ m ip. m ip) (λ c w. c ∷ w) 1 2 local banned 2 []

abbrev aliased : Message
unfolding new_message
aliased = record new_message {
  service_path = bytes "A";
  service_method = bytes "times";
  metadata = some ((bytes "k", bytes "v") ∷ []);
}

alias_restored_run :
    let q = alias (bytes "A") (bytes "times") (bytes "Arith") (bytes "Mul") new_alias_plugin in
    let served = post_read_request q aliased in
    (served.service_path ≡ bytes "Arith")
    × (served.service_method ≡ bytes "Mul")
    × (pre_write_response q served (some new_message) ≡ (
      aliased,
      some (record new_message { service_path = bytes "A"; service_method = bytes "times" }),
    ))
unfolding aliased lookup bytes_eq new_message
alias_restored_run =
    alias_restored new_alias_plugin aliased new_message (bytes "Arith") (bytes "Mul")
      ((bytes "k", bytes "v") ∷ []) refl refl
