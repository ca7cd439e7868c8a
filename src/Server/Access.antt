-- ===== src/Server/Access.antt =====
-- The lists of addresses that decide which connections the server keeps
-- (serverplugin/whitelist.go, serverplugin/blacklist.go). The Go library's `net.SplitHostPort`,
-- `net.ParseIP` and `IPNet.Contains` are parameters, and so is the address of a connection.
use rpcx.Base.{
  ℕ, ◌≡◌, refl, arith, List, [], ◌∷◌, Option, none, some, Bytes, Bool, true, false, not, ◌&&◌, ◌||◌,
  if◌then◌else◌, Option-cases, inl, inr,
}
use rpcx.Base.Dict.{lookup, bytes_eq_inst}
use rpcx.Server.Plugins.{Plugin, do_post_conn_accept}

-- `WhitelistPlugin` and `BlacklistPlugin` have the same fields.
pub record AccessList (Net : Type 0) : Type 0 where
  pub hosts : List (Bytes × Bool)
  pub masks : List Net

-- A plugin that implements nothing.
unfoldable pub bare : {W : Type 0} → ℕ → Plugin W
bare i = record {
  identity = i;
  registry = none;
  register_function = none;
  handle_conn_accept = none;
  handle_conn_close = none;
  pre_read_request = none;
  post_read_request = none;
  post_http_request = none;
  pre_handle_request = none;
  pre_call = none;
  post_call = none;
  pre_write_response = none;
  post_write_response = none;
  pre_write_request = none;
  post_write_request = none;
  heartbeat_request = none;
}

module _ {Net Ip : Type 0} (remote_addr : ℕ → Bytes) (split_host : Bytes → Option Bytes)
    (parse_ip : Bytes → Ip) (contains : Net → Ip → Bool) where
  -- The loop over the masks returns `found` at the first that contains the address.
  unfoldable pub scan_masks : List Net → Ip → Bool → Bool
  scan_masks [] ip found = not found
  scan_masks (m ∷ ms) ip found = if contains m ip then found else scan_masks ms ip found

  -- A missing key reads as false.
  abbrev pub listed : AccessList Net → Bytes → Bool
  listed l host = elim (lookup host l.hosts) [ none ↦ false | some b ↦ b ]

  unfoldable pub whitelist_accept : AccessList Net → ℕ → ℕ × Bool
  whitelist_accept l conn = elim (split_host (remote_addr conn)) [
    | none ↦ (conn, false)
    | some host ↦
        if listed l host then (conn, true) else (conn, scan_masks l.masks (parse_ip host) true)
  ]

  unfoldable pub blacklist_accept : AccessList Net → ℕ → ℕ × Bool
  blacklist_accept l conn = elim (split_host (remote_addr conn)) [
    | none ↦ (conn, true)
    | some host ↦
        if listed l host then (conn, false) else (conn, scan_masks l.masks (parse_ip host) false)
  ]

  -- The two as plugins of a container.
  unfoldable pub whitelist_plugin : {W : Type 0} → ℕ → AccessList Net → Plugin W
  whitelist_plugin i l = record (bare i) {
    handle_conn_accept = some (λ conn w. let (c, ok) = whitelist_accept l conn in (w, c, ok));
  }

  unfoldable pub blacklist_plugin : {W : Type 0} → ℕ → AccessList Net → Plugin W
  blacklist_plugin i l = record (bare i) {
    handle_conn_accept = some (λ conn w. let (c, ok) = blacklist_accept l conn in (w, c, ok));
  }

  -- Some mask contains the address.
  abbrev pub covered : List Net → Ip → Bool
  covered [] ip = false
  covered (m ∷ ms) ip = contains m ip || covered ms ip

  -- The connection's host is on the list, by name or by a mask; `unknown` is the answer for an
  -- address without a host.
  abbrev pub on_list : AccessList Net → Bool → ℕ → Bool
  on_list l unknown conn = elim (split_host (remote_addr conn)) [
    | none ↦ unknown
    | some host ↦ listed l host || covered l.masks (parse_ip host)
  ]

  scan_masks-covered :
      (ms : List Net) (ip : Ip) (found : Bool)
      → scan_masks ms ip found ≡ (if covered ms ip then found else not found)
  unfolding scan_masks
  scan_masks-covered [] ip found = refl
  scan_masks-covered (m ∷ ms) ip found = ground (arith, scan_masks-covered ms ip found)

  -- A server with both plugins keeps exactly the connections whose host is on the whitelist and not
  -- on the blacklist, and closes the others; an address that cannot be split is closed.
  pub access_lists :
      {W : Type 0} (close : ℕ → W → W) (i j : ℕ) (white black : AccessList Net) (conn : ℕ) (w : W)
      → do_post_conn_accept close (whitelist_plugin i white ∷ blacklist_plugin j black ∷ []) conn w
        ≡ (if on_list white false conn && not (on_list black false conn)
            then (w, conn, true)
            else (close conn w, conn, false))
  unfolding do_post_conn_accept whitelist_plugin blacklist_plugin whitelist_accept blacklist_accept
      bare
  access_lists close i j white black conn w = elim (Option-cases (split_host (remote_addr conn))) [
    | inl strange ↦ ground arith
    | inr (host, known) ↦ ground (
      arith,
      scan_masks-covered white.masks (parse_ip host) true,
      scan_masks-covered black.masks (parse_ip host) false,
    )
  ]
