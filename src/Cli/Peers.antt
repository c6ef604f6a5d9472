-- ===== src/Cli/Peers.antt =====
-- cli/cmd/peers.go and the list of cli/cmd/exitnode.go: what they ask the discovery service for, and
-- what they show of its answer. The styles and the widths of the columns are left out.
mod Tests
use gordion_vpn.Base.{
  ℕ, suc, ◌-◌, ◌≡◌, refl, ap, ◌∙◌, Bool, true, false, Option, none, some, List, [], ◌∷◌, ◌++◌, map,
  take, All, if◌then◌else◌, ltb, ◌==◌, length, arith,
}
use gordion_vpn.Base.Bytes.{GoString, str, is_empty}
use gordion_vpn.Base.Int.{ℤ, pos}
use gordion_vpn.Grpc.{GoError, wrap, Result, ok, err}
use gordion_vpn.Auth.{IdentityCall, resolve_node_id}
use gordion_vpn.Redis.{Redis}
use gordion_vpn.Registry.{Peer, Json, list_online_peers}
use gordion_vpn.Discovery.{ListedPeer, listed, token_from_metadata, list_peers}
use gordion_vpn.Discovery.Limit.{list_peers-take}
use gordion_vpn.Gateway.{Dot, online_dot, format_last_seen}
use gordion_vpn.Settings.Cli.{CliConfig}
use gordion_vpn.Cli.{State}
use gordion_vpn.Cli.Text.{truncate, exit_nodes, is_active}

-- `grpcclient.ContextWithToken`: the metadata that goes with the call.
unfoldable pub context_with_token : GoString → Option (List GoString)
context_with_token token = if is_empty token then none else some (token ∷ [])

-- `grpcclient.WithTimeout`, in seconds.
unfoldable pub with_timeout : ℕ → ℕ
with_timeout timeout = if timeout == 0 then 5 else timeout

unfoldable pub token_of : Option State → GoString
token_of none = []
token_of (some s) = s.token

-- A line of a table: `none` for the columns that a table does not have.
pub record Row : Type 0 where
  pub dot : Dot
  pub node_id : GoString
  pub ip : GoString
  pub region : Option GoString
  pub last_seen : GoString
  pub mark : GoString

pub record PeerJson : Type 0 where
  pub node_id : GoString
  pub ip_address : GoString
  pub region : GoString
  pub last_seen : ℕ
  pub is_exit_node : Bool
  pub online : Bool

pub data Output : Type 0 where
  fails : GoError → Output
  none_found : Output
  table : List Row → Output
  json : List PeerJson → Output

-- An age below 0, when the clocks differ, counts as 0, which every test takes alike.
unfoldable pub peer_json : ℕ → ListedPeer → PeerJson
peer_json now p = record {
  node_id = p.node_id;
  ip_address = p.ip_address;
  region = p.region;
  last_seen = p.last_seen;
  is_exit_node = p.is_exit_node;
  online = ltb (now - p.last_seen) 60;
}

unfoldable pub peer_row : ℕ → ListedPeer → Row
peer_row now p = record {
  dot = online_dot (now - p.last_seen);
  node_id = truncate p.node_id 20;
  ip = truncate p.ip_address 14;
  region = some (truncate p.region 10);
  last_seen = format_last_seen (now - p.last_seen);
  mark = if p.is_exit_node then str "[EXIT NODE]" else [];
}

-- The three bytes of the arrow.
abbrev arrow : GoString
arrow = 226 ∷ 134 ∷ 144 ∷ []

unfoldable pub exit_row : ℕ → Option State → ListedPeer → Row
exit_row now s p = record {
  dot = online_dot (now - p.last_seen);
  node_id = truncate p.node_id 22;
  ip = truncate p.ip_address 14;
  region = none;
  last_seen = format_last_seen (now - p.last_seen);
  mark = if is_active s p.node_id then arrow ++ str " active" else [];
}

-- What the commands meet: the configuration, the state file, the error of `grpcclient.Dial`, the
-- answer of `ListPeers`, and the clock.
pub record Setting : Type 0 where
  pub load : Result CliConfig
  pub state : Option State
  pub dial : GoString → Option GoError
  pub list : Option (List GoString) → ℤ → Result (List ListedPeer)
  pub now : ℕ

received : Result (List ListedPeer) → Result (List ListedPeer)
received (ok ps) = ok ps
received (err e) = err (wrap (str "ListPeers") e)

asked : Setting → GoString → ℤ → Option GoError → Result (List ListedPeer)
unfolding received
asked x addr limit (some e) = err (wrap (str "connect to Discovery") e)
asked x addr limit none = received (x.list (context_with_token (token_of x.state)) limit)

-- What both commands do first.
unfoldable pub ask : Setting → ℤ → Result (List ListedPeer)
unfolding asked context_with_token token_of
ask x limit = elim x.load [
  | err e ↦ err (wrap (str "load config") e)
  | ok cfg ↦ asked x cfg.discovery_addr limit (x.dial cfg.discovery_addr)
]

shown_peers : Setting → Bool → Result (List ListedPeer) → Output
shown_peers x as_json (err e) = fails e
shown_peers x true (ok []) = json []
shown_peers x false (ok []) = none_found
shown_peers x true (ok (p ∷ ps)) = json (map (peer_json x.now) (p ∷ ps))
shown_peers x false (ok (p ∷ ps)) = table (map (peer_row x.now) (p ∷ ps))

unfoldable pub peers : Setting → Bool → ℤ → Output
unfolding shown_peers peer_json peer_row
peers x as_json limit = shown_peers x as_json (ask x limit)

print_exit_nodes : Setting → List ListedPeer → Output
print_exit_nodes x [] = none_found
print_exit_nodes x (p ∷ ps) = table (map (exit_row x.now x.state) (p ∷ ps))

shown_exits : Setting → Result (List ListedPeer) → Output
unfolding print_exit_nodes exit_nodes
shown_exits x (err e) = fails e
shown_exits x (ok ps) = print_exit_nodes x (exit_nodes ps)

unfoldable pub exit_node_list : Setting → Output
unfolding shown_exits
exit_node_list x = shown_exits x (ask x (pos 100))

exit_nodes-none :
    (ps : List Peer) → All (λ p. p.is_exit_node ≡ false) ps → exit_nodes (map listed ps) ≡ []
unfolding exit_nodes listed
exit_nodes-none [] a = refl
exit_nodes-none (p ∷ ps) (n, a) = ground (arith, n, exit_nodes-none ps a)

module _ (r : Redis) (ttl : ℕ) (auth : Option IdentityCall) (j : Json) where
  -- The commands against a registry in a given state, with a token in the state file.
  abbrev pub at_registry : CliConfig → State → ℕ → ℕ → r.State → Setting
  at_registry cfg s clock now st = record {
    load = ok cfg;
    state = some s;
    dial = λ addr. none;
    list = λ md limit. (list_peers r ttl auth j now md limit st).1;
    now = clock;
  }

  ask-take :
      (cfg : CliConfig) (s : State) (clock now n : ℕ) (st : r.State) (me : GoString)
      (ps : List Peer)
      → is_empty s.token ≡ false
      → is_empty (token_from_metadata (some (s.token ∷ []))) ≡ false
      → resolve_node_id auth (token_from_metadata (some (s.token ∷ []))) ≡ ok me
      → (list_online_peers r ttl j now st).1 ≡ ok ps
      → ask (at_registry cfg s clock now st) (pos (suc n)) ≡ ok (map listed (take (suc n) ps))
  unfolding ask asked token_of received
  ask-take cfg s clock now n st me ps t a b h =
      let call = λ (md : Option (List GoString)).
        received (list_peers r ttl auth j now md (pos (suc n)) st).1 in
      let sent : context_with_token s.token ≡ some (s.token ∷ []) =
        ground (arith, context_with_token, t) in
      ap call sent
      ∙ ap received (list_peers-take r ttl auth j now (some (s.token ∷ [])) n st me ps a b h)

  -- `exit-node list` asks for 100 peers and picks the exit nodes afterwards: if none of the first
  -- 100 peers of the registry's listing is one, it reports that there is none, whatever comes after
  -- them.
  pub exit_node_list_misses :
      (cfg : CliConfig) (s : State) (clock now : ℕ) (st : r.State) (me : GoString) (ps : List Peer)
      → is_empty s.token ≡ false
      → is_empty (token_from_metadata (some (s.token ∷ []))) ≡ false
      → resolve_node_id auth (token_from_metadata (some (s.token ∷ []))) ≡ ok me
      → (list_online_peers r ttl j now st).1 ≡ ok ps
      → All (λ p. p.is_exit_node ≡ false) (take 100 ps)
      → exit_node_list (at_registry cfg s clock now st) ≡ none_found
  unfolding exit_node_list shown_exits print_exit_nodes
  exit_node_list_misses cfg s clock now st me ps t a b h none_first =
      let x = at_registry cfg s clock now st in
      ap (shown_exits x) (ask-take cfg s clock now 99 st me ps t a b h)
      ∙ ap (print_exit_nodes x) (exit_nodes-none (take 100 ps) none_first)
