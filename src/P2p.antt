-- ===== src/P2p.antt =====
-- services/agent/internal/p2p/host.go: the host of libp2p, whose calls are parameters, and the way
-- from an address to a port of the bridge that services/agent/internal/agent/agent.go takes.
use gordion_vpn.Base.{ℕ, ◌≡◌, ◌≢◌, refl, Option, none, some, List, ◌++◌, map}
use gordion_vpn.Base.Bytes.{GoString, str}
use gordion_vpn.Grpc.{GoError, wrap, Result, ok, err}
use gordion_vpn.Base.Decimal.{digits}

-- `libp2p.New` on an address, the host's id and addresses, `multiaddr.NewMultiaddr` with
-- `peer.AddrInfoFromP2pAddr`, and the errors of `Connect` and of a ping, for peers of a type of the
-- library.
pub record Libp2p : Type 1 where
  pub Info : Type 0
  pub new_host : GoString → Option GoError
  pub id : GoString
  pub addrs : List GoString
  pub new_multiaddr : GoString → Result GoString
  pub addr_info : GoString → Result Info
  pub connect : Info → Option GoError
  pub ping : Info → Option GoError

unfoldable pub listen_addr : ℕ → GoString
listen_addr port = str "/ip4/0.0.0.0/tcp/" ++ digits 20 port

module _ (l : Libp2p) where
  open l use {Info}

  -- `New`: the error, if there is one.
  unfoldable pub new : ℕ → Option GoError
  unfolding listen_addr
  new port = elim (l.new_host (listen_addr port)) [
    | none ↦ none
    | some e ↦ some (wrap (str "failed to create libp2p host") e)
  ]

  unfoldable pub multiaddrs : List GoString
  multiaddrs = map (λ (addr : GoString). addr ++ str "/p2p/" ++ l.id) l.addrs

  info_of : Result GoString → Result Info
  info_of (err e) = err e
  info_of (ok addr) = l.addr_info addr

  unfoldable pub get_peer_info : GoString → Result Info
  unfolding info_of
  get_peer_info addr = info_of (l.new_multiaddr addr)

  pinged : Option GoError → Option GoError
  pinged none = none
  pinged (some e) = some (wrap (str "p2p ping failed") e)

  connected : Info → Option GoError → Option GoError
  unfolding pinged
  connected info none = pinged (l.ping info)
  connected info (some e) = some (wrap (str "p2p connect failed") e)

  unfoldable pub connect_and_ping : Info → Option GoError
  unfolding connected
  connect_and_ping info = connected info (l.connect info)

  after_ping : (Info → ℕ) → Info → Option GoError → ℕ
  after_ping add_peer info none = add_peer info
  after_ping add_peer info (some e) = 0

  after_info : (Info → ℕ) → Result Info → ℕ
  unfolding after_ping
  after_info add_peer (err e) = 0
  after_info add_peer (ok info) = after_ping add_peer info (connect_and_ping info)

  -- The port of the bridge for the first address of a peer, 0 if a call fails; `add_peer` is
  -- `Bridge.AddPeer`, with 0 for an error.
  unfoldable pub proxy_port : (Info → ℕ) → GoString → ℕ
  unfolding after_info
  proxy_port add_peer addr = after_info add_peer (get_peer_info addr)

  after_ping-reached :
      (add_peer : Info → ℕ) (info : Info) (o : Option GoError)
      → after_ping add_peer info o ≢ 0
      → (o ≡ none) × (after_ping add_peer info o ≡ add_peer info)
  unfolding after_ping
  after_ping-reached add_peer info none n = (refl, refl)
  after_ping-reached add_peer info (some e) n = absurd (n refl)

  after_info-reached :
      (add_peer : Info → ℕ) (x : Result Info)
      → after_info add_peer x ≢ 0
      → (info : Info) × (x ≡ ok info)
        × (connect_and_ping info ≡ none)
        × (after_info add_peer x ≡ add_peer info)
  unfolding after_info
  after_info-reached add_peer (err e) n = absurd (n refl)
  after_info-reached add_peer (ok info) n =
      let (back, port) = after_ping-reached add_peer info (connect_and_ping info) n in
      (info, refl, back, port)

  -- A peer gets a port only if its address can be read, and a ping to it has come back.
  pub proxy_port-reached :
      (add_peer : Info → ℕ) (addr : GoString)
      → proxy_port add_peer addr ≢ 0
      → (info : Info) × (get_peer_info addr ≡ ok info)
        × (connect_and_ping info ≡ none)
        × (proxy_port add_peer addr ≡ add_peer info)
  unfolding proxy_port
  proxy_port-reached add_peer addr n = after_info-reached add_peer (get_peer_info addr) n
