-- ===== src/Discovery/Peers.antt =====
-- What a client learns of a peer that another one registered.
use gordion_vpn.Base.{ℕ, ◌^◌, ◌<◌, ◌≡◌, sym, subst, ap}
use gordion_vpn.Base.Bytes.{GoString, str}
use gordion_vpn.Base.Int.{ℤ, pos}
use gordion_vpn.Registry.{stamped}
use gordion_vpn.Discovery.{RegisterPeerRequest, ListedPeer, new_peer, listed}
use gordion_vpn.Discovery.Endpoint.{IsPlain, endpoint, parse_endpoint, parse_endpoint-endpoint}

shown : GoString → ℕ → RegisterPeerRequest → GoString × ℤ → ListedPeer
shown node clock req a = record {
  node_id = node;
  ip_address = a.0;
  port = a.1;
  region = str "1.0.0";
  peer_id = req.peer_id;
  p2p_addrs = req.p2p_addrs;
  is_exit_node = req.is_exit_node;
  last_seen = clock;
}

-- A listing shows the address and the port of the registration, if the address has no colon and the
-- port is not negative, and everything else that the request told.
pub listed-new_peer :
    (node : GoString) (clock port : ℕ) (req : RegisterPeerRequest)
    → IsPlain req.ip_address
    → req.port ≡ pos port
    → port < 2 ^ 31
    → listed (stamped clock (new_peer node req)) ≡ record {
      node_id = node;
      ip_address = req.ip_address;
      port = req.port;
      region = str "1.0.0";
      peer_id = req.peer_id;
      p2p_addrs = req.p2p_addrs;
      is_exit_node = req.is_exit_node;
      last_seen = clock;
    }
unfolding listed new_peer shown
listed-new_peer node clock port req p e h =
    let back : parse_endpoint (endpoint req.ip_address req.port) ≡ (req.ip_address, req.port) =
      subst (λ z. parse_endpoint (endpoint req.ip_address z) ≡ (req.ip_address, z)) (sym e)
        (parse_endpoint-endpoint req.ip_address port p h) in
    ap (shown node clock req) back
