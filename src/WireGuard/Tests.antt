-- ===== src/WireGuard/Tests.antt =====
-- Runs of the manager and of the clamping.
use gordion_vpn.Base.{◌≡◌, refl, some, [], ◌∷◌}
use gordion_vpn.Base.Bytes.{str}
use gordion_vpn.WireGuard.{PeerConfig, Config, render}
use gordion_vpn.WireGuard.Render.{lines, read_peers, one_line, read_peers-render}

abbrev peer : PeerConfig
peer = record {
  public_key = str "0123456789abcdef";
  endpoint = str "127.0.0.1:51920";
  allowed_ips = str "10.8.0.3/32";
}

abbrev config : Config
config = record {
  private_key = str "key";
  listen_port = 51820;
  address = str "10.8.0.2/16";
  mtu = 1420;
  dns = str "1.1.1.1";
  peers = peer ∷ [];
}

read_peers-render_example : read_peers (lines (render config)) ≡ some (peer ∷ [])
unfolding one_line
read_peers-render_example = read_peers-render config refl refl refl ((refl, refl, refl), tt)
