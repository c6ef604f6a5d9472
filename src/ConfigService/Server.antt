-- ===== src/ConfigService/Server.antt =====
-- services/config/cmd/server/main.go: the loop that waits for signals, over the handler. What
-- `config.Load` answers to each SIGHUP is part of the signal.
use gordion_vpn.Base.{ℕ, ◌≡◌, refl, ◌∙◌, Bool, true, false, List, [], ◌∷◌}
use gordion_vpn.Base.Bytes.{GoString}
use gordion_vpn.Grpc.{Result, ok, err}
use gordion_vpn.Redis.{Redis}
use gordion_vpn.Settings.Servers.{ConfigServer}
use gordion_vpn.ConfigService.{ConfigHandler, reload_config, request_ip}

pub data Signal : Type 0 where
  hangup : Result ConfigServer → Signal
  terminate : Signal

-- The handler after the signals, and whether the server has stopped; later signals find no one.
unfoldable pub serve : List Signal → ConfigHandler → ConfigHandler × Bool
serve [] h = (h, false)
serve (terminate ∷ signals) h = (h, true)
serve (hangup (err e) ∷ signals) h = serve signals h
serve (hangup (ok c) ∷ signals) h =
    serve signals (reload_config c.network_cidr c.mtu c.dns_servers h)

-- The network that the signals leave announced, when `cidr` was before.
abbrev pub announced : List Signal → GoString → GoString
announced [] cidr = cidr
announced (terminate ∷ signals) cidr = cidr
announced (hangup (err e) ∷ signals) cidr = announced signals cidr
announced (hangup (ok c) ∷ signals) cidr = announced signals c.network_cidr

module _ (r : Redis) where
  open r use {State}

  request_ip-reload_config :
      (c : ConfigServer) (now : ℕ) (token node : GoString) (h : ConfigHandler) (s : State)
      → request_ip r now token node (reload_config c.network_cidr c.mtu c.dns_servers h) s
        ≡ request_ip r now token node h s
  unfolding request_ip reload_config
  request_ip-reload_config c now token node h s = refl

  -- Whatever signals arrive, the handler announces the network of the last configuration that could
  -- be loaded, and hands out the same addresses as without the signals: those of the network that
  -- the server has started with.
  pub serve_keeps_allocations :
      (signals : List Signal) (now : ℕ) (token node : GoString) (h : ConfigHandler) (s : State)
      → ((serve signals h).0.network_cidr ≡ announced signals h.network_cidr)
        × (request_ip r now token node (serve signals h).0 s ≡ request_ip r now token node h s)
  unfolding serve reload_config
  serve_keeps_allocations [] now token node h s = (refl, refl)
  serve_keeps_allocations (terminate ∷ signals) now token node h s = (refl, refl)
  serve_keeps_allocations (hangup (err e) ∷ signals) now token node h s =
      serve_keeps_allocations signals now token node h s
  serve_keeps_allocations (hangup (ok c) ∷ signals) now token node h s =
      let h' = reload_config c.network_cidr c.mtu c.dns_servers h in
      let (a, b) = serve_keeps_allocations signals now token node h' s in
      (a, b ∙ request_ip-reload_config c now token node h s)
