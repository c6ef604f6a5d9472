-- ===== src/Cli/Verdict.antt =====
-- What the checks of `gordion doctor` say together.
use gordion_vpn.Base.{
  ◌≡◌, refl, ◌∙◌, Bool, true, false, ◌&&◌, Option, none, some, [], ◌∷◌, arith, drop,
}
use gordion_vpn.Base.Bytes.{GoString, str}
use gordion_vpn.Base.Int.{ℤ}
use gordion_vpn.Grpc.{GoError, ok}
use gordion_vpn.Settings.Cli.{CliConfig}
use gordion_vpn.Cli.{State, Json, World, read, is_running}
use gordion_vpn.Cli.Doctor.{
  CheckResult, Probe, no_connection, called, Surroundings, is_grpc_alive, judged, grpc_check,
  agent_check, udp_check, tcp_check, binary_check, known, runs, run_checks, all_ok,
}

module _ (error : GoError → GoString) where
  -- The service answers, if only with an error that shows that it is there.
  abbrev pub lives : Probe → Bool
  lives (no_connection e) = false
  lives (called e) = is_grpc_alive error e

  grpc_check-lives :
      (name addr : GoString) (p : Probe) → (grpc_check error name addr p).ok ≡ lives p
  unfolding grpc_check is_grpc_alive
  grpc_check-lives name addr (no_connection e) = refl
  grpc_check-lives name addr (called none) = refl
  grpc_check-lives name addr (called (some e)) =
      judged_ok name addr (is_grpc_alive error (some e)) e
    where
      judged_ok :
          (name addr : GoString) (b : Bool) (e : GoError)
          → (judged error name addr b (some e)).ok ≡ b
      judged_ok name addr true e = refl
      judged_ok name addr false e = refl

  module _ (sprint : ℤ → GoString) {B : Type 0} (json : Json B) where
    verdict :
        (s : State) (r i d c b : Bool) (port : ℤ) (e : Option GoError)
        → ((agent_check error sprint (some s) r).ok
            && (i && (d && (c && ((udp_check error sprint r port e).ok && (b && true))))))
          ≡ r && i && d && c && b
    verdict s true i d c b port e = ground arith
    verdict s false i d c b port e = ground arith

    all_ok-known :
        (s : Option State) (i d c b : CheckResult) (cfg : CliConfig) (sys : Surroundings)
        (w : World B)
        → all_ok (
            agent_check error sprint s (runs json w s)
            ∷ i
            ∷ d
            ∷ c
            ∷ udp_check error sprint (runs json w s) cfg.wire_guard_port sys.udp_error
            ∷ tcp_check error sprint s cfg.p2p_port sys.tcp_error
            ∷ b
            ∷ [])
          ≡ runs json w s && i.ok && d.ok && c.ok && b.ok
    unfolding all_ok
    all_ok-known none i d c b cfg sys w = ground arith
    all_ok-known (some s) i d c b cfg sys w =
        verdict s (is_running json w s) i.ok d.ok c.ok b.ok cfg.wire_guard_port sys.udp_error

    binary_check-found : (b : Bool) → (binary_check error sprint b).ok ≡ b
    binary_check-found true = refl
    binary_check-found false = refl

    -- All checks pass exactly when the agent runs, the three services answer and `wg` is found: the
    -- two checks of ports never decide, since they pass whenever an agent runs.
    pub all_ok-run_checks :
        (e : Option GoError) (sys : Surroundings) (cfg : CliConfig) (w : World B)
        → all_ok (run_checks error sprint json e sys cfg w)
          ≡ runs json w (known (read json e w))
            && lives sys.identity
            && lives sys.discovery
            && lives sys.config
            && sys.wg_found
    unfolding run_checks
    all_ok-run_checks e sys cfg w =
        all_ok-known (known (read json e w))
          (grpc_check error (str "Identity Service") cfg.identity_addr sys.identity)
          (grpc_check error (str "Discovery Service") cfg.discovery_addr sys.discovery)
          (grpc_check error (str "Config Service") cfg.config_addr sys.config)
          (binary_check error sprint sys.wg_found) cfg sys w
        ∙ rw (
          grpc_check-lives (str "Identity Service") cfg.identity_addr sys.identity,
          grpc_check-lives (str "Discovery Service") cfg.discovery_addr sys.discovery,
          grpc_check-lives (str "Config Service") cfg.config_addr sys.config,
          binary_check-found sys.wg_found,
        )

    -- The state file of an agent that is gone hides that the port of libp2p is taken: the check says
    -- what it says of a port that is free.
    pub stale_state_hides_port :
        (sys : Surroundings) (cfg : CliConfig) (w : World B) (s : State)
        → read json none w ≡ ok (some s)
        → drop 5 (run_checks error sprint json none sys cfg w)
          ≡ tcp_check error sprint none cfg.p2p_port none
            ∷ binary_check error sprint sys.wg_found
            ∷ []
    unfolding run_checks
    stale_state_hides_port sys cfg w s r = rw r
