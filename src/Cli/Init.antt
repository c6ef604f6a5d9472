-- ===== src/Cli/Init.antt =====
-- cli/cmd/init.go: the keys and the configuration file that `gordion init` writes. The file system
-- is a function from paths to what reading them finds; random bytes, the curve and base64, and
-- whether a directory can be made and a file written, are arguments.
use gordion_vpn.Base.{
  ℕ, Bool, true, false, not, ◌&&◌, Option, none, some, List, [], ◌∷◌, ◌++◌, if◌then◌else◌,
}
use gordion_vpn.Base.Bytes.{GoString, str, str_eq, is_empty}
use gordion_vpn.Grpc.{GoError, wrap, Result, ok, err}
use gordion_vpn.Settings.Cli.{Found, missing, contents, unreadable}
use gordion_vpn.WireGuard.Keys.{KeyPair, clamp}
use gordion_vpn.Cli.{em_dash}

abbrev pub Files : Type 0
Files = GoString → Found GoString

abbrev pub put_file : GoString → GoString → Files → Files
put_file path text files p = if str_eq p path then contents text else files p

-- What `init` meets: the flags, the random bytes, `curve25519.X25519` by the base point, base64,
-- and the errors of making a directory and of writing a file.
pub record Setup : Type 0 where
  pub home : GoString
  pub cfg_file : GoString
  pub secret : GoString
  pub force : Bool
  pub random : Result (List ℕ)
  pub base_mult : List ℕ → Result (List ℕ)
  pub encode : List ℕ → GoString
  pub keys_dir_error : Option GoError
  pub out_dir_error : Option GoError
  pub write_error : GoString → Option GoError

pub data InitReport : Type 0 where
  exists_already : GoString → InitReport
  created : GoString → InitReport

abbrev multiplied : Setup → List ℕ → Result (List ℕ) → Result KeyPair
multiplied s key (err e) = err e
multiplied s key (ok point) =
    ok (record { private_key = s.encode key; public_key = s.encode point })

abbrev with_random : Setup → Result (List ℕ) → Result KeyPair
with_random s (err e) = err e
with_random s (ok bytes) = let key = clamp bytes in multiplied s key (s.base_mult key)

unfoldable pub generate_wire_guard_keys : Setup → Result KeyPair
generate_wire_guard_keys s = with_random s s.random

abbrev pub private_path : GoString → GoString
private_path home = home ++ str "/.gordion/keys/private.key"

abbrev pub public_path : GoString → GoString
public_path home = home ++ str "/.gordion/keys/public.key"

abbrev pub out_file : Setup → GoString
out_file s = if is_empty s.cfg_file then str "configs/agent.yaml" else s.cfg_file

-- Every line with its end.
abbrev pub unlines : List GoString → GoString
unlines [] = []
unlines (l ∷ ls) = l ++ (10 ∷ unlines ls)

-- The byte of a quotation mark, and a text between two of them.
abbrev quoted : GoString → GoString
quoted s = (34 ∷ s) ++ (34 ∷ [])

-- The first argument is called the path of the private key there.
unfoldable pub build_default_config : GoString → GoString → GoString → GoString
build_default_config key_path pub_key secret = unlines (
    (str "# Gordion VPN " ++ em_dash ++ str " Agent Configuration")
    ∷ str "# Generated by `gordion init`"
    ∷ str "# "
    ∷ (str "# "
        ++ (226 ∷ 154 ∷ 160 ∷ [])
        ++ str " private_key_file contains your WireGuard private key.")
    ∷ str "#   Do NOT commit it to version control."
    ∷ []
    ∷ str "# Control plane addresses (change to your server IPs/hostnames)"
    ∷ (str "identity_addr:  " ++ quoted (str "localhost:8001"))
    ∷ (str "discovery_addr: " ++ quoted (str "localhost:8002"))
    ∷ (str "config_addr:    " ++ quoted (str "localhost:8003"))
    ∷ []
    ∷ str "# Network authorization password (matching Identity service NETWORK_SECRET)"
    ∷ (str "network_secret: " ++ quoted secret)
    ∷ []
    ∷ (str "log_level: " ++ quoted (str "info"))
    ∷ str "heartbeat_interval: 25"
    ∷ []
    ∷ str "# WireGuard"
    ∷ str "wireguard_port: 51820"
    ∷ (str "private_key_file: " ++ quoted key_path)
    ∷ (str "# public_key: " ++ quoted pub_key)
    ∷ str "dry_run: true   # set false for a real tunnel (requires WireGuard installed)"
    ∷ []
    ∷ str "# libp2p"
    ∷ str "p2p_port: 4001"
    ∷ []
    ∷ str "# TLS (leave empty for insecure local dev)"
    ∷ (str "# tls_ca_cert: " ++ quoted (str "certs/ca-cert.pem"))
    ∷ []
    ∷ str "# Exit Node"
    ∷ str "is_exit_node:  false"
    ∷ str "use_exit_node: false"
    ∷ (str "exit_node_id:  " ++ quoted [])
    ∷ (str "exit_node_dns: " ++ quoted (str "1.1.1.1, 1.0.0.1"))
    ∷ [])

abbrev pub Step : Type 0
Step = Files × Result InitReport

-- One file, or one directory, and what follows when that works.
abbrev pub then_write : Setup → GoString → GoString → GoString → Files → (Files → Step) → Step
then_write s what path text files next = written (s.write_error path)
  where
    written : Option GoError → Step
    written (some e) = (files, err (wrap what e))
    written none = next (put_file path text files)

abbrev pub then_mkdir : GoString → Option GoError → Files → (Files → Step) → Step
then_mkdir what (some e) files next = (files, err (wrap what e))
then_mkdir what none files next = next files

abbrev pub with_keys : Setup → Result KeyPair → Files → Step
with_keys s (err e) files = (files, err (wrap (str "generate keypair") e))
with_keys s (ok keys) files = then_mkdir (str "create keys dir") s.keys_dir_error files (λ f.
    then_write s (str "write private key") (private_path s.home) (keys.private_key ++ (10 ∷ [])) f
      (λ f.
        then_write s (str "write public key") (public_path s.home) (keys.public_key ++ (10 ∷ [])) f
          (λ f. then_mkdir (str "create config dir") s.out_dir_error f (λ f.
            then_write s (str "write config") (out_file s)
              (build_default_config (public_path s.home) keys.public_key s.secret) f
              (λ f. (f, ok (created (out_file s))))))))

abbrev pub is_there : Found GoString → Bool
is_there missing = false
is_there (unreadable e) = true
is_there (contents text) = true

unfoldable pub init : Setup → Files → Step
init s files =
    if is_there (files (out_file s)) && not s.force
    then (files, ok (exists_already (out_file s)))
    else with_keys s (generate_wire_guard_keys s) files
