-- ===== src/Cli/FirstRun.antt =====
-- `gordion init` and then `gordion up`, on a system without a configuration.
use gordion_vpn.Base.{
  ℕ, ◌<◌, ◌≡◌, refl, ap, ◌∙◌, false, none, List, [], ◌∷◌, ◌++◌, arith, All, length, length-append,
  Bool-cases, inl, inr,
}
use gordion_vpn.Base.Bytes.{GoString, str, str_eq, str_eq→eq}
use gordion_vpn.Grpc.{plain, Result, ok, err}
use gordion_vpn.Settings.Cli
use gordion_vpn.Settings.Cli.{CliConfig, Found, missing, load_first, default_paths}
use gordion_vpn.WireGuard.Keys.{KeyPair}
use gordion_vpn.Cli.Init.{
  Files, put_file, Setup, created, generate_wire_guard_keys, build_default_config, private_path,
  public_path, is_there, init,
}

abbrev last_byte : GoString → ℕ
last_byte [] = 0
last_byte (c ∷ []) = c
last_byte (c ∷ d ∷ cs) = last_byte (d ∷ cs)

last_byte-append :
    (s : GoString) (c d : ℕ) (cs : GoString) → last_byte (s ++ (c ∷ d ∷ cs)) ≡ last_byte (d ∷ cs)
last_byte-append [] c d cs = refl
last_byte-append (x ∷ []) c d cs = refl
last_byte-append (x ∷ y ∷ s) c d cs = last_byte-append (y ∷ s) c d cs

-- Two texts with different last bytes, or of different length.
ends_differ : (s t : GoString) → (last_byte s ≡ 108) → (last_byte t ≡ 121) → str_eq s t ≡ false
ends_differ s t a b = elim (Bool-cases (str_eq s t)) [
  | inl same ↦ absurd (ground (arith, a, b, ap last_byte (str_eq→eq s t same)))
  | inr differ ↦ differ
]

longer_differs : (s t : GoString) → length t < length s → str_eq s t ≡ false
longer_differs s t l = elim (Bool-cases (str_eq s t)) [
  | inl same ↦ absurd (ground (arith, l, ap length (str_eq→eq s t same)))
  | inr differ ↦ differ
]

load_first-missing :
    (unmarshal : GoString → Result CliConfig) (files : Files) (paths : List GoString)
    → All (λ p. files p ≡ missing) paths
    → load_first unmarshal files paths ≡ err (plain (str "no config file found"))
unfolding load_first
load_first-missing unmarshal files [] m = refl
load_first-missing unmarshal files (p ∷ paths) (m, ms) =
    ground (arith, m, load_first-missing unmarshal files paths ms)

put_file-other :
    (p path text : GoString) (files : Files)
    → str_eq p path ≡ false
    → files p ≡ missing
    → put_file path text files p ≡ missing
put_file-other p path text files d m = rw d m

abbrev after_init : Setup → KeyPair → Files → Files
after_init s keys files =
    put_file (str "configs/agent.yaml")
      (build_default_config (public_path s.home) keys.public_key s.secret)
      (put_file (public_path s.home) (keys.public_key ++ (10 ∷ []))
        (put_file (private_path s.home) (keys.private_key ++ (10 ∷ [])) files))

init_files :
    (s : Setup) (files : Files) (keys : KeyPair)
    → s.cfg_file ≡ []
    → is_there (files (str "configs/agent.yaml")) ≡ false
    → generate_wire_guard_keys s ≡ ok keys
    → s.keys_dir_error ≡ none
    → s.out_dir_error ≡ none
    → ((path : GoString) → s.write_error path ≡ none)
    → init s files ≡ (after_init s keys files, ok (created (str "configs/agent.yaml")))
unfolding init generate_wire_guard_keys str_eq
init_files s files keys c f k d o w =
    rw
      (c, f, k, d, w (private_path s.home), w (public_path s.home), o, w (str "configs/agent.yaml"))

untouched :
    (s : Setup) (keys : KeyPair) (files : Files) (p : GoString)
    → last_byte p ≡ 108
    → str_eq p (str "configs/agent.yaml") ≡ false
    → files p ≡ missing
    → after_init s keys files p ≡ missing
untouched s keys files p l d m =
    let priv = ends_differ p (private_path s.home) l (last_byte-append s.home 47 _ _) in
    let pubs = ends_differ p (public_path s.home) l (last_byte-append s.home 47 _ _) in
    rw (d, pubs, priv) m

-- On a system without any configuration file, `gordion init` reports the file that it has created,
-- and `gordion up` then finds no configuration: the file is none of those that it tries.
pub init_then_load_fails :
    (s : Setup) (files : Files) (unmarshal : GoString → Result CliConfig) (keys : KeyPair)
    → s.cfg_file ≡ []
    → is_there (files (str "configs/agent.yaml")) ≡ false
    → All (λ p. files p ≡ missing) (default_paths s.home)
    → generate_wire_guard_keys s ≡ ok keys
    → s.keys_dir_error ≡ none
    → s.out_dir_error ≡ none
    → ((path : GoString) → s.write_error path ≡ none)
    → ((init s files).1 ≡ ok (created (str "configs/agent.yaml")))
      × (Cli.load unmarshal (init s files).0 s.home [] ≡ err (plain (str "no config file found")))
unfolding Cli.load
init_then_load_fails s files unmarshal keys c f (m0, (m1, (m2, (m3, _)))) k d o w =
    let e = init_files s files keys c f k d o w in
    let longer =
      longer_differs (s.home ++ str "/.gordion/config.yaml") (str "configs/agent.yaml")
        (ground (arith, length-append s.home (str "/.gordion/config.yaml"))) in
    (
      ap (λ q. q.1) e,
      ap (λ q. load_first unmarshal q.0 (default_paths s.home)) e
          ∙ load_first-missing unmarshal (after_init s keys files) (default_paths s.home) (
            untouched s keys files _ refl (longer_differs _ _ (ground arith)) m0,
            (
              untouched s keys files _ refl (longer_differs _ _ (ground arith)) m1,
              (
                untouched s keys files _ (last_byte-append s.home 47 _ _) longer m2,
                (untouched s keys files _ refl (longer_differs _ _ (ground arith)) m3, tt),
              ),
            ),
          ),
    )
