-- ===== src/Cli/Paths.antt =====
-- The paths that cli/cmd/up.go looks for: the program of the agent, and the configuration file that
-- it writes to the state. `os.Stat` works for the paths at which there is a file; an empty path has
-- none.
use gordion_vpn.Base.{
  ◌≡◌, refl, Bool, true, false, Option, none, some, List, [], ◌∷◌, if◌then◌else◌, arith, Bool-cases,
  inl, inr,
}
use gordion_vpn.Base.Bytes.{GoString, str, is_empty}
use gordion_vpn.Grpc.{plain, Result, ok, err}
use gordion_vpn.Settings.Cli.{
  CliConfig, apply_defaults, default_paths, Found, missing, unreadable, contents, at_path, or_next,
  parsed, load_first, load,
}

-- `exec.LookPath`, the directory of `os.Executable`, and `os.Stat`, `filepath.Join` of a directory
-- and a name, whether the system is Windows.
pub record Lookup : Type 0 where
  pub windows : Bool
  pub look_path : GoString → Option GoString
  pub executable_dir : Option GoString
  pub exists : GoString → Bool
  pub join : GoString → GoString → GoString

abbrev agent_name : Bool → GoString
agent_name true = str "gordion-agent.exe"
agent_name false = str "gordion-agent"

abbrev not_found_in_path : Result GoString
not_found_in_path = err (plain (str "agent binary not found in PATH"))

sibling : Lookup → GoString → Option GoString → Result GoString
sibling l name none = not_found_in_path
sibling l name (some dir) =
    if l.exists (l.join dir name) then ok (l.join dir name) else not_found_in_path

or_sibling : Lookup → GoString → Option GoString → Result GoString
unfolding sibling
or_sibling l name (some p) = ok p
or_sibling l name none = sibling l name l.executable_dir

unfoldable pub find_agent_binary : Lookup → Result GoString
unfolding or_sibling
find_agent_binary l = let name = agent_name l.windows in or_sibling l name (l.look_path name)

module _ {B : Type 0} (unmarshal : B → Result CliConfig) (files : GoString → Found B)
    (abs : GoString → GoString) where
  abbrev is_there : Found B → Bool
  is_there missing = false
  is_there (unreadable e) = true
  is_there (contents b) = true

  abbrev stat : GoString → Bool
  stat path = if is_empty path then false else is_there (files path)

  unfoldable pub first_existing : List GoString → GoString
  first_existing [] = []
  first_existing (p ∷ ps) = let next = first_existing ps in if stat p then abs p else next

  unfoldable pub resolved_config_path : GoString → GoString → GoString
  unfolding first_existing
  resolved_config_path home cfg_file =
      if is_empty cfg_file then first_existing (default_paths home) else abs cfg_file

  -- The configuration comes from the file at a path.
  pub record LoadedFrom (c : CliConfig) (path : GoString) : Type 0 where
    found : B
    config : CliConfig
    there : files path ≡ contents found
    read : unmarshal found ≡ ok config
    filled : c ≡ apply_defaults config

  parsed-LoadedFrom :
      (p : GoString) (b : B) (x : Result CliConfig) (c : CliConfig)
      → files p ≡ contents b
      → unmarshal b ≡ x
      → parsed unmarshal files p x ≡ ok c
      → LoadedFrom c p
  unfolding apply_defaults
  parsed-LoadedFrom p b (err e) c f u h = cc
  parsed-LoadedFrom p b (ok c0) c f u h = record {
    found = b;
    config = c0;
    there = f;
    read = u;
    filled = ground (arith, h);
  }

  at-LoadedFrom :
      (p : GoString) (ps : List GoString) (c : CliConfig) (x : Found B)
      → files p ≡ x
      → or_next unmarshal files (at_path unmarshal files p x) (load_first unmarshal files ps) ≡ ok c
      → (load_first unmarshal files ps ≡ ok c
          → (path : GoString) × (first_existing ps ≡ abs path) × LoadedFrom c path)
      → (path : GoString) × ((if is_there x then abs p else first_existing ps) ≡ abs path)
        × LoadedFrom c path
  at-LoadedFrom p ps c missing f h next = next h
  at-LoadedFrom p ps c (unreadable e) f h next = cc
  at-LoadedFrom p ps c (contents b) f h next =
      (p, refl, parsed-LoadedFrom p b (unmarshal b) c f refl h)

  one-LoadedFrom :
      (p : GoString) (c : CliConfig) (x : Found B)
      → files p ≡ x
      → or_next unmarshal files (at_path unmarshal files p x) (load_first unmarshal files []) ≡ ok c
      → LoadedFrom c p
  unfolding load_first
  one-LoadedFrom p c missing f h = cc
  one-LoadedFrom p c (unreadable e) f h = cc
  one-LoadedFrom p c (contents b) f h = parsed-LoadedFrom p b (unmarshal b) c f refl h

  first-LoadedFrom :
      (ps : List GoString) (c : CliConfig)
      → load_first unmarshal files ps ≡ ok c
      → (path : GoString) × (first_existing ps ≡ abs path) × LoadedFrom c path
  unfolding load_first first_existing
  first-LoadedFrom [] c h = cc
  first-LoadedFrom (p ∷ ps) c h = elim (Bool-cases (is_empty p)) [
    | inl e ↦
        let (path, same, from) = first-LoadedFrom ps c (ground (arith, h, e)) in
        (path, ground (arith, e, same), from)
    | inr e ↦
        let (path, same, from) =
          at-LoadedFrom p ps c (files p) refl (ground (arith, h, e)) (first-LoadedFrom ps c) in
        (path, ground (arith, e, same), from)
  ]

  -- The configuration file that `up` writes to the state, when it has loaded a configuration, is the
  -- one that it has loaded, whether it is told a path or tries the default ones.
  pub resolved_config_path-LoadedFrom :
      (home cfg_file : GoString) (c : CliConfig)
      → load unmarshal files home cfg_file ≡ ok c
      → (path : GoString) × (resolved_config_path home cfg_file ≡ abs path) × LoadedFrom c path
  unfolding resolved_config_path load load_first
  resolved_config_path-LoadedFrom home cfg_file c h = elim (Bool-cases (is_empty cfg_file)) [
    | inl e ↦
        let (path, same, from) = first-LoadedFrom (default_paths home) c (ground (arith, h, e)) in
        (path, ground (arith, e, same), from)
    | inr e ↦ (
      cfg_file,
      ground (arith, e),
      one-LoadedFrom cfg_file c (files cfg_file) refl (ground (arith, h, e)),
    )
  ]
