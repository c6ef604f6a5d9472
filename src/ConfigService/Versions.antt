-- ===== src/ConfigService/Versions.antt =====
-- The version numbers by which clients learn of a reload.
use gordion_vpn.Base.{
  ℕ, ◌+◌, ◌^◌, ◌<◌, ◌≡◌, refl, ap, ◌∙◌, true, false, Option, List, [], ◌∷◌, ◌++◌, arith, length,
}
use gordion_vpn.Base.Bytes.{GoString, is_empty}
use gordion_vpn.Base.Int.{ℤ, pos, int32_inc, int32_inc-pos}
use gordion_vpn.Grpc.{ok}
use gordion_vpn.Auth.{IdentityCall, resolve_node_id}
use gordion_vpn.Allocator.{Allocator}
use gordion_vpn.ConfigService.{
  ConfigHandler, GetConfigResponse, new_config_handler, reload_config, get_config,
}

-- What one reload installs.
pub record Settings : Type 0 where
  pub cidr : GoString
  pub mtu : ℤ
  pub dns : List GoString

unfoldable pub reload_all : List Settings → ConfigHandler → ConfigHandler
reload_all [] h = h
reload_all (x ∷ xs) h = reload_all xs (reload_config x.cidr x.mtu x.dns h)

reload_all-append :
    (xs ys : List Settings) (h : ConfigHandler)
    → reload_all (xs ++ ys) h ≡ reload_all ys (reload_all xs h)
unfolding reload_all
reload_all-append [] ys h = refl
reload_all-append (x ∷ xs) ys h = reload_all-append xs ys (reload_config x.cidr x.mtu x.dns h)

reload_all-version :
    (xs : List Settings) (h : ConfigHandler) (v : ℕ)
    → h.config_version ≡ pos v
    → v + length xs < 2 ^ 31
    → (reload_all xs h).config_version ≡ pos (v + length xs)
unfolding reload_all reload_config
reload_all-version [] h v e b = ground arith
reload_all-version (x ∷ xs) h v e b =
    let next : int32_inc h.config_version ≡ pos (v + 1) =
      ap int32_inc e ∙ int32_inc-pos v (omega arith) in
    ground (arith, reload_all-version xs (reload_config x.cidr x.mtu x.dns h) (v + 1) next)

reload_all-auth :
    (xs : List Settings) (h : ConfigHandler) → (reload_all xs h).auth_client ≡ h.auth_client
unfolding reload_all reload_config
reload_all-auth [] h = refl
reload_all-auth (x ∷ xs) h = reload_all-auth xs (reload_config x.cidr x.mtu x.dns h)

-- The answer that carries the whole configuration, and the one that only says "up to date".
abbrev pub whole : ConfigHandler → GetConfigResponse
whole h = record {
  network_cidr = h.network_cidr;
  mtu = h.mtu;
  dns_servers = h.dns_servers;
  config_version = h.config_version;
  up_to_date = false;
}

abbrev pub unchanged : ConfigHandler → GetConfigResponse
unchanged h = record {
  network_cidr = [];
  mtu = pos 0;
  dns_servers = [];
  config_version = h.config_version;
  up_to_date = true;
}

abbrev pub answer_after : List Settings → ConfigHandler → GetConfigResponse
answer_after [] h = unchanged h
answer_after (x ∷ xs) h = whole h

get_config-versions :
    (token : GoString) (h : ConfigHandler) (known v : ℕ) {node : GoString}
    → is_empty token ≡ false
    → resolve_node_id h.auth_client token ≡ ok node
    → h.config_version ≡ pos v
    → 0 < known
    → (known < v → get_config token (pos known) h ≡ ok (whole h))
      × (known ≡ v → get_config token (pos known) h ≡ ok (unchanged h))
unfolding get_config
get_config-versions token h known v e a w p = (λ l. ground arith, λ l. ground arith)

get_config-reloads_from :
    (token : GoString) (node : GoString) (h : ConfigHandler) (v : ℕ) (after : List Settings)
    → is_empty token ≡ false
    → resolve_node_id h.auth_client token ≡ ok node
    → h.config_version ≡ pos v
    → 0 < v
    → v + length after < 2 ^ 31
    → get_config token (pos v) (reload_all after h) ≡ ok (answer_after after (reload_all after h))
unfolding reload_all
get_config-reloads_from token node h v [] e a w p b =
    (get_config-versions token h v v e a w p).1 refl
get_config-reloads_from token node h v (x ∷ xs) e a w p b =
    let h' = reload_all (x ∷ xs) h in
    let auth : resolve_node_id h'.auth_client token ≡ ok node =
      ap (λ c. resolve_node_id c token) (reload_all-auth (x ∷ xs) h) ∙ a in
    (get_config-versions token h' v (v + length (x ∷ xs)) e auth
        (reload_all-version (x ∷ xs) h v w b) p).0
      (omega arith)

-- A client that has the version of a handler after some reloads is told that it is up to date as
-- long as no more follow, and gets the whole present configuration once any did; for fewer than
-- 2 ^ 31 - 1 reloads, after which the version wraps.
pub get_config-reloads :
    (alloc : Allocator) (auth : Option IdentityCall) (x : Settings) (token node : GoString)
    (before after : List Settings)
    → is_empty token ≡ false
    → resolve_node_id auth token ≡ ok node
    → 1 + length before + length after < 2 ^ 31
    → let h = reload_all before (new_config_handler alloc auth x.cidr x.mtu x.dns) in
      let h' = reload_all after h in
      get_config token h.config_version h' ≡ ok (answer_after after h')
unfolding new_config_handler
get_config-reloads alloc auth x token node before after e a b =
    let h0 = new_config_handler alloc auth x.cidr x.mtu x.dns in
    let h = reload_all before h0 in
    let w : h.config_version ≡ pos (1 + length before) =
      reload_all-version before h0 1 refl (omega arith) in
    let ok_auth : resolve_node_id h.auth_client token ≡ ok node =
      ap (λ c. resolve_node_id c token) (reload_all-auth before h0) ∙ a in
    ap (λ v. get_config token v (reload_all after h)) w
    ∙ get_config-reloads_from token node h (1 + length before) after e ok_auth w (omega arith)
        (omega arith)
