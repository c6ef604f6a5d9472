-- ===== src/ConfigService.antt =====
-- services/config/internal/grpc/handler.go. `int32` values are signed integers with the wrap-around
-- of Base/Int.
pub mod Versions
pub mod Access
pub mod Server
mod Tests
use gordion_vpn.Base.{ℕ, Bool, true, false, Option, none, some, List, [], ◌∷◌, ◌&&◌, if◌then◌else◌}
use gordion_vpn.Base.Bytes.{GoString, str, is_empty}
use gordion_vpn.Base.Int.{ℤ, pos, is_le, is_pos, int32, int32_inc}
use gordion_vpn.Grpc.{
  GoError, status, statusf, invalid_argument, unauthenticated, internal, Result, ok, err,
}
use gordion_vpn.Auth.{IdentityCall, resolve_node_id}
use gordion_vpn.Redis.{Redis}
use gordion_vpn.Allocator.{Allocator, gateway, subnet_mask, allocate_ip, release_ip}

-- The fields that `ReloadConfig` replaces, and the two that stay.
pub record ConfigHandler : Type 0 where
  pub allocator : Allocator
  pub auth_client : Option IdentityCall
  pub network_cidr : GoString
  pub mtu : ℤ
  pub dns_servers : List GoString
  pub config_version : ℤ

unfoldable pub new_config_handler :
    Allocator → Option IdentityCall → GoString → ℤ → List GoString → ConfigHandler
new_config_handler alloc auth cidr mtu dns = record {
  allocator = alloc;
  auth_client = auth;
  network_cidr = cidr;
  mtu = int32 mtu;
  dns_servers = dns;
  config_version = pos 1;
}

unfoldable pub reload_config : GoString → ℤ → List GoString → ConfigHandler → ConfigHandler
reload_config cidr mtu dns h = record h {
  network_cidr = cidr;
  mtu = int32 mtu;
  dns_servers = dns;
  config_version = int32_inc h.config_version;
}

pub record GetConfigResponse : Type 0 where
  pub network_cidr : GoString
  pub mtu : ℤ
  pub dns_servers : List GoString
  pub config_version : ℤ
  pub up_to_date : Bool

current_config : ℤ → ConfigHandler → GetConfigResponse
current_config known h =
    if is_pos known && is_le h.config_version known
    then record {
      network_cidr = [];
      mtu = pos 0;
      dns_servers = [];
      config_version = h.config_version;
      up_to_date = true;
    }
    else record {
      network_cidr = h.network_cidr;
      mtu = h.mtu;
      dns_servers = h.dns_servers;
      config_version = h.config_version;
      up_to_date = false;
    }

unfoldable pub token_required : GoError
token_required = status invalid_argument (str "token is required")

unfoldable pub node_id_required : GoError
node_id_required = status invalid_argument (str "node_id is required")

unfoldable pub auth_failed : GoError → GoError
auth_failed e = statusf unauthenticated (str "auth failed") e

get_config_as : ℤ → ConfigHandler → Result GoString → Result GetConfigResponse
unfolding auth_failed current_config
get_config_as known h (err e) = err (auth_failed e)
get_config_as known h (ok node) = ok (current_config known h)

-- `GetConfig` of a token and the version that the client has.
unfoldable pub get_config : GoString → ℤ → ConfigHandler → Result GetConfigResponse
unfolding get_config_as token_required
get_config token known h =
    if is_empty token
    then err token_required
    else get_config_as known h (resolve_node_id h.auth_client token)

pub record RequestIpResponse : Type 0 where
  pub ip_address : GoString
  pub subnet_mask : GoString
  pub gateway : GoString

module _ (r : Redis) where
  open r use {State}

  with_ip : ConfigHandler → State × Result GoString → State × Result RequestIpResponse
  with_ip h (s, ok ip) = (
    s,
    ok (record {
      ip_address = ip;
      subnet_mask = subnet_mask h.allocator;
      gateway = gateway h.allocator;
    }),
  )
  with_ip h (s, err e) = (s, err (statusf internal (str "IP allocation failed") e))

  request_ip_as :
      ℕ → GoString → ConfigHandler → State → Result GoString → State × Result RequestIpResponse
  unfolding with_ip auth_failed
  request_ip_as now node h s (ok caller) = with_ip h (allocate_ip r h.allocator now node s)
  request_ip_as now node h s (err e) = (s, err (auth_failed e))

  unfoldable pub request_ip :
      ℕ → GoString → GoString → ConfigHandler → State → State × Result RequestIpResponse
  unfolding request_ip_as token_required node_id_required
  request_ip now token node h s =
      if is_empty token
      then (s, err token_required)
      else if is_empty node
      then (s, err node_id_required)
      else request_ip_as now node h s (resolve_node_id h.auth_client token)

  released : State × Result (Unit {0}) → State × Result (Unit {0})
  released (s, ok u) = (s, ok u)
  released (s, err e) = (s, err (statusf internal (str "IP release failed") e))

  release_ip_as : GoString → GoString → State → Result GoString → State × Result (Unit {0})
  unfolding released auth_failed
  release_ip_as node ip s (ok caller) = released (release_ip r node ip s)
  release_ip_as node ip s (err e) = (s, err (auth_failed e))

  -- The answer of a release that succeeds is constant: `Success: true` and a text.
  unfoldable pub handle_release_ip :
      GoString → GoString → GoString → ConfigHandler → State → State × Result (Unit {0})
  unfolding release_ip_as token_required node_id_required
  handle_release_ip token node ip h s =
      if is_empty token
      then (s, err token_required)
      else if is_empty node
      then (s, err node_id_required)
      else release_ip_as node ip s (resolve_node_id h.auth_client token)
