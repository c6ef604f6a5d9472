-- ===== src/Allocator.antt =====
-- services/config/internal/allocator/allocator.go, over IPv4. A `net.IP` is its four bytes; what
-- `net.ParseCIDR` returns for a valid IPv4 CIDR is the base address, with its host bits 0, and the
-- length of the prefix. The Prometheus gauge is not modelled.
pub mod Ip
pub mod Search
pub mod Long
pub mod Leases
pub mod Grants
pub mod Release
mod Tests
use gordion_vpn.Base.{
  ℕ, zero, suc, ◌+◌, ◌-◌, ◌^◌, Bool, true, false, Option, none, some, List, [], ◌∷◌, ◌++◌,
  if◌then◌else◌,
}
use gordion_vpn.Base.Bytes.{GoString, str}
use gordion_vpn.Grpc.{GoError, plain, wrap, foreign, Result, ok, err}
use gordion_vpn.Redis.{Redis, Reply, found, missing, failed, contains}
use Ip.{Network, ip_string, increment_ip, set_last, net_contains, subnet_mask_of, block_size}

abbrev pub allocated_set_key : GoString
allocated_set_key = str "ip:allocated"

abbrev pub node_ip_key : GoString → GoString
node_ip_key node = str "ip:node:" ++ node

pub record Allocator : Type 0 where
  pub network : Network
  pub gateway_ip : List ℕ

-- `New`, once Redis has answered the ping and the CIDR is parsed.
unfoldable pub new : Network → Allocator
new network = record { network = network; gateway_ip = set_last 1 network.base }

unfoldable pub gateway : Allocator → GoString
gateway a = ip_string a.gateway_ip

unfoldable pub subnet_mask : Allocator → GoString
subnet_mask a = subnet_mask_of a.network

-- How the search for a free address ends.
pub data Scan : Type 0 where
  free : List ℕ → Scan
  exhausted : Scan
  out_of_fuel : Scan

-- `for ; a.network.Contains(ip); incrementIP(ip)`.
unfoldable pub scan : ℕ → List GoString → Network → List ℕ → Scan
scan zero used net ip = out_of_fuel
scan (suc fuel) used net ip =
    let more = scan fuel used net (increment_ip ip) in
    if net_contains net ip
    then (if contains used (ip_string ip) then more else free ip)
    else exhausted

-- Enough rounds for every address of the network, and the one that leaves it.
unfoldable pub find_free : List GoString → Network → Scan
find_free used net = scan (block_size net + 1) used net (set_last 2 net.base)

abbrev redis_error : GoError
redis_error = foreign (str "redis")

module _ (r : Redis) where
  open r use {State, get, set, del, sadd, srem, smembers, scard}

  from_scan : State → Scan → State × Result (List ℕ)
  from_scan s (free ip) = (s, ok ip)
  from_scan s exhausted = (s, err (plain (str "no available IPs in network")))
  from_scan s out_of_fuel = (s, err (foreign (str "loops for ever")))

  find_in : Allocator → State × Reply (List GoString) → State × Result (List ℕ)
  unfolding from_scan
  find_in a (s, found members) = from_scan s (find_free members a.network)
  find_in a (s, missing) = (s, err (wrap (str "redis smembers error") redis_error))
  find_in a (s, failed) = (s, err (wrap (str "redis smembers error") redis_error))

  unfoldable pub find_available_ip : Allocator → State → State × Result (List ℕ)
  unfolding find_in
  find_available_ip a s = find_in a (smembers allocated_set_key s)

  finish_set : GoString → State × Bool → State × Result GoString
  finish_set ip (s, true) = ((scard allocated_set_key s).0, ok ip)
  finish_set ip (s, false) = (s, err (wrap (str "redis set error") redis_error))

  finish_sadd : ℕ → GoString → GoString → State × Bool → State × Result GoString
  unfolding finish_set
  finish_sadd now node ip (s, true) = finish_set ip (set now (node_ip_key node) ip 0 s)
  finish_sadd now node ip (s, false) = (s, err (wrap (str "redis sadd error") redis_error))

  assign : ℕ → GoString → State × Result (List ℕ) → State × Result GoString
  unfolding finish_sadd
  assign now node (s, ok ip) =
      finish_sadd now node (ip_string ip) (sadd allocated_set_key (ip_string ip) s)
  assign now node (s, err e) = (s, err e)

  -- Any error of `Get` counts as "no address yet", like redis.Nil.
  allocate_after : Allocator → ℕ → GoString → State × Reply GoString → State × Result GoString
  unfolding assign
  allocate_after a now node (s, found existing) = (s, ok existing)
  allocate_after a now node (s, missing) = assign now node (find_available_ip a s)
  allocate_after a now node (s, failed) = assign now node (find_available_ip a s)

  unfoldable pub allocate_ip : Allocator → ℕ → GoString → State → State × Result GoString
  unfolding allocate_after
  allocate_ip a now node s = allocate_after a now node (get now (node_ip_key node) s)

  finish_del : State × Bool → State × Result (Unit {0})
  finish_del (s, true) = ((scard allocated_set_key s).0, ok tt)
  finish_del (s, false) = (s, err (wrap (str "redis del error") redis_error))

  finish_srem : GoString → State × Bool → State × Result (Unit {0})
  unfolding finish_del
  finish_srem node (s, true) = finish_del (del (node_ip_key node) s)
  finish_srem node (s, false) = (s, err (wrap (str "redis srem error") redis_error))

  unfoldable pub release_ip : GoString → GoString → State → State × Result (Unit {0})
  unfolding finish_srem
  release_ip node ip s = finish_srem node (srem allocated_set_key ip s)
