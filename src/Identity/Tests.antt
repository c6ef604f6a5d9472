-- ===== src/Identity/Tests.antt =====
-- The identity service's theorems at concrete requests.
use gordion_vpn.Base.{◌≡◌, refl, true, none, some, [], if◌then◌else◌, ltb}
use gordion_vpn.Base.Bytes.{str, str_eq}
use gordion_vpn.Grpc.{GoError, ok, err}
use gordion_vpn.Identity.{
  Storage, find_token, find_key, create_node, create_token, Jwt, IdentityService, Registration,
  Request, register_node,
}
use gordion_vpn.Identity.Again.{second_registration_fails}

-- A library whose tokens name their node, and stand for claims of time 100.
abbrev plain_jwt : Jwt
plain_jwt = record {
  sign = λ secret c. c.node_id;
  parse = λ secret now text.
      if ltb now 3700 then some (record { node_id = some text; exp = 3700; iat = 100 }) else none;
}

abbrev service : IdentityService
service = record { jwt_secret = str "s"; network_secret = str "n"; token_ttl = 3600 }

abbrev request : Request
request = record {
  public_key = str "key";
  version = str "1.0.0";
  peer_id = [];
  network_secret = str "n";
}

abbrev nothing : Storage
nothing = record { nodes = []; tokens = [] }

abbrev issued : Registration
issued = record { node = str "id"; token = str "id"; expires_at = 3700 }

issued_ok : (register_node plain_jwt true true service 100 (str "id") request nothing).1 ≡ ok issued
unfolding register_node create_node create_token find_key find_token str_eq
issued_ok = refl

second_registration_fails_example :
    let t = (register_node plain_jwt true true service 100 (str "id") request nothing).0 in
    (e : GoError) × ((register_node plain_jwt true true service 100 (str "other") request t).1
      ≡ err e)
second_registration_fails_example =
    second_registration_fails plain_jwt true true true true service 100 (str "id") (str "other")
      request request nothing issued refl issued_ok
