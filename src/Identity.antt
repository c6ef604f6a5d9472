-- ===== src/Identity.antt =====
-- services/identity/internal/service/identity.go, grpc/handler.go and storage/postgres.go. The two
-- tables are lists, and a query is what its SQL says of them, with the UNIQUE constraints on
-- `nodes.public_key` and `tokens.token`; whether the database answers a query is an argument. The
-- JWT library is a parameter, and so is the id that PostgreSQL makes for a new row. Times are in
-- seconds; the metrics are not modelled.
pub mod Tokens
pub mod Nodes
pub mod Again
pub mod Handler
mod Tests
use gordion_vpn.Base.{
  ℕ, ◌+◌, ◌<◌, ◌≡◌, Bool, true, false, not, ◌&&◌, Option, none, some, List, [], ◌∷◌, if◌then◌else◌,
  ltb, leb,
}
use gordion_vpn.Base.Bytes.{GoString, str, str_eq, is_empty}
use gordion_vpn.Grpc.{
  GoError, plain, wrap, foreign, status, statusf, invalid_argument, internal, not_found, Result, ok,
  err,
}

pub record Node : Type 0 where
  pub id : GoString
  pub public_key : GoString
  pub version : GoString
  pub peer_id : Option GoString

pub record Token : Type 0 where
  pub token : GoString
  pub node_id : GoString
  pub expires_at : ℕ

pub record Storage : Type 0 where
  pub nodes : List Node
  pub tokens : List Token

abbrev pub db_error : GoError
db_error = foreign (str "postgres")

-- `SELECT * FROM tokens WHERE token = $1`.
unfoldable pub find_token : GoString → List Token → Option Token
find_token value [] = none
find_token value (t ∷ ts) =
    let rest = find_token value ts in if str_eq t.token value then some t else rest

unfoldable pub find_node : GoString → List Node → Option Node
find_node id [] = none
find_node id (n ∷ ns) = let rest = find_node id ns in if str_eq n.id id then some n else rest

unfoldable pub find_key : GoString → List Node → Option Node
find_key key [] = none
find_key key (n ∷ ns) =
    let rest = find_key key ns in if str_eq n.public_key key then some n else rest

abbrev pub peer_id_of : GoString → Option GoString
peer_id_of [] = none
peer_id_of (c ∷ cs) = some (c ∷ cs)

abbrev pub updated : GoString → GoString → Node → Node
updated version peer n = record n { version = version; peer_id = peer_id_of peer }

-- `ON CONFLICT (public_key) DO UPDATE`.
unfoldable pub update_key : GoString → GoString → GoString → List Node → List Node
update_key key version peer [] = []
update_key key version peer (n ∷ ns) =
    let rest = update_key key version peer ns in
    if str_eq n.public_key key then updated version peer n ∷ rest else n ∷ rest

upsert : GoString → GoString → GoString → GoString → Option Node → Storage → Storage × Node
upsert fresh key version peer (some n) db =
    (record db { nodes = update_key key version peer db.nodes }, updated version peer n)
upsert fresh key version peer none db =
    let n : Node = record {
      id = fresh;
      public_key = key;
      version = version;
      peer_id = peer_id_of peer;
    } in
    (record db { nodes = n ∷ db.nodes }, n)

create_node_failed : GoError
create_node_failed = wrap (str "failed to create/update node") db_error

unfoldable pub create_node :
    Bool → GoString → GoString → GoString → GoString → Storage → Storage × Result Node
unfolding upsert create_node_failed
create_node false fresh key version peer db = (db, err create_node_failed)
create_node true fresh key version peer db =
    let p = upsert fresh key version peer (find_key key db.nodes) db in (p.0, ok p.1)

create_token_failed : GoError
create_token_failed = wrap (str "failed to create token") db_error

insert_token : Token → Option Token → Storage → Storage × Result (Unit {0})
unfolding create_token_failed
insert_token t (some old) db = (db, err create_token_failed)
insert_token t none db = (record db { tokens = t ∷ db.tokens }, ok tt)

unfoldable pub create_token : Bool → Token → Storage → Storage × Result (Unit {0})
unfolding insert_token create_token_failed
create_token false t db = (db, err create_token_failed)
create_token true t db = insert_token t (find_token t.token db.tokens) db

-- `DELETE FROM tokens WHERE expires_at < NOW()`.
unfoldable pub drop_expired : ℕ → List Token → List Token
drop_expired now [] = []
drop_expired now (t ∷ ts) =
    let rest = drop_expired now ts in if ltb t.expires_at now then rest else t ∷ rest

unfoldable pub delete_expired_tokens : Bool → ℕ → Storage → Storage × Result (Unit {0})
delete_expired_tokens false now db =
    (db, err (wrap (str "failed to delete expired tokens") db_error))
delete_expired_tokens true now db = (record db { tokens = drop_expired now db.tokens }, ok tt)

pub record Claims : Type 0 where
  pub node_id : Option GoString
  pub exp : ℕ
  pub iat : ℕ

-- `SignedString` with HS256, and `jwt.Parse` with the check of the method, at a time.
pub record Jwt : Type 0 where
  pub sign : GoString → Claims → Option GoString
  pub parse : GoString → ℕ → GoString → Option Claims

-- What the library promises of a token that it signed: with the same secret it parses, until it
-- expires.
pub record IsGenuine (j : Jwt) (secret : GoString) (c : Claims) : Type 0 where
  pub text : GoString
  pub signed : j.sign secret c ≡ some text
  pub parsed : (now : ℕ) → j.parse secret now text ≡ (if ltb now c.exp then some c else none)

pub record IdentityService : Type 0 where
  pub jwt_secret : GoString
  pub network_secret : GoString
  pub token_ttl : ℕ

abbrev pub claims_of : IdentityService → GoString → ℕ → Claims
claims_of s node now = record { node_id = some node; exp = now + s.token_ttl; iat = now }

pub record Registration : Type 0 where
  pub node : GoString
  pub token : GoString
  pub expires_at : ℕ

token_error : Storage → GoString → GoError → Storage × Result Registration
token_error db text e = (db, err (wrap text e))

finish_token : Registration → Storage × Result (Unit {0}) → Storage × Result Registration
finish_token reg (db, ok u) = (db, ok reg)
finish_token reg (db, err e) = (db, err (wrap (str "failed to create token") e))

store_token :
    Bool
    → IdentityService
    → ℕ
    → GoString
    → Option GoString
    → Storage
    → Storage × Result Registration
unfolding finish_token
store_token up s now node none db = (
  db,
  err (
      wrap (str "failed to generate token")
        (wrap (str "failed to sign token") (foreign (str "jwt")))),
)
store_token up s now node (some text) db =
    finish_token (record { node = node; token = text; expires_at = now + s.token_ttl })
      (create_token up (record { token = text; node_id = node; expires_at = now + s.token_ttl }) db)

with_node : Jwt → Bool → IdentityService → ℕ → Storage × Result Node → Storage × Result Registration
unfolding store_token
with_node j up s now (db, ok n) =
    store_token up s now n.id (j.sign s.jwt_secret (claims_of s n.id now)) db
with_node j up s now (db, err e) = (db, err (wrap (str "failed to create node") e))

pub invalid_secret : GoError
invalid_secret = plain (str "invalid network secret")

-- What a client sends; `fresh` is the id of a new row.
pub record Request : Type 0 where
  pub public_key : GoString
  pub version : GoString
  pub peer_id : GoString
  pub network_secret : GoString

unfoldable pub register_node :
    Jwt
    → Bool
    → Bool
    → IdentityService
    → ℕ
    → GoString
    → Request
    → Storage
    → Storage × Result Registration
unfolding with_node invalid_secret
register_node j node_up token_up s now fresh req db =
    if not (is_empty s.network_secret) && not (str_eq req.network_secret s.network_secret)
    then (db, err invalid_secret)
    else with_node j token_up s now
        (create_node node_up fresh req.public_key req.version req.peer_id db)

-- `NodeID` and `Valid`.
abbrev pub Answer : Type 0
Answer = Result (GoString × Bool)

abbrev pub refused : Answer
refused = ok ([], false)

check_record : ℕ → GoString → Option Token → Answer
check_record now node none = refused
check_record now node (some t) = if ltb t.expires_at now then refused else ok (node, true)

check_claims : Bool → ℕ → GoString → Option GoString → Storage → Answer
unfolding check_record
check_claims up now token none db = err (plain (str "node_id not found in token"))
check_claims false now token (some node) db = refused
check_claims true now token (some node) db = check_record now node (find_token token db.tokens)

check_parsed : Bool → ℕ → GoString → Option Claims → Storage → Answer
unfolding check_claims
check_parsed up now token none db = refused
check_parsed up now token (some c) db = check_claims up now token c.node_id db

unfoldable pub validate : Jwt → Bool → IdentityService → ℕ → GoString → Storage → Answer
unfolding check_parsed
validate j up s now token db = check_parsed up now token (j.parse s.jwt_secret now token) db

key_of : Option Node → Result GoString
key_of none = err (wrap (str "node not found") (wrap (str "failed to get node") db_error))
key_of (some n) = ok n.public_key

unfoldable pub get_public_key : Bool → GoString → Storage → Result GoString
unfolding key_of
get_public_key false node db = key_of none
get_public_key true node db = key_of (find_node node db.nodes)
