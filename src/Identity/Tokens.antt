-- ===== src/Identity/Tokens.antt =====
-- Tokens: issued by `RegisterNode`, accepted by `ValidateToken`, deleted once expired.
use gordion_vpn.Base.{
  ℕ, ◌+◌, ◌≤◌, ◌≡◌, refl, sym, ap, ◌∙◌, Bool, true, false, not, ◌&&◌, Option, none, some, List, [],
  ◌∷◌, arith, if◌then◌else◌, ltb, Bool-cases, inl, inr, subst,
}
use gordion_vpn.Base.Bytes.{GoString, is_empty, str_eq, str_eq_refl, eq_iff}
use gordion_vpn.Grpc.{Result, ok, err}
use gordion_vpn.Identity.{
  Node, Token, Storage, find_token, create_node, insert_token, create_token, drop_expired,
  delete_expired_tokens, Jwt, IsGenuine, IdentityService, claims_of, Registration, finish_token,
  store_token, with_node, Request, register_node, refused, check_record, check_claims, check_parsed,
  validate,
}

-- What a registration that succeeds has issued.
pub record IsIssued (j : Jwt) (s : IdentityService) (now : ℕ) (reg : Registration) (db : Storage)
    : Type 0 where
  pub signed : j.sign s.jwt_secret (claims_of s reg.node now) ≡ some reg.token
  pub expiry : reg.expires_at ≡ now + s.token_ttl
  pub stored :
      find_token reg.token db.tokens
      ≡ some (record { token = reg.token; node_id = reg.node; expires_at = reg.expires_at })

insert_token-find_token :
    (t : Token) (o : Option Token) (db : Storage)
    → (insert_token t o db).1 ≡ ok tt
    → find_token t.token (insert_token t o db).0.tokens ≡ some t
unfolding insert_token find_token
insert_token-find_token t (some old) db h = cc
insert_token-find_token t none db h = ground (arith, str_eq_refl t.token)

create_token-find_token :
    (up : Bool) (t : Token) (db : Storage)
    → (create_token up t db).1 ≡ ok tt
    → find_token t.token (create_token up t db).0.tokens ≡ some t
unfolding create_token
create_token-find_token false t db h = cc
create_token-find_token true t db h = insert_token-find_token t _ db h

finish_token-IsIssued :
    (j : Jwt) (s : IdentityService) (now : ℕ) (node text : GoString)
    (p : Storage × Result (Unit {0})) (reg : Registration)
    → j.sign s.jwt_secret (claims_of s node now) ≡ some text
    → let r : Registration = record { node = node; token = text; expires_at = now + s.token_ttl } in
      (p.1 ≡ ok tt
        → find_token text p.0.tokens
          ≡ some (record { token = text; node_id = node; expires_at = now + s.token_ttl }))
      → (finish_token r p).1 ≡ ok reg
      → IsIssued j s now reg (finish_token r p).0
unfolding finish_token
finish_token-IsIssued j s now node text (db, ok u) reg e f h = record {
  signed = ground (arith, e, h);
  expiry = ground (arith, h);
  stored = ground (arith, f refl, h);
}
finish_token-IsIssued j s now node text (db, err x) reg e f h = cc

store_token-IsIssued :
    (j : Jwt) (up : Bool) (s : IdentityService) (now : ℕ) (node : GoString) (o : Option GoString)
    (db : Storage) (reg : Registration)
    → j.sign s.jwt_secret (claims_of s node now) ≡ o
    → (store_token up s now node o db).1 ≡ ok reg
    → IsIssued j s now reg (store_token up s now node o db).0
unfolding store_token
store_token-IsIssued j up s now node none db reg e h = cc
store_token-IsIssued j up s now node (some text) db reg e h =
    let t : Token = record { token = text; node_id = node; expires_at = now + s.token_ttl } in
    finish_token-IsIssued j s now node text (create_token up t db) reg e
      (create_token-find_token up t db) h

with_node-IsIssued :
    (j : Jwt) (up : Bool) (s : IdentityService) (now : ℕ) (p : Storage × Result Node)
    (reg : Registration)
    → (with_node j up s now p).1 ≡ ok reg
    → IsIssued j s now reg (with_node j up s now p).0
unfolding with_node
with_node-IsIssued j up s now (db, ok n) reg h =
    store_token-IsIssued j up s now n.id _ db reg refl h
with_node-IsIssued j up s now (db, err e) reg h = cc

pub register_node-IsIssued :
    (j : Jwt) (node_up token_up : Bool) (s : IdentityService) (now : ℕ) (fresh : GoString)
    (req : Request) (db : Storage) (reg : Registration)
    → (register_node j node_up token_up s now fresh req db).1 ≡ ok reg
    → IsIssued j s now reg (register_node j node_up token_up s now fresh req db).0
unfolding register_node
register_node-IsIssued j node_up token_up s now fresh req db reg h =
    elim (Bool-cases
      (not (is_empty s.network_secret) && not (str_eq req.network_secret s.network_secret))) [
        | inl e ↦ ground (arith, e, h)
        | inr e ↦
            let p = create_node node_up fresh req.public_key req.version req.peer_id db in
            let w : register_node j node_up token_up s now fresh req db
                ≡ with_node j token_up s now p =
              ground arith in
            subst (λ q. IsIssued j s now reg q.0) (sym w)
              (with_node-IsIssued j token_up s now p reg (sym (ap (λ q. q.1) w) ∙ h))
      ]

-- A token that a registration returns is accepted for its node right after it, while the database
-- answers and until the token expires; it is refused when the database does not answer, and from the
-- second of its expiry on.
pub register_node-validate :
    (j : Jwt) (node_up token_up up : Bool) (s : IdentityService) (now later : ℕ) (fresh : GoString)
    (req : Request) (db : Storage) (reg : Registration)
    → IsGenuine j s.jwt_secret (claims_of s reg.node now)
    → (register_node j node_up token_up s now fresh req db).1 ≡ ok reg
    → validate j up s later reg.token (register_node j node_up token_up s now fresh req db).0
      ≡ (if up && ltb later (now + s.token_ttl) then ok (reg.node, true) else refused)
unfolding validate check_parsed check_claims check_record
register_node-validate j node_up token_up up s now later fresh req db reg g h =
    let i = register_node-IsIssued j node_up token_up s now fresh req db reg h in
    ground (arith, i.signed, i.expiry, i.stored, g.signed, g.parsed later)

-- The table's constraint: no two rows have the same token.
abbrev pub IsUnique : List Token → Type 0
IsUnique [] = Unit
IsUnique (t ∷ ts) = (find_token t.token ts ≡ none) × IsUnique ts

abbrev fresh_only : ℕ → Option Token → Option Token
fresh_only now none = none
fresh_only now (some t) = if ltb t.expires_at now then none else some t

find_token-drop_expired :
    (now : ℕ) (token : GoString) (ts : List Token)
    → IsUnique ts
    → find_token token (drop_expired now ts) ≡ fresh_only now (find_token token ts)
unfolding find_token drop_expired
find_token-drop_expired now token [] u = refl
find_token-drop_expired now token (t ∷ ts) (n, u) =
    ground (arith, eq_iff t.token token, find_token-drop_expired now token ts u, n)

-- Deleting the expired tokens changes no answer of `ValidateToken`, then or later, in a table that
-- obeys its constraint.
pub delete_expired_tokens-validate :
    (j : Jwt) (up deleted : Bool) (s : IdentityService) (now later : ℕ) (token : GoString)
    (db : Storage)
    → IsUnique db.tokens
    → now ≤ later
    → validate j up s later token (delete_expired_tokens deleted now db).0
      ≡ validate j up s later token db
unfolding validate check_parsed check_claims check_record delete_expired_tokens
delete_expired_tokens-validate j up deleted s now later token db u h =
    ground (arith, find_token-drop_expired now token db.tokens u)
