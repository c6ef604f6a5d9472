-- ===== src/Identity/Again.antt =====
-- The same second, the same node, the same token: why a registration can fail on the uniqueness of
-- tokens.
use gordion_vpn.Base.{
  ℕ, ◌≡◌, refl, sym, ap, ◌∙◌, Bool, true, false, Option, none, some, arith, ◌⊎◌, inl, inr,
}
use gordion_vpn.Base.Bytes.{GoString, str}
use gordion_vpn.Grpc.{GoError, wrap, Result, ok, err}
use gordion_vpn.Identity.{
  upsert, Node, Token, Storage, find_token, find_key, create_node, insert_token, create_token,
  create_token_failed, Jwt, IdentityService, claims_of, Registration, finish_token, store_token,
  with_node, invalid_secret, Request, register_node,
}
use gordion_vpn.Identity.Nodes.{create_node-find_key, create_node-id}
use gordion_vpn.Identity.Tokens.{register_node-IsIssued}

store_taken :
    (up : Bool) (s : IdentityService) (now : ℕ) (node text : GoString) (db : Storage) (t : Token)
    → find_token text db.tokens ≡ some t
    → (e : GoError) × ((store_token up s now node (some text) db).1 ≡ err e)
unfolding store_token create_token insert_token finish_token
store_taken false s now node text db t f = (_, refl)
store_taken true s now node text db t f =
    (wrap (str "failed to create token") create_token_failed, ground arith)

with_node-second :
    (j : Jwt) (up : Bool) (s : IdentityService) (now : ℕ) (p : Storage × Result Node)
    (reg : Registration) (t : Token)
    → ((m : Node) → p.1 ≡ ok m → m.id ≡ reg.node)
    → j.sign s.jwt_secret (claims_of s reg.node now) ≡ some reg.token
    → find_token reg.token p.0.tokens ≡ some t
    → (e : GoError) × ((with_node j up s now p).1 ≡ err e)
unfolding with_node
with_node-second j up s now (db, ok n) reg t same e f =
    let (x, q) = store_taken up s now n.id reg.token db t f in
    let w : j.sign s.jwt_secret (claims_of s n.id now) ≡ some reg.token =
      ap (λ id. j.sign s.jwt_secret (claims_of s id now)) (same n refl) ∙ e in
    (x, ap (λ o. (store_token up s now n.id o db).1) w ∙ q)
with_node-second j up s now (db, err x) reg t same e f = (_, refl)

finish_token-nodes :
    (r : Registration) (p : Storage × Result (Unit {0})) → (finish_token r p).0.nodes ≡ p.0.nodes
unfolding finish_token
finish_token-nodes r (db, ok u) = refl
finish_token-nodes r (db, err e) = refl

finish_token-node :
    (r : Registration) (p : Storage × Result (Unit {0})) (reg : Registration)
    → (finish_token r p).1 ≡ ok reg
    → r.node ≡ reg.node
unfolding finish_token
finish_token-node r (db, ok u) reg h = ground arith
finish_token-node r (db, err e) reg h = cc

create_token-nodes :
    (up : Bool) (t : Token) (db : Storage) → (create_token up t db).0.nodes ≡ db.nodes
unfolding create_token insert_token
create_token-nodes up t db = ground arith

store_token-node :
    (up : Bool) (s : IdentityService) (now : ℕ) (node : GoString) (o : Option GoString)
    (db : Storage) (reg : Registration)
    → (store_token up s now node o db).1 ≡ ok reg
    → (node ≡ reg.node) × ((store_token up s now node o db).0.nodes ≡ db.nodes)
unfolding store_token
store_token-node up s now node none db reg h = cc
store_token-node up s now node (some text) db reg h =
    (finish_token-node _ _ reg h, finish_token-nodes _ _ ∙ create_token-nodes up _ db)

with_node-node :
    (j : Jwt) (up : Bool) (s : IdentityService) (now : ℕ) (key : GoString)
    (p : Storage × Result Node) (reg : Registration)
    → ((n : Node) → p.1 ≡ ok n → find_key key p.0.nodes ≡ some n)
    → (with_node j up s now p).1 ≡ ok reg
    → (n : Node) × (n.id ≡ reg.node) × (find_key key (with_node j up s now p).0.nodes ≡ some n)
unfolding with_node
with_node-node j up s now key (db, ok n) reg f h =
    let (a, b) = store_token-node up s now n.id _ db reg h in (n, a, ap (find_key key) b ∙ f n refl)
with_node-node j up s now key (db, err e) reg f h = cc

-- The guard of `RegisterNode` passed, or the call failed.
register_node-cases :
    (j : Jwt) (node_up token_up : Bool) (s : IdentityService) (now : ℕ) (fresh : GoString)
    (req : Request) (db : Storage)
    → (register_node j node_up token_up s now fresh req db ≡ (db, err invalid_secret))
      ⊎ (register_node j node_up token_up s now fresh req db
          ≡ with_node j token_up s now
              (create_node node_up fresh req.public_key req.version req.peer_id db))
unfolding register_node
register_node-cases j node_up token_up s now fresh req db = ground arith

-- A registration that succeeds leaves the key with the node it returns.
pub register_node-find_key :
    (j : Jwt) (node_up token_up : Bool) (s : IdentityService) (now : ℕ) (fresh : GoString)
    (req : Request) (db : Storage) (reg : Registration)
    → (register_node j node_up token_up s now fresh req db).1 ≡ ok reg
    → (n : Node) × (n.id ≡ reg.node)
      × (find_key req.public_key (register_node j node_up token_up s now fresh req db).0.nodes
          ≡ some n)
register_node-find_key j node_up token_up s now fresh req db reg h =
    elim (register_node-cases j node_up token_up s now fresh req db) [
      | inl e ↦ ground (arith, e, h)
      | inr w ↦
          let p = create_node node_up fresh req.public_key req.version req.peer_id db in
          let (n, a, b) =
            with_node-node j token_up s now req.public_key p reg
              (create_node-find_key node_up fresh req.public_key req.version req.peer_id db)
              (sym (ap (λ q. q.1) w) ∙ h) in
          (n, a, ap (λ q. find_key req.public_key q.0.nodes) w ∙ b)
    ]

create_node-tokens :
    (up : Bool) (fresh key version peer : GoString) (db : Storage)
    → (create_node up fresh key version peer db).0.tokens ≡ db.tokens
unfolding create_node upsert
create_node-tokens up fresh key version peer db = ground arith

-- A node that registers again in the same second gets an error, whatever its second request says
-- and whether the database answers: the second token would be the first one, which the table may
-- not hold twice.
pub second_registration_fails :
    (j : Jwt) (a b c d : Bool) (s : IdentityService) (now : ℕ) (fresh again : GoString)
    (req second : Request) (db : Storage) (reg : Registration)
    → second.public_key ≡ req.public_key
    → (register_node j a b s now fresh req db).1 ≡ ok reg
    → let t = (register_node j a b s now fresh req db).0 in
      (e : GoError) × ((register_node j c d s now again second t).1 ≡ err e)
second_registration_fails j a b c d s now fresh again req second db reg same h =
    let t = (register_node j a b s now fresh req db).0 in
    let i = register_node-IsIssued j a b s now fresh req db reg h in
    let (n, x, y) = register_node-find_key j a b s now fresh req db reg h in
    elim (register_node-cases j c d s now again second t) [
      | inl e ↦ (invalid_secret, ap (λ q. q.1) e)
      | inr w ↦
          let p = create_node c again second.public_key second.version second.peer_id t in
          let (e, z) =
            with_node-second j d s now p reg _
              (λ m f.
                create_node-id c again second.public_key second.version second.peer_id t n m
                  (ap (λ k. find_key k t.nodes) same ∙ y) f
                ∙ x)
              i.signed
              (ap (find_token reg.token)
                  (create_node-tokens c again second.public_key second.version second.peer_id t)
                ∙ i.stored) in
          (e, ap (λ q. q.1) w ∙ z)
    ]
