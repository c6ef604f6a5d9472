-- ===== src/WireGuard/Render.antt =====
-- The text of the configuration read back: the lines of a text, and the peers among them.
use gordion_vpn.Base.{
  ℕ, zero, suc, ◌+◌, ◌/◌, ◌%◌, ◌≡◌, refl, ap, ◌∙◌, Bool, true, false, Option, none, some, List, [],
  ◌∷◌, ◌++◌, arith, if◌then◌else◌, ◌==◌, All,
}
use gordion_vpn.Base.Bytes.{GoString, str, str_eq}
use gordion_vpn.Base.Decimal.{digits}
use gordion_vpn.WireGuard.{PeerConfig, Config, line, dns_text, render_peers, render}

abbrev cons_head : ℕ → List GoString → List GoString
cons_head c [] = (c ∷ []) ∷ []
cons_head c (l ∷ ls) = (c ∷ l) ∷ ls

unfoldable pub lines : GoString → List GoString
lines [] = [] ∷ []
lines (c ∷ cs) = let rest = lines cs in if c == 10 then [] ∷ rest else cons_head c rest

-- The value on a line that starts with the name of its field, and nothing for any other line.
abbrev pub value_of : GoString → GoString → Option GoString
value_of [] l = some l
value_of (c ∷ cs) [] = none
value_of (c ∷ cs) (d ∷ ds) = let rest = value_of cs ds in if c == d then rest else none

abbrev peer_with : Option GoString → Option GoString → Option GoString → Option PeerConfig
peer_with (some key) (some endpoint) (some ips) =
    some (record { public_key = key; endpoint = endpoint; allowed_ips = ips })
peer_with _ _ _ = none

-- The three lines that follow the heading of a peer, by the names that wg-quick(8) and wg(8) give to
-- the fields.
abbrev pub peer_at : List GoString → Option PeerConfig
peer_at (a ∷ b ∷ c ∷ ls) =
    peer_with (value_of (str "PublicKey = ") a) (value_of (str "Endpoint = ") b)
      (value_of (str "AllowedIPs = ") c)
peer_at _ = none

abbrev cons_peer : Option PeerConfig → Option (List PeerConfig) → Option (List PeerConfig)
cons_peer (some p) (some ps) = some (p ∷ ps)
cons_peer _ _ = none

-- The peers of a configuration: nothing if a line of a peer has a name that WireGuard does not know.
unfoldable pub read_peers : List GoString → Option (List PeerConfig)
read_peers [] = some []
read_peers (l ∷ ls) =
    let rest = read_peers ls in
    if str_eq l (str "[Peer]") then cons_peer (peer_at ls) rest else rest

-- The text has no line break.
unfoldable pub one_line : GoString → Bool
one_line [] = true
one_line (c ∷ cs) = let rest = one_line cs in if c == 10 then false else rest

lines-line : (a rest : GoString) → one_line a ≡ true → lines (line a rest) ≡ a ∷ lines rest
unfolding lines one_line
lines-line [] rest o = refl
lines-line (c ∷ cs) rest o = ground (arith, o, lines-line cs rest)

-- Several lines before the rest.
abbrev join : List GoString → GoString → GoString
join [] rest = rest
join (a ∷ more) rest = line a (join more rest)

lines-join :
    (texts : List GoString) (rest : GoString)
    → All (λ a. one_line a ≡ true) texts
    → lines (join texts rest) ≡ texts ++ lines rest
lines-join [] rest o = refl
lines-join (a ∷ more) rest (o, os) =
    lines-line a (join more rest) o ∙ ap (λ ls. a ∷ ls) (lines-join more rest os)

one_line-append :
    (a b : GoString) → one_line a ≡ true → one_line b ≡ true → one_line (a ++ b) ≡ true
unfolding one_line
one_line-append [] b o p = p
one_line-append (c ∷ cs) b o p = ground (arith, o, one_line-append cs b)

one_line-digits : (fuel n : ℕ) → one_line (digits fuel n) ≡ true
unfolding digits one_line
one_line-digits zero n = refl
one_line-digits (suc fuel) n =
    let more = one_line-digits fuel (n / 10) in
    ground (arith, more, one_line-append (digits fuel (n / 10)) ((48 + n % 10) ∷ []))

abbrev pub IsOneLine : PeerConfig → Type 0
IsOneLine p =
    (one_line p.public_key ≡ true) × (one_line p.endpoint ≡ true) × (one_line p.allowed_ips ≡ true)

abbrev peer_lines : PeerConfig → List GoString
peer_lines p =
    str "[Peer]"
    ∷ (str "PublicKey = " ++ p.public_key)
    ∷ (str "Endpoint = " ++ p.endpoint)
    ∷ (str "AllowedIPs = " ++ p.allowed_ips)
    ∷ str "PersistentKeepalive = 25"
    ∷ []
    ∷ []

peer_lines-one : (p : PeerConfig) → IsOneLine p → All (λ a. one_line a ≡ true) (peer_lines p)
unfolding one_line
peer_lines-one p (k, e, a) = (refl, (k, (e, (a, (refl, (refl, tt))))))

read_peers-peer_lines :
    (p : PeerConfig) (ls : List GoString)
    → read_peers (peer_lines p ++ ls) ≡ cons_peer (some p) (read_peers ls)
unfolding read_peers str_eq
read_peers-peer_lines p ls = refl

read_peers_nil : read_peers (lines []) ≡ some []
unfolding read_peers lines str_eq
read_peers_nil = refl

read_peers-render_peers :
    (ps : List PeerConfig) → All IsOneLine ps → read_peers (lines (render_peers ps)) ≡ some ps
unfolding render_peers
read_peers-render_peers [] o = read_peers_nil
read_peers-render_peers (p ∷ ps) ((k, e, a), o) =
    ap read_peers (lines-join (peer_lines p) (render_peers ps) (peer_lines-one p (k, e, a)))
    ∙ (read_peers-peer_lines p (lines (render_peers ps))
        ∙ ap (cons_peer (some p)) (read_peers-render_peers ps o))

abbrev interface_lines : Config → List GoString
interface_lines c =
    str "[Interface]"
    ∷ (str "PrivateKey = " ++ c.private_key)
    ∷ (str "ListenPort = " ++ digits 20 c.listen_port)
    ∷ (str "Address = " ++ c.address)
    ∷ (str "MTU = " ++ digits 20 c.mtu)
    ∷ dns_text c.dns
    ∷ []
    ∷ []

one_line-dns : (dns : GoString) → one_line dns ≡ true → one_line (dns_text dns) ≡ true
unfolding one_line
one_line-dns [] d = refl
one_line-dns (c ∷ cs) d = d

interface_lines-one :
    (c : Config)
    → one_line c.private_key ≡ true
    → one_line c.address ≡ true
    → one_line c.dns ≡ true
    → All (λ a. one_line a ≡ true) (interface_lines c)
unfolding one_line
interface_lines-one c k a d =
    let port = one_line-digits 20 c.listen_port in
    let mtu = one_line-digits 20 c.mtu in
    (refl, (k, (port, (a, (mtu, (one_line-dns c.dns d, (refl, tt)))))))

read_peers-dns :
    (dns : GoString) (ls : List GoString) → read_peers (dns_text dns ∷ [] ∷ ls) ≡ read_peers ls
unfolding read_peers str_eq
read_peers-dns [] ls = refl
read_peers-dns (c ∷ cs) ls = refl

read_peers-interface_lines :
    (c : Config) (ls : List GoString) → read_peers (interface_lines c ++ ls) ≡ read_peers ls
unfolding read_peers str_eq
read_peers-interface_lines c ls = read_peers-dns c.dns ls

-- The text of the configuration has the peers' fields under the names that WireGuard knows, and they
-- can be read back from it, whatever they are, as long as no text in it has a line break.
pub read_peers-render :
    (c : Config)
    → one_line c.private_key ≡ true
    → one_line c.address ≡ true
    → one_line c.dns ≡ true
    → All IsOneLine c.peers
    → read_peers (lines (render c)) ≡ some c.peers
unfolding render
read_peers-render c k a d o =
    ap read_peers
      (lines-join (interface_lines c) (render_peers c.peers) (interface_lines-one c k a d))
    ∙ (read_peers-interface_lines c (lines (render_peers c.peers))
        ∙ read_peers-render_peers c.peers o)
