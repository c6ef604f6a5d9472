-- ===== src/Bridge.antt =====
-- services/agent/internal/p2p/bridge.go. A peer's relay is its proxy port, its stream and its UDP
-- socket; libp2p and the system's sockets are parameters: whether a stream opens and whether a port
-- can be bound come with each call. Streams are numbered, and a socket is named by its port.
pub mod Framing
pub mod Table
pub mod Relays
pub mod Race
mod Tests
use gordion_vpn.Base.{
  ℕ, ◌+◌, Bool, true, false, Option, none, some, List, [], ◌∷◌, if◌then◌else◌, ◌==◌, ltb, ◌&&◌,
  ◌||◌,
}
use gordion_vpn.Base.Bytes.{GoString, str, str_eq}
use gordion_vpn.Grpc.{GoError, wrap, foreign, Result, ok, err}

pub record Relay : Type 0 where
  pub proxy_port : ℕ
  pub stream : Option ℕ

-- `is_open n` says whether the bridge holds the UDP socket of port `n`, `is_closed` whether it has
-- closed or reset stream `n`.
pub record Bridge : Type 0 where
  pub next_port : ℕ
  pub peers : List (GoString × Relay)
  pub is_open : ℕ → Bool
  pub is_closed : ℕ → Bool

-- Go's maps.
abbrev pub lookup : List (GoString × Relay) → GoString → Option Relay
lookup [] k = none
lookup ((j, v) ∷ xs) k = let rest = lookup xs k in if str_eq j k then some v else rest

abbrev pub delete : GoString → List (GoString × Relay) → List (GoString × Relay)
delete k [] = []
delete k ((j, v) ∷ xs) = let rest = delete k xs in if str_eq j k then rest else (j, v) ∷ rest

abbrev pub put : GoString → Relay → List (GoString × Relay) → List (GoString × Relay)
put k v xs = (k, v) ∷ delete k xs

abbrev pub mark : Bool → ℕ → (ℕ → Bool) → ℕ → Bool
mark b n f m = if n == m then b else f m

abbrev pub mark_stream : Option ℕ → (ℕ → Bool) → ℕ → Bool
mark_stream none f m = f m
mark_stream (some n) f m = mark true n f m

unfoldable pub new_bridge : ℕ → Bridge
new_bridge base_proxy_port = record {
  next_port = base_proxy_port;
  peers = [];
  is_open = λ n. false;
  is_closed = λ n. false;
}

pub listen_error : GoError
listen_error = wrap (str "bridge: failed to listen on UDP") (foreign (str "net"))

-- A relay on the next port, which `bound` says can be bound; a port is used up either way.
unfoldable pub allocate : Bool → GoString → Option ℕ → Bridge → Bridge × Result ℕ
unfolding listen_error
allocate true peer stream b = (
  record {
    next_port = b.next_port + 1;
    peers = put peer (record { proxy_port = b.next_port; stream = stream }) b.peers;
    is_open = mark true b.next_port b.is_open;
    is_closed = b.is_closed;
  },
  ok b.next_port,
)
allocate false peer stream b = (record b { next_port = b.next_port + 1 }, err listen_error)

abbrev pub allocate_relay_no_stream : Bool → GoString → Bridge → Bridge × Result ℕ
allocate_relay_no_stream bound peer b = allocate bound peer none b

-- The relay that is there gets the new stream, and its old one is reset.
unfoldable pub adopt : Option Relay → Bool → GoString → ℕ → Bridge → Bridge × Result ℕ
adopt (some relay) bound peer stream b = (
  record b {
    peers = put peer (record relay { stream = some stream }) b.peers;
    is_closed = mark_stream relay.stream b.is_closed;
  },
  ok relay.proxy_port,
)
adopt none bound peer stream b = allocate bound peer (some stream) b

unfoldable pub allocate_relay : Bool → GoString → ℕ → Bridge → Bridge × Result ℕ
unfolding adopt
allocate_relay bound peer stream b = adopt (lookup b.peers peer) bound peer stream b

-- `RegisterIncoming`'s handler: both of its ways to a relay that is there are `allocate_relay`'s.
unfoldable pub finish_incoming : ℕ → Bridge × Result ℕ → Bridge
finish_incoming stream (b, ok port) = b
finish_incoming stream (b, err e) = record b { is_closed = mark true stream b.is_closed }

unfoldable pub handle_incoming : Bool → GoString → ℕ → Bridge → Bridge
unfolding finish_incoming
handle_incoming bound peer stream b = finish_incoming stream (allocate_relay bound peer stream b)

unfoldable pub get_proxy_port : GoString → Bridge → Option ℕ
get_proxy_port peer b = elim (lookup b.peers peer) [ none ↦ none | some r ↦ some r.proxy_port ]

unfoldable pub wait_for : Option Relay → Bool → GoString → Bridge → Bridge × Result ℕ
wait_for (some relay) bound peer b = (b, ok relay.proxy_port)
wait_for none bound peer b = allocate_relay_no_stream bound peer b

abbrev stream_error : GoError
stream_error = wrap (str "bridge: stream failed") (foreign (str "libp2p"))

finish_add : ℕ → Bridge × Result ℕ → Bridge × Result ℕ
finish_add stream (b, ok port) = (b, ok port)
finish_add stream (b, err e) = (record b { is_closed = mark true stream b.is_closed }, err e)

unfoldable pub open_stream : Bool → GoString → Option ℕ → Bridge → Bridge × Result ℕ
unfolding finish_add
open_stream bound peer none b = (b, err stream_error)
open_stream bound peer (some stream) b = finish_add stream (allocate_relay bound peer stream b)

-- Go's `<` on strings.
unfoldable pub is_less : GoString → GoString → Bool
is_less [] [] = false
is_less [] (y ∷ ys) = true
is_less (x ∷ xs) [] = false
is_less (x ∷ xs) (y ∷ ys) = ltb x y || ((x == y) && is_less xs ys)

-- `AddPeer` on the host `self`; `opened` is what `NewStream` gives.
unfoldable pub add_peer : GoString → Bool → Option ℕ → GoString → Bridge → Bridge × Result ℕ
unfolding wait_for open_stream is_less
add_peer self bound opened peer b =
    if is_less self peer
    then wait_for (lookup b.peers peer) bound peer b
    else open_stream bound peer opened b

unfoldable pub remove_found : Option Relay → GoString → Bridge → Bridge
remove_found none peer b = b
remove_found (some relay) peer b = record b {
  peers = delete peer b.peers;
  is_open = mark false relay.proxy_port b.is_open;
  is_closed = mark_stream relay.stream b.is_closed;
}

unfoldable pub remove_peer : GoString → Bridge → Bridge
unfolding remove_found
remove_peer peer b = remove_found (lookup b.peers peer) peer b

close_relays : List (GoString × Relay) → Bridge → Bridge
close_relays [] b = b
close_relays ((peer, relay) ∷ xs) b = close_relays xs (record b {
  is_open = mark false relay.proxy_port b.is_open;
  is_closed = mark_stream relay.stream b.is_closed;
})

unfoldable pub close : Bridge → Bridge
unfolding close_relays
close b = close_relays b.peers (record b { peers = [] })
