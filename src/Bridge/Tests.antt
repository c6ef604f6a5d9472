-- ===== src/Bridge/Tests.antt =====
-- The bridge's theorems at concrete packets and calls, and runs that follow the source.
use gordion_vpn.Base.{◌+◌, ◌≡◌, refl, true, false, none, some, List, [], ◌∷◌, arith, length}
use gordion_vpn.Base.Bytes.{str}
use gordion_vpn.Bridge.{new_bridge}
use gordion_vpn.Bridge.Table.{IsValid}
use gordion_vpn.Bridge.Relays.{Op, incoming, add, remove, run, run-new_bridge-IsValid}
use gordion_vpn.Bridge.Framing.{
  Bytes, header, write_packet, stream_to_udp, udp_to_stream, completed, eof,
  stream_to_udp-udp_to_stream,
}

abbrev hello : Bytes
hello = 1 ∷ 2 ∷ 3 ∷ []

stream_to_udp-udp_to_stream_example :
    let bytes = udp_to_stream (completed (hello ∷ [] ∷ [])) [] in
    stream_to_udp (length bytes + 1) bytes ≡ (hello ∷ [] ∷ [], eof)
stream_to_udp-udp_to_stream_example =
    stream_to_udp-udp_to_stream (hello ∷ [] ∷ []) (omega arith, (omega arith, tt))

framed : udp_to_stream (completed (hello ∷ [] ∷ [])) [] ≡ 0 ∷ 3 ∷ 1 ∷ 2 ∷ 3 ∷ 0 ∷ 0 ∷ []
unfolding udp_to_stream write_packet header
framed = refl

-- Host `m` meets `z`, whose stream it waits for, and `a`, which it calls; `a` leaves.
abbrev calls : List Op
calls =
    add true none (str "z")
    ∷ add true (some 1) (str "a")
    ∷ incoming true (str "z") 2
    ∷ remove (str "a")
    ∷ add false (some 3) (str "b")
    ∷ []

run-new_bridge-IsValid_example : IsValid (run (str "m") calls (new_bridge 40000))
run-new_bridge-IsValid_example = run-new_bridge-IsValid (str "m") 40000 calls

new-IsValid : IsValid (new_bridge 40000)
unfolding run
new-IsValid = run-new_bridge-IsValid (str "m") 40000 []
