-- ===== src/Bridge/Framing.antt =====
-- `writePacket` and `readPacket`: how packets travel over a stream. A stream is its bytes up to its
-- end; a byte is a number below 256.
use mathlib.Core.List.{append_assoc, append-nil}
use gordion_vpn.Base.{
  take-append, length-drop, drop-append, ℕ, zero, suc, ◌+◌, ◌*◌, ◌/◌, ◌%◌, ◌^◌, ◌≤◌, ◌<◌, ◌≡◌, refl,
  ap, ◌∙◌, List, [], ◌∷◌, ◌++◌, arith, if◌then◌else◌, ◌==◌, leb, length, length-append, take, drop,
  All, sym, ◌⊎◌, inl, inr,
}

abbrev pub Bytes : Type 0
Bytes = List ℕ

-- `uint16(len(data))`, the high byte first, and the packet.
unfoldable pub header : Bytes → Bytes
header packet = length packet % 2 ^ 16 / 256 ∷ length packet % 2 ^ 16 % 256 ∷ []

-- How a write of a packet ends: both calls of `Write` succeed, or one of them fails after some
-- bytes of the whole got onto the stream.
pub data Sent : Type 0 where
  complete : Sent
  cut_after : ℕ → Sent

-- The bytes on the stream after `writePacket`.
unfoldable pub write_packet : Sent → Bytes → Bytes → Bytes
unfolding header
write_packet complete packet written = written ++ header packet ++ packet
write_packet (cut_after n) packet written = written ++ take n (header packet ++ packet)

-- What `io.ReadFull` reads.
pub data Read : Type 0 where
  full : Bytes → Bytes → Read  -- the bytes read, and those left on the stream
  eof : Read  -- no byte was left
  unexpected_eof : Read  -- some were, but not enough

unfoldable pub read_full : ℕ → Bytes → Read
read_full n bytes =
    if leb n (length bytes)
    then full (take n bytes) (drop n bytes)
    else if length bytes == 0
    then eof
    else unexpected_eof

unfoldable pub uint16 : Bytes → ℕ
uint16 [] = 0
uint16 (hi ∷ []) = 0
uint16 (hi ∷ lo ∷ rest) = hi * 256 + lo

read_body : Read → Read
unfolding read_full uint16
read_body (full head rest) = read_full (uint16 head) rest
read_body eof = eof
read_body unexpected_eof = unexpected_eof

unfoldable pub read_packet : Bytes → Read
unfolding read_body
read_packet bytes = read_body (read_full 2 bytes)

abbrev left : Read → Bytes
left (full packet rest) = rest
left eof = []
left unexpected_eof = []

abbrev pass_on : Read → List Bytes × Read → List Bytes × Read
pass_on (full packet rest) more = (packet ∷ more.0, more.1)
pass_on eof more = ([], eof)
pass_on unexpected_eof more = ([], unexpected_eof)

-- The loop of `streamToUDP`: the packets that it passes on to WireGuard, and the error that ends
-- it. Each round takes at least the two bytes of a header, so a fuel above the number of bytes is
-- enough.
unfoldable pub stream_to_udp : ℕ → Bytes → List Bytes × Read
stream_to_udp zero bytes = ([], full [] bytes)
stream_to_udp (suc fuel) bytes =
    let r = read_packet bytes in let more = stream_to_udp fuel (left r) in pass_on r more

-- The loop of `udpToStream`, which goes on after a write that fails.
unfoldable pub udp_to_stream : List (Bytes × Sent) → Bytes → Bytes
udp_to_stream [] written = written
udp_to_stream ((packet, sent) ∷ packets) written =
    udp_to_stream packets (write_packet sent packet written)

read_full-append : (xs ys : Bytes) → read_full (length xs) (xs ++ ys) ≡ full xs ys
unfolding read_full
read_full-append xs ys = ground (arith, length-append xs ys, take-append xs ys, drop-append xs ys)

uint16-header : (packet : Bytes) → length packet < 2 ^ 16 → uint16 (header packet) ≡ length packet
unfolding uint16 header
uint16-header packet h = omega arith

-- A packet that fits the header is read back from the stream, with what follows left.
pub read_packet-header :
    (packet rest : Bytes)
    → length packet < 2 ^ 16
    → read_packet (header packet ++ packet ++ rest) ≡ full packet rest
unfolding read_packet read_body uint16 header
read_packet-header packet rest h =
    ap read_body (read_full-append (header packet) (packet ++ rest))
    ∙ ap (λ n. read_full n (packet ++ rest)) (uint16-header packet h)
    ∙ read_full-append packet rest

abbrev pub completed : List Bytes → List (Bytes × Sent)
completed [] = []
completed (packet ∷ packets) = (packet, complete) ∷ completed packets

unfoldable pub frames : List Bytes → Bytes
frames [] = []
frames (packet ∷ packets) = header packet ++ packet ++ frames packets

udp_to_stream-frames :
    (packets : List Bytes) (written : Bytes)
    → udp_to_stream (completed packets) written ≡ written ++ frames packets
unfolding udp_to_stream write_packet frames header
udp_to_stream-frames [] written = sym (append-nil written)
udp_to_stream-frames (p ∷ packets) written =
    udp_to_stream-frames packets (written ++ header p ++ p)
    ∙ append_assoc (written ++ header p) p (frames packets)
    ∙ append_assoc written (header p) (p ++ frames packets)

abbrev pub Fits : Bytes → Type 0
Fits packet = length packet < 2 ^ 16

length-frames :
    (p : Bytes) (packets : List Bytes)
    → length (frames (p ∷ packets)) ≡ 2 + length p + length (frames packets)
unfolding frames header
length-frames p packets = omega (arith, length-append p (frames packets))

empty_packets : (fuel : ℕ) → stream_to_udp (suc fuel) [] ≡ ([], eof)
unfolding stream_to_udp read_packet read_body read_full
empty_packets fuel = refl

stream_to_udp-frames :
    (packets : List Bytes) (fuel : ℕ)
    → All Fits packets
    → length (frames packets) < fuel
    → stream_to_udp fuel (frames packets) ≡ (packets, eof)
unfolding stream_to_udp frames
stream_to_udp-frames packets zero fit h = absurd (omega arith)
stream_to_udp-frames [] (suc fuel) fit h = empty_packets fuel
stream_to_udp-frames (p ∷ packets) (suc fuel) (fit, fits) h =
    let more : stream_to_udp fuel (frames packets) ≡ (packets, eof) =
      stream_to_udp-frames packets fuel fits (omega (arith, length-frames p packets)) in
    ap (λ r. pass_on r (stream_to_udp fuel (left r))) (read_packet-header p (frames packets) fit)
    ∙ ap (pass_on (full p (frames packets))) more

-- Packets of at most 65535 bytes, written to a stream on which every write succeeds, come out of
-- it as they went in, in the same order and nothing else, until the stream ends.
pub stream_to_udp-udp_to_stream :
    (packets : List Bytes)
    → All Fits packets
    → let bytes = udp_to_stream (completed packets) [] in
      stream_to_udp (length bytes + 1) bytes ≡ (packets, eof)
stream_to_udp-udp_to_stream packets fit =
    ap (λ bytes. stream_to_udp (length bytes + 1) bytes) (udp_to_stream-frames packets [])
    ∙ stream_to_udp-frames packets (length (frames packets) + 1) fit (omega arith)

read_full-left : (n : ℕ) (bytes : Bytes) → length (left (read_full n bytes)) ≤ length bytes
unfolding read_full
read_full-left n bytes = ground (arith, length-drop n bytes)

-- A round that reads a packet uses up at least its header.
read_packet-left :
    (bytes : Bytes)
    → (read_packet bytes ≡ eof)
      ⊎ (read_packet bytes ≡ unexpected_eof)
      ⊎ (length (left (read_packet bytes)) + 2 ≤ length bytes)
unfolding read_packet read_body read_full
read_packet-left [] = inl refl
read_packet-left (x ∷ []) = inr (inl refl)
read_packet-left (x ∷ y ∷ bytes) =
    let e : read_packet (x ∷ y ∷ bytes) ≡ read_full (x * 256 + y) bytes =
      ap read_body (read_full-append (x ∷ y ∷ []) bytes) in
    ground (arith, e, length-drop (x * 256 + y) bytes)

-- The reader ends on every stream, with one of the two errors of `io.ReadFull`.
pub stream_to_udp-ends :
    (fuel : ℕ) (bytes : Bytes)
    → length bytes < fuel
    → ((stream_to_udp fuel bytes).1 ≡ eof) ⊎ ((stream_to_udp fuel bytes).1 ≡ unexpected_eof)
unfolding stream_to_udp
stream_to_udp-ends zero bytes h = absurd (omega arith)
stream_to_udp-ends (suc fuel) bytes h =
    ground (arith, read_packet-left bytes, stream_to_udp-ends fuel (left (read_packet bytes)))

-- If the header of a packet gets onto the stream and the packet does not, and later writes succeed,
-- then the reader takes the bytes of the later frames, headers and all, for the packet.
pub lost_packet_misframes :
    (lost : Bytes) (packets : List Bytes)
    → Fits lost
    → length lost ≤ length (frames packets)
    → read_packet (udp_to_stream ((lost, cut_after 2) ∷ completed packets) [])
      ≡ full (take (length lost) (frames packets)) (drop (length lost) (frames packets))
unfolding udp_to_stream write_packet header read_packet read_body read_full uint16
lost_packet_misframes lost packets fit h =
    ap read_packet (udp_to_stream-frames packets (header lost))
    ∙ ap read_body (read_full-append (header lost) (frames packets))
    ∙ ap (λ n. read_full n (frames packets)) (uint16-header lost fit)
    ∙ ground arith
