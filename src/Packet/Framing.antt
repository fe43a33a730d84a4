-- ===== src/Packet/Framing.antt =====
-- Packets in a byte stream: `MakePacket` and `TryParse` of PacketParser.cpp.
use ll2games_rpg_server.Common.{
  [], ℕ, List, ◌≡◌, length, ◌++◌, some, ◌+◌, ◌≤◌, arith, length-drop, length-append, take-append,
  drop-append, ◌∷◌, ◌-◌, ◌/◌, ◌*◌, take-append_left, ◌%◌, suc, drop-append_left, ◌<◌, ◌^◌,
}
use ll2games_rpg_server.Packet.{
  complete, invalid_packet, header_size, max_packet_size, ntohs, htons, try_parse, make_packet,
  need_more_data,
}

try_parse_framed :
    (type : ℕ) (body rest : List ℕ)
    → type < 2 ^ 16
    → length body ≤ max_packet_size - header_size
    → try_parse (htons (header_size + length body) ++ (htons type ++ (body ++ rest)))
      ≡ (record { status = complete; packet = record { type = type; payload = body } }, rest)
unfolding try_parse
try_parse_framed type body rest small h =
    rw (whole, type_read)
      (ground (arith, length-append body rest, take-append body rest, drop-append body rest))
  where
    whole :
        (header_size + length body) / 256 % 256 * 256 + (header_size + length body) % 256
        ≡ suc (suc (suc (suc (length body))))
    whole = omega arith

    type_read : type / 256 % 256 * 256 + type % 256 ≡ type
    type_read = omega arith

-- `MakePacket` and `TryParse` are inverse: a packet that was made, whatever follows it in the
-- buffer, is parsed to its type and body, and exactly its bytes are taken out.
pub try_parse-make_packet :
    (type : ℕ) (body : List ℕ) {packet : List ℕ} (rest : List ℕ)
    → type < 2 ^ 16
    → make_packet type body ≡ some packet
    → try_parse (packet ++ rest)
      ≡ (record { status = complete; packet = record { type = type; payload = body } }, rest)
unfolding make_packet
try_parse-make_packet type body {packet} rest small made =
    let fits : length body ≤ max_packet_size - header_size = ground arith in
    let bytes : packet ≡ htons (header_size + length body) ++ (htons type ++ body) = ground arith in
    rw bytes (try_parse_framed type body rest small fits)

-- Bytes that arrive later change neither a complete packet nor a refusal.
pub try_parse-append_complete :
    (buf later : List ℕ)
    → (try_parse buf).0.status ≡ complete
    → try_parse (buf ++ later) ≡ ((try_parse buf).0, (try_parse buf).1 ++ later)
unfolding try_parse
try_parse-append_complete [] later done = cc
try_parse-append_complete (a ∷ []) later done = cc
try_parse-append_complete (a ∷ (b ∷ [])) later done = cc
try_parse-append_complete (a ∷ (b ∷ (c ∷ []))) later done = cc
try_parse-append_complete (a ∷ (b ∷ (c ∷ (d ∷ r)))) later done =
    let n = a * 256 + b in
    let buf = a ∷ b ∷ c ∷ d ∷ r in
    ground (
      arith,
      length-append buf later,
      take-append_left (n - header_size) r later,
      drop-append_left n buf later,
    )

pub try_parse-append_invalid :
    (buf later : List ℕ)
    → (try_parse buf).0.status ≡ invalid_packet
    → try_parse (buf ++ later) ≡ ((try_parse buf).0, buf ++ later)
unfolding try_parse
try_parse-append_invalid [] later bad = cc
try_parse-append_invalid (a ∷ []) later bad = cc
try_parse-append_invalid (a ∷ (b ∷ [])) later bad = cc
try_parse-append_invalid (a ∷ (b ∷ (c ∷ []))) later bad = cc
try_parse-append_invalid (a ∷ (b ∷ (c ∷ (d ∷ r)))) later bad =
    let n = a * 256 + b in let buf = a ∷ b ∷ c ∷ d ∷ r in ground (arith, length-append buf later)

-- A complete packet takes its header at least out of the buffer.
pub try_parse-shrinks :
    (buf : List ℕ)
    → (try_parse buf).0.status ≡ complete
    → length (try_parse buf).1 + header_size ≤ length buf
unfolding try_parse
try_parse-shrinks buf done = ground (arith, length-drop (ntohs buf) buf)

pub try_parse-incomplete :
    (buf : List ℕ) → (try_parse buf).0.status ≡ need_more_data → (try_parse buf).1 ≡ buf
unfolding try_parse
try_parse-incomplete buf short = ground arith
