-- ===== src/Packet/Tests.antt =====
-- Runs of PacketParser.cpp on concrete inputs.
use ll2games_rpg_server.Common.{ℕ, ◌≡◌, refl, some, List, [], ◌∷◌, ◌++◌, arith}
use ll2games_rpg_server.Common.Keys.{ℤ_eq, ℕ_eq}
use ll2games_rpg_server.Packet.{complete, try_parse, make_packet, make_body}
use ll2games_rpg_server.Packet.Framing.{try_parse-make_packet}
use ll2games_rpg_server.Packet.Fields.{parse_fields, parse_fields-make_body}

-- A packet of type 9 with two bytes
abbrev packet_9 : List ℕ
packet_9 = 0 ∷ 6 ∷ 0 ∷ 9 ∷ 1 ∷ 2 ∷ []

made_9 : make_packet 9 (1 ∷ 2 ∷ []) ≡ some packet_9
unfolding make_packet
made_9 = refl

try_parse-make_packet_example :
    try_parse (packet_9 ++ (0 ∷ []))
    ≡ (record { status = complete; packet = record { type = 9; payload = 1 ∷ 2 ∷ [] } }, 0 ∷ [])
try_parse-make_packet_example =
    try_parse-make_packet 9 (1 ∷ 2 ∷ []) {packet = packet_9} (0 ∷ []) (ground arith) made_9

parsed_9 : (try_parse packet_9).0.status ≡ complete
unfolding try_parse
parsed_9 = refl

abbrev two_fields : List (List ℕ)
two_fields = (65 ∷ 66 ∷ []) ∷ [] ∷ []

made_two : make_body two_fields ≡ some (0 ∷ 2 ∷ 65 ∷ 66 ∷ 0 ∷ 0 ∷ [])
unfolding make_body
made_two = refl

parse_fields-make_body_example :
    parse_fields 2 (0 ∷ 2 ∷ 65 ∷ 66 ∷ 0 ∷ 0 ∷ []) 0 ≡ some (two_fields, 6)
parse_fields-make_body_example =
    parse_fields-make_body two_fields {body = 0 ∷ 2 ∷ 65 ∷ 66 ∷ 0 ∷ 0 ∷ []}
      (ground arith, (ground arith, _)) made_two
