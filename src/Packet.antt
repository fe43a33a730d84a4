-- ===== src/Packet.antt =====
-- SERVER/src/COMMON/packet/PacketParser.cpp with the types and limits of
-- SERVER/include/COMMON/packet/Packet.h. A byte is a number below 256; a thrown `length_error` is
-- `none`; an out parameter and a moved buffer are parts of the result.
pub mod Fields
pub mod Framing
mod Tests
use ll2games_rpg_server.Common.{
  ℕ, zero, suc, ◌+◌, ◌-◌, ◌*◌, ◌/◌, ◌%◌, ◌^◌, Bool, Option, none, some, List, [], ◌∷◌, ◌++◌, ltb,
  if◌then◌else◌, length, take, drop,
}

-- `sizeof(PacketHeader)`: two packed `uint16_t`, the length of the whole packet and its type.
abbrev pub header_size : ℕ
header_size = 4

abbrev pub max_packet_size : ℕ
max_packet_size = 16 * 1024

abbrev pub max_u16 : ℕ
max_u16 = 2 ^ 16 - 1

pub record ParsedPacket : Type 0 where
  pub type : ℕ
  pub payload : List ℕ

pub data ParseStatus : Type 0 where
  complete need_more_data invalid_packet : ParseStatus

pub record ParseResult : Type 0 where
  pub status : ParseStatus
  pub packet : ParsedPacket

abbrev pub empty_packet : ParsedPacket
empty_packet = record { type = 0; payload = [] }

-- The byte at a position that the caller has checked.
abbrev pub byte_at : List ℕ → ℕ → ℕ
byte_at [] i = 0
byte_at (x ∷ xs) zero = x
byte_at (x ∷ xs) (suc i) = byte_at xs i

-- `memcpy` of a `uint16_t` and `ntohs`; `htons` and the append of its bytes.
abbrev pub ntohs : List ℕ → ℕ
ntohs bytes = byte_at bytes 0 * 256 + byte_at bytes 1

abbrev pub htons : ℕ → List ℕ
htons n = (n / 256 % 256) ∷ (n % 256) ∷ []

-- `TryParse`: the result, and what it leaves of the buffer.
unfoldable pub try_parse : List ℕ → ParseResult × List ℕ
try_parse buf =
    if ltb (length buf) header_size
    then (record { status = need_more_data; packet = empty_packet }, buf)
    else let packet_length = ntohs buf in
      if ltb packet_length header_size
      then (record { status = invalid_packet; packet = empty_packet }, buf)
      else if ltb max_packet_size packet_length
      then (record { status = invalid_packet; packet = empty_packet }, buf)
      else if ltb (length buf) packet_length
      then (record { status = need_more_data; packet = empty_packet }, buf)
      else (
        record {
          status = complete;
          packet = record {
            type = ntohs (drop 2 buf);
            payload = take (packet_length - header_size) (drop header_size buf);
          };
        },
        drop packet_length buf,
      )

-- The error texts of the field parsers.
pub data FieldError : Type 0 where
  payload_empty field_length_header_overflow payload_length_overflow : FieldError
  string_to_int_failed : List ℕ → FieldError

pub data Field (A : Type 0) : Type 0 where
  value : A → Field A
  failed : FieldError → Field A

-- `ParseLengthPrefixedString` of a payload (`none` is `nullptr`) at an offset: the field or the
-- error, and the offset, which the last error leaves behind the length prefix.
pub parse_length_prefixed_string : Option (List ℕ) → ℕ → Field (List ℕ) × ℕ
parse_length_prefixed_string none offset = (failed payload_empty, offset)
parse_length_prefixed_string (some payload) offset =
    if ltb (length payload) offset
    then (failed field_length_header_overflow, offset)
    else if ltb (length payload - offset) 2
    then (failed field_length_header_overflow, offset)
    else let value_len = ntohs (drop offset payload) in
      if ltb (length payload - (offset + 2)) value_len
      then (failed payload_length_overflow, offset + 2)
      else (value (take value_len (drop (offset + 2) payload)), offset + 2 + value_len)

-- `ParseNextIntField`. `std::from_chars` on the whole text is a parameter, `none` where
-- `StringToInt` returns false.
module _ {I : Type 0} (string_to_int : List ℕ → Option I) where
  abbrev to_int_field : List ℕ → Option I → Field I
  to_int_field temp none = failed (string_to_int_failed temp)
  to_int_field temp (some i) = value i

  abbrev int_field : Field (List ℕ) × ℕ → Field I × ℕ
  int_field (failed e, offset) = (failed e, offset)
  int_field (value temp, offset) = (to_int_field temp (string_to_int temp), offset)

  unfoldable pub parse_next_int_field : Option (List ℕ) → ℕ → Field I × ℕ
  parse_next_int_field payload offset = int_field (parse_length_prefixed_string payload offset)

-- `MakeBody`: the loop appends to `body`, and throws at the first field that is too large.
unfoldable pub make_body_from : List ℕ → List (List ℕ) → Option (List ℕ)
make_body_from body [] = some body
make_body_from body (data' ∷ datas) =
    let rest = make_body_from ((body ++ htons (length data')) ++ data') datas in
    if ltb max_u16 (length data') then none else rest

unfoldable pub make_body : List (List ℕ) → Option (List ℕ)
unfolding make_body_from
make_body datas = make_body_from [] datas

-- `MakePacket`
unfoldable pub make_packet : ℕ → List ℕ → Option (List ℕ)
make_packet type body =
    if ltb (max_packet_size - header_size) (length body)
    then none
    else some (htons (header_size + length body) ++ (htons type ++ body))
