-- ===== src/AuthToken.antt =====
-- SERVER/src/COMMON/auth/AuthTokenGenerator.cpp: a token of 32 random bytes. What `getrandom` answers is
-- an argument.
use ll2games_rpg_server.Common.{
  ℕ, ◌-◌, ◌/◌, ◌%◌, Option, none, some, List, [], ◌∷◌, ◌++◌, ltb, if◌then◌else◌, codes, length,
  take, get_elem?,
}

-- What one call of `getrandom` answers; no bytes are the result 0.
pub data RandomOutcome : Type 0 where
  random_bytes : List ℕ → RandomOutcome
  interrupted random_error : RandomOutcome

-- `Generate` returns a token, throws, or waits for the next answer of `getrandom`.
pub data Generated : Type 0 where
  generated : List ℕ → Generated
  threw unfinished : Generated

abbrev pub token_byte_size : ℕ
token_byte_size = 32

-- One round of the loop of `Generate`: the bytes received so far, or a throw.
abbrev pub take_random : RandomOutcome → List ℕ → Option (List ℕ)
take_random (random_bytes []) buf = none
take_random (random_bytes (b ∷ bs)) buf = some (buf ++ take (token_byte_size - length buf) (b ∷ bs))
take_random interrupted buf = some buf
take_random random_error buf = none

abbrev pub hex_table : List ℕ
hex_table = codes "0123456789abcdef"

abbrev pub hex_digit : ℕ → ℕ
hex_digit i = elim (get_elem? hex_table i) [ none ↦ 0 | some c ↦ c ]

-- The bytes are of type `uint8_t`.
unfoldable pub encode : List ℕ → List ℕ
encode [] = []
encode (b ∷ bs) = hex_digit (b % 256 / 16) ∷ hex_digit (b % 256 % 16) ∷ encode bs

unfoldable pub fill : List RandomOutcome → List ℕ → Generated
unfolding encode
fill [] buf = if ltb (length buf) token_byte_size then unfinished else generated (encode buf)
fill (o ∷ outcomes) buf =
    let next : Generated = elim (take_random o buf) [
      | none ↦ threw
      | some buf' ↦ fill outcomes buf'
    ] in
    if ltb (length buf) token_byte_size then next else generated (encode buf)

-- `AuthTokenGenerator::Generate`
unfoldable pub generate : List RandomOutcome → Generated
unfolding fill
generate outcomes = fill outcomes []
