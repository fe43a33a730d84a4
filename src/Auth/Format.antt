-- ===== src/Auth/Format.antt =====
-- The format of the tokens of AuthTokenGenerator.cpp.
use ll2games_rpg_server.Common.{
  ℕ, zero, suc, ◌-◌, ◌*◌, ◌/◌, ◌%◌, ◌≤◌, ◌<◌, ◌≡◌, refl, sym, subst, Bool, true, not, Option, none,
  some, List, [], ◌∷◌, arith, ltb, ◌==◌, if◌then◌else◌, some_inj, if_cases, length, take,
  length-append, length-take_le, get_elem?, none≢some, get_elem?-found,
}
use ll2games_rpg_server.AuthToken.{
  RandomOutcome, random_bytes, interrupted, random_error, Generated, generated, threw, unfinished,
  token_byte_size, take_random, hex_table, hex_digit, encode, fill, generate,
}
use ll2games_rpg_server.Auth.{is_hex, all, is_valid_ticket_format}

all-get_elem? :
    {A : Type 0} (p : A → Bool) (xs : List A) (i : ℕ) (x : A)
    → all p xs ≡ true
    → get_elem? xs i ≡ some x
    → p x ≡ true
all-get_elem? p [] i x h e = absurd (none≢some e)
all-get_elem? p (y ∷ xs) zero x h e = ground arith
all-get_elem? p (y ∷ xs) (suc i) x h e = all-get_elem? p xs i x (ground arith) e

is_hex-hex_digit : (i : ℕ) → i < 16 → is_hex (hex_digit i) ≡ true
is_hex-hex_digit i h =
    let (c, e) = get_elem?-found i hex_table h in
    subst (λ o. is_hex (elim o [ none ↦ 0 | some c ↦ c ]) ≡ true) (sym e)
      (all-get_elem? is_hex hex_table i c refl e)

length-encode : (bs : List ℕ) → length (encode bs) ≡ 2 * length bs
unfolding encode
length-encode [] = refl
length-encode (b ∷ bs) = omega (arith, length-encode bs)

all-encode : (bs : List ℕ) → all is_hex (encode bs) ≡ true
unfolding encode
all-encode [] = refl
all-encode (b ∷ bs) =
    rw
      (is_hex-hex_digit (b % 256 / 16) (omega arith), is_hex-hex_digit (b % 256 % 16) (omega arith))
      (all-encode bs)

encode-format :
    (bs : List ℕ) → length bs ≡ token_byte_size → is_valid_ticket_format (encode bs) ≡ true
unfolding is_valid_ticket_format
encode-format bs h =
    if_cases (λ (b : Bool). b ≡ true) (not (length (encode bs) == 64))
      (λ e. absurd (let n = length-encode bs in ground arith)) λ e. all-encode bs

take_random-length :
    (o : RandomOutcome) (buf buf' : List ℕ)
    → length buf < token_byte_size
    → take_random o buf ≡ some buf'
    → length buf' ≤ token_byte_size
take_random-length (random_bytes []) buf buf' h e = absurd (none≢some e)
take_random-length (random_bytes (b ∷ bs)) buf buf' h e =
    let more = take (token_byte_size - length buf) (b ∷ bs) in
    subst (λ u. length u ≤ token_byte_size) (some_inj e)
      (omega
        (arith, length-append buf more, length-take_le (token_byte_size - length buf) (b ∷ bs)))
take_random-length interrupted buf buf' h e = ground arith
take_random-length random_error buf buf' h e = absurd (none≢some e)

filled-format :
    (buf t : List ℕ) (next : Generated)
    → length buf ≤ token_byte_size
    → (length buf < token_byte_size → next ≡ generated t → is_valid_ticket_format t ≡ true)
    → (if ltb (length buf) token_byte_size then next else generated (encode buf)) ≡ generated t
    → is_valid_ticket_format t ≡ true
filled-format buf t next h more =
    if_cases (λ g. g ≡ generated t → is_valid_ticket_format t ≡ true)
      (ltb (length buf) token_byte_size) (λ e. more (ground arith))
      λ e f.
        subst (λ u. is_valid_ticket_format u ≡ true) (generated_inj f)
          (encode-format buf (ground arith))
  where
    generated_inj : {x y : List ℕ} → generated x ≡ generated y → x ≡ y
    generated_inj g = ground arith

fill-format :
    (outcomes : List RandomOutcome) (buf t : List ℕ)
    → length buf ≤ token_byte_size
    → fill outcomes buf ≡ generated t
    → is_valid_ticket_format t ≡ true
unfolding fill
fill-format [] buf t h = filled-format buf t unfinished h λ small e. absurd (ground arith)
fill-format (o ∷ outcomes) buf t h =
    filled-format buf t (elim (take_random o buf) [ none ↦ threw | some buf' ↦ fill outcomes buf' ])
      h λ small. by_bytes (take_random o buf) refl small (λ buf'. fill-format outcomes buf' t)
  where
    by_bytes :
        (r : Option (List ℕ))
        → take_random o buf ≡ r
        → length buf < token_byte_size
        → ((buf' : List ℕ)
            → length buf' ≤ token_byte_size
            → fill outcomes buf' ≡ generated t
            → is_valid_ticket_format t ≡ true)
        → (elim r as (λ _. Generated) [ none ↦ threw | some buf' ↦ fill outcomes buf' ])
          ≡ generated t
        → is_valid_ticket_format t ≡ true
    by_bytes none e small later g = absurd (ground arith)
    by_bytes (some buf') e small later g = later buf' (take_random-length o buf buf' small e) g

-- A token that `Generate` returns, from whatever `getrandom` answers, passes `IsValidTicketFormat`.
pub generate-format :
    (outcomes : List RandomOutcome) (t : List ℕ)
    → generate outcomes ≡ generated t
    → is_valid_ticket_format t ≡ true
unfolding generate
generate-format outcomes t e = fill-format outcomes [] t (omega arith) e
