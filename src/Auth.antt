-- ===== src/Auth.antt =====
-- SERVER/src/COMMON/auth/AuthTicketService.cpp: issuing and consuming tickets. The random bytes of each
-- attempt, `std::to_string` and the number parser are arguments.
pub mod Format
pub mod Tickets
pub mod Claims
mod Tests
use ll2games_rpg_server.Common.{
  ℕ, zero, suc, ◌+◌, Bool, true, false, ◌&&◌, ◌||◌, not, Option, none, some, List, [], ◌∷◌, ◌++◌,
  leb, ◌==◌, if◌then◌else◌, codes, length,
}
use ll2games_rpg_server.Common.Int.{ℤ, pos, ltb_ℤ, leb_ℤ, eqb_ℤ}
use ll2games_rpg_server.Packet.{
  make_body, Field, value, failed, parse_length_prefixed_string, parse_next_int_field,
}
use ll2games_rpg_server.AuthToken.{RandomOutcome, generated, threw, unfinished, generate}
use ll2games_rpg_server.RedisClient.{
  Redis, is_empty, stored, already_exists, set_error, found, not_found, get_error,
  RedisGetDelStatus, set_if_absent_with_ttl, get_and_delete,
}

abbrev pub ticket_length : ℕ
ticket_length = 64

abbrev pub is_hex : ℕ → Bool
is_hex c = (leb 48 c && leb c 57) || (leb 97 c && leb c 102)

abbrev pub all : {A : Type 0} → (A → Bool) → List A → Bool
all p [] = true
all p (x ∷ xs) = p x && all p xs

unfoldable pub is_valid_ticket_format : List ℕ → Bool
is_valid_ticket_format ticket =
    if not (length ticket == ticket_length) then false else all is_hex ticket

-- The claims of a channel ticket.
pub record ChannelTicketClaims : Type 0 where
  pub account_id : List ℕ
  pub character_id : ℤ
  pub channel_id : ℤ

unfoldable matches_channel : ℤ → ChannelTicketClaims → Bool
matches_channel expected claims = ltb_ℤ (pos 0) expected && eqb_ℤ claims.channel_id expected

-- What issuing a ticket comes to.
pub data Issued : Type 0 where
  ticket : List ℕ → Issued
  no_ticket waits_for_random : Issued

abbrev pub world_prefix : List ℕ
world_prefix = codes "auth:world:"

abbrev pub channel_prefix : List ℕ
channel_prefix = codes "auth:channel:"

-- A client with its connection.
module _ (redis : Redis) (connected : Bool) where
  -- The attempts of `IssueTicket` that are left, from attempt number `i`.
  unfoldable pub issue_attempts :
      ℕ → ℕ → (ℕ → List RandomOutcome) → List ℕ → List ℕ → ℕ → redis.State → Issued × redis.State
  issue_attempts zero i random prefix data' ttl s = (no_ticket, s)
  issue_attempts (suc left) i random prefix data' ttl s = elim (generate (random i)) [
    | threw ↦ (no_ticket, s)
    | unfinished ↦ (waits_for_random, s)
    | generated t ↦
        let (result, s') = set_if_absent_with_ttl redis connected (prefix ++ t) data' ttl s in
        elim result [
          | stored ↦ (ticket t, s')
          | set_error ↦ (no_ticket, s')
          | already_exists ↦ issue_attempts left (i + 1) random prefix data' ttl s'
        ]
  ]

  unfoldable pub issue_ticket :
      (ℕ → List RandomOutcome) → List ℕ → List ℕ → ℕ → redis.State → Issued × redis.State
  issue_ticket random prefix data' ttl s =
      if is_empty prefix || is_empty data' || (ttl == 0)
      then (no_ticket, s)
      else issue_attempts 3 0 random prefix data' ttl s

  abbrev pub consumed : (RedisGetDelStatus × List ℕ) × redis.State → Option (List ℕ) × redis.State
  consumed ((found, data'), s) = (if is_empty data' then none else some data', s)
  consumed ((not_found, data'), s) = (none, s)
  consumed ((get_error, data'), s) = (none, s)

  unfoldable pub consume_ticket : List ℕ → List ℕ → redis.State → Option (List ℕ) × redis.State
  consume_ticket prefix t s =
      if is_empty prefix || not (is_valid_ticket_format t)
      then (none, s)
      else consumed (get_and_delete redis connected (prefix ++ t) s)

  -- `IssueWorldTicket`, with a lifetime of 300 seconds.
  unfoldable pub issue_world_ticket :
      (ℕ → List RandomOutcome) → List ℕ → redis.State → Issued × redis.State
  issue_world_ticket random account_id s =
      if is_empty account_id
      then (no_ticket, s)
      else issue_ticket random world_prefix account_id 300 s

  -- `IssueChannelTicket`, with a lifetime of 60 seconds; `MakeBody` may throw.
  unfoldable pub issue_channel_ticket :
      (ℤ → List ℕ)
      → (ℕ → List RandomOutcome)
      → ChannelTicketClaims
      → redis.State
      → Issued × redis.State
  issue_channel_ticket to_string random claims s =
      if is_empty claims.account_id
        || leb_ℤ claims.character_id (pos 0)
        || leb_ℤ claims.channel_id (pos 0)
      then (no_ticket, s)
      else elim (make_body
          (claims.account_id ∷ to_string claims.character_id ∷ to_string claims.channel_id ∷ [])) [
            | none ↦ (no_ticket, s)
            | some body ↦ issue_ticket random channel_prefix body 60 s
          ]

  unfoldable pub consume_world_ticket : List ℕ → redis.State → Option (List ℕ) × redis.State
  consume_world_ticket t s = consume_ticket world_prefix t s

-- The part of `ConsumeChannelTicket` after the ticket was consumed.
module _ (string_to_int : List ℕ → Option ℤ) where
  abbrev pub checked_claims : List ℕ → ChannelTicketClaims → ℕ → Option ChannelTicketClaims
  checked_claims body claims offset =
      if not (offset == length body)
      then none
      else if is_empty claims.account_id
          || leb_ℤ claims.character_id (pos 0)
          || leb_ℤ claims.channel_id (pos 0)
      then none
      else some claims

  abbrev pub channel_field : List ℕ → List ℕ → ℤ → Field ℤ × ℕ → Option ChannelTicketClaims
  channel_field body account character (failed e, offset) = none
  channel_field body account character (value channel, offset) =
      checked_claims body
        (record { account_id = account; character_id = character; channel_id = channel }) offset

  abbrev pub character_field : List ℕ → List ℕ → Field ℤ × ℕ → Option ChannelTicketClaims
  character_field body account (failed e, offset) = none
  character_field body account (value character, offset) =
      channel_field body account character (parse_next_int_field string_to_int (some body) offset)

  abbrev pub account_field : List ℕ → Field (List ℕ) × ℕ → Option ChannelTicketClaims
  account_field body (failed e, offset) = none
  account_field body (value account, offset) =
      character_field body account (parse_next_int_field string_to_int (some body) offset)

  abbrev pub read_claims : Option (List ℕ) → Option ChannelTicketClaims
  read_claims none = none
  read_claims (some body) = account_field body (parse_length_prefixed_string (some body) 0)

  unfoldable pub consume_channel_ticket :
      (redis : Redis) (connected : Bool)
      → List ℕ
      → redis.State
      → Option ChannelTicketClaims × redis.State
  consume_channel_ticket redis connected t s =
      let (body, s') = consume_ticket redis connected channel_prefix t s in (read_claims body, s')
