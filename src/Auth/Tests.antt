-- ===== src/Auth/Tests.antt =====
-- Tickets at a Redis server that is a dictionary, and the theorems applied to it.
use ll2games_rpg_server.Common.{
  codes, ℕ, ◌+◌, ◌-◌, ◌≡◌, refl, sym, ap, true, Option, none, some, List, [], ◌∷◌, ◌++◌, replicate,
  arith,
}
use ll2games_rpg_server.Common.Int.{ℤ, pos, negsuc}
use ll2games_rpg_server.Common.Keys.{
  Dict, lookup, insert, erase, bytes_eq, lookup-insert_self, lookup-erase,
}
use ll2games_rpg_server.AuthToken.{
  RandomOutcome, random_bytes, interrupted, generated, generate, encode, fill,
}
use ll2games_rpg_server.RedisClient.{
  Redis, Reply, nil, string, status, set_if_absent_with_ttl, get_and_delete,
}
use ll2games_rpg_server.Auth.{
  Issued, ChannelTicketClaims, ticket, is_valid_ticket_format, issue_channel_ticket,
  consume_world_ticket, issue_ticket, issue_attempts, consume_ticket, consume_channel_ticket,
  channel_prefix,
}
use ll2games_rpg_server.Auth.Claims.{consume-issue_channel_ticket, consume_ticket-once}
use ll2games_rpg_server.Auth.Format.{generate-format}
use ll2games_rpg_server.Packet.{make_body, make_body_from}

abbrev Store : Type 0
Store = Dict (List ℕ) (List ℕ)

abbrev stored_reply : Option (List ℕ) → List ℕ → List ℕ → Store → Reply × Store
stored_reply none key data' s = (status (codes "OK"), insert key data' s)
stored_reply (some old) key data' s = (nil, s)

abbrev deleted_reply : Option (List ℕ) → List ℕ → Store → Reply × Store
deleted_reply none key s = (nil, s)
deleted_reply (some old) key s = (string old, erase key s)

set_stored_lem :
    (o : Option (List ℕ)) (key data' : List ℕ) (s : Store)
    → (stored_reply o key data' s).0 ≡ status (codes "OK")
    → lookup key (stored_reply o key data' s).1 ≡ some data'
set_stored_lem none key data' s h = lookup-insert_self key data' s
set_stored_lem (some old) key data' s h = absurd (ground arith)

getdel_found_lem :
    (o : Option (List ℕ)) (key data' : List ℕ) (s : Store)
    → lookup key s ≡ o
    → (deleted_reply o key s).0 ≡ string data'
    → (lookup key s ≡ some data') × (lookup key (deleted_reply o key s).1 ≡ none)
getdel_found_lem none key data' s e h = absurd (ground arith)
getdel_found_lem (some old) key data' s e h =
    (ground arith, ground (arith, lookup-erase key key s, bytes_eq.beq_iff key key))

getdel_nil_lem :
    (o : Option (List ℕ)) (key : List ℕ) (s : Store)
    → lookup key s ≡ o
    → (deleted_reply o key s).0 ≡ nil
    → lookup key s ≡ none
getdel_nil_lem none key s e h = e
getdel_nil_lem (some old) key s e h = absurd (ground arith)

abbrev dictionary : Redis
dictionary = record {
  State = Store;
  set_ex_nx = λ key data' ttl s. stored_reply (lookup key s) key data' s;
  getdel = λ key s. deleted_reply (lookup key s) key s;
  contents = λ s key. lookup key s;
  set_stored = λ key data' ttl s h. set_stored_lem (lookup key s) key data' s h;
  getdel_found = λ key data' s h. getdel_found_lem (lookup key s) key data' s refl h;
  getdel_nil = λ key s h. getdel_nil_lem (lookup key s) key s refl h;
}

abbrev digit_text : ℤ → List ℕ
digit_text (pos n) = (48 + n) ∷ []
digit_text (negsuc n) = 45 ∷ (49 + n) ∷ []

abbrev digit_value : List ℕ → Option ℤ
digit_value (c ∷ []) = some (pos (c - 48))
digit_value _ = none

abbrev claims : ChannelTicketClaims
claims = record { account_id = codes "kim"; character_id = pos 7; channel_id = pos 2 }

-- `getrandom` gives two bytes, is interrupted, and gives more than what is left.
abbrev random : ℕ → List RandomOutcome
random i = random_bytes (171 ∷ 205 ∷ []) ∷ interrupted ∷ random_bytes (replicate 40 1) ∷ []

abbrev token : List ℕ
token = codes "abcd010101010101010101010101010101010101010101010101010101010101"

token_generated : generate (random 0) ≡ generated token
unfolding generate fill encode
token_generated = refl

generate-format_example : is_valid_ticket_format token ≡ true
generate-format_example = generate-format (random 0) token token_generated

abbrev key_stored : Store
key_stored = (channel_prefix ++ token, 0 ∷ 3 ∷ 107 ∷ 105 ∷ 109 ∷ 0 ∷ 1 ∷ 55 ∷ 0 ∷ 1 ∷ 50 ∷ []) ∷ []

issued_token :
    issue_channel_ticket dictionary true digit_text random claims [] ≡ (ticket token, key_stored)
unfolding issue_channel_ticket issue_ticket issue_attempts generate fill encode
    set_if_absent_with_ttl make_body make_body_from
issued_token = refl

consume-issue_channel_ticket_example :
    (consume_channel_ticket digit_value dictionary true token key_stored).0 ≡ some claims
consume-issue_channel_ticket_example =
    consume-issue_channel_ticket digit_value digit_text dictionary random claims token [] key_stored
      (refl, omega arith) (refl, omega arith) (omega arith)
      (ap (λ (r : Issued × Store). r.0) issued_token)
      (sym (ap (λ (r : Issued × Store). lookup (channel_prefix ++ token) r.1) issued_token)) refl

consumed_token :
    consume_ticket dictionary true channel_prefix token key_stored
    ≡ (some (0 ∷ 3 ∷ 107 ∷ 105 ∷ 109 ∷ 0 ∷ 1 ∷ 55 ∷ 0 ∷ 1 ∷ 50 ∷ []), [])
unfolding consume_ticket is_valid_ticket_format get_and_delete
consumed_token = refl

-- A ticket of another kind is not found.
world_key : consume_world_ticket dictionary true token key_stored ≡ (none, key_stored)
unfolding consume_world_ticket consume_ticket is_valid_ticket_format get_and_delete
world_key = refl

consume_ticket-once_example : (consume_ticket dictionary true channel_prefix token []).0 ≡ none
consume_ticket-once_example =
    consume_ticket-once dictionary true channel_prefix token
      (0 ∷ 3 ∷ 107 ∷ 105 ∷ 109 ∷ 0 ∷ 1 ∷ 55 ∷ 0 ∷ 1 ∷ 50 ∷ []) key_stored []
      (ap (λ (r : Option (List ℕ) × Store). r.0) consumed_token)
      (sym
        (ap (λ (r : Option (List ℕ) × Store). lookup (channel_prefix ++ token) r.1) consumed_token))
