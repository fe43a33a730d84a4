-- ===== src/Auth/Claims.antt =====
-- The claims of a channel ticket, from `IssueChannelTicket` to `ConsumeChannelTicket`, and tickets that
-- are consumed again.
use ll2games_rpg_server.Common.{
  ℕ, ◌+◌, ◌≤◌, ◌≡◌, refl, sym, ap, ap₂, subst, ◌∙◌, Bool, true, false, ◌||◌, not, Option, none,
  some, List, [], ◌∷◌, ◌++◌, arith, ◌==◌, if_cases, length, length-append, append_assoc, none≢some,
}
use ll2games_rpg_server.Common.Int.{ℤ, pos, leb_ℤ}
use ll2games_rpg_server.Packet.{
  make_body, max_u16, value, parse_length_prefixed_string, parse_next_int_field,
}
use ll2games_rpg_server.Packet.Fields.{field, fields, parse-field, make_body-fields}
use ll2games_rpg_server.AuthToken.{RandomOutcome}
use ll2games_rpg_server.RedisClient.{
  Redis, Reply, no_reply, nil, other, status, string, is_empty, get_and_delete, get_result,
}
use ll2games_rpg_server.Auth.{
  ChannelTicketClaims, Issued, ticket, no_ticket, channel_prefix, is_valid_ticket_format,
  issue_ticket, consumed, consume_ticket, issue_channel_ticket, consume_channel_ticket, read_claims,
  account_field, character_field, channel_field,
}
use ll2games_rpg_server.Auth.Tickets.{is_answer, issue_ticket-IsIssued, consume_ticket_lem}

parse_int-field :
    (string_to_int : List ℕ → Option ℤ) (pre x rest : List ℕ) (z : ℤ)
    → length x ≤ max_u16
    → string_to_int x ≡ some z
    → parse_next_int_field string_to_int (some (pre ++ (field x ++ rest))) (length pre)
      ≡ (value z, length pre + 2 + length x)
unfolding parse_next_int_field
parse_int-field string_to_int pre x rest z h e = rw (parse-field pre x rest h, e) refl

module _ (string_to_int : List ℕ → Option ℤ) (to_string : ℤ → List ℕ) where
  -- The number formats agree on a number, which is a short text.
  abbrev pub IsInverse : ℤ → Type 0
  IsInverse z = (string_to_int (to_string z) ≡ some z) × (length (to_string z) ≤ 11)

  abbrev pub claims_texts : ChannelTicketClaims → List (List ℕ)
  claims_texts claims =
      claims.account_id ∷ to_string claims.character_id ∷ to_string claims.channel_id ∷ []

  read_claims-fields :
      (claims : ChannelTicketClaims)
      → IsInverse claims.character_id
      → IsInverse claims.channel_id
      → length claims.account_id ≤ max_u16
      → is_empty claims.account_id
          || leb_ℤ claims.character_id (pos 0)
          || leb_ℤ claims.channel_id (pos 0)
        ≡ false
      → read_claims string_to_int (some (fields (claims_texts claims))) ≡ some claims
  read_claims-fields claims character channel fits valid =
      ap (account_field string_to_int body) first
      ∙ ap (character_field string_to_int body a) second
      ∙ ap (channel_field string_to_int body a claims.character_id) third
      ∙ if_cases (λ o. o ≡ some claims) (not (length body == length body))
          (λ e. absurd (ground arith)) λ e. rw valid refl
    where
      a : List ℕ
      a = claims.account_id

      b : List ℕ
      b = to_string claims.character_id

      c : List ℕ
      c = to_string claims.channel_id

      body : List ℕ
      body = field a ++ (field b ++ (field c ++ []))

      first : parse_length_prefixed_string (some body) 0 ≡ (value a, length (field a))
      first =
          parse-field [] a (field b ++ (field c ++ [])) fits
          ∙ ap (λ (n : ℕ). (value a, n)) (omega arith)

      second :
          parse_next_int_field string_to_int (some body) (length (field a))
          ≡ (value claims.character_id, length (field a) + 2 + length b)
      second =
          parse_int-field string_to_int (field a) b (field c ++ []) claims.character_id
            (let l = character.1 in omega arith) character.0

      third :
          parse_next_int_field string_to_int (some body) (length (field a) + 2 + length b)
          ≡ (value claims.channel_id, length body)
      third =
          ap₂ (λ (u : List ℕ) (n : ℕ). parse_next_int_field string_to_int (some u) n)
            (sym (append_assoc (field a) (field b) (field c ++ [])))
            (sym (length-append (field a) (field b) ∙ omega arith))
          ∙ parse_int-field string_to_int (field a ++ field b) c [] claims.channel_id
              (let l = channel.1 in omega arith) channel.0
          ∙ ap (λ (n : ℕ). (value claims.channel_id, n))
              (omega (
                arith,
                length-append (field a) (field b),
                length-append (field a) (field b ++ (field c ++ [])),
                length-append (field b) (field c ++ []),
                length-append (field c) [],
              ))

  -- A ticket that `IssueChannelTicket` returned, for claims whose account name fits into a field, gives
  -- `ConsumeChannelTicket` the same claims back, as long as its key holds in Redis what was stored there
  -- and Redis answers; the number formats are taken to agree on the two numbers and to give short texts.
  pub consume-issue_channel_ticket :
      (redis : Redis) (random : ℕ → List RandomOutcome) (claims : ChannelTicketClaims) (t : List ℕ)
      (s s' : redis.State)
      → IsInverse claims.character_id
      → IsInverse claims.channel_id
      → length claims.account_id ≤ max_u16
      → (issue_channel_ticket redis true to_string random claims s).0 ≡ ticket t
      → redis.contents s' (channel_prefix ++ t)
        ≡ redis.contents
            (issue_channel_ticket redis true to_string random claims s).1
            (channel_prefix ++ t)
      → is_answer redis true (redis.getdel (channel_prefix ++ t) s').0 ≡ true
      → (consume_channel_ticket string_to_int redis true t s').0 ≡ some claims
  unfolding issue_channel_ticket consume_channel_ticket
  consume-issue_channel_ticket redis random claims t s s' character channel fits =
      if_cases Goal
        (is_empty claims.account_id
          || leb_ℤ claims.character_id (pos 0)
          || leb_ℤ claims.channel_id (pos 0))
        (λ e h. absurd (ground arith)) λ valid. by_body valid
    where
      body : List ℕ
      body = fields (claims_texts claims)

      Goal : Issued × redis.State → Type 0
      Goal r =
          r.0 ≡ ticket t
          → redis.contents s' (channel_prefix ++ t) ≡ redis.contents r.1 (channel_prefix ++ t)
          → is_answer redis true (redis.getdel (channel_prefix ++ t) s').0 ≡ true
          → read_claims string_to_int (consume_ticket redis true channel_prefix t s').0
            ≡ some claims

      made : make_body (claims_texts claims) ≡ some body
      made =
          make_body-fields (claims_texts claims)
            (fits, ((let l = character.1 in omega arith), ((let l = channel.1 in omega arith), tt)))

      by_body :
          is_empty claims.account_id
              || leb_ℤ claims.character_id (pos 0)
              || leb_ℤ claims.channel_id (pos 0)
            ≡ false
          → Goal (elim (make_body (claims_texts claims)) [
            | none ↦ (no_ticket, s)
            | some b ↦ issue_ticket redis true random channel_prefix b 60 s
          ])
      by_body valid =
          subst
            (λ o. Goal (elim o [
              | none ↦ (no_ticket, s)
              | some b ↦ issue_ticket redis true random channel_prefix b 60 s
            ]))
            (sym made)
            λ issued same answers.
              let (format, kept) =
                issue_ticket-IsIssued redis true random channel_prefix body 60 s t issued in
              ap (read_claims string_to_int) (
                consume_ticket_lem redis true channel_prefix t body s' refl refl refl format
                  (same ∙ kept) answers)
              ∙ read_claims-fields claims character channel fits valid

module _ (redis : Redis) (connected : Bool) (prefix t : List ℕ) (s : redis.State) where
  reply_empties :
      (v : List ℕ) (r : Reply)
      → (redis.getdel (prefix ++ t) s).0 ≡ r
      → (consumed redis connected (get_result r, (redis.getdel (prefix ++ t) s).1)).0 ≡ some v
      → redis.contents
          (consumed redis connected (get_result r, (redis.getdel (prefix ++ t) s).1)).1
          (prefix ++ t)
        ≡ none
  reply_empties v no_reply e h = absurd (none≢some h)
  reply_empties v nil e h = absurd (none≢some h)
  reply_empties v other e h = absurd (none≢some h)
  reply_empties v (status text) e h = absurd (none≢some h)
  reply_empties v (string text) e h = (redis.getdel_found (prefix ++ t) text s e).1

  consume_empties :
      (v : List ℕ)
      → (consume_ticket redis connected prefix t s).0 ≡ some v
      → redis.contents (consume_ticket redis connected prefix t s).1 (prefix ++ t) ≡ none
  unfolding consume_ticket get_and_delete
  consume_empties v =
      if_cases Empties (is_empty prefix || not (is_valid_ticket_format t))
        (λ e h. absurd (none≢some h))
        λ e.
          if_cases (λ r. Empties (consumed redis connected r)) (not connected)
            (λ f h. absurd (none≢some h))
            λ f.
              if_cases (λ r. Empties (consumed redis connected r)) (is_empty (prefix ++ t))
                (λ g h. absurd (none≢some h))
                λ g. reply_empties v (redis.getdel (prefix ++ t) s).0 refl
    where
      Empties : Option (List ℕ) × redis.State → Type 0
      Empties r = r.0 ≡ some v → redis.contents r.1 (prefix ++ t) ≡ none

  reply_absent :
      (r : Reply)
      → (redis.getdel (prefix ++ t) s).0 ≡ r
      → redis.contents s (prefix ++ t) ≡ none
      → (consumed redis connected (get_result r, (redis.getdel (prefix ++ t) s).1)).0 ≡ none
  reply_absent no_reply e h = refl
  reply_absent nil e h = refl
  reply_absent other e h = refl
  reply_absent (status text) e h = refl
  reply_absent (string text) e h =
      absurd (none≢some (sym h ∙ (redis.getdel_found (prefix ++ t) text s e).0))

  consume_absent :
      redis.contents s (prefix ++ t) ≡ none → (consume_ticket redis connected prefix t s).0 ≡ none
  unfolding consume_ticket get_and_delete
  consume_absent h =
      if_cases Nothing (is_empty prefix || not (is_valid_ticket_format t)) (λ e. refl)
        λ e.
          if_cases (λ r. Nothing (consumed redis connected r)) (not connected) (λ f. refl)
            λ f.
              if_cases (λ r. Nothing (consumed redis connected r)) (is_empty (prefix ++ t))
                (λ g. refl) λ g. reply_absent (redis.getdel (prefix ++ t) s).0 refl h
    where
      Nothing : Option (List ℕ) × redis.State → Type 0
      Nothing r = r.0 ≡ none

-- A ticket of either kind can be consumed once: after `ConsumeTicket` returned its value, it returns
-- nothing for the ticket as long as nothing is stored under its key again, whatever Redis answers.
pub consume_ticket-once :
    (redis : Redis) (connected : Bool) (prefix t v : List ℕ) (s s' : redis.State)
    → (consume_ticket redis connected prefix t s).0 ≡ some v
    → redis.contents s' (prefix ++ t)
      ≡ redis.contents (consume_ticket redis connected prefix t s).1 (prefix ++ t)
    → (consume_ticket redis connected prefix t s').0 ≡ none
consume_ticket-once redis connected prefix t v s s' first same =
    consume_absent redis connected prefix t s'
      (same ∙ consume_empties redis connected prefix t s v first)
