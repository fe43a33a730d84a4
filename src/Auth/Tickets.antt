-- ===== src/Auth/Tickets.antt =====
-- The tickets of AuthTicketService.cpp and the keys of Redis.
use ll2games_rpg_server.Common.{
  ℕ, zero, suc, ◌+◌, ◌≡◌, refl, sym, ap, subst, ◌∙◌, inl, inr, Bool, true, false, ◌||◌, not, some,
  List, [], ◌∷◌, ◌++◌, arith, ◌==◌, Bool-cases, some_inj, codes, if_cases, none≢some,
}
use ll2games_rpg_server.Common.Keys.{eqb_bytes, eqb_bytes_iff}
use ll2games_rpg_server.AuthToken.{RandomOutcome, Generated, generated, threw, unfinished, generate}
use ll2games_rpg_server.RedisClient.{
  Redis, Reply, no_reply, nil, other, status, string, is_empty, RedisSetResult, stored,
  already_exists, set_error, set_if_absent_with_ttl, get_and_delete, set_result, get_result,
}
use ll2games_rpg_server.Auth.{
  Issued, ticket, no_ticket, waits_for_random, is_valid_ticket_format, issue_attempts, issue_ticket,
  consumed, consume_ticket,
}
use ll2games_rpg_server.Auth.Format.{generate-format}

ticket_inj : {x y : List ℕ} → ticket x ≡ ticket y → x ≡ y
ticket_inj e = ground arith

stored-status : (r : Reply) → set_result r ≡ stored → r ≡ status (codes "OK")
stored-status no_reply h = absurd (ground arith)
stored-status nil h = absurd (ground arith)
stored-status other h = absurd (ground arith)
stored-status (status text) h = elim (Bool-cases (eqb_bytes text (codes "OK"))) [
  | inl e ↦ ap status ((eqb_bytes_iff text (codes "OK")).0 e)
  | inr e ↦ absurd (ground arith)
]
stored-status (string text) h = absurd (ground arith)

module _ (redis : Redis) (connected : Bool) where
  set_stored_lem :
      (key data' : List ℕ) (ttl : ℕ) (s : redis.State)
      → (set_if_absent_with_ttl redis connected key data' ttl s).0 ≡ stored
      → redis.contents (set_if_absent_with_ttl redis connected key data' ttl s).1 key ≡ some data'
  unfolding set_if_absent_with_ttl
  set_stored_lem key data' ttl s =
      if_cases Kept (not connected) (λ e h. absurd (ground arith))
        λ e.
          if_cases Kept (is_empty key || is_empty data') (λ f h. absurd (ground arith))
            λ f.
              if_cases Kept (ttl == 0) (λ g h. absurd (ground arith))
                λ g h. redis.set_stored key data' ttl s (stored-status _ h)
    where
      Kept : RedisSetResult × redis.State → Type 0
      Kept r = r.0 ≡ stored → redis.contents r.1 key ≡ some data'

  -- A ticket that was issued
  abbrev pub IsIssued : List ℕ → List ℕ → Issued × redis.State → Type 0
  IsIssued prefix data' r =
      (t : List ℕ)
      → r.0 ≡ ticket t
      → (is_valid_ticket_format t ≡ true) × (redis.contents r.1 (prefix ++ t) ≡ some data')

  issue_attempts-IsIssued :
      (left i : ℕ) (random : ℕ → List RandomOutcome) (prefix data' : List ℕ) (ttl : ℕ)
      (s : redis.State)
      → IsIssued prefix data' (issue_attempts redis connected left i random prefix data' ttl s)
  unfolding issue_attempts
  issue_attempts-IsIssued zero i random prefix data' ttl s = λ t h. absurd (ground arith)
  issue_attempts-IsIssued (suc left) i random prefix data' ttl s =
      by_token (generate (random i)) refl
        (λ s'. issue_attempts-IsIssued left (i + 1) random prefix data' ttl s')
    where
      Later : Type 0
      Later =
          (s' : redis.State)
          → IsIssued prefix data'
              (issue_attempts redis connected left (i + 1) random prefix data' ttl s')

      by_result :
          (t : List ℕ) (r : RedisSetResult) (s' : redis.State)
          → is_valid_ticket_format t ≡ true
          → (r ≡ stored → redis.contents s' (prefix ++ t) ≡ some data')
          → Later
          → IsIssued prefix data' (elim r as (λ _. Issued × redis.State) [
            | stored ↦ (ticket t, s')
            | set_error ↦ (no_ticket, s')
            | already_exists ↦
                issue_attempts redis connected left (i + 1) random prefix data' ttl s'
          ])
      by_result t stored s' valid kept later = λ u h.
          subst
            (λ v.
              (is_valid_ticket_format v ≡ true) × (redis.contents s' (prefix ++ v) ≡ some data'))
            (ticket_inj h) (valid, kept refl)
      by_result t set_error s' valid kept later = λ u h. absurd (ground arith)
      by_result t already_exists s' valid kept later = later s'

      by_token :
          (g : Generated)
          → generate (random i) ≡ g
          → Later
          → IsIssued prefix data' (elim g as (λ _. Issued × redis.State) [
            | threw ↦ (no_ticket, s)
            | unfinished ↦ (waits_for_random, s)
            | generated t ↦
                let (result, s') =
                  set_if_absent_with_ttl redis connected (prefix ++ t) data' ttl s in
                elim result [
                  | stored ↦ (ticket t, s')
                  | set_error ↦ (no_ticket, s')
                  | already_exists ↦
                      issue_attempts redis connected left (i + 1) random prefix data' ttl s'
                ]
          ])
      by_token threw e later = λ u h. absurd (ground arith)
      by_token unfinished e later = λ u h. absurd (ground arith)
      by_token (generated t) e later =
          by_result t _ _ (generate-format (random i) t e)
            (set_stored_lem (prefix ++ t) data' ttl s) later

  pub issue_ticket-IsIssued :
      (random : ℕ → List RandomOutcome) (prefix data' : List ℕ) (ttl : ℕ) (s : redis.State)
      → IsIssued prefix data' (issue_ticket redis connected random prefix data' ttl s)
  unfolding issue_ticket
  issue_ticket-IsIssued random prefix data' ttl s =
      if_cases (IsIssued prefix data') (is_empty prefix || is_empty data' || (ttl == 0))
        (λ e t h. absurd (ground arith)) λ e. issue_attempts-IsIssued 3 0 random prefix data' ttl s

  -- Whether a reply of `GETDEL` is one of the two that Redis documents for a string key.
  abbrev pub is_answer : Reply → Bool
  is_answer no_reply = false
  is_answer nil = true
  is_answer other = false
  is_answer (status text) = false
  is_answer (string text) = true

  -- A key that exists is found.
  pub consume_ticket_lem :
      (prefix t data' : List ℕ) (s : redis.State)
      → connected ≡ true
      → is_empty prefix ≡ false
      → is_empty data' ≡ false
      → is_valid_ticket_format t ≡ true
      → redis.contents s (prefix ++ t) ≡ some data'
      → is_answer (redis.getdel (prefix ++ t) s).0 ≡ true
      → (consume_ticket redis connected prefix t s).0 ≡ some data'
  unfolding consume_ticket get_and_delete
  consume_ticket_lem prefix t data' s on named full valid exists answers =
      rw (named, valid, on, key_full prefix named)
        (by_reply (redis.getdel (prefix ++ t) s).0 refl answers)
    where
      key_full : (xs : List ℕ) → is_empty xs ≡ false → is_empty (xs ++ t) ≡ false
      key_full [] h = absurd (ground arith)
      key_full (x ∷ xs) h = refl

      by_reply :
          (r : Reply)
          → (redis.getdel (prefix ++ t) s).0 ≡ r
          → is_answer r ≡ true
          → (consumed redis connected (get_result r, (redis.getdel (prefix ++ t) s).1)).0
            ≡ some data'
      by_reply no_reply e h = absurd (ground arith)
      by_reply nil e h = absurd (none≢some (sym (redis.getdel_nil (prefix ++ t) s e) ∙ exists))
      by_reply other e h = absurd (ground arith)
      by_reply (status text) e h = absurd (ground arith)
      by_reply (string text) e h =
          let same = some_inj (sym (redis.getdel_found (prefix ++ t) text s e).0 ∙ exists) in
          rw (same, full) refl
