-- ===== src/RedisClient.antt =====
-- SERVER/src/COMMON/db/RedisClient.cpp: `SetIfAbsentWithTtl` and `GetAndDelete`. The Redis server is a
-- parameter: a state, its replies to `SET ... EX ... NX` and `GETDEL`, and what Redis documents of them.
use ll2games_rpg_server.Common.{
  ℕ, ◌≡◌, Bool, true, false, ◌||◌, not, Option, none, some, List, [], ◌∷◌, ◌==◌, if◌then◌else◌,
  codes,
}
use ll2games_rpg_server.Common.Keys.{eqb_bytes}

-- A reply of Redis; `no_reply` is a null pointer.
pub data Reply : Type 0 where
  no_reply nil other : Reply
  status string : List ℕ → Reply

pub data RedisSetResult : Type 0 where
  stored already_exists set_error : RedisSetResult

pub data RedisGetDelStatus : Type 0 where
  found not_found get_error : RedisGetDelStatus

-- A Redis server and what its documentation says of the two commands.
pub record Redis : Type 1 where
  pub State : Type 0
  pub set_ex_nx : List ℕ → List ℕ → ℕ → State → Reply × State
  pub getdel : List ℕ → State → Reply × State
  -- the value of a key that exists and has not expired
  pub contents : State → List ℕ → Option (List ℕ)
  pub set_stored :
      (key data' : List ℕ) (ttl : ℕ) (s : State)
      → (set_ex_nx key data' ttl s).0 ≡ status (codes "OK")
      → contents (set_ex_nx key data' ttl s).1 key ≡ some data'
  pub getdel_found :
      (key data' : List ℕ) (s : State)
      → (getdel key s).0 ≡ string data'
      → (contents s key ≡ some data') × (contents (getdel key s).1 key ≡ none)
  pub getdel_nil : (key : List ℕ) (s : State) → (getdel key s).0 ≡ nil → contents s key ≡ none

abbrev pub is_empty : {A : Type 0} → List A → Bool
is_empty [] = true
is_empty (x ∷ xs) = false

abbrev pub set_result : Reply → RedisSetResult
set_result no_reply = set_error
set_result nil = already_exists
set_result other = set_error
set_result (status text) = if eqb_bytes text (codes "OK") then stored else set_error
set_result (string text) = set_error

abbrev pub get_result : Reply → RedisGetDelStatus × List ℕ
get_result no_reply = (get_error, [])
get_result nil = (not_found, [])
get_result other = (get_error, [])
get_result (status text) = (get_error, [])
get_result (string text) = (found, text)

-- A client with its connection, `m_ctx != nullptr`.
module _ (redis : Redis) (connected : Bool) where
  unfoldable pub set_if_absent_with_ttl :
      List ℕ → List ℕ → ℕ → redis.State → RedisSetResult × redis.State
  set_if_absent_with_ttl key data' ttl s =
      if not connected
      then (set_error, s)
      else if is_empty key || is_empty data'
      then (set_error, s)
      else if ttl == 0
      then (set_error, s)
      else (set_result (redis.set_ex_nx key data' ttl s).0, (redis.set_ex_nx key data' ttl s).1)

  unfoldable pub get_and_delete : List ℕ → redis.State → (RedisGetDelStatus × List ℕ) × redis.State
  get_and_delete key s =
      if not connected
      then ((get_error, []), s)
      else if is_empty key
      then ((get_error, []), s)
      else (get_result (redis.getdel key s).0, (redis.getdel key s).1)
