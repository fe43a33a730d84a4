-- ===== src/Server/Tests.antt =====
-- A client that connects, gets a task and leaves, and the theorems applied to it.
use ll2games_rpg_server.Common.{ℕ, ◌≡◌, refl, ◌≢◌, true, none, some, [], ◌∷◌, arith}
use ll2games_rpg_server.Common.Keys.{lookup, ℕ_eq}
use ll2games_rpg_server.Session.{Session, no_tasks, try_begin_task, mark_closing}
use ll2games_rpg_server.Server.{
  Attempt, new_server, new_session, accept_round, begin_valid_session_task, find_valid_session,
  on_disconnect_begin, on_accept, null, session_at, receive_chunks, received, recv_error,
}
use ll2games_rpg_server.Server.Life.{
  Life, Reach, begins, accepts, begins_task, disconnects, IsSound,
}
use ll2games_rpg_server.Server.Safety.{Reach-IsSound, Reach-task_session}
use ll2games_rpg_server.Server.Waits.{Drains, Reach-wait_ends}

abbrev good : ℕ → Attempt
good fd = record { cfd = fd; nonblocking = true; no_delay = true; watched = true }

-- Descriptor 9, at address 100, with one task, and its `OnDisconnect` waiting.
abbrev one_left : Life
one_left = record {
  server = record {
    sessions = [];
    heap = (100, record (new_session 9 1 1) { closing = true; in_flight_tasks = 1 }) ∷ [];
    next_session_id = 2;
    current_user_count = 1;
    max_user_count = 5;
  };
  held = (100, 1) ∷ [];
  leaving = 100 ∷ [];
}

one_left-Reach : Reach 5 one_left
unfolding accept_round begin_valid_session_task on_disconnect_begin try_begin_task mark_closing
one_left-Reach =
    disconnects 9 (begins_task 9 1 1 (accepts 100 (good 9) refl refl (omega arith) begins))

Reach-IsSound_example : IsSound 5 one_left
Reach-IsSound_example = Reach-IsSound (omega arith) one_left-Reach

Reach-task_session_example :
    (s : Session) × (lookup {K = ℕ} 100 one_left.server.heap ≡ some s) × (s.session_id ≡ 1)
Reach-task_session_example = Reach-task_session [] [] 100 1 (omega arith) one_left-Reach refl

Reach-wait_ends_example :
    ((begin_valid_session_task 9 1 1 one_left.server).0 ≢ session_at 100)
    × ((l' : Life) × (s : Session) × Drains 100 one_left l'
        × (lookup {K = ℕ} 100 l'.server.heap ≡ some s)
        × (no_tasks s ≡ true))
Reach-wait_ends_example = Reach-wait_ends 100 9 1 1 (omega arith) one_left-Reach (omega arith)

-- The second client finds the server full.
full_server :
    on_accept ((100, good 9) ∷ (200, good 10) ∷ []) (new_server 1)
    ≡ on_accept ((100, good 9) ∷ []) (new_server 1)
unfolding on_accept accept_round
full_server = refl

stale_id : find_valid_session 9 2 1 (on_accept ((100, good 9) ∷ []) (new_server 5)) ≡ null
unfolding on_accept accept_round find_valid_session
stale_id = refl

valid_id : find_valid_session 9 1 1 (on_accept ((100, good 9) ∷ []) (new_server 5)) ≡ session_at 100
unfolding on_accept accept_round find_valid_session
valid_id = refl

read_all : receive_chunks (received (1 ∷ 2 ∷ []) ∷ recv_error ∷ []) [] ≡ some (1 ∷ 2 ∷ [])
unfolding receive_chunks
read_all = refl

read_error : receive_chunks (recv_error ∷ []) [] ≡ none
unfolding receive_chunks
read_error = refl
