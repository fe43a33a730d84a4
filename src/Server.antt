-- ===== src/Server.antt =====
-- SERVER/src/CHANNEL/app/ChannelServer.cpp: the table of the sessions, the sessions on the heap, the
-- number of users, and the calls that accept, find, use and close sessions. What `accept`, `recv` and
-- the other system calls answer is an argument. `OnDisconnect` is two steps, before and after
-- `WaitForNoTasks`, between which tasks run; the player that `FinalizePlayer` saves between them is
-- the concern of Roster.antt.
pub mod Life
mod Replace
mod Tasks
mod Closing
mod Opening
pub mod Safety
pub mod Waits
mod Tests
use ll2games_rpg_server.Common.{
  ℕ, ◌+◌, ◌-◌, ◌%◌, ◌^◌, Bool, true, false, not, Option, none, some, List, [], ◌∷◌, ◌++◌, ltb, leb,
  ◌==◌, if◌then◌else◌, length,
}
use ll2games_rpg_server.Common.Keys.{Dict, lookup, insert, erase, ℤ_eq, ℕ_eq}
use ll2games_rpg_server.Session.{
  Session, unauthenticated, try_begin_task, end_task, mark_closing, on_bytes,
}

pub record Server : Type 0 where
  -- `m_sessions`: the address of the session of a descriptor
  pub sessions : Dict ℕ ℕ
  -- the sessions that exist, by address
  pub heap : Dict ℕ Session
  pub next_session_id : ℕ
  pub current_user_count : ℕ
  pub max_user_count : ℕ

-- Before the first connection.
abbrev pub new_server : ℕ → Server
new_server max = record {
  sessions = [];
  heap = [];
  next_session_id = 1;
  current_user_count = 0;
  max_user_count = max;
}

-- One round of the loop of `OnAccept`: the new descriptor, and whether `SetNonblocking`, `setsockopt`
-- and `epoll_ctl` succeed for it.
pub record Attempt : Type 0 where
  pub cfd : ℕ
  pub nonblocking : Bool
  pub no_delay : Bool
  pub watched : Bool

-- `new ChannelSession(cfd, this, sessionId, generation)`
abbrev pub new_session : ℕ → ℕ → ℕ → Session
new_session fd id generation = record {
  fd = fd;
  session_id = id;
  generation = generation;
  has_server = true;
  recv_buf = [];
  send_queue = [];
  send_offset = 0;
  closing = false;
  in_flight_tasks = 0;
  authentication_state = unauthenticated;
  actions = [];
}

abbrev pub open_session : ℕ → ℕ → Server → Server
open_session address fd s = record s {
  sessions = insert fd address s.sessions;
  heap = insert address (new_session fd s.next_session_id 1) s.heap;
  next_session_id = (s.next_session_id + 1) % 2 ^ 64;
  current_user_count = (s.current_user_count + 1) % 2 ^ 32;
}

-- A round of `OnAccept`; the new session, if there is one, is made at the address given.
pub accept_round : ℕ → Attempt → Server → Server
accept_round address a s =
    if not a.nonblocking
    then s
    else if leb s.max_user_count s.current_user_count
    then s
    else if not a.no_delay
    then s
    else if not a.watched
    then s
    else open_session address a.cfd s

-- `OnAccept`: rounds until `accept` fails.
unfoldable on_accept : List (ℕ × Attempt) → Server → Server
unfolding accept_round
on_accept [] s = s
on_accept ((address, a) ∷ rest) s = on_accept rest (accept_round address a s)

-- The session that a call returns: none, the one at an address, or one that was deleted.
pub data Found : Type 0 where
  null : Found
  session_at : ℕ → Found
  dangling : Found

abbrev pub valid_session : ℕ → ℕ → ℕ → Option Session → Found
valid_session id generation address none = dangling
valid_session id generation address (some session) =
    if not (session.session_id == id)
    then null
    else if not (session.generation == generation)
    then null
    else if session.closing
    then null
    else session_at address

abbrev pub valid_found : ℕ → ℕ → Option ℕ → Server → Found
valid_found id generation none s = null
valid_found id generation (some address) s =
    valid_session id generation address (lookup address s.heap)

unfoldable find_valid_session : ℕ → ℕ → ℕ → Server → Found
find_valid_session fd id generation s = valid_found id generation (lookup fd s.sessions) s

abbrev pub begin_at : ℕ → ℕ → ℕ → Option Session → Server → Found × Server
begin_at id generation address none s = (dangling, s)
begin_at id generation address (some session) s =
    if not (session.session_id == id)
    then (null, s)
    else if not (session.generation == generation)
    then (null, s)
    else if not (try_begin_task session).0
    then (null, s)
    else (session_at address, record s { heap = insert address (try_begin_task session).1 s.heap })

abbrev pub begin_found : ℕ → ℕ → Option ℕ → Server → Found × Server
begin_found id generation none s = (null, s)
begin_found id generation (some address) s =
    begin_at id generation address (lookup address s.heap) s

pub begin_valid_session_task : ℕ → ℕ → ℕ → Server → Found × Server
begin_valid_session_task fd id generation s = begin_found id generation (lookup fd s.sessions) s

abbrev pub end_at : ℕ → Option Session → Server → Server
end_at address none s = s
end_at address (some session) s = record s { heap = insert address (end_task session) s.heap }

-- `EndSessionTask` of a session that exists.
pub end_session_task : ℕ → Server → Server
end_session_task address s = end_at address (lookup address s.heap) s

abbrev pub close_at : ℕ → ℕ → Option Session → Server → Found × Server
close_at fd address none s = (dangling, s)
close_at fd address (some session) s = (
  session_at address,
  record s { sessions = erase fd s.sessions; heap = insert address (mark_closing session) s.heap },
)

abbrev pub close_found : ℕ → Option ℕ → Server → Found × Server
close_found fd none s = (null, s)
close_found fd (some address) s = close_at fd address (lookup address s.heap) s

-- `OnDisconnect` up to `WaitForNoTasks`; the result is the session it waits for.
pub on_disconnect_begin : ℕ → Server → Found × Server
on_disconnect_begin fd s = close_found fd (lookup fd s.sessions) s

-- `OnDisconnect` after the wait: `delete session`, and one user less.
pub on_disconnect_end : ℕ → Server → Server
on_disconnect_end address s = record s {
  heap = erase address s.heap;
  current_user_count =
      if ltb 0 s.current_user_count then s.current_user_count - 1 else s.current_user_count;
}

-- `PacketLimits::kReceiveChunkSize`
abbrev pub receive_chunk_size : ℕ
receive_chunk_size = 4096

-- What one call of `recv` answers; no bytes are the end of the stream.
pub data RecvOutcome : Type 0 where
  received : List ℕ → RecvOutcome
  would_block recv_error : RecvOutcome

-- The loop of `OnReceive`, `none` where it disconnects. A `recv` after the last outcome would block.
pub receive_chunks : List RecvOutcome → List ℕ → Option (List ℕ)
receive_chunks [] buf = some buf
receive_chunks (received [] ∷ outcomes) buf = none
receive_chunks (received (byte ∷ more) ∷ outcomes) buf =
    let bytes = byte ∷ more in
    let rest = receive_chunks outcomes (buf ++ bytes) in
    if length bytes == receive_chunk_size then rest else some (buf ++ bytes)
receive_chunks (would_block ∷ outcomes) buf = some buf
receive_chunks (recv_error ∷ outcomes) buf = none

abbrev pub deliver_at : ℕ → ℕ → List ℕ → Option Session → Server → Found × Server
deliver_at fd address bytes none s = (dangling, s)
deliver_at fd address bytes (some session) s =
    let (ok, session') = on_bytes bytes session in
    let s' = record s { heap = insert address session' s.heap } in
    if not ok then on_disconnect_begin fd s' else (null, s')

abbrev pub deliver_found : ℕ → List ℕ → Option ℕ → Server → Found × Server
deliver_found fd bytes none s = (null, s)
deliver_found fd bytes (some address) s = deliver_at fd address bytes (lookup address s.heap) s

-- `OnReceive` up to the wait of its `OnDisconnect`, where it disconnects.
pub on_receive : ℕ → List RecvOutcome → Server → Found × Server
on_receive fd outcomes s = elim (receive_chunks outcomes []) [
  | none ↦ on_disconnect_begin fd s
  | some bytes ↦ deliver_found fd bytes (lookup fd s.sessions) s
]
