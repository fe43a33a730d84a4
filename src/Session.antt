-- ===== src/Session.antt =====
-- SERVER/src/CHANNEL/app/ChannelSession.h and ChannelSession.cpp: the receive buffer and the packet
-- loop, the authentication state, the send queue and the count of running tasks. A call of the
-- server or of a thread pool is an entry of `actions`, in the order of the calls; `send` is answered
-- by a list of outcomes.
pub mod Receive
pub mod Stream
pub mod Auth
pub mod Send
pub mod Keeps
mod Tests
use ll2games_rpg_server.Common.{
  codes, ℕ, zero, suc, ◌+◌, ◌-◌, Bool, true, false, not, ◌&&◌, Option, none, some, List, [], ◌∷◌,
  ◌++◌, ◌==◌, ltb, if◌then◌else◌, length, drop,
}
use ll2games_rpg_server.Packet.{
  ParsedPacket, ParseResult, ParseStatus, complete, need_more_data, invalid_packet, try_parse,
  make_body, make_packet,
}

pub data ChannelAuthenticationState : Type 0 where
  unauthenticated authenticating authenticated : ChannelAuthenticationState

-- What a session asks of its server.
pub data Action : Type 0 where
  -- `GetAuthThreadPool()->Submit(ChannelAuthTask)`
  submit_auth : List ℕ → Action
  -- `GetThreadPool()->SubmitByKey(m_sessionId, PacketProcessTask)`
  submit_packet : ℕ → ParsedPacket → Action
  -- `EnableWriteEvent(m_fd)`
  enable_write_event : ℕ → Action
  -- a thrown `length_error`, which ends the call
  thrown : Action

pub record Session : Type 0 where
  pub fd : ℕ
  pub session_id : ℕ
  pub generation : ℕ
  -- `m_server != nullptr`
  pub has_server : Bool
  pub recv_buf : List ℕ
  pub send_queue : List (List ℕ)
  pub send_offset : ℕ
  pub closing : Bool
  pub in_flight_tasks : ℕ
  pub authentication_state : ChannelAuthenticationState
  pub actions : List Action

-- `PKT_CHANNEL_AUTH`
abbrev pub pkt_channel_auth : ℕ
pkt_channel_auth = 0x0009

abbrev pub act : Action → Session → Session
act a s = record s { actions = s.actions ++ (a ∷ []) }

-- Authentication.
abbrev pub is_unauthenticated : ChannelAuthenticationState → Bool
is_unauthenticated unauthenticated = true
is_unauthenticated authenticating = false
is_unauthenticated authenticated = false

abbrev pub is_authenticated_state : ChannelAuthenticationState → Bool
is_authenticated_state unauthenticated = false
is_authenticated_state authenticating = false
is_authenticated_state authenticated = true

-- `TryBeginAuthentication`: compare and exchange.
try_begin_authentication : Session → Bool × Session
try_begin_authentication s =
    if is_unauthenticated s.authentication_state
    then (true, record s { authentication_state = authenticating })
    else (false, s)

pub mark_authenticated : Session → Session
mark_authenticated s = record s { authentication_state = authenticated }

pub reset_authentication : Session → Session
reset_authentication s = record s { authentication_state = unauthenticated }

pub is_authenticated : Session → Bool
is_authenticated s = is_authenticated_state s.authentication_state

-- Sending.
abbrev is_empty {ℓ} : {A : Type ℓ} → List A → Bool
is_empty [] = true
is_empty (_ ∷ _) = false

-- `EnqueueSend`: the return code as "it is 0", and the session.
pub enqueue_send : List ℕ → Session → Bool × Session
enqueue_send packet s =
    if is_empty packet
    then (false, s)
    else if s.closing
    then (false, s)
    else let queued = record s { send_queue = s.send_queue ++ (packet ∷ []) } in
      (
        true,
        if is_empty s.send_queue && s.has_server
            then act (enable_write_event s.fd) queued
            else queued,
      )

-- The common part of `Send`, `SendOk` and `SendNok`; `none` is a throw of `MakeBody` or
-- `MakePacket`.
abbrev send_made : Option (List ℕ) → Session → Bool × Session
send_made none s = (false, act thrown s)
send_made (some packet) s = enqueue_send packet s

abbrev made : ℕ → List (List ℕ) → Option (List ℕ)
made type payload = elim (make_body payload) [ none ↦ none | some body ↦ make_packet type body ]

unfoldable send : ℕ → List (List ℕ) → Session → Bool × Session
send type payload = send_made (made type payload)

unfoldable send_ok : ℕ → List (List ℕ) → Session → Bool × Session
send_ok type payload = send_made (made type (codes "ok" ∷ payload))

pub send_nok : ℕ → List ℕ → List (List ℕ) → Session → Bool × Session
send_nok type err_msg payload = send_made (made type (codes "nok" ∷ (err_msg ∷ payload)))

-- What one call of `send(2)` does: it takes that many bytes, is interrupted, would block, or fails.
pub data SendOutcome : Type 0 where
  sent : ℕ → SendOutcome
  interrupted would_block send_error : SendOutcome

-- `FlushSend` returns, or waits for the outcome of its next call of `send(2)`.
pub data Flush : Type 0 where
  returned : Bool → Flush
  waiting : Flush

-- A call of `send(2)` with `buffer`, `packet.data() + m_sendOffset` up to the end of the packet.
abbrev pub calling :
    List ℕ → Flush × List (List ℕ) × ℕ × List (List ℕ) → Flush × List (List ℕ) × ℕ × List (List ℕ)
calling buffer (r, queue, offset, buffers) = (r, queue, offset, buffer ∷ buffers)

-- The loop of `FlushSend` over the queue and `m_sendOffset`.
-- The buffers that the calls of `send(2)` are given are the last component, in order.
pub flush_loop : List SendOutcome → List (List ℕ) → ℕ → Flush × List (List ℕ) × ℕ × List (List ℕ)
flush_loop outcomes [] offset = (returned true, [], offset, [])
flush_loop [] (packet ∷ queue) offset = (waiting, packet ∷ queue, offset, [])
flush_loop (sent zero ∷ outcomes) (packet ∷ queue) offset =
    (returned false, packet ∷ queue, offset, drop offset packet ∷ [])
flush_loop (sent (suc n) ∷ outcomes) (packet ∷ queue) offset =
    let popped = flush_loop outcomes queue 0 in
    let again = flush_loop outcomes (packet ∷ queue) (offset + suc n) in
    calling (drop offset packet) (if (offset + suc n) == length packet then popped else again)
flush_loop (interrupted ∷ outcomes) (packet ∷ queue) offset =
    calling (drop offset packet) (flush_loop outcomes (packet ∷ queue) offset)
flush_loop (would_block ∷ outcomes) (packet ∷ queue) offset =
    (returned true, packet ∷ queue, offset, drop offset packet ∷ [])
flush_loop (send_error ∷ outcomes) (packet ∷ queue) offset =
    (returned false, packet ∷ queue, offset, drop offset packet ∷ [])

-- The result, the session and the buffers given to `send(2)`
pub flush_send : List SendOutcome → Session → Flush × Session × List (List ℕ)
flush_send outcomes s =
    if s.closing
    then (returned false, s, [])
    else let (r, queue, offset, buffers) = flush_loop outcomes s.send_queue s.send_offset in
      (r, record s { send_queue = queue; send_offset = offset }, buffers)

unfoldable has_pending_send : Session → Bool
has_pending_send s = not (is_empty s.send_queue)

-- Tasks.
unfoldable pub try_begin_task : Session → Bool × Session
try_begin_task s =
    if s.closing then (false, s) else (true, record s { in_flight_tasks = s.in_flight_tasks + 1 })

unfoldable pub end_task : Session → Session
end_task s =
    if ltb 0 s.in_flight_tasks then record s { in_flight_tasks = s.in_flight_tasks - 1 } else s

unfoldable pub mark_closing : Session → Session
mark_closing s = record s { closing = true }

-- The condition on which `WaitForNoTasks` returns.
unfoldable pub no_tasks : Session → Bool
no_tasks s = s.in_flight_tasks == 0

-- Receiving: `Dispatch` and `OnBytes`.
pub dispatch : ParsedPacket → Session → Session
unfolding try_begin_authentication is_authenticated
dispatch pkt s =
    if not s.has_server
    then s
    else if pkt.type == pkt_channel_auth
    then (let (began, s') = try_begin_authentication s in
        if not began
        then (send_nok pkt_channel_auth
            (codes "Channel authentication is already in progress or completed") [] s').1
        else act (submit_auth pkt.payload) s')
    else if not (is_authenticated s)
    then (send_nok pkt.type (codes "Channel authentication required") [] s).1
    else act (submit_packet s.session_id pkt) s

-- The loop of `OnBytes` on the receive buffer, with fuel.
pub receive_loop : ℕ → List ℕ → Session → Bool × List ℕ × Session
receive_loop zero buf s = (true, buf, s)
receive_loop (suc fuel) buf s =
    let (result, rest) = try_parse buf in
    elim (result.status) [
      | complete ↦ receive_loop fuel rest (dispatch result.packet s)
      | need_more_data ↦ (true, rest, s)
      | invalid_packet ↦ (false, rest, s)
    ]

-- `OnBytes`. Each round of the loop takes four bytes or ends it, so the length of the buffer is
-- fuel enough.
pub on_bytes : List ℕ → Session → Bool × Session
on_bytes received s =
    let buf = s.recv_buf ++ received in
    let (result, rest, s') = receive_loop (suc (length buf)) buf s in
    (result, record s' { recv_buf = rest })
