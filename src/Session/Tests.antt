-- ===== src/Session/Tests.antt =====
-- Runs of ChannelSession.cpp on concrete inputs.
use mathlib.Core.List.{flatten}
use ll2games_rpg_server.Common.{
  ℕ, ◌≡◌, refl, true, false, some, List, [], ◌∷◌, ◌++◌, arith, ◌↔◌, ◌<◌, length,
}
use ll2games_rpg_server.Common.Keys.{ℤ_eq, ℕ_eq}
use ll2games_rpg_server.Packet.{try_parse, ParsedPacket, make_packet}
use ll2games_rpg_server.Session.{
  Session, unauthenticated, authenticated, SendOutcome, sent, interrupted, would_block,
  is_authenticated, receive_loop, on_bytes, flush_send, enqueue_send,
}
use ll2games_rpg_server.Session.Receive.{on_bytes-append}
use ll2games_rpg_server.Session.Stream.{Made, dispatch_all, on_pieces, on_pieces-Made}
use ll2games_rpg_server.Session.Auth.{
  game_packets, on_bytes-unauthenticated, Life, here, next, receive, IsOrderly, Reach-IsOrderly,
}
use ll2games_rpg_server.Session.Send.{
  pending, IsPartial, IsQueued, wire, flush_send-pending, enqueue_send-pending,
}

abbrev fresh : Session
fresh = record {
  fd = 4;
  session_id = 1;
  generation = 1;
  has_server = true;
  recv_buf = [];
  send_queue = [];
  send_offset = 0;
  closing = false;
  in_flight_tasks = 0;
  authentication_state = unauthenticated;
  actions = [];
}

abbrev logged_in : Session
logged_in = record fresh { authentication_state = authenticated }

-- Two packets of type 16, cut in the middle of the first and of the second
abbrev pieces : List (List ℕ)
pieces = (0 ∷ 5 ∷ 0 ∷ []) ∷ (16 ∷ 7 ∷ 0 ∷ 4 ∷ []) ∷ (0 ∷ 16 ∷ []) ∷ []

abbrev packets : List ParsedPacket
packets = record { type = 16; payload = 7 ∷ [] } ∷ record { type = 16; payload = [] } ∷ []

made_first : make_packet 16 (7 ∷ []) ≡ some (0 ∷ 5 ∷ 0 ∷ 16 ∷ 7 ∷ [])
unfolding make_packet
made_first = refl

made_second : make_packet 16 [] ≡ some (0 ∷ 4 ∷ 0 ∷ 16 ∷ [])
unfolding make_packet
made_second = refl

pieces-Made : Made packets (flatten pieces)
unfolding flatten
pieces-Made = (
  0 ∷ 5 ∷ 0 ∷ 16 ∷ 7 ∷ [],
  0 ∷ 4 ∷ 0 ∷ 16 ∷ [],
  ground arith,
  made_first,
  refl,
  (0 ∷ 4 ∷ 0 ∷ 16 ∷ [], [], ground arith, made_second, refl, refl),
)

on_pieces-Made_example : on_pieces pieces logged_in ≡ (true, dispatch_all packets logged_in)
on_pieces-Made_example = on_pieces-Made pieces packets logged_in refl pieces-Made

half_read : (on_bytes (0 ∷ 5 ∷ 0 ∷ []) logged_in).0 ≡ true
unfolding on_bytes receive_loop try_parse
half_read = refl

on_bytes-append_example :
    on_bytes ((0 ∷ 5 ∷ 0 ∷ []) ++ (16 ∷ 7 ∷ [])) logged_in
    ≡ on_bytes (16 ∷ 7 ∷ []) (on_bytes (0 ∷ 5 ∷ 0 ∷ []) logged_in).1
on_bytes-append_example = on_bytes-append (0 ∷ 5 ∷ 0 ∷ []) (16 ∷ 7 ∷ []) logged_in half_read

not_yet : is_authenticated fresh ≡ false
unfolding is_authenticated
not_yet = refl

on_bytes-unauthenticated_example :
    (game_packets (on_bytes (0 ∷ 4 ∷ 0 ∷ 16 ∷ []) fresh).1.actions ≡ game_packets [])
    × (is_authenticated (on_bytes (0 ∷ 4 ∷ 0 ∷ 16 ∷ []) fresh).1 ≡ false)
on_bytes-unauthenticated_example = on_bytes-unauthenticated (0 ∷ 4 ∷ 0 ∷ 16 ∷ []) fresh not_yet

abbrev born : Life
born = record { session = fresh; results = 0 }

abbrev asked : Life
asked = record { session = (on_bytes (0 ∷ 4 ∷ 0 ∷ 9 ∷ []) fresh).1; results = 0 }

Reach-IsOrderly_example : IsOrderly asked
Reach-IsOrderly_example =
    Reach-IsOrderly {l = born} {m = asked} refl (next here (receive (0 ∷ 4 ∷ 0 ∷ 9 ∷ [])))

-- A packet of three bytes of which one has gone out, and one more
abbrev sending : Session
sending = record fresh { send_queue = (1 ∷ 2 ∷ 3 ∷ []) ∷ (4 ∷ []) ∷ []; send_offset = 1 }

abbrev outcomes : List SendOutcome
outcomes = interrupted ∷ sent 2 ∷ would_block ∷ []

flush_send-pending_example :
    let (r, t, buffers) = flush_send outcomes sending in
    (wire outcomes buffers ++ pending t.send_queue t.send_offset ≡ pending sending.send_queue 1)
    × IsPartial t.send_queue t.send_offset
flush_send-pending_example =
    flush_send-pending outcomes sending refl (ground arith, (ground arith, _))
      (ground arith, (λ e. _, λ e. absurd (ground arith)))

enqueue_send-pending_example :
    let (ok, t) = enqueue_send (9 ∷ []) sending in
    ((ok ≡ true) ↔ ((0 < length {A = ℕ} (9 ∷ [])) × (sending.closing ≡ false)))
    × (ok ≡ false → t ≡ sending)
    × (ok ≡ true → IsQueued (9 ∷ []) sending t)
enqueue_send-pending_example =
    enqueue_send-pending (9 ∷ []) sending (ground arith, (ground arith, _))
