-- ===== src/Session/Stream.antt =====
-- Streams of packets through `OnBytes` of ChannelSession.cpp, cut into pieces.
use ll2games_rpg_server.Common.{
  ℕ, zero, suc, ◌^◌, ◌<◌, ◌≡◌, refl, sym, ap, ◌∙◌, Bool, true, false, some, List, [], ◌∷◌, ◌++◌,
  arith, length,
}
use mathlib.Core.List.{flatten}
use ll2games_rpg_server.Packet.{ParsedPacket, ParseResult, complete, try_parse, make_packet}
use ll2games_rpg_server.Packet.Framing.{try_parse-make_packet, try_parse-shrinks}
use ll2games_rpg_server.Session.{Session, dispatch, receive_loop, on_bytes, made}
use ll2games_rpg_server.Session.Receive.{
  receive_loop_complete, with_buf, dispatch-with_buf, finish, on_bytes-append, IsDrained,
  on_bytes-IsDrained, on_bytes-nil, on_bytes_first,
}

-- A stream of made packets.
abbrev pub Made : List ParsedPacket → List ℕ → Type 0
Made [] stream = stream ≡ []
Made (p ∷ ps) stream =
    (packet : List ℕ) × (rest : List ℕ) × (p.type < 2 ^ 16)
    × (make_packet p.type p.payload ≡ some packet)
    × (stream ≡ packet ++ rest)
    × Made ps rest

pub dispatch_all : List ParsedPacket → Session → Session
dispatch_all [] s = s
dispatch_all (p ∷ ps) s = dispatch_all ps (dispatch p s)

receive_loop-Made :
    (ps : List ParsedPacket) (f : ℕ) (stream : List ℕ) (s : Session)
    → Made ps stream
    → length stream < f
    → receive_loop f stream s ≡ (true, [], dispatch_all ps s)
unfolding dispatch_all
receive_loop-Made ps zero stream s m h = absurd (omega arith)
receive_loop-Made [] (suc f) stream s m h = rw m (unfold receive_loop try_parse in refl)
receive_loop-Made (p ∷ ps) (suc f) stream s (packet, rest, small, made, cut, others) h =
    let parsed = rw (← cut) at (try_parse-make_packet p.type p.payload rest small made) in
    let done : (try_parse stream).0.status ≡ complete = rw parsed in
    let shorter = try_parse-shrinks stream done in
    rw (receive_loop_complete f stream s done, parsed)
      (receive_loop-Made ps f rest (dispatch p s) others
        (omega (arith, ap (λ (r : ParseResult × List ℕ). length r.1) parsed)))

-- Bytes that arrive in any number of pieces, each handed to `OnBytes` while it returns true.
pub on_pieces : List (List ℕ) → Session → Bool × Session
on_pieces [] s = (true, s)
on_pieces (piece ∷ pieces) s =
    let (ok, s') = on_bytes piece s in elim ok [ true ↦ on_pieces pieces s' | false ↦ (false, s') ]

on_pieces-flatten :
    (pieces : List (List ℕ)) (s : Session)
    → IsDrained s
    → (on_bytes (flatten pieces) s).0 ≡ true
    → on_pieces pieces s ≡ on_bytes (flatten pieces) s
unfolding on_pieces flatten
on_pieces-flatten [] s e ok = sym (on_bytes-nil s e)
on_pieces-flatten (piece ∷ pieces) s e ok =
    let good = on_bytes_first piece (flatten pieces) s ok in
    let joined = on_bytes-append piece (flatten pieces) s good in
    rw (good, on_pieces, joined)
      (on_pieces-flatten pieces (on_bytes piece s).1 (on_bytes-IsDrained piece s good)
        (rw joined at ok))

dispatch-recv_buf : (p : ParsedPacket) (s : Session) → (dispatch p s).recv_buf ≡ s.recv_buf
dispatch-recv_buf p s = ap (λ (t : Session). t.recv_buf) (dispatch-with_buf p s.recv_buf s)

dispatch_all-recv_buf :
    (ps : List ParsedPacket) (s : Session) → (dispatch_all ps s).recv_buf ≡ s.recv_buf
unfolding dispatch_all
dispatch_all-recv_buf [] s = refl
dispatch_all-recv_buf (p ∷ ps) s = dispatch_all-recv_buf ps (dispatch p s) ∙ dispatch-recv_buf p s

on_bytes-Made :
    (ps : List ParsedPacket) (stream : List ℕ) (s : Session)
    → s.recv_buf ≡ []
    → Made ps stream
    → on_bytes stream s ≡ (true, dispatch_all ps s)
unfolding on_bytes
on_bytes-Made ps stream s empty m =
    ap (λ (b : List ℕ). finish (receive_loop (suc (length (b ++ stream))) (b ++ stream) s)) empty
    ∙ ap finish (receive_loop-Made ps (suc (length stream)) stream s m (omega arith))
    ∙ ap (λ (b : List ℕ). (true, with_buf b (dispatch_all ps s)))
        (sym (dispatch_all-recv_buf ps s ∙ empty))

-- The transport is lossless: packets that `MakePacket` made, sent one behind the other and received
-- in pieces of any sizes by a session with an empty buffer, are dispatched exactly once each, in
-- order, and nothing is left over.
pub on_pieces-Made :
    (pieces : List (List ℕ)) (ps : List ParsedPacket) (s : Session)
    → s.recv_buf ≡ []
    → Made ps (flatten pieces)
    → on_pieces pieces s ≡ (true, dispatch_all ps s)
on_pieces-Made pieces ps s empty m =
    let whole = on_bytes-Made ps (flatten pieces) s empty m in
    on_pieces-flatten pieces s (rw empty (unfold try_parse in refl)) (rw whole) ∙ whole
