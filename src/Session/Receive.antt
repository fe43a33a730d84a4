-- ===== src/Session/Receive.antt =====
-- `OnBytes` of ChannelSession.cpp: the packets of a stream, however it is cut.
use ll2games_rpg_server.Common.{
  codes, ℕ, zero, suc, ◌<◌, ◌≡◌, refl, sym, ap, ◌∙◌, ◌⊎◌, inl, inr, Bool, true, false, List, [],
  ◌∷◌, ◌++◌, arith, Bool-cases, Option-cases, length, length-append,
}
use mathlib.Core.List.{append_assoc, append-nil}
use ll2games_rpg_server.Packet.{
  ParsedPacket, ParseStatus, complete, need_more_data, invalid_packet, try_parse,
}
use ll2games_rpg_server.Packet.Framing.{
  try_parse-append_complete, try_parse-append_invalid, try_parse-shrinks, try_parse-incomplete,
}
use ll2games_rpg_server.Session.{
  Session, dispatch, receive_loop, on_bytes, enqueue_send, send_nok, pkt_channel_auth, made,
}

-- One round of the loop, by the status of the parse.
pub receive_loop_complete :
    (fuel : ℕ) (buf : List ℕ) (s : Session)
    → (try_parse buf).0.status ≡ complete
    → receive_loop (suc fuel) buf s
      ≡ receive_loop fuel (try_parse buf).1 (dispatch (try_parse buf).0.packet s)
unfolding receive_loop
receive_loop_complete fuel buf s e = rw (e, receive_loop)

pub receive_loop_need :
    (fuel : ℕ) (buf : List ℕ) (s : Session)
    → (try_parse buf).0.status ≡ need_more_data
    → receive_loop (suc fuel) buf s ≡ (true, (try_parse buf).1, s)
unfolding receive_loop
receive_loop_need fuel buf s e = rw (e, receive_loop)

pub receive_loop_invalid :
    (fuel : ℕ) (buf : List ℕ) (s : Session)
    → (try_parse buf).0.status ≡ invalid_packet
    → receive_loop (suc fuel) buf s ≡ (false, (try_parse buf).1, s)
unfolding receive_loop
receive_loop_invalid fuel buf s e = rw (e, receive_loop)

pub status_cases :
    (st : ParseStatus) → (st ≡ complete) ⊎ ((st ≡ need_more_data) ⊎ (st ≡ invalid_packet))
status_cases complete = inl refl
status_cases need_more_data = inr (inl refl)
status_cases invalid_packet = inr (inr refl)

-- More fuel than the buffer has bytes changes nothing.
receive_loop_fuel :
    (f g : ℕ) (buf : List ℕ) (s : Session)
    → length buf < f
    → length buf < g
    → receive_loop f buf s ≡ receive_loop g buf s
receive_loop_fuel zero g buf s hf hg = absurd (omega arith)
receive_loop_fuel (suc f) zero buf s hf hg = absurd (omega arith)
receive_loop_fuel (suc f) (suc g) buf s hf hg = elim (status_cases (try_parse buf).0.status) [
  | inl e ↦
      let shorter = try_parse-shrinks buf e in
      rw (receive_loop_complete f buf s e, receive_loop_complete g buf s e)
        (receive_loop_fuel f g _ _ (omega arith) (omega arith))
  | inr (inl e) ↦ rw (receive_loop_need f buf s e, receive_loop_need g buf s e)
  | inr (inr e) ↦ rw (receive_loop_invalid f buf s e, receive_loop_invalid g buf s e)
]

-- Bytes that come later are parsed after what was there, from the state that it left.
receive_loop-append :
    (f g h : ℕ) (buf later : List ℕ) (s : Session)
    → length buf < f
    → length (buf ++ later) < g
    → length ((receive_loop f buf s).1 ++ later) < h
    → (receive_loop f buf s).0 ≡ true
    → receive_loop g (buf ++ later) s
      ≡ receive_loop h ((receive_loop f buf s).1 ++ later) (receive_loop f buf s).2
receive_loop-append zero g h buf later s hf hg hh ok = absurd (omega arith)
receive_loop-append (suc f) zero h buf later s hf hg hh ok = absurd (omega arith)
receive_loop-append (suc f) (suc g) h buf later s hf hg hh ok =
    elim (status_cases (try_parse buf).0.status) [
      | inl e ↦
          let shorter = try_parse-shrinks buf e in
          let step = receive_loop_complete f buf s e in
          let step' =
            receive_loop_complete g (buf ++ later) s
              (rw (try_parse-append_complete buf later e) e) in
          let ih =
            receive_loop-append f g h (try_parse buf).1 later (dispatch (try_parse buf).0.packet s)
              (omega arith)
              (omega (arith, length-append buf later, length-append (try_parse buf).1 later))
              (rw step at hh) (rw step at ok) in
          rw (step, step', try_parse-append_complete buf later e) ih
      | inr (inl e) ↦
          let left = try_parse-incomplete buf e in
          let done = receive_loop_need f buf s e in
          rw (done, left) (receive_loop_fuel (suc g) h (buf ++ later) s hg (rw (done, left) at hh))
      | inr (inr e) ↦ cc (receive_loop_invalid f buf s e)
    ]

-- `Dispatch` does not look at the receive buffer, and leaves it alone.
abbrev pub with_buf : List ℕ → Session → Session
with_buf buf s = record s { recv_buf = buf }

enqueue_send-with_buf :
    (packet buf : List ℕ) (s : Session)
    → enqueue_send packet (with_buf buf s)
      ≡ ((enqueue_send packet s).0, with_buf buf (enqueue_send packet s).1)
unfolding enqueue_send
enqueue_send-with_buf packet buf s = ground arith

send_nok-with_buf :
    (type : ℕ) (err_msg : List ℕ) (payload : List (List ℕ)) (buf : List ℕ) (s : Session)
    → send_nok type err_msg payload (with_buf buf s)
      ≡ ((send_nok type err_msg payload s).0, with_buf buf (send_nok type err_msg payload s).1)
unfolding send_nok
send_nok-with_buf type err_msg payload buf s =
    elim (Option-cases (made type (codes "nok" ∷ (err_msg ∷ payload)))) [
      | inl e ↦ rw e
      | inr (packet, e) ↦ rw e (enqueue_send-with_buf packet buf s)
    ]

pub dispatch-with_buf :
    (pkt : ParsedPacket) (buf : List ℕ) (s : Session)
    → dispatch pkt (with_buf buf s) ≡ with_buf buf (dispatch pkt s)
unfolding dispatch
dispatch-with_buf pkt buf s = ground (
  arith,
  send_nok-with_buf pkt_channel_auth
      (codes "Channel authentication is already in progress or completed") [] buf s,
  send_nok-with_buf pkt.type (codes "Channel authentication required") [] buf s,
)

receive_loop-with_buf :
    (f : ℕ) (bytes buf : List ℕ) (s : Session)
    → receive_loop f bytes (with_buf buf s) ≡ (
      (receive_loop f bytes s).0,
      (receive_loop f bytes s).1,
      with_buf buf (receive_loop f bytes s).2,
    )
receive_loop-with_buf zero bytes buf s = unfold receive_loop in refl
receive_loop-with_buf (suc f) bytes buf s = elim (status_cases (try_parse bytes).0.status) [
  | inl e ↦
      rw
        (
          receive_loop_complete f bytes s e,
          receive_loop_complete f bytes (with_buf buf s) e,
          dispatch-with_buf (try_parse bytes).0.packet buf s,
        )
        (receive_loop-with_buf f (try_parse bytes).1 buf _)
  | inr (inl e) ↦ rw (receive_loop_need f bytes s e, receive_loop_need f bytes (with_buf buf s) e)
  | inr (inr e) ↦
      rw (receive_loop_invalid f bytes s e, receive_loop_invalid f bytes (with_buf buf s) e)
]

abbrev pub finish : Bool × List ℕ × Session → Bool × Session
finish r = (r.0, with_buf r.1 r.2)

-- However TCP cuts the stream: as long as the first part holds no invalid packet, receiving two
-- parts together and receiving one after the other leave the session in the same state, with the
-- same packets dispatched in the same order, and return the same.
pub on_bytes-append :
    (first later : List ℕ) (s : Session)
    → (on_bytes first s).0 ≡ true
    → on_bytes (first ++ later) s ≡ on_bytes later (on_bytes first s).1
unfolding on_bytes
on_bytes-append first later s ok =
    let buf = s.recv_buf ++ first in
    let r = receive_loop (suc (length buf)) buf s in
    ap (λ (b : List ℕ). finish (receive_loop (suc (length b)) b s))
      (sym (append_assoc s.recv_buf first later))
    ∙ ap finish (
        receive_loop-append (suc (length buf)) (suc (length (buf ++ later)))
          (suc (length (r.1 ++ later))) buf later s (omega arith) (omega arith) (omega arith) ok)
    ∙ ap finish (sym (receive_loop-with_buf (suc (length (r.1 ++ later))) (r.1 ++ later) r.1 r.2))

-- A loop that met an invalid packet meets it again when more bytes stand behind.
receive_loop-append_invalid :
    (f g : ℕ) (buf later : List ℕ) (s : Session)
    → length buf < f
    → length (buf ++ later) < g
    → (receive_loop f buf s).0 ≡ false
    → (receive_loop g (buf ++ later) s).0 ≡ false
receive_loop-append_invalid zero g buf later s hf hg bad = absurd (omega arith)
receive_loop-append_invalid (suc f) zero buf later s hf hg bad = absurd (omega arith)
receive_loop-append_invalid (suc f) (suc g) buf later s hf hg bad =
    elim (status_cases (try_parse buf).0.status) [
      | inl e ↦
          let shorter = try_parse-shrinks buf e in
          let step' =
            receive_loop_complete g (buf ++ later) s
              (rw (try_parse-append_complete buf later e) e) in
          rw (step', try_parse-append_complete buf later e)
            (receive_loop-append_invalid f g (try_parse buf).1 later
              (dispatch (try_parse buf).0.packet s) (omega arith)
              (omega (arith, length-append buf later, length-append (try_parse buf).1 later))
              (rw (receive_loop_complete f buf s e) at bad))
      | inr (inl e) ↦ cc (receive_loop_need f buf s e)
      | inr (inr e) ↦
          rw (receive_loop_invalid g (buf ++ later) s (rw (try_parse-append_invalid buf later e) e))
    ]

-- What a loop that ends with `true` leaves holds no whole packet.
receive_loop-IsDrained :
    (f : ℕ) (buf : List ℕ) (s : Session)
    → length buf < f
    → (receive_loop f buf s).0 ≡ true
    → (try_parse (receive_loop f buf s).1).0.status ≡ need_more_data
receive_loop-IsDrained zero buf s h ok = absurd (omega arith)
receive_loop-IsDrained (suc f) buf s h ok = elim (status_cases (try_parse buf).0.status) [
  | inl e ↦
      let shorter = try_parse-shrinks buf e in
      let step = receive_loop_complete f buf s e in
      rw step (receive_loop-IsDrained f (try_parse buf).1 _ (omega arith) (rw step at ok))
  | inr (inl e) ↦ rw (receive_loop_need f buf s e, try_parse-incomplete buf e) e
  | inr (inr e) ↦ cc (receive_loop_invalid f buf s e)
]

-- Nothing but the beginning of a packet waits in the receive buffer.
abbrev pub IsDrained : Session → Type 0
IsDrained s = (try_parse s.recv_buf).0.status ≡ need_more_data

-- After `OnBytes` has returned true only the beginning of a packet is left in the buffer.
pub on_bytes-IsDrained :
    (received : List ℕ) (s : Session)
    → (on_bytes received s).0 ≡ true
    → IsDrained (on_bytes received s).1
unfolding on_bytes
on_bytes-IsDrained received s ok =
    receive_loop-IsDrained (suc (length (s.recv_buf ++ received))) (s.recv_buf ++ received) s
      (omega arith) ok

pub on_bytes-nil : (s : Session) → IsDrained s → on_bytes [] s ≡ (true, s)
unfolding on_bytes
on_bytes-nil s e = rw append-nil (
    rw (receive_loop_need (length s.recv_buf) s.recv_buf s e)
      (ap (λ b. (true, with_buf b s)) (try_parse-incomplete s.recv_buf e)))

pub on_bytes_first :
    (first later : List ℕ) (s : Session)
    → (on_bytes (first ++ later) s).0 ≡ true
    → (on_bytes first s).0 ≡ true
unfolding on_bytes
on_bytes_first first later s ok = elim (Bool-cases (on_bytes first s).0) [
  | inl good ↦ good
  | inr bad ↦
      let buf = s.recv_buf ++ first in
      let again =
        receive_loop-append_invalid (suc (length buf)) (suc (length (buf ++ later))) buf later s
          (omega arith) (omega arith) bad in
      absurd (ends (rw (append_assoc s.recv_buf first later) at again) ok)
]
  where
    ends : {b : Bool} → b ≡ false → b ≡ true → ⊥
    ends h k = cc
