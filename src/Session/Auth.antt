-- ===== src/Session/Auth.antt =====
-- The authentication of a channel session in ChannelSession.cpp: which packets reach the game.
use ll2games_rpg_server.Common.{
  codes, ℕ, suc, ◌+◌, ◌≡◌, refl, ap, ◌∙◌, inl, inr, false, List, [], ◌∷◌, ◌++◌, arith, Option-cases,
  length, ◌<◌, zero,
}
use mathlib.Core.List.{append-nil}
use ll2games_rpg_server.Session.Receive.{
  status_cases, receive_loop_complete, receive_loop_need, receive_loop_invalid,
}
use ll2games_rpg_server.Packet.{try_parse, ParsedPacket}
use ll2games_rpg_server.Session.{
  Session, ChannelAuthenticationState, unauthenticated, authenticating, authenticated, Action,
  submit_auth, submit_packet, enable_write_event, thrown, dispatch, is_authenticated, send_nok,
  pkt_channel_auth, enqueue_send, made, receive_loop, on_bytes, is_authenticated_state,
  mark_authenticated, reset_authentication,
}

-- The packets handed to the game's workers, and the number of authentication tasks.
abbrev pub game_packets : List Action → List ParsedPacket
game_packets [] = []
game_packets (submit_packet key pkt ∷ rest) = pkt ∷ game_packets rest
game_packets (submit_auth payload ∷ rest) = game_packets rest
game_packets (enable_write_event fd ∷ rest) = game_packets rest
game_packets (thrown ∷ rest) = game_packets rest

abbrev pub auth_tasks : List Action → ℕ
auth_tasks [] = 0
auth_tasks (submit_packet key pkt ∷ rest) = auth_tasks rest
auth_tasks (submit_auth payload ∷ rest) = suc (auth_tasks rest)
auth_tasks (enable_write_event fd ∷ rest) = auth_tasks rest
auth_tasks (thrown ∷ rest) = auth_tasks rest

game_packets-append :
    (rest bs : List Action) → game_packets (rest ++ bs) ≡ game_packets rest ++ game_packets bs
game_packets-append [] bs = refl
game_packets-append (submit_packet key pkt ∷ rest) bs = ap (◌∷◌ pkt) (game_packets-append rest bs)
game_packets-append (submit_auth payload ∷ rest) bs = game_packets-append rest bs
game_packets-append (enable_write_event fd ∷ rest) bs = game_packets-append rest bs
game_packets-append (thrown ∷ rest) bs = game_packets-append rest bs

auth_tasks-append :
    (rest bs : List Action) → auth_tasks (rest ++ bs) ≡ auth_tasks rest + auth_tasks bs
auth_tasks-append [] bs = omega arith
auth_tasks-append (submit_packet key pkt ∷ rest) bs = auth_tasks-append rest bs
auth_tasks-append (submit_auth payload ∷ rest) bs = omega (arith, auth_tasks-append rest bs)
auth_tasks-append (enable_write_event fd ∷ rest) bs = auth_tasks-append rest bs
auth_tasks-append (thrown ∷ rest) bs = auth_tasks-append rest bs

-- What a refusal does to the session: an answer may be queued, and nothing else that matters here.
record Answers (s t : Session) : Type 0 where
  same_state : t.authentication_state ≡ s.authentication_state
  same_packets : game_packets t.actions ≡ game_packets s.actions
  same_tasks : auth_tasks t.actions ≡ auth_tasks s.actions

enqueue_send-Answers : (packet : List ℕ) (s : Session) → Answers s (enqueue_send packet s).1
unfolding enqueue_send
enqueue_send-Answers packet s =
    let enabled = enable_write_event s.fd ∷ [] in
    ground (
      arith,
      game_packets-append s.actions enabled,
      append-nil (game_packets s.actions),
      auth_tasks-append s.actions enabled,
    )

send_nok-Answers :
    (type : ℕ) (err_msg : List ℕ) (payload : List (List ℕ)) (s : Session)
    → Answers s (send_nok type err_msg payload s).1
unfolding send_nok
send_nok-Answers type err_msg payload s =
    elim (Option-cases (made type (codes "nok" ∷ (err_msg ∷ payload)))) [
      | inl e ↦ rw e (
          ground (
            arith,
            game_packets-append s.actions (thrown ∷ []),
            append-nil (game_packets s.actions),
            auth_tasks-append s.actions (thrown ∷ []),
          ))
      | inr (packet, e) ↦ rw e (enqueue_send-Answers packet s)
    ]

abbrev one_if_unauthenticated : ChannelAuthenticationState → ℕ
one_if_unauthenticated unauthenticated = 1
one_if_unauthenticated authenticating = 0
one_if_unauthenticated authenticated = 0

-- One packet: before authentication nothing goes to the game, and an authentication task is
-- submitted exactly when the session leaves the state `Unauthenticated`.
record Guarded (s t : Session) : Type 0 where
  locked : is_authenticated s ≡ false → game_packets t.actions ≡ game_packets s.actions
  stays : is_authenticated t ≡ is_authenticated s
  counted :
      auth_tasks t.actions + one_if_unauthenticated t.authentication_state
      ≡ auth_tasks s.actions + one_if_unauthenticated s.authentication_state

Guarded-trans : {s t u : Session} → Guarded s t → Guarded t u → Guarded s u
Guarded-trans g h = record {
  locked = λ e. h.locked (g.stays ∙ e) ∙ g.locked e;
  stays = h.stays ∙ g.stays;
  counted = h.counted ∙ g.counted;
}

Answers-Guarded : {s t : Session} → Answers s t → Guarded s t
unfolding is_authenticated
Answers-Guarded a = record {
  locked = λ e. a.same_packets;
  stays = ground arith;
  counted = ground arith;
}

dispatch-Guarded : (p : ParsedPacket) (s : Session) → Guarded s (dispatch p s)
unfolding dispatch is_authenticated
dispatch-Guarded p s =
    let again = Answers-Guarded (
      send_nok-Answers pkt_channel_auth
        (codes "Channel authentication is already in progress or completed") [] s) in
    let refused =
      Answers-Guarded (send_nok-Answers p.type (codes "Channel authentication required") [] s) in
    let begun = auth_tasks-append s.actions (submit_auth p.payload ∷ []) in
    let begun' = game_packets-append s.actions (submit_auth p.payload ∷ []) in
    let nothing = append-nil (game_packets s.actions) in
    let passed = auth_tasks-append s.actions (submit_packet s.session_id p ∷ []) in ground arith

receive_loop-Guarded : (f : ℕ) (buf : List ℕ) (s : Session) → Guarded s (receive_loop f buf s).2
unfolding receive_loop
receive_loop-Guarded zero buf s = record { locked = λ e. refl; stays = refl; counted = refl }
receive_loop-Guarded (suc f) buf s = elim (status_cases (try_parse buf).0.status) [
  | inl e ↦ rw (receive_loop_complete f buf s e) (
      Guarded-trans (dispatch-Guarded (try_parse buf).0.packet s)
        (receive_loop-Guarded f (try_parse buf).1 _))
  | inr (inl e) ↦
      rw (receive_loop_need f buf s e) (record { locked = λ e. refl; stays = refl; counted = refl })
  | inr (inr e) ↦
      rw (receive_loop_invalid f buf s e)
        (record { locked = λ e. refl; stays = refl; counted = refl })
]

-- Whatever bytes a client sends, as long as its session is not authenticated none of its packets
-- is handed to the game's workers, and receiving does not authenticate it.
pub on_bytes-unauthenticated :
    (received : List ℕ) (s : Session)
    → is_authenticated s ≡ false
    → (game_packets (on_bytes received s).1.actions ≡ game_packets s.actions)
      × (is_authenticated (on_bytes received s).1 ≡ false)
unfolding on_bytes is_authenticated
on_bytes-unauthenticated received s e =
    let buf = s.recv_buf ++ received in
    let g = receive_loop-Guarded (suc (length buf)) buf s in (g.locked e, g.stays ∙ e)

-- The life of a session, with the results of its authentication tasks. A result comes for a task
-- that was submitted and has had none; `ProcessAuthResults` marks the session or resets it.
pub record Life : Type 0 where
  pub session : Session
  pub results : ℕ

pub data Event (l : Life) : Life → Type 0 where
  receive : (received : List ℕ) → Event l (record l { session = (on_bytes received l.session).1 })
  accept :
      l.results < auth_tasks l.session.actions
      → Event l (record { session = mark_authenticated l.session; results = suc l.results })
  reject :
      l.results < auth_tasks l.session.actions
      → Event l (record { session = reset_authentication l.session; results = suc l.results })

pub data Reach (l : Life) : Life → Type 0 where
  here : Reach l l
  next : {m n : Life} → Reach l m → Event m n → Reach l n

abbrev one_if_authenticating : ChannelAuthenticationState → ℕ
one_if_authenticating unauthenticated = 0
one_if_authenticating authenticating = 1
one_if_authenticating authenticated = 0

-- A task is out exactly while the session is `Authenticating`, and there is only one.
abbrev pub IsOrderly : Life → Type 0
IsOrderly l =
    auth_tasks l.session.actions ≡ l.results + one_if_authenticating l.session.authentication_state

receive-IsOrderly :
    (received : List ℕ) (l : Life)
    → IsOrderly l
    → IsOrderly (record l { session = (on_bytes received l.session).1 })
unfolding on_bytes is_authenticated
receive-IsOrderly received l h =
    let buf = l.session.recv_buf ++ received in
    let g = receive_loop-Guarded (suc (length buf)) buf l.session in
    states l.session.authentication_state _ g.counted g.stays h
  where
    states :
        (a b : ChannelAuthenticationState) {m n : ℕ}
        → n + one_if_unauthenticated b ≡ m + one_if_unauthenticated a
        → is_authenticated_state b ≡ is_authenticated_state a
        → m ≡ l.results + one_if_authenticating a
        → n ≡ l.results + one_if_authenticating b
    states a b c e h = ground arith

Event-IsOrderly : {l m : Life} → Event l m → IsOrderly l → IsOrderly m
unfolding mark_authenticated reset_authentication
Event-IsOrderly (receive received) h = receive-IsOrderly received _ h
Event-IsOrderly {l} (accept waits) h = ground arith
Event-IsOrderly {l} (reject waits) h = ground arith

-- In every life of a session that starts with none, at most one authentication task is without a
-- result, and then the session is `Authenticating`: no result meets a session in another state.
pub Reach-IsOrderly : {l m : Life} → IsOrderly l → Reach l m → IsOrderly m
Reach-IsOrderly h here = h
Reach-IsOrderly h (next r e) = Event-IsOrderly e (Reach-IsOrderly h r)
