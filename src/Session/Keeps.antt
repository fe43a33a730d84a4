-- ===== src/Session/Keeps.antt =====
-- What `OnBytes` of ChannelSession.cpp never changes: who the session is, whether it closes and how many
-- tasks hold it.
use ll2games_rpg_server.Common.{
  ℕ, zero, suc, ◌≡◌, refl, ◌∙◌, inl, inr, Bool, ◌&&◌, not, Option, none, some, List, ◌∷◌, ◌++◌,
  ◌==◌, codes, if_cases, length,
}
use ll2games_rpg_server.Packet.{ParsedPacket, try_parse}
use ll2games_rpg_server.Session.Receive.{
  status_cases, receive_loop_complete, receive_loop_need, receive_loop_invalid,
}
use ll2games_rpg_server.Session.{
  Session, dispatch, receive_loop, on_bytes, enqueue_send, send_nok, pkt_channel_auth, made,
  send_made, try_begin_authentication, is_authenticated, is_unauthenticated, is_empty,
}

pub record IsUntouched (s t : Session) : Type 0 where
  pub same_fd : t.fd ≡ s.fd
  pub same_id : t.session_id ≡ s.session_id
  pub same_closing : t.closing ≡ s.closing
  pub same_tasks : t.in_flight_tasks ≡ s.in_flight_tasks

untouched : (s : Session) → IsUntouched s s
untouched s = record { same_fd = refl; same_id = refl; same_closing = refl; same_tasks = refl }

IsUntouched-trans : (s t u : Session) → IsUntouched s t → IsUntouched t u → IsUntouched s u
IsUntouched-trans s t u a b = record {
  same_fd = b.same_fd ∙ a.same_fd;
  same_id = b.same_id ∙ a.same_id;
  same_closing = b.same_closing ∙ a.same_closing;
  same_tasks = b.same_tasks ∙ a.same_tasks;
}

enqueue_send-IsUntouched : (packet : List ℕ) (s : Session) → IsUntouched s (enqueue_send packet s).1
unfolding enqueue_send
enqueue_send-IsUntouched packet s =
    if_cases (λ (r : Bool × Session). IsUntouched s r.1) (is_empty packet) (λ e. untouched s)
      λ e.
        if_cases (λ (r : Bool × Session). IsUntouched s r.1) s.closing (λ c. untouched s)
          λ c.
            if_cases (IsUntouched s) (is_empty s.send_queue && s.has_server)
              (λ d. record {
                same_fd = refl;
                same_id = refl;
                same_closing = refl;
                same_tasks = refl;
              })
              λ d. record { same_fd = refl; same_id = refl; same_closing = refl; same_tasks = refl }

send_nok-IsUntouched :
    (type : ℕ) (msg : List ℕ) (payload : List (List ℕ)) (s : Session)
    → IsUntouched s (send_nok type msg payload s).1
unfolding send_nok
send_nok-IsUntouched type msg payload s = by_made (made type (codes "nok" ∷ (msg ∷ payload)))
  where
    by_made : (o : Option (List ℕ)) → IsUntouched s (send_made o s).1
    by_made none = record { same_fd = refl; same_id = refl; same_closing = refl; same_tasks = refl }
    by_made (some packet) = enqueue_send-IsUntouched packet s

dispatch-IsUntouched : (pkt : ParsedPacket) (s : Session) → IsUntouched s (dispatch pkt s)
unfolding dispatch try_begin_authentication is_authenticated
dispatch-IsUntouched pkt s =
    if_cases (IsUntouched s) (not s.has_server) (λ e. untouched s)
      λ e.
        if_cases (IsUntouched s) (pkt.type == pkt_channel_auth)
          (λ f.
            if_cases (IsUntouched s) (not (try_begin_authentication s).0)
              (λ g. IsUntouched-trans s s' _ began (send_nok-IsUntouched _ _ _ s'))
              λ g.
                IsUntouched-trans s s' _ began (record {
                  same_fd = refl;
                  same_id = refl;
                  same_closing = refl;
                  same_tasks = refl;
                }))
          λ f.
            if_cases (IsUntouched s) (not (is_authenticated s)) (λ g. send_nok-IsUntouched _ _ _ s)
              λ g. record { same_fd = refl; same_id = refl; same_closing = refl; same_tasks = refl }
  where
    s' : Session
    s' = (try_begin_authentication s).1

    began : IsUntouched s s'
    began =
        if_cases (λ (r : Bool × Session). IsUntouched s r.1)
          (is_unauthenticated s.authentication_state)
          (λ e. record { same_fd = refl; same_id = refl; same_closing = refl; same_tasks = refl })
          λ e. untouched s

receive_loop-IsUntouched :
    (fuel : ℕ) (buf : List ℕ) (s : Session) → IsUntouched s (receive_loop fuel buf s).2
receive_loop-IsUntouched zero buf s = unfold receive_loop in untouched s
receive_loop-IsUntouched (suc fuel) buf s = elim (status_cases (try_parse buf).0.status) [
  | inl e ↦
      let next = dispatch (try_parse buf).0.packet s in
      rw (receive_loop_complete fuel buf s e) (
        IsUntouched-trans s next _ (dispatch-IsUntouched (try_parse buf).0.packet s)
          (receive_loop-IsUntouched fuel (try_parse buf).1 next))
  | inr (inl e) ↦ rw (receive_loop_need fuel buf s e) (untouched s)
  | inr (inr e) ↦ rw (receive_loop_invalid fuel buf s e) (untouched s)
]

pub on_bytes-IsUntouched : (bytes : List ℕ) (s : Session) → IsUntouched s (on_bytes bytes s).1
unfolding on_bytes
on_bytes-IsUntouched bytes s =
    let buf = s.recv_buf ++ bytes in
    let k = receive_loop-IsUntouched (suc (length buf)) buf s in
    record {
      same_fd = k.same_fd;
      same_id = k.same_id;
      same_closing = k.same_closing;
      same_tasks = k.same_tasks;
    }
