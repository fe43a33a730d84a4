-- ===== src/Server/Safety.antt =====
-- ChannelServer.cpp in every order of its calls.
use ll2games_rpg_server.Common.{
  ℕ, ◌^◌, ◌<◌, ◌≡◌, refl, sym, subst, ◌∙◌, not, Option, none, some, List, [], ◌∷◌, ◌++◌, arith,
  if_cases, none≢some,
}
use ll2games_rpg_server.Common.Keys.{lookup, insert, ℤ_eq, ℕ_eq}
use ll2games_rpg_server.Session.{Session, on_bytes}
use ll2games_rpg_server.Session.Keeps.{on_bytes-IsUntouched}
use ll2games_rpg_server.Server.{
  Server, Found, RecvOutcome, receive_chunks, deliver_at, deliver_found, on_receive,
  on_disconnect_begin,
}
use ll2games_rpg_server.Server.Life.{
  Life, Reach, begins, accepts, begins_task, ends_task, disconnects, receives, deletes, leave,
  AllHeld, IsSound,
}
use ll2games_rpg_server.Server.Replace.{AllHeld-map, IsHeld-insert, replaced-IsSound}
use ll2games_rpg_server.Server.Tasks.{AllHeld-middle, begin-IsSound, end-IsSound}
use ll2games_rpg_server.Server.Closing.{disconnect-IsSound}
use ll2games_rpg_server.Server.Opening.{delete-IsSound, accept-IsSound}

receive-IsSound :
    {max : ℕ} (l : Life) (fd : ℕ) (outcomes : List RecvOutcome)
    → IsSound max l
    → IsSound max (record l {
      server = (on_receive fd outcomes l.server).1;
      leaving = leave (on_receive fd outcomes l.server).0 l.leaving;
    })
unfolding on_receive
receive-IsSound {max} l fd outcomes ok = by_read (receive_chunks outcomes [])
  where
    After : Found × Server → Type 0
    After r = IsSound max (record l { server = r.1; leaving = leave r.0 l.leaving })

    at :
        (bytes : List ℕ) (a : ℕ) (s : Session)
        → lookup a l.server.heap ≡ some s
        → After (deliver_at fd a bytes (some s) l.server)
    at bytes a s found =
        let same = on_bytes-IsUntouched bytes s in
        let t = (on_bytes bytes s).1 in
        let next =
          replaced-IsSound l a s t l.held found
            (record { fd = same.same_fd; id = same.same_id; closing = same.same_closing })
            (same.same_tasks ∙ (ok.kept a s found).counted) (λ b n. refl)
            (AllHeld-map l.server.heap (insert a t l.server.heap) l.held
              (λ h. IsHeld-insert l.server.heap a s t h found same.same_id) ok.holds)
            ok in
        if_cases After (not (on_bytes bytes s).0)
          (λ e.
            disconnect-IsSound
              (record l { server = record l.server { heap = insert a t l.server.heap } }) fd next)
          λ e. next

    by_fd :
        (bytes : List ℕ) (o : Option ℕ)
        → lookup fd l.server.sessions ≡ o
        → After (deliver_found fd bytes o l.server)
    by_fd bytes none e = ok
    by_fd bytes (some a) e =
        let (s, found, same_fd, opened) = ok.mapped fd a e in
        subst (λ o. After (deliver_at fd a bytes o l.server)) (sym found) (at bytes a s found)

    by_read :
        (o : Option (List ℕ))
        → After (elim o [
          | none ↦ on_disconnect_begin fd l.server
          | some bytes ↦ deliver_found fd bytes (lookup fd l.server.sessions) l.server
        ])
    by_read none = disconnect-IsSound l fd ok
    by_read (some bytes) = by_fd bytes (lookup fd l.server.sessions) refl

-- In every state that the calls of any threads lead to, in any order, with a user limit that an
-- unsigned int holds: each descriptor in the table leads to its own, open session; each session that
-- exists is in the table or waits for exactly one `OnDisconnect`; it counts exactly the tasks that
-- hold it; no two have the same id; the user count is the number of sessions and within the limit.
pub Reach-IsSound : {max : ℕ} {l : Life} → max < 2 ^ 32 → Reach max l → IsSound max l
Reach-IsSound word begins = record {
  mapped = λ fd a h. absurd (none≢some h);
  kept = λ a s h. absurd (none≢some h);
  waits_for = λ a h. absurd (omega arith);
  holds = tt;
  unique = λ a b s t h. absurd (none≢some h);
  users = refl;
  at_most = omega arith;
  limit = refl;
  distinct = tt;
}
Reach-IsSound word (accepts address a no_fd fresh small r) =
    accept-IsSound _ address a word no_fd fresh small (Reach-IsSound word r)
Reach-IsSound word (begins_task fd id generation r) =
    begin-IsSound _ fd id generation (Reach-IsSound word r)
Reach-IsSound word (ends_task before after address id split r) =
    end-IsSound _ before after address id split (Reach-IsSound word r)
Reach-IsSound word (disconnects fd r) = disconnect-IsSound _ fd (Reach-IsSound word r)
Reach-IsSound word (receives fd outcomes r) = receive-IsSound _ fd outcomes (Reach-IsSound word r)
Reach-IsSound word (deletes a s waits found idle r) =
    delete-IsSound _ a s waits found idle (Reach-IsSound word r)

-- A task that holds a session holds the session that it asked for by its id, from
-- `BeginValidSessionTask` to `EndSessionTask`, whatever other threads do: it is never deleted, and
-- never another client's that got the same descriptor or the same address.
pub Reach-task_session :
    {max : ℕ} {l : Life} (before after : List (ℕ × ℕ)) (address id : ℕ)
    → max < 2 ^ 32
    → Reach max l
    → l.held ≡ before ++ ((address, id) ∷ after)
    → (s : Session) × (lookup address l.server.heap ≡ some s) × (s.session_id ≡ id)
Reach-task_session {max} {l} before after address id word r split =
    (AllHeld-middle l.server.heap before after (address, id)
      (subst (AllHeld l.server.heap) split (Reach-IsSound word r).holds)).0
