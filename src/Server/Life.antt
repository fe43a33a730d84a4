-- ===== src/Server/Life.antt =====
-- A channel server with the tasks that hold its sessions and the sessions whose `OnDisconnect` waits.
use ll2games_rpg_server.Common.{
  ℕ, suc, ◌+◌, ◌^◌, ◌≤◌, ◌<◌, ◌≡◌, true, false, none, some, List, [], ◌∷◌, ◌++◌, ◌==◌,
  if◌then◌else◌, length,
}
use ll2games_rpg_server.Common.Keys.{Dict, lookup, ℤ_eq, ℕ_eq}
use ll2games_rpg_server.Common.Sizes.{IsDistinct}
use ll2games_rpg_server.Session.{Session, no_tasks}
use ll2games_rpg_server.Server.{
  Server, Attempt, Found, null, session_at, dangling, RecvOutcome, new_server, accept_round,
  begin_valid_session_task, end_session_task, on_disconnect_begin, on_disconnect_end, on_receive,
}

pub record Life : Type 0 where
  pub server : Server
  -- for each task between `BeginValidSessionTask` and `EndSessionTask`, the address of its session and
  -- the session id that it asked for
  pub held : List (ℕ × ℕ)
  -- the sessions whose `OnDisconnect` has not yet deleted them
  pub leaving : List ℕ

abbrev pub count : ℕ → List (ℕ × ℕ) → ℕ
count a [] = 0
count a ((b, id) ∷ held) = if a == b then suc (count a held) else count a held

abbrev pub occurrences : ℕ → List ℕ → ℕ
occurrences a [] = 0
occurrences a (b ∷ bs) = if a == b then suc (occurrences a bs) else occurrences a bs

abbrev pub without : ℕ → List ℕ → List ℕ
without a [] = []
without a (b ∷ bs) = if a == b then without a bs else b ∷ without a bs

abbrev pub hold : Found → ℕ → List (ℕ × ℕ) → List (ℕ × ℕ)
hold null id held = held
hold (session_at a) id held = (a, id) ∷ held
hold dangling id held = held

abbrev pub leave : Found → List ℕ → List ℕ
leave null leaving = leaving
leave (session_at a) leaving = a ∷ leaving
leave dangling leaving = leaving

-- The states that the calls of any threads lead to, in any order. `accept` returns a descriptor that
-- is not open and `new` an address that is not in use; there are fewer than 2^64 connections.
pub data Reach (max : ℕ) : Life → Type 0 where
  begins : Reach max (record { server = new_server max; held = []; leaving = [] })
  accepts :
      {l : Life} (address : ℕ) (a : Attempt)
      → lookup a.cfd l.server.sessions ≡ none
      → lookup address l.server.heap ≡ none
      → l.server.next_session_id + 1 < 2 ^ 64
      → Reach max l
      → Reach max (record l { server = accept_round address a l.server })
  begins_task :
      {l : Life} (fd id generation : ℕ)
      → Reach max l
      → Reach max (record l {
        server = (begin_valid_session_task fd id generation l.server).1;
        held = hold (begin_valid_session_task fd id generation l.server).0 id l.held;
      })
  ends_task :
      {l : Life} (before after : List (ℕ × ℕ)) (address id : ℕ)
      → l.held ≡ before ++ ((address, id) ∷ after)
      → Reach max l
      → Reach max (record l { server = end_session_task address l.server; held = before ++ after })
  disconnects :
      {l : Life} (fd : ℕ)
      → Reach max l
      → Reach max (record l {
        server = (on_disconnect_begin fd l.server).1;
        leaving = leave (on_disconnect_begin fd l.server).0 l.leaving;
      })
  receives :
      {l : Life} (fd : ℕ) (outcomes : List RecvOutcome)
      → Reach max l
      → Reach max (record l {
        server = (on_receive fd outcomes l.server).1;
        leaving = leave (on_receive fd outcomes l.server).0 l.leaving;
      })
  deletes :
      {l : Life} (address : ℕ) (session : Session)
      → 0 < occurrences address l.leaving
      → lookup address l.server.heap ≡ some session
      → no_tasks session ≡ true
      → Reach max l
      → Reach max (record l {
        server = on_disconnect_end address l.server;
        leaving = without address l.leaving;
      })

-- A session that a task holds exists, and is the one that the task asked for.
abbrev pub IsHeld : Dict ℕ Session → ℕ × ℕ → Type 0
IsHeld heap h = (s : Session) × (lookup h.0 heap ≡ some s) × (s.session_id ≡ h.1)

abbrev pub AllHeld : Dict ℕ Session → List (ℕ × ℕ) → Type 0
AllHeld heap [] = Unit
AllHeld heap (h ∷ held) = IsHeld heap h × AllHeld heap held

-- An existing session: while it is open its descriptor leads to it, once it closes exactly one
-- `OnDisconnect` waits for it; it counts the tasks that hold it.
pub record IsKept (l : Life) (a : ℕ) (s : Session) : Type 0 where
  pub open_found : s.closing ≡ false → lookup s.fd l.server.sessions ≡ some a
  pub left : s.closing ≡ true → occurrences a l.leaving ≡ 1
  pub counted : s.in_flight_tasks ≡ count a l.held
  pub id_below : s.session_id < l.server.next_session_id

pub record IsSound (max : ℕ) (l : Life) : Type 0 where
  pub mapped :
      (fd a : ℕ)
      → lookup fd l.server.sessions ≡ some a
      → (s : Session) × (lookup a l.server.heap ≡ some s) × (s.fd ≡ fd) × (s.closing ≡ false)
  pub kept : (a : ℕ) (s : Session) → lookup a l.server.heap ≡ some s → IsKept l a s
  pub waits_for :
      (a : ℕ)
      → 0 < occurrences a l.leaving
      → (s : Session) × (lookup a l.server.heap ≡ some s) × (s.closing ≡ true)
  pub holds : AllHeld l.server.heap l.held
  pub unique :
      (a b : ℕ) (s t : Session)
      → lookup a l.server.heap ≡ some s
      → lookup b l.server.heap ≡ some t
      → s.session_id ≡ t.session_id
      → a ≡ b
  pub users : l.server.current_user_count ≡ length l.server.heap
  pub at_most : l.server.current_user_count ≤ max
  pub limit : l.server.max_user_count ≡ max
  pub distinct : IsDistinct l.server.heap

-- Nothing that a table of sessions depends on differs.
pub record IsSame (s t : Session) : Type 0 where
  pub fd : t.fd ≡ s.fd
  pub id : t.session_id ≡ s.session_id
  pub closing : t.closing ≡ s.closing
