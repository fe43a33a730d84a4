-- ===== src/Server/Waits.antt =====
-- The wait of `OnDisconnect` in ChannelServer.cpp.
use ll2games_rpg_server.Common.{
  ℕ, zero, suc, ◌^◌, ◌<◌, ◌≡◌, refl, sym, ap, subst, ◌∙◌, ◌≢◌, false≢true, inl, inr, true, not,
  Option, none, some, List, [], ◌∷◌, ◌++◌, arith, ◌==◌, Bool-cases, some_inj, if_cases,
}
use ll2games_rpg_server.Common.Keys.{lookup, ℤ_eq, ℕ_eq}
use ll2games_rpg_server.Session.{Session, no_tasks, try_begin_task}
use ll2games_rpg_server.Server.{
  Server, Found, session_at, begin_valid_session_task, begin_found, begin_at, end_session_task,
}
use ll2games_rpg_server.Server.Life.{Life, Reach, ends_task, count, occurrences, IsSound}
use ll2games_rpg_server.Server.Safety.{Reach-IsSound}

-- Tasks that hold the session at an address end, one after the other.
pub data Drains (a : ℕ) : Life → Life → Type 0 where
  no_more : {l : Life} → Drains a l l
  one_more :
      {l l' : Life} (before after : List (ℕ × ℕ)) (id : ℕ)
      → l.held ≡ before ++ ((a, id) ∷ after)
      → Drains a (record l { server = end_session_task a l.server; held = before ++ after }) l'
      → Drains a l l'

hold_of :
    (a n : ℕ) (held : List (ℕ × ℕ))
    → count a held ≡ suc n
    → (before : List (ℕ × ℕ)) × (after : List (ℕ × ℕ)) × (id : ℕ) × (held
        ≡ before ++ ((a, id) ∷ after))
      × (count a (before ++ after) ≡ n)
hold_of a n [] h = absurd (omega arith)
hold_of a n ((b, id) ∷ held) h = elim (Bool-cases (a == b)) [
  | inl e ↦ ([], held, id, ground arith, ground arith)
  | inr e ↦
      let (before, after, other, split, rest) = hold_of a n held (ground arith) in
      ((b, id) ∷ before, after, other, ap (◌∷◌ (b, id)) split, ground arith)
]

drain_lem :
    {max : ℕ} {l : Life} (a n : ℕ)
    → max < 2 ^ 32
    → Reach max l
    → 0 < occurrences a l.leaving
    → count a l.held ≡ n
    → (l' : Life) × Drains a l l' × Reach max l' × (count a l'.held ≡ 0) × (l'.leaving ≡ l.leaving)
drain_lem {l} a zero word r waits h = (l, no_more, r, h, refl)
drain_lem {max} {l} a (suc n) word r waits h =
    let (before, after, id, split, rest) = hold_of a n l.held h in
    let (l', drained, r', none_left, same) =
      drain_lem {max = max}
        {l = record l { server = end_session_task a l.server; held = before ++ after }} a n word
        (ends_task before after a id split r) waits rest in
    (l', one_more before after id split drained, r', none_left, same)

-- A session for which `OnDisconnect` waits gets no new task, under no descriptor and no id, and once
-- the tasks that hold it have ended, one after the other, it still exists and counts none, so that
-- `WaitForNoTasks` returns.
pub Reach-wait_ends :
    {max : ℕ} {l : Life} (a fd id generation : ℕ)
    → max < 2 ^ 32
    → Reach max l
    → 0 < occurrences a l.leaving
    → ((begin_valid_session_task fd id generation l.server).0 ≢ session_at a)
      × ((l' : Life) × (s : Session) × Drains a l l'
          × (lookup a l'.server.heap ≡ some s)
          × (no_tasks s ≡ true))
unfolding no_tasks begin_valid_session_task
Reach-wait_ends {max} {l} a fd id generation word r waits =
    let (l', drained, r', none_left, same) = drain_lem a (count a l.held) word r waits refl in
    let ok = Reach-IsSound word r' in
    let (s, found, closes) = ok.waits_for a (subst (λ ls. 0 < occurrences a ls) (sym same) waits) in
    let counted = (ok.kept a s found).counted in
    (by_fd (lookup fd l.server.sessions) refl, (l', s, drained, found, ground arith))
  where
    now : IsSound max l
    now = Reach-IsSound word r

    Refused : Found × Server → Type 0
    Refused p = p.0 ≢ session_at a

    by_fd :
        (o : Option ℕ)
        → lookup fd l.server.sessions ≡ o
        → Refused (begin_found id generation o l.server)
    by_fd none e = λ h. absurd (ground arith)
    by_fd (some b) e =
        let (s, found, same_fd, opened) = now.mapped fd b e in
        let (t, at_a, closes) = now.waits_for a waits in
        let apart = λ (here : b ≡ a). false≢true (
          sym opened
          ∙ ap Session.closing (
              some_inj
                (sym found ∙ subst (λ (c : ℕ). lookup c l.server.heap ≡ some t) (sym here) at_a))
          ∙ closes) in
        subst (λ o. Refused (begin_at id generation b o l.server)) (sym found)
          (if_cases Refused (not (s.session_id == id)) (λ c. λ h. absurd (ground arith))
            λ i.
              if_cases Refused (not (s.generation == generation)) (λ c. λ h. absurd (ground arith))
                λ g.
                  if_cases Refused (not (try_begin_task s).0) (λ c. λ h. absurd (ground arith))
                    λ c. λ h. apart (session_at_inj h))
      where
        session_at_inj : {x y : ℕ} → session_at x ≡ session_at y → x ≡ y
        session_at_inj h = ground arith
