-- ===== src/Server/Tasks.antt =====
-- Beginning and ending a task on a session, from a sound state.
use ll2games_rpg_server.Common.{
  ℕ, ◌+◌, ◌-◌, ◌≡◌, refl, sym, ap, subst, ◌∙◌, Bool, true, false, not, Option, none, some, List, [],
  ◌∷◌, ◌++◌, arith, ltb, ◌==◌, if◌then◌else◌, if_cases,
}
use ll2games_rpg_server.Common.Keys.{Dict, lookup, insert, ℤ_eq, ℕ_eq, lookup-insert_self}
use ll2games_rpg_server.Session.{Session, try_begin_task, end_task}
use ll2games_rpg_server.Server.{
  Server, Found, session_at, begin_at, begin_found, begin_valid_session_task, end_at,
  end_session_task,
}
use ll2games_rpg_server.Server.Life.{Life, count, hold, IsHeld, AllHeld, IsSound, IsSame}
use ll2games_rpg_server.Server.Replace.{AllHeld-map, IsHeld-insert, replaced-IsSound}

try_begin_task-IsSame :
    (s : Session)
    → not (try_begin_task s).0 ≡ false
    → IsSame s (try_begin_task s).1 × ((try_begin_task s).1.in_flight_tasks ≡ s.in_flight_tasks + 1)
unfolding try_begin_task
try_begin_task-IsSame s h = from s.closing refl h
  where
    Begun : Bool × Session → Type 0
    Begun r = not r.0 ≡ false → IsSame s r.1 × (r.1.in_flight_tasks ≡ s.in_flight_tasks + 1)

    from :
        (b : Bool)
        → s.closing ≡ b
        → Begun (
            if s.closing
            then (false, s)
            else (true, record s { in_flight_tasks = s.in_flight_tasks + 1 }))
    from b e =
        if_cases Begun s.closing (λ c g. absurd (ground arith))
          λ c g. (record { fd = refl; id = refl; closing = refl }, refl)

end_task-IsSame :
    (s : Session) → IsSame s (end_task s) × ((end_task s).in_flight_tasks ≡ s.in_flight_tasks - 1)
unfolding end_task
end_task-IsSame s =
    if_cases (λ t. IsSame s t × (t.in_flight_tasks ≡ s.in_flight_tasks - 1))
      (ltb 0 s.in_flight_tasks) (λ e. (record { fd = refl; id = refl; closing = refl }, refl))
      λ e. (record { fd = refl; id = refl; closing = refl }, ground arith)

pub begin-IsSound :
    {max : ℕ} (l : Life) (fd id generation : ℕ)
    → IsSound max l
    → IsSound max (record l {
      server = (begin_valid_session_task fd id generation l.server).1;
      held = hold (begin_valid_session_task fd id generation l.server).0 id l.held;
    })
unfolding begin_valid_session_task
begin-IsSound {max} l fd id generation ok = by_fd (lookup fd l.server.sessions) refl
  where
    After : Found × Server → Type 0
    After r = IsSound max (record l { server = r.1; held = hold r.0 id l.held })

    begun :
        (a : ℕ) (s : Session)
        → lookup a l.server.heap ≡ some s
        → s.session_id ≡ id
        → not (try_begin_task s).0 ≡ false
        → After
            (session_at a, record l.server { heap = insert a (try_begin_task s).1 l.server.heap })
    begun a s found same_id began =
        let (same, one_more) = try_begin_task-IsSame s began in
        let t = (try_begin_task s).1 in
        replaced-IsSound l a s t ((a, id) ∷ l.held) found same
          (let k = (ok.kept a s found).counted in ground arith) (λ b other. ground arith)
          (
            (t, lookup-insert_self a t l.server.heap, same.id ∙ same_id),
            AllHeld-map l.server.heap (insert a t l.server.heap) l.held
                (λ h. IsHeld-insert l.server.heap a s t h found same.id) ok.holds,
          )
          ok

    by_fd :
        (o : Option ℕ)
        → lookup fd l.server.sessions ≡ o
        → After (begin_found id generation o l.server)
    by_fd none e = ok
    by_fd (some a) e =
        let (s, found, same_fd, opened) = ok.mapped fd a e in
        subst (λ o. After (begin_at id generation a o l.server)) (sym found)
          (if_cases After (not (s.session_id == id)) (λ c. ok)
            λ i.
              if_cases After (not (s.generation == generation)) (λ c. ok)
                λ g.
                  if_cases After (not (try_begin_task s).0) (λ c. ok)
                    λ c. begun a s found (ground arith) c)

count-append : (a : ℕ) (xs ys : List (ℕ × ℕ)) → count a (xs ++ ys) ≡ count a xs + count a ys
count-append a [] ys = omega arith
count-append a ((b, id) ∷ xs) ys = ground (arith, count-append a xs ys)

pub AllHeld-middle :
    (heap : Dict ℕ Session) (before after : List (ℕ × ℕ)) (h : ℕ × ℕ)
    → AllHeld heap (before ++ (h ∷ after))
    → IsHeld heap h × AllHeld heap (before ++ after)
AllHeld-middle heap [] after h all = all
AllHeld-middle heap (b ∷ before) after h (first, rest) =
    let (it, others) = AllHeld-middle heap before after h rest in (it, (first, others))

pub end-IsSound :
    {max : ℕ} (l : Life) (before after : List (ℕ × ℕ)) (address id : ℕ)
    → l.held ≡ before ++ ((address, id) ∷ after)
    → IsSound max l
    → IsSound max (record l { server = end_session_task address l.server; held = before ++ after })
unfolding end_session_task
end-IsSound {max} l before after address id split ok =
    let ((s, found, same_id), others) =
      AllHeld-middle l.server.heap before after (address, id)
        (subst (AllHeld l.server.heap) split ok.holds) in
    let (same, one_less) = end_task-IsSame s in
    let t = end_task s in
    subst
      (λ o. IsSound max (record l { server = end_at address o l.server; held = before ++ after }))
      (sym found)
      (replaced-IsSound l address s t (before ++ after) found same
        (let k = (ok.kept address s found).counted in
          let c = ap (count address) split in
          let c1 = count-append address before ((address, id) ∷ after) in
          let c2 = count-append address before after in ground arith)
        (λ b other.
          let c = ap (count b) split in
          let c1 = count-append b before ((address, id) ∷ after) in
          let c2 = count-append b before after in ground arith)
        (AllHeld-map l.server.heap (insert address t l.server.heap) (before ++ after)
          (λ h. IsHeld-insert l.server.heap address s t h found same.id) others)
        ok)
