-- ===== src/Server/Replace.antt =====
-- A step that changes one session and nothing else of the table.
use ll2games_rpg_server.Common.{
  ℕ, ◌<◌, ◌≡◌, refl, sym, ap, subst, ◌∙◌, ◌≢◌, inl, inr, true, false, some, List, [], ◌∷◌, some_inj,
}
use ll2games_rpg_server.Common.Keys.{
  Dict, lookup, insert, ℤ_eq, ℕ_eq, lookup-insert_self, lookup-insert_ne, lookup-insert_inv,
}
use native.Mathlib.Decide.{ℕ_discrete}
use ll2games_rpg_server.Common.Sizes.{length-insert_old, insert-IsDistinct}
use ll2games_rpg_server.Session.{Session}
use ll2games_rpg_server.Server.Life.{
  Life, count, IsHeld, AllHeld, occurrences, IsKept, IsSound, IsSame,
}

pub AllHeld-map :
    (heap heap' : Dict ℕ Session) (held : List (ℕ × ℕ))
    → ((h : ℕ × ℕ) → IsHeld heap h → IsHeld heap' h)
    → AllHeld heap held
    → AllHeld heap' held
AllHeld-map heap heap' [] f all = tt
AllHeld-map heap heap' (h ∷ held) f (first, rest) = (f h first, AllHeld-map heap heap' held f rest)

-- A session replaced by one of the same id is still held.
pub IsHeld-insert :
    (heap : Dict ℕ Session) (a : ℕ) (s t : Session) (h : ℕ × ℕ)
    → lookup a heap ≡ some s
    → t.session_id ≡ s.session_id
    → IsHeld heap h
    → IsHeld (insert a t heap) h
IsHeld-insert heap a s t (b, id) found same (u, at, e) = elim (ℕ_discrete b a) [
  | yes here ↦ (
    t,
    subst (λ (c : ℕ). lookup c (insert a t heap) ≡ some t) (sym here) (lookup-insert_self a t heap),
    same
        ∙ ap Session.session_id
            (some_inj (sym found ∙ subst (λ (c : ℕ). lookup c heap ≡ some u) here at))
        ∙ e,
  )
  | no other ↦ (u, lookup-insert_ne b a t heap (some u) other at, e)
]

module _ (l : Life) (a : ℕ) (s t : Session) (held : List (ℕ × ℕ)) where
  abbrev pub replaced : Life
  replaced = record l { server = record l.server { heap = insert a t l.server.heap }; held = held }

  replaced-mapped :
      {max : ℕ}
      → lookup a l.server.heap ≡ some s
      → IsSame s t
      → IsSound max l
      → (fd b : ℕ) → lookup fd l.server.sessions ≡ some b
      → (u : Session) × (lookup b replaced.server.heap ≡ some u) × (u.fd ≡ fd) × (u.closing ≡ false)
  replaced-mapped found same ok fd b h =
      let (u, at, e, opened) = ok.mapped fd b h in
      elim (ℕ_discrete b a) [
        | yes here ↦
            let us =
              some_inj (sym found ∙ subst (λ (c : ℕ). lookup c l.server.heap ≡ some u) here at) in
            (
              t,
              subst (λ (c : ℕ). lookup c (insert a t l.server.heap) ≡ some t) (sym here)
                  (lookup-insert_self a t l.server.heap),
              same.fd ∙ ap Session.fd us ∙ e,
              same.closing ∙ ap Session.closing us ∙ opened,
            )
        | no other ↦ (u, lookup-insert_ne b a t l.server.heap (some u) other at, e, opened)
      ]

  at-IsKept : IsSame s t → t.in_flight_tasks ≡ count a held → IsKept l a s → IsKept replaced a t
  at-IsKept same counts k = record {
    open_found = λ c.
        subst (λ (fd : ℕ). lookup fd l.server.sessions ≡ some a) (sym same.fd)
          (k.open_found (sym same.closing ∙ c));
    left = λ c. k.left (sym same.closing ∙ c);
    counted = counts;
    id_below = subst (λ (id : ℕ). id < l.server.next_session_id) (sym same.id) k.id_below;
  }

  replaced-IsKept :
      {max : ℕ}
      → lookup a l.server.heap ≡ some s
      → IsSame s t
      → IsSound max l
      → t.in_flight_tasks ≡ count a held
      → ((b : ℕ) → b ≢ a → count b held ≡ count b l.held)
      → (b : ℕ) (u : Session) → lookup b replaced.server.heap ≡ some u
      → IsKept replaced b u
  replaced-IsKept found same ok counts others b u h =
      elim (lookup-insert_inv b a t u l.server.heap h) [
        | inl (here, e) ↦
            subst (λ (c : ℕ). IsKept replaced c u) (sym here)
              (subst (IsKept replaced a) (some_inj e) (at-IsKept same counts (ok.kept a s found)))
        | inr (other, old) ↦
            let k = ok.kept b u old in
            record {
              open_found = k.open_found;
              left = k.left;
              counted = k.counted ∙ sym (others b other);
              id_below = k.id_below;
            }
      ]

  pub id_of :
      lookup a l.server.heap ≡ some s
      → t.session_id ≡ s.session_id
      → (b : ℕ) (u : Session) → lookup b replaced.server.heap ≡ some u
      → (v : Session) × (lookup b l.server.heap ≡ some v) × (v.session_id ≡ u.session_id)
  id_of found same b u h = elim (lookup-insert_inv b a t u l.server.heap h) [
    | inl (here, e) ↦ (
      s,
      subst (λ (c : ℕ). lookup c l.server.heap ≡ some s) (sym here) found,
      sym same ∙ ap Session.session_id (some_inj e),
    )
    | inr (other, old) ↦ (u, old, refl)
  ]

  -- The step, where the tasks that hold a session change as the count in the new session says.
  pub replaced-IsSound :
      {max : ℕ}
      → lookup a l.server.heap ≡ some s
      → IsSame s t
      → t.in_flight_tasks ≡ count a held
      → ((b : ℕ) → b ≢ a → count b held ≡ count b l.held)
      → AllHeld replaced.server.heap held
      → IsSound max l
      → IsSound max replaced
  replaced-IsSound found same counts others all ok = record {
    mapped = λ fd b h. replaced-mapped found same ok fd b h;
    kept = λ b u h. replaced-IsKept found same ok counts others b u h;
    waits_for = λ b h. waits b h;
    holds = all;
    unique = λ b c u v at_b at_c e.
        let (u', old_b, e_b) = id_of found same.id b u at_b in
        let (v', old_c, e_c) = id_of found same.id c v at_c in
        ok.unique b c u' v' old_b old_c (e_b ∙ e ∙ sym e_c);
    users = ok.users ∙ sym (length-insert_old a t s l.server.heap found);
    at_most = ok.at_most;
    limit = ok.limit;
    distinct = insert-IsDistinct a t l.server.heap ok.distinct;
  }
    where
      waits :
          (b : ℕ)
          → 0 < occurrences b l.leaving
          → (u : Session) × (lookup b replaced.server.heap ≡ some u) × (u.closing ≡ true)
      waits b h =
          let (u, at, c) = ok.waits_for b h in
          elim (ℕ_discrete b a) [
            | yes here ↦
                let us =
                  some_inj
                    (sym found ∙ subst (λ (d : ℕ). lookup d l.server.heap ≡ some u) here at) in
                (
                  t,
                  subst (λ (d : ℕ). lookup d (insert a t l.server.heap) ≡ some t) (sym here)
                      (lookup-insert_self a t l.server.heap),
                  same.closing ∙ ap Session.closing us ∙ c,
                )
            | no other ↦ (u, lookup-insert_ne b a t l.server.heap (some u) other at, c)
          ]
