-- ===== src/Server/Opening.antt =====
-- `delete session`, and a new session, from a sound state.
use ll2games_rpg_server.Common.{
  ℕ, ◌+◌, ◌^◌, ◌<◌, ◌≡◌, refl, sym, ap, subst, ◌∙◌, ◌≢◌, false≢true, inl, inr, true, false, not,
  none, some, List, [], ◌∷◌, arith, leb, some_inj, if_cases, none≢some,
}
use ll2games_rpg_server.Common.Keys.{
  Dict, lookup, erase, ℤ_eq, ℕ_eq, lookup-insert_self, lookup-insert_ne, lookup-insert_inv,
  lookup-erase_ne, lookup-erase_inv,
}
use native.Mathlib.Decide.{ℕ_discrete}
use ll2games_rpg_server.Common.Sizes.{
  length-insert_new, insert-IsDistinct, length-erase, erase-IsDistinct,
}
use ll2games_rpg_server.Session.{Session, no_tasks}
use ll2games_rpg_server.Server.{
  Server, Attempt, new_session, open_session, accept_round, on_disconnect_end,
}
use ll2games_rpg_server.Server.Life.{
  Life, count, occurrences, without, IsHeld, AllHeld, IsKept, IsSound,
}
use ll2games_rpg_server.Server.Replace.{AllHeld-map}

occurrences-without_self : (a : ℕ) (bs : List ℕ) → occurrences a (without a bs) ≡ 0
occurrences-without_self a [] = refl
occurrences-without_self a (b ∷ bs) = ground (arith, occurrences-without_self a bs)

occurrences-without_ne :
    (a b : ℕ) (bs : List ℕ) → b ≢ a → occurrences b (without a bs) ≡ occurrences b bs
occurrences-without_ne a b [] n = refl
occurrences-without_ne a b (c ∷ bs) n = ground (arith, occurrences-without_ne a b bs)

AllHeld-erase :
    (heap : Dict ℕ Session) (a : ℕ) (held : List (ℕ × ℕ))
    → count a held ≡ 0
    → AllHeld heap held
    → AllHeld (erase a heap) held
AllHeld-erase heap a [] h all = tt
AllHeld-erase heap a ((b, id) ∷ held) h ((s, found, e), rest) = (
  (s, lookup-erase_ne b a heap (some s) (λ (here : b ≡ a). absurd (ground arith)) found, e),
  AllHeld-erase heap a held (ground arith) rest,
)

count_absent :
    (heap : Dict ℕ Session) (a : ℕ) (held : List (ℕ × ℕ))
    → lookup a heap ≡ none
    → AllHeld heap held
    → count a held ≡ 0
count_absent heap a [] h all = refl
count_absent heap a ((b, id) ∷ held) h ((s, found, e), rest) = elim (ℕ_discrete a b) [
  | yes here ↦
      absurd (none≢some (sym h ∙ subst (λ (c : ℕ). lookup c heap ≡ some s) (sym here) found))
  | no other ↦ let zero_rest = count_absent heap a held h rest in ground arith
]

pub delete-IsSound :
    {max : ℕ} (l : Life) (a : ℕ) (s : Session)
    → 0 < occurrences a l.leaving
    → lookup a l.server.heap ≡ some s
    → no_tasks s ≡ true
    → IsSound max l
    → IsSound max
        (record l { server = on_disconnect_end a l.server; leaving = without a l.leaving })
unfolding on_disconnect_end no_tasks
delete-IsSound {max} l a s waits found idle ok = record {
  mapped = λ g b h.
      let (u, at, e, c) = ok.mapped g b h in
      (
        u,
        lookup-erase_ne b a l.server.heap (some u)
            (λ (here : b ≡ a). false≢true (
              sym c
              ∙ ap Session.closing (
                  some_inj
                    (sym at ∙ subst (λ (d : ℕ). lookup d l.server.heap ≡ some s) (sym here) found))
              ∙ closes))
            at,
        e,
        c,
      );
  kept = λ b u h.
      let (other, old) = lookup-erase_inv b a u l.server.heap h in
      let k = ok.kept b u old in
      record {
        open_found = k.open_found;
        left = λ c. occurrences-without_ne a b l.leaving other ∙ k.left c;
        counted = k.counted;
        id_below = k.id_below;
      };
  waits_for = λ b h. elim (ℕ_discrete b a) [
    | yes here ↦ absurd (
        let z = occurrences-without_self a l.leaving in
        let h' = subst (λ (c : ℕ). 0 < occurrences c (without a l.leaving)) here h in omega arith)
    | no other ↦
        let (u, at, c) =
          ok.waits_for b
            (subst (λ (n : ℕ). 0 < n) (occurrences-without_ne a b l.leaving other) h) in
        (u, lookup-erase_ne b a l.server.heap (some u) other at, c)
  ];
  holds =
      AllHeld-erase l.server.heap a l.held (let k = (ok.kept a s found).counted in ground arith)
        ok.holds;
  unique = λ b c u v at_b at_c e.
      ok.unique b c u v (lookup-erase_inv b a u l.server.heap at_b).1
        (lookup-erase_inv c a v l.server.heap at_c).1 e;
  users =
      let smaller = length-erase a s l.server.heap ok.distinct found in
      let n = ok.users in ground arith;
  at_most = let n = ok.at_most in ground arith;
  limit = ok.limit;
  distinct = erase-IsDistinct a l.server.heap ok.distinct;
}
  where
    closes : s.closing ≡ true
    closes =
        let (u, at, c) = ok.waits_for a waits in ap Session.closing (some_inj (sym found ∙ at)) ∙ c

module _ (l : Life) (fd a : ℕ) where
  abbrev opened : Life
  opened = record l { server = open_session a fd l.server }

  opened-IsKept :
      {max : ℕ}
      → lookup fd l.server.sessions ≡ none
      → lookup a l.server.heap ≡ none
      → l.server.next_session_id + 1 < 2 ^ 64
      → IsSound max l
      → (b : ℕ) (u : Session) → lookup b opened.server.heap ≡ some u
      → IsKept opened b u
  opened-IsKept no_fd fresh small ok b u h =
      elim (lookup-insert_inv b a (new_session fd l.server.next_session_id 1) u l.server.heap h) [
        | inl (here, e) ↦
            subst (λ (c : ℕ). IsKept opened c u) (sym here)
              (subst (IsKept opened a) (some_inj e) (record {
                open_found = λ c. lookup-insert_self fd a l.server.sessions;
                left = λ c. absurd (false≢true c);
                counted = sym (count_absent l.server.heap a l.held fresh ok.holds);
                id_below = omega arith;
              }))
        | inr (other, old) ↦
            let k = ok.kept b u old in
            record {
              open_found = λ c.
                  lookup-insert_ne u.fd fd a l.server.sessions (some b)
                    (λ (e : u.fd ≡ fd). none≢some (
                      sym no_fd
                      ∙ subst (λ (g : ℕ). lookup g l.server.sessions ≡ some b) e (k.open_found c)))
                    (k.open_found c);
              left = k.left;
              counted = k.counted;
              id_below = let below = k.id_below in omega arith;
            }
      ]

  not_fresh :
      (b : ℕ) (u : Session)
      → lookup a l.server.heap ≡ none
      → lookup b l.server.heap ≡ some u
      → lookup b opened.server.heap ≡ some u
  not_fresh b u fresh at =
      lookup-insert_ne b a _ l.server.heap (some u)
        (λ (here : b ≡ a).
          none≢some (sym fresh ∙ subst (λ (c : ℕ). lookup c l.server.heap ≡ some u) here at))
        at

  opened-IsSound :
      {max : ℕ}
      → max < 2 ^ 32
      → leb l.server.max_user_count l.server.current_user_count ≡ false
      → lookup fd l.server.sessions ≡ none
      → lookup a l.server.heap ≡ none
      → l.server.next_session_id + 1 < 2 ^ 64
      → IsSound max l
      → IsSound max opened
  opened-IsSound {max} word room no_fd fresh small ok = record {
    mapped = λ g b h. elim (lookup-insert_inv g fd a b l.server.sessions h) [
      | inl (here, e) ↦ (
        new_session fd l.server.next_session_id 1,
        subst
            (λ (c : ℕ).
              lookup c opened.server.heap ≡ some (new_session fd l.server.next_session_id 1))
            (some_inj e) (lookup-insert_self a _ l.server.heap),
        sym here,
        refl,
      )
      | inr (other, old) ↦
          let (u, at, e, c) = ok.mapped g b old in (u, not_fresh b u fresh at, e, c)
    ];
    kept = λ b u h. opened-IsKept no_fd fresh small ok b u h;
    waits_for = λ b h. let (u, at, c) = ok.waits_for b h in (u, not_fresh b u fresh at, c);
    holds = AllHeld-map l.server.heap opened.server.heap l.held (λ h. held_on h) ok.holds;
    unique = λ b c u v at_b at_c e.
        elim (lookup-insert_inv b a (new_session fd l.server.next_session_id 1) u l.server.heap
          at_b) [
            | inl (b_a, new_u) ↦
                elim (lookup-insert_inv c a (new_session fd l.server.next_session_id 1) v
                  l.server.heap at_c) [
                    | inl (c_a, new_v) ↦ b_a ∙ sym c_a
                    | inr (other, old) ↦
                        let below = (ok.kept c v old).id_below in
                        let ids = ap Session.session_id (some_inj new_u) in absurd (omega arith)
                  ]
            | inr (other, old) ↦
                elim (lookup-insert_inv c a (new_session fd l.server.next_session_id 1) v
                  l.server.heap at_c) [
                    | inl (c_a, new_v) ↦
                        let below = (ok.kept b u old).id_below in
                        let ids = ap Session.session_id (some_inj new_v) in absurd (omega arith)
                    | inr (other_c, old_c) ↦ ok.unique b c u v old old_c e
                  ]
          ];
    users =
        let one_more =
          length-insert_new a (new_session fd l.server.next_session_id 1) l.server.heap fresh in
        let n = ok.users in let m = ok.at_most in let x = ok.limit in ground arith;
    at_most = let m = ok.at_most in let x = ok.limit in ground arith;
    limit = ok.limit;
    distinct = insert-IsDistinct a _ l.server.heap ok.distinct;
  }
    where
      held_on : (h : ℕ × ℕ) → IsHeld l.server.heap h → IsHeld opened.server.heap h
      held_on h (u, at, e) = (u, not_fresh h.0 u fresh at, e)

pub accept-IsSound :
    {max : ℕ} (l : Life) (address : ℕ) (a : Attempt)
    → max < 2 ^ 32
    → lookup a.cfd l.server.sessions ≡ none
    → lookup address l.server.heap ≡ none
    → l.server.next_session_id + 1 < 2 ^ 64
    → IsSound max l
    → IsSound max (record l { server = accept_round address a l.server })
unfolding accept_round
accept-IsSound {max} l address a word no_fd fresh small ok =
    if_cases After (not a.nonblocking) (λ e. ok)
      λ e.
        if_cases After (leb l.server.max_user_count l.server.current_user_count) (λ c. ok)
          λ room.
            if_cases After (not a.no_delay) (λ c. ok)
              λ c.
                if_cases After (not a.watched) (λ d. ok)
                  λ d. opened-IsSound l a.cfd address word room no_fd fresh small ok
  where
    After : Server → Type 0
    After s = IsSound max (record l { server = s })
