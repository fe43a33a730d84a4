-- ===== src/Server/Closing.antt =====
-- `OnDisconnect` before and after its wait, from a sound state.
use ll2games_rpg_server.Common.{
  ℕ, zero, suc, ◌<◌, ◌≡◌, refl, sym, ap, subst, ◌∙◌, false≢true, inl, inr, false, Option, none,
  some, ◌∷◌, arith, some_inj,
}
use ll2games_rpg_server.Common.Keys.{
  lookup, insert, erase, ℤ_eq, ℕ_eq, lookup-insert_self, lookup-insert_ne, lookup-insert_inv,
  lookup-erase_ne, lookup-erase_inv,
}
use native.Mathlib.Decide.{ℕ_discrete}
use ll2games_rpg_server.Common.Sizes.{length-insert_old, insert-IsDistinct}
use ll2games_rpg_server.Session.{Session, mark_closing}
use ll2games_rpg_server.Server.{Server, Found, close_at, close_found, on_disconnect_begin}
use ll2games_rpg_server.Server.Life.{Life, occurrences, leave, IsKept, IsSound}
use ll2games_rpg_server.Server.Replace.{AllHeld-map, IsHeld-insert, id_of}

module _ (l : Life) (fd a : ℕ) (s : Session) where
  abbrev closed : Life
  closed = record l {
    server = record l.server {
      sessions = erase fd l.server.sessions;
      heap = insert a (mark_closing s) l.server.heap;
    };
    leaving = a ∷ l.leaving;
  }

  not_leaving :
      {max : ℕ}
      → lookup a l.server.heap ≡ some s
      → s.closing ≡ false
      → IsSound max l
      → occurrences a l.leaving ≡ 0
  not_leaving found opened ok = zero_of (occurrences a l.leaving) λ pos.
      let (u, at, c) = ok.waits_for a pos in
      false≢true (sym opened ∙ ap Session.closing (some_inj (sym found ∙ at)) ∙ c)
    where
      zero_of : (n : ℕ) → ((0 < n) → ⊥) → n ≡ 0
      zero_of zero h = refl
      zero_of (suc n) h = absurd (h (omega arith))

  closed-mapped :
      {max : ℕ}
      → lookup a l.server.heap ≡ some s
      → s.fd ≡ fd
      → IsSound max l
      → (g b : ℕ) → lookup g closed.server.sessions ≡ some b
      → (u : Session) × (lookup b closed.server.heap ≡ some u) × (u.fd ≡ g) × (u.closing ≡ false)
  closed-mapped found same ok g b h =
      let (other, old) = lookup-erase_inv g fd b l.server.sessions h in
      let (u, at, e, c) = ok.mapped g b old in
      let apart = λ (here : b ≡ a). other (
        sym e
        ∙ ap Session.fd (
            some_inj (sym at ∙ subst (λ (c : ℕ). lookup c l.server.heap ≡ some s) (sym here) found))
        ∙ same) in
      (u, lookup-insert_ne b a (mark_closing s) l.server.heap (some u) apart at, e, c)

  closed-IsKept :
      {max : ℕ}
      → lookup fd l.server.sessions ≡ some a
      → lookup a l.server.heap ≡ some s
      → s.closing ≡ false
      → IsSound max l
      → (b : ℕ) (u : Session) → lookup b closed.server.heap ≡ some u
      → IsKept closed b u
  unfolding mark_closing
  closed-IsKept from found opened ok b u h =
      elim (lookup-insert_inv b a (mark_closing s) u l.server.heap h) [
        | inl (here, e) ↦
            let k = ok.kept a s found in
            let gone = not_leaving found opened ok in
            subst (λ (c : ℕ). IsKept closed c u) (sym here)
              (subst (IsKept closed a) (some_inj e) (record {
                open_found = λ c. absurd (false≢true (sym c));
                left = λ c. ground arith;
                counted = k.counted;
                id_below = k.id_below;
              }))
        | inr (other, old) ↦
            let k = ok.kept b u old in
            record {
              open_found = λ c.
                  lookup-erase_ne u.fd fd l.server.sessions (some b)
                    (λ (e : u.fd ≡ fd). other (
                      some_inj (
                        sym (
                          subst (λ (g : ℕ). lookup g l.server.sessions ≡ some b) e (k.open_found c))
                        ∙ from)))
                    (k.open_found c);
              left = λ c. let one = k.left c in ground arith;
              counted = k.counted;
              id_below = k.id_below;
            }
      ]

  closed-IsSound :
      {max : ℕ}
      → lookup fd l.server.sessions ≡ some a
      → lookup a l.server.heap ≡ some s
      → s.fd ≡ fd
      → s.closing ≡ false
      → IsSound max l
      → IsSound max closed
  unfolding mark_closing
  closed-IsSound from found same opened ok = record {
    mapped = λ g b h. closed-mapped found same ok g b h;
    kept = λ b u h. closed-IsKept from found opened ok b u h;
    waits_for = λ b h. elim (ℕ_discrete b a) [
      | yes here ↦ (
        mark_closing s,
        subst (λ (c : ℕ). lookup c closed.server.heap ≡ some (mark_closing s)) (sym here)
            (lookup-insert_self a (mark_closing s) l.server.heap),
        refl,
      )
      | no other ↦
          let (u, at, c) = ok.waits_for b (ground arith) in
          (u, lookup-insert_ne b a (mark_closing s) l.server.heap (some u) other at, c)
    ];
    holds =
        AllHeld-map l.server.heap closed.server.heap l.held
          (λ h. IsHeld-insert l.server.heap a s (mark_closing s) h found refl) ok.holds;
    unique = λ b c u v at_b at_c e.
        let (u', old_b, e_b) = id_of l a s (mark_closing s) l.held found refl b u at_b in
        let (v', old_c, e_c) = id_of l a s (mark_closing s) l.held found refl c v at_c in
        ok.unique b c u' v' old_b old_c (e_b ∙ e ∙ sym e_c);
    users = ok.users ∙ sym (length-insert_old a (mark_closing s) s l.server.heap found);
    at_most = ok.at_most;
    limit = ok.limit;
    distinct = insert-IsDistinct a (mark_closing s) l.server.heap ok.distinct;
  }

pub disconnect-IsSound :
    {max : ℕ} (l : Life) (fd : ℕ)
    → IsSound max l
    → IsSound max (record l {
      server = (on_disconnect_begin fd l.server).1;
      leaving = leave (on_disconnect_begin fd l.server).0 l.leaving;
    })
unfolding on_disconnect_begin
disconnect-IsSound {max} l fd ok = by_fd (lookup fd l.server.sessions) refl
  where
    After : Found × Server → Type 0
    After r = IsSound max (record l { server = r.1; leaving = leave r.0 l.leaving })

    by_fd : (o : Option ℕ) → lookup fd l.server.sessions ≡ o → After (close_found fd o l.server)
    by_fd none e = ok
    by_fd (some a) e =
        let (s, found, same, opened) = ok.mapped fd a e in
        subst (λ o. After (close_at fd a o l.server)) (sym found)
          (closed-IsSound l fd a s e found same opened ok)
