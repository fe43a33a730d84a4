-- ===== src/Trade/Pairing.antt =====
-- The session table of TradeService.cpp: who maps to which session, and that no session pointer dangles.
use ll2games_rpg_server.Common.{
  none≢some, some_inj, none≢some, some_inj, Bool, Option, ap, arith, false, false≢true, if_cases,
  inl, inr, is_some, none, refl, some, subst, suc, sym, ℕ, ◌<◌, ◌||◌, ◌∙◌, ◌≡◌, ◌≢◌, ◌⊎◌,
}
use ll2games_rpg_server.Common.Int.{ℤ, eqb_ℤ, ne_of_eqb_ℤ}
use ll2games_rpg_server.Common.Keys.{
  lookup, insert, erase, ℤ_eq, ℕ_eq, lookup-insert_self, lookup-insert_ne, lookup-insert_inv,
  lookup-erase_ne, lookup-erase_inv,
}
use ll2games_rpg_server.Trade.{
  TradeSession, Trades, new_session, create_trade_session, release, store,
}

-- Player `id` takes part in the session.
abbrev pub IsPartner : ℤ → TradeSession → Type 0
IsPartner id s = (id ≡ s.a_id) ⊎ (id ≡ s.b_id)

-- A session at an address is the one that both its participants, two different players, map to.
abbrev pub IsMapped : Trades → ℕ → TradeSession → Type 0
IsMapped t address s =
    (address < t.next)
    × (s.a_id ≢ s.b_id)
    × (lookup s.a_id t.sessions ≡ some address)
    × (lookup s.b_id t.sessions ≡ some address)

-- Every player in the table maps to a live session that the player takes part in, and every live
-- session is mapped: no session pointer dangles, no session leaks, and no id is in two trades.
pub record IsPaired (t : Trades) : Type 0 where
  pub live :
      (id : ℤ) (address : ℕ)
      → lookup id t.sessions ≡ some address
      → (s : TradeSession) × (lookup address t.heap ≡ some s) × IsPartner id s
  pub mapped :
      (address : ℕ) (s : TradeSession) → lookup address t.heap ≡ some s → IsMapped t address s

free : {A : Type 0} (o : Option A) → is_some o ≡ false → o ≡ none
free none e = refl
free (some x) e = absurd (false≢true (sym e))

same_or_not : (j k : ℕ) → (j ≡ k) ⊎ (j ≢ k)
same_or_not j k = ground arith

pub store-IsPaired :
    (t : Trades) (address : ℕ) (s s' : TradeSession)
    → lookup address t.heap ≡ some s
    → s'.a_id ≡ s.a_id
    → s'.b_id ≡ s.b_id
    → IsPaired t
    → IsPaired (store address s' t)
unfolding store
store-IsPaired t address s s' found same_a same_b paired = record {
  live = λ id ad h.
      let (r, f, p) = paired.live id ad h in
      elim (same_or_not ad address) [
        | inl e ↦
            let same : r ≡ s = some_inj (sym f ∙ ap (λ x. lookup x t.heap) e ∙ found) in
            (
              s',
              subst (λ x. lookup x (insert address s' t.heap) ≡ some s') (sym e)
                  (lookup-insert_self address s' t.heap),
              moved id (subst (IsPartner id) same p),
            )
        | inr ne ↦ (r, lookup-insert_ne ad address s' t.heap (some r) ne f, p)
      ];
  mapped = λ ad r h.
      let (below, apart, at_a, at_b) = paired.mapped address s found in
      elim (lookup-insert_inv ad address s' r t.heap h) [
        | inl (e, q) ↦
            subst (λ x. IsMapped t x r) (sym e)
              (subst (IsMapped t address) (some_inj q) (
                below,
                λ z. apart (sym same_a ∙ z ∙ same_b),
                ap (λ i. lookup i t.sessions) same_a ∙ at_a,
                ap (λ i. lookup i t.sessions) same_b ∙ at_b,
              ))
        | inr (ne, f) ↦ paired.mapped ad r f
      ];
}
  where
    moved : (id : ℤ) → IsPartner id s → IsPartner id s'
    moved id (inl e) = inl (e ∙ sym same_a)
    moved id (inr e) = inr (e ∙ sym same_b)

pub release-IsPaired :
    (t : Trades) (address : ℕ) (s : TradeSession)
    → lookup address t.heap ≡ some s
    → IsPaired t
    → IsPaired (release address s t)
unfolding release
release-IsPaired t address s found paired = record {
  live = λ id ad h.
      let (not_b, h1) = lookup-erase_inv id s.b_id ad (erase s.a_id t.sessions) h in
      let (not_a, h2) = lookup-erase_inv id s.a_id ad t.sessions h1 in
      let (r, f, p) = paired.live id ad h2 in
      (r, lookup-erase_ne ad address t.heap (some r) (outside id ad r not_a not_b f p) f, p);
  mapped = λ ad r h.
      let (ne, f) = lookup-erase_inv ad address r t.heap h in
      let (below, apart, at_a, at_b) = paired.mapped ad r f in
      (below, apart, stays r.a_id ad ne at_a, stays r.b_id ad ne at_b);
}
  where
    outside :
        (id : ℤ) (ad : ℕ) (r : TradeSession)
        → id ≢ s.a_id
        → id ≢ s.b_id
        → lookup ad t.heap ≡ some r
        → IsPartner id r
        → ad ≢ address
    outside id ad r not_a not_b f (inl e) z = not_a (
        e
        ∙ ap (λ (x : TradeSession). x.a_id)
            (some_inj (sym f ∙ ap (λ x. lookup x t.heap) z ∙ found)))
    outside id ad r not_a not_b f (inr e) z = not_b (
        e
        ∙ ap (λ (x : TradeSession). x.b_id)
            (some_inj (sym f ∙ ap (λ x. lookup x t.heap) z ∙ found)))

    other :
        (i j : ℤ) (ad : ℕ)
        → ad ≢ address
        → lookup i t.sessions ≡ some ad
        → lookup j t.sessions ≡ some address
        → i ≢ j
    other i j ad ne hi hj e = ne (some_inj (sym hi ∙ ap (λ x. lookup x t.sessions) e ∙ hj))

    stays :
        (i : ℤ) (ad : ℕ)
        → ad ≢ address
        → lookup i t.sessions ≡ some ad
        → lookup i (erase s.b_id (erase s.a_id t.sessions)) ≡ some ad
    stays i ad ne h =
        let (below, apart, at_a, at_b) = paired.mapped address s found in
        lookup-erase_ne i s.b_id (erase s.a_id t.sessions) (some ad) (other i s.b_id ad ne h at_b)
          (lookup-erase_ne i s.a_id t.sessions (some ad) (other i s.a_id ad ne h at_a) h)

abbrev made : ℕ → ℤ → ℕ → ℤ → Trades → Trades
made a_at a b_at b t = record {
  sessions = insert b t.next (insert a t.next t.sessions);
  heap = insert t.next (new_session a_at a b_at b) t.heap;
  next = suc t.next;
}

made-IsPaired :
    (a_at b_at : ℕ) (a b : ℤ) (t : Trades)
    → a ≢ b
    → lookup a t.sessions ≡ none
    → lookup b t.sessions ≡ none
    → IsPaired t
    → IsPaired (made a_at a b_at b t)
made-IsPaired a_at b_at a b t two idle_a idle_b paired = record {
  live = λ id ad h. elim (lookup-insert_inv id b t.next ad (insert a t.next t.sessions) h) [
    | inl (e, q) ↦ (new_session a_at a b_at b, fresh ad q, inr e)
    | inr (not_b, h1) ↦ elim (lookup-insert_inv id a t.next ad t.sessions h1) [
      | inl (e, q) ↦ (new_session a_at a b_at b, fresh ad q, inl e)
      | inr (not_a, h2) ↦ old id ad (paired.live id ad h2)
    ]
  ];
  mapped = λ ad r h. elim (lookup-insert_inv ad t.next (new_session a_at a b_at b) r t.heap h) [
    | inl (e, q) ↦
        subst (λ x. IsMapped (made a_at a b_at b t) x r) (sym e)
          (subst (IsMapped (made a_at a b_at b t) t.next) (some_inj q) (
            ground arith,
            two,
            lookup-insert_ne a b t.next (insert a t.next t.sessions) (some t.next) two
                (lookup-insert_self a t.next t.sessions),
            lookup-insert_self b t.next (insert a t.next t.sessions),
          ))
    | inr (ne, f) ↦
        let (below, apart, at_a, at_b) = paired.mapped ad r f in
        (ground arith, apart, kept r.a_id ad at_a, kept r.b_id ad at_b)
  ];
}
  where
    fresh :
        (ad : ℕ)
        → some t.next ≡ some ad
        → lookup ad (insert t.next (new_session a_at a b_at b) t.heap)
          ≡ some (new_session a_at a b_at b)
    fresh ad q =
        subst
          (λ x.
            lookup x (insert t.next (new_session a_at a b_at b) t.heap)
            ≡ some (new_session a_at a b_at b))
          (some_inj q) (lookup-insert_self t.next (new_session a_at a b_at b) t.heap)

    old :
        (id : ℤ) (ad : ℕ)
        → ((r : TradeSession) × (lookup ad t.heap ≡ some r) × IsPartner id r)
        → (r : TradeSession) × (lookup ad (insert t.next (new_session a_at a b_at b) t.heap)
            ≡ some r)
          × IsPartner id r
    old id ad (r, f, p) =
        let below : ad < t.next = (paired.mapped ad r f).0 in
        (
          r,
          lookup-insert_ne ad t.next (new_session a_at a b_at b) t.heap (some r)
              (λ z. absurd (ground arith)) f,
          p,
        )

    busy : (i j : ℤ) (ad : ℕ) → lookup i t.sessions ≡ some ad → lookup j t.sessions ≡ none → i ≢ j
    busy i j ad hi hj e = none≢some (sym hj ∙ ap (λ x. lookup x t.sessions) (sym e) ∙ hi)

    kept :
        (i : ℤ) (ad : ℕ)
        → lookup i t.sessions ≡ some ad
        → lookup i (insert b t.next (insert a t.next t.sessions)) ≡ some ad
    kept i ad h =
        lookup-insert_ne i b t.next (insert a t.next t.sessions) (some ad) (busy i b ad h idle_b)
          (lookup-insert_ne i a t.next t.sessions (some ad) (busy i a ad h idle_a) h)

pub create-IsPaired :
    (a_at b_at : ℕ) (a b : ℤ) (t : Trades)
    → IsPaired t
    → IsPaired (create_trade_session a_at a b_at b t).1
unfolding create_trade_session
create-IsPaired a_at b_at a b t paired =
    if_cases (λ (r : Bool × Trades). IsPaired r.1) (eqb_ℤ a b) (λ e. paired)
      λ two.
        if_cases (λ (r : Bool × Trades). IsPaired r.1)
          (is_some (lookup a t.sessions) || is_some (lookup b t.sessions)) (λ e. paired)
          λ idle.
            made-IsPaired a_at b_at a b t (ne_of_eqb_ℤ a b two) (free _ (ground arith))
              (free _ (ground arith)) paired
