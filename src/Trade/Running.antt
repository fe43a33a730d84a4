-- ===== src/Trade/Running.antt =====
-- What single calls of TradeService.cpp leave of a trade whose `Execute` runs.
use ll2games_rpg_server.Common.{
  some_inj, ℕ, suc, ◌<◌, ◌≡◌, refl, sym, ap, ◌∙◌, ◌≢◌, false≢true, Bool, true, false, ◌&&◌, ◌||◌,
  not, Option, none, some, arith, ◌==◌, is_some, if_cases,
}
use ll2games_rpg_server.Common.Int.{ℤ, eqb_ℤ}
use ll2games_rpg_server.Common.Keys.{
  lookup, insert, erase, ℤ_eq, ℕ_eq, lookup-insert_ne, lookup-erase_ne,
}
use ll2games_rpg_server.Player.{Player, is_alive}
use ll2games_rpg_server.Trade.{
  TradeSession, Trades, Outcome, new_session, create_trade_session, start, release, store, same_map,
  cancel, cancel_at, cancel_found, delete_trade_session, delete_at,
}
use ll2games_rpg_server.Trade.Offers.{ready_end, finish_at}
use ll2games_rpg_server.Trade.Pairing.{IsPaired}

-- The session is still there, and both participants still map to it.
abbrev pub IsRunning : ℕ → TradeSession → Trades → Type 0
IsRunning address s t =
    (lookup address t.heap ≡ some s)
    × (lookup s.a_id t.sessions ≡ some address)
    × (lookup s.b_id t.sessions ≡ some address)

module _ (address : ℕ) (s : TradeSession) (t : Trades) (paired : IsPaired t)
    (runs : IsRunning address s t) where
  pub store-IsRunning :
      (other : ℕ) (r : TradeSession) → address ≢ other → IsRunning address s (store other r t)
  unfolding store
  store-IsRunning other r ne =
      (lookup-insert_ne address other r t.heap (some s) ne runs.0, runs.1, runs.2)

  -- A participant of another session is no participant of this one.
  apart :
      (i j : ℤ) (other : ℕ)
      → address ≢ other
      → lookup i t.sessions ≡ some address
      → lookup j t.sessions ≡ some other
      → i ≢ j
  apart i j other ne at_i at_j e =
      ne (some_inj (sym at_i ∙ ap (λ (x : ℤ). lookup x t.sessions) e ∙ at_j))

  pub release-IsRunning :
      (other : ℕ) (r r' : TradeSession)
      → address ≢ other
      → lookup other t.heap ≡ some r
      → r'.a_id ≡ r.a_id
      → r'.b_id ≡ r.b_id
      → IsRunning address s (release other r' t)
  unfolding release
  release-IsRunning other r r' ne found same_a same_b =
      let (below, two, at_a, at_b) = paired.mapped other r found in
      let kept = λ (i : ℤ) (at_i : lookup i t.sessions ≡ some address).
        lookup-erase_ne i r'.b_id (erase r'.a_id t.sessions) (some address)
          (λ e. apart i r.b_id other ne at_i at_b (e ∙ same_b))
          (lookup-erase_ne i r'.a_id t.sessions (some address)
            (λ e. apart i r.a_id other ne at_i at_a (e ∙ same_a)) at_i) in
      (
        lookup-erase_ne address other t.heap (some s) ne runs.0,
        kept s.a_id runs.1,
        kept s.b_id runs.2,
      )

  create-IsRunning :
      (a_at b_at : ℕ) (a b : ℤ) → IsRunning address s (create_trade_session a_at a b_at b t).1
  unfolding create_trade_session
  create-IsRunning a_at b_at a b =
      if_cases Kept (eqb_ℤ a b) (λ e. runs)
        λ two.
          if_cases Kept (is_some (lookup a t.sessions) || is_some (lookup b t.sessions)) (λ e. runs)
            λ idle. made (ground arith) (ground arith)
    where
      Kept : Bool × Trades → Type 0
      Kept r = IsRunning address s r.1

      busy :
          (i j : ℤ)
          → lookup i t.sessions ≡ some address
          → is_some (lookup j t.sessions) ≡ false
          → i ≢ j
      busy i j at_i idle e =
          false≢true
            (sym idle ∙ ap (λ (x : ℤ). is_some (lookup x t.sessions)) (sym e) ∙ ap is_some at_i)

      made :
          is_some (lookup a t.sessions) ≡ false
          → is_some (lookup b t.sessions) ≡ false
          → IsRunning address s (record {
            sessions = insert b t.next (insert a t.next t.sessions);
            heap = insert t.next (new_session a_at a b_at b) t.heap;
            next = suc t.next;
          })
      made idle_a idle_b =
          let below : address < t.next = (paired.mapped address s runs.0).0 in
          let kept = λ (i : ℤ) (at_i : lookup i t.sessions ≡ some address).
            lookup-insert_ne i b t.next (insert a t.next t.sessions) (some address)
              (busy i b at_i idle_b)
              (lookup-insert_ne i a t.next t.sessions (some address) (busy i a at_i idle_a) at_i) in
          (
            lookup-insert_ne address t.next (new_session a_at a b_at b) t.heap (some s)
                (λ z. absurd (ground arith)) runs.0,
            kept s.a_id runs.1,
            kept s.b_id runs.2,
          )

  pub start-IsRunning :
      (p_at q_at : ℕ) (p q : Player) → IsRunning address s (start p_at p q_at q t).1
  unfolding start
  start-IsRunning p_at q_at p q =
      if_cases Kept (eqb_ℤ p.id q.id) (λ e. runs)
        λ two.
          if_cases Kept (not (is_some p.current_map && is_some q.current_map)) (λ e. runs)
            λ placed.
              if_cases Kept (not (same_map p.current_map q.current_map)) (λ e. runs)
                λ near.
                  if_cases Kept (not (is_alive p) || not (is_alive q)) (λ e. runs)
                    λ alive.
                      if_cases Kept (not (create_trade_session p_at p.id q_at q.id t).0)
                        (λ e. create-IsRunning p_at q_at p.id q.id)
                        (λ e. create-IsRunning p_at q_at p.id q.id)
    where
      Kept : Outcome × Trades → Type 0
      Kept r = IsRunning address s r.1

  -- A session that does not run is another one.
  pub other_session :
      (busy : s.executing ≡ true) (other : ℕ) (r : TradeSession)
      → lookup other t.heap ≡ some r
      → r.executing ≡ false
      → address ≢ other
  other_session busy other r found idle e = false≢true (
      sym idle
      ∙ ap (λ (x : TradeSession). x.executing)
          (some_inj (sym found ∙ ap (λ (x : ℕ). lookup x t.heap) (sym e) ∙ runs.0))
      ∙ busy)

  pub cancel-IsRunning : s.executing ≡ true → (id : ℤ) → IsRunning address s (cancel id t).1
  unfolding cancel
  cancel-IsRunning busy id = found (lookup id t.sessions)
    where
      Kept : Outcome × Trades → Type 0
      Kept r = IsRunning address s r.1

      at : (ad : ℕ) (o : Option TradeSession) → lookup ad t.heap ≡ o → Kept (cancel_at ad o t)
      at ad none f = runs
      at ad (some r) f =
          if_cases Kept r.executing (λ e. runs)
            (λ e. release-IsRunning ad r r (other_session busy ad r f e) f refl refl)

      found : (o : Option ℕ) → Kept (cancel_found o t)
      found none = runs
      found (some ad) = at ad (lookup ad t.heap) refl

  pub delete-IsRunning :
      (other : ℕ) → address ≢ other → IsRunning address s (delete_trade_session other t).1
  unfolding delete_trade_session
  delete-IsRunning other ne = at (lookup other t.heap) refl
    where
      at :
          (o : Option TradeSession)
          → lookup other t.heap ≡ o
          → IsRunning address s (delete_at other o t).1
      at none f = runs
      at (some r) f = release-IsRunning other r r ne f refl refl

  pub ready_end-IsRunning :
      (id : ℤ) (other : ℕ) (ok : Bool)
      → address ≢ other
      → IsRunning address s (ready_end id other ok t).1
  unfolding ready_end
  ready_end-IsRunning id other ok ne =
      if_cases Kept ok (λ e. runs) (λ e. ended (lookup id t.sessions) (lookup other t.heap) refl)
    where
      Kept : Outcome × Trades → Type 0
      Kept r = IsRunning address s r.1

      ended :
          (o : Option ℕ) (r : Option TradeSession)
          → lookup other t.heap ≡ r
          → Kept (finish_at other o r t)
      ended none r f = runs
      ended (some k) none f = if_cases Kept (k == other) (λ e. runs) (λ e. runs)
      ended (some k) (some r) f =
          if_cases Kept (k == other) (λ e. release-IsRunning other r r ne f refl refl) (λ e. runs)
