-- ===== src/Trade/Reach.antt =====
-- The states of TradeService.cpp that calls in any order lead to, and what holds in all of them.
use ll2games_rpg_server.Common.{
  none≢some, ℕ, ◌≡◌, refl, sym, subst, ◌≢◌, Bool, true, ◌&&◌, not, Option, none, some, List, [],
  arith, if_cases,
}
use ll2games_rpg_server.Common.Int.{ℤ, eqb_ℤ}
use ll2games_rpg_server.Common.Keys.{lookup, ℤ_eq, ℕ_eq}
use ll2games_rpg_server.InventoryManager.{Inventories, Items}
use ll2games_rpg_server.Player.{Player}
use ll2games_rpg_server.Trade.{
  TradeItem, TradeSession, Trades, fault, Readiness, answers, start, release, cancel,
  delete_trade_session,
}
use ll2games_rpg_server.Trade.Offers.{
  upload_item, validate_trade_items, ready_begin, ready_found, ready_at, ready_both, ready_end,
}
use ll2games_rpg_server.Trade.Pairing.{IsPaired, store-IsPaired, release-IsPaired}
use ll2games_rpg_server.Trade.Steps.{
  start-IsSafe, cancel-IsSafe, delete_trade_session-IsSafe, ready_end-IsSafe, upload_item-IsSafe,
}

-- No trades yet
abbrev pub no_trades : Trades
no_trades = record { sessions = []; heap = []; next = 0 }

module _ (stoi : List ℕ → Option (ℤ × ℕ)) (to_string : ℤ → List ℕ) (items : Items) where
  -- `Ready` that does not use a dangling pointer
  abbrev pub IsReadySafe : Readiness × Trades → Type 0
  IsReadySafe r = (r.0 ≢ answers fault) × IsPaired r.1

  pub ready_begin-IsReadySafe :
      (bags : ℤ → Inventories) (id : ℤ) (t : Trades)
      → IsPaired t
      → IsReadySafe (ready_begin stoi to_string items bags id t)
  unfolding ready_begin release
  ready_begin-IsReadySafe bags id t paired = found (lookup id t.sessions) refl
    where
      both :
          (ad : ℕ) (s s' : TradeSession)
          → lookup ad t.heap ≡ some s
          → s'.a_id ≡ s.a_id
          → s'.b_id ≡ s.b_id
          → IsPaired (release ad s' t)
          → IsReadySafe (ready_both stoi to_string items bags ad s' t)
      both ad s s' f same_a same_b gone =
          if_cases IsReadySafe (not (s'.a_ready && s'.b_ready))
            (λ e. (λ h. absurd (ground arith), store-IsPaired t ad s s' f same_a same_b paired))
            λ e.
              if_cases IsReadySafe
                (not (
                  validate_trade_items stoi to_string items bags s'.a_id s'.a_items
                  && validate_trade_items stoi to_string items bags s'.b_id s'.b_items))
                (λ e. (λ h. absurd (ground arith), gone))
                λ e. (
                  λ h. absurd (ground arith),
                  store-IsPaired t ad s (record s' { executing = true }) f same_a same_b paired,
                )

      at :
          (ad : ℕ) (s : TradeSession)
          → lookup ad t.heap ≡ some s
          → IsReadySafe (ready_at stoi to_string items bags id ad (some s) t)
      at ad s f =
          let gone = release-IsPaired t ad s f paired in
          if_cases IsReadySafe s.executing (λ e. (λ h. absurd (ground arith), paired))
            λ e.
              if_cases IsReadySafe (eqb_ℤ s.a_id id)
                (λ e. both ad s (record s { a_ready = true }) f refl refl gone)
                λ e.
                  if_cases IsReadySafe (eqb_ℤ s.b_id id)
                    (λ e. both ad s (record s { b_ready = true }) f refl refl gone)
                    (λ e. (λ h. absurd (ground arith), paired))

      found :
          (o : Option ℕ)
          → lookup id t.sessions ≡ o
          → IsReadySafe (ready_found stoi to_string items bags id o t)
      found none e = (λ h. absurd (ground arith), paired)
      found (some ad) e =
          let (s, f, p) = paired.live id ad e in
          subst (λ o. IsReadySafe (ready_at stoi to_string items bags id ad o t)) (sym f)
            (at ad s f)

  -- The tables that the calls of TradeService lead to, in any order and for any players, items,
  -- inventories and results of `Execute`. `DeleteTradeSession` is called for a session that exists.
  pub data Reach : Trades → Type 0 where
    begins : Reach no_trades
    starts : {t : Trades} (p_at q_at : ℕ) (p q : Player) → Reach t → Reach (start p_at p q_at q t).1
    uploads :
        {t : Trades} (bags : ℤ → Inventories) (id : ℤ) (item : TradeItem)
        → Reach t
        → Reach (upload_item stoi to_string items bags id item t).1
    readies :
        {t : Trades} (bags : ℤ → Inventories) (id : ℤ)
        → Reach t
        → Reach (ready_begin stoi to_string items bags id t).1
    ends :
        {t : Trades} (id : ℤ) (address : ℕ) (executed : Bool)
        → Reach t
        → Reach (ready_end id address executed t).1
    cancels : {t : Trades} (id : ℤ) → Reach t → Reach (cancel id t).1
    deletes :
        {t : Trades} (address : ℕ) (s : TradeSession)
        → lookup address t.heap ≡ some s
        → Reach t
        → Reach (delete_trade_session address t).1

  -- In every table that calls of TradeService in any order lead to, each player id that has an entry
  -- maps to a session that was not deleted and that names the id, and each session that was not
  -- deleted is the one that its two different player ids map to: no id is in two sessions or in one
  -- that has lost its other side, no session leaks and no session pointer dangles. Nothing is stated of
  -- the player objects that a session points to.
  pub Reach-IsPaired : {t : Trades} → Reach t → IsPaired t
  Reach-IsPaired begins = record {
    live = λ id ad h. absurd (none≢some h);
    mapped = λ ad s h. absurd (none≢some h);
  }
  Reach-IsPaired (starts p_at q_at p q r) = (start-IsSafe p_at q_at p q _ (Reach-IsPaired r)).1
  Reach-IsPaired (uploads bags id item r) =
      (upload_item-IsSafe stoi to_string items bags id item _ (Reach-IsPaired r)).1
  Reach-IsPaired (readies bags id r) = (ready_begin-IsReadySafe bags id _ (Reach-IsPaired r)).1
  Reach-IsPaired (ends id ad ok r) = (ready_end-IsSafe id ad ok _ (Reach-IsPaired r)).1
  Reach-IsPaired (cancels id r) = (cancel-IsSafe id _ (Reach-IsPaired r)).1
  Reach-IsPaired (deletes ad s f r) = (delete_trade_session-IsSafe ad s _ f (Reach-IsPaired r)).1

  -- From a table that calls in any order lead to, no call uses a session after it was deleted: not
  -- `Start`, `UploadItem`, either part of `Ready`, or `Cancel`.
  pub Reach-no_fault :
      {t : Trades} (bags : ℤ → Inventories) (p_at q_at : ℕ) (p q : Player) (id : ℤ)
      (item : TradeItem) (address : ℕ) (executed : Bool)
      → Reach t
      → ((start p_at p q_at q t).0 ≢ fault)
        × ((upload_item stoi to_string items bags id item t).0 ≢ fault)
        × ((ready_begin stoi to_string items bags id t).0 ≢ answers fault)
        × ((ready_end id address executed t).0 ≢ fault)
        × ((cancel id t).0 ≢ fault)
  Reach-no_fault {t} bags p_at q_at p q id item address executed r =
      let paired = Reach-IsPaired r in
      (
        (start-IsSafe p_at q_at p q t paired).0,
        (upload_item-IsSafe stoi to_string items bags id item t paired).0,
        (ready_begin-IsReadySafe bags id t paired).0,
        (ready_end-IsSafe id address executed t paired).0,
        (cancel-IsSafe id t paired).0,
      )
