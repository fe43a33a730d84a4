-- ===== src/Trade/Executing.antt =====
-- A trade of TradeService.cpp whose `Execute` runs outside the lock, while other calls come in.
use ll2games_rpg_server.Common.{
  ℕ, ◌≡◌, refl, ◌≢◌, Bool, true, ◌&&◌, ◌||◌, not, Option, none, some, List, arith, if◌then◌else◌,
  if_cases,
}
use ll2games_rpg_server.Common.Int.{ℤ, pos, ltb_ℤ, leb_ℤ, eqb_ℤ}
use ll2games_rpg_server.Common.Keys.{lookup, ℤ_eq, ℕ_eq}
use ll2games_rpg_server.InventoryManager.{Inventories, Items, ItemInitData, has_item_by_slot}
use ll2games_rpg_server.Player.{Player}
use ll2games_rpg_server.Trade.{
  TradeItem, TradeSession, Trades, Outcome, Readiness, start, cancel, delete_trade_session,
}
use ll2games_rpg_server.Trade.Offers.{
  Offer, rejected, offered, sum_offers, upload_item, upload_parsed, upload_item_of, upload_found,
  upload_at, upload_total, parse_id, validate_trade_items, ready_begin, ready_found, ready_at,
  ready_both, ready_end,
}
use ll2games_rpg_server.Trade.Pairing.{IsPaired}
use ll2games_rpg_server.Trade.Steps.{
  start-IsSafe, cancel-IsSafe, delete_trade_session-IsSafe, ready_end-IsSafe, upload_item-IsSafe,
}
use ll2games_rpg_server.Trade.Reach.{ready_begin-IsReadySafe}
use ll2games_rpg_server.Trade.Running.{
  IsRunning, store-IsRunning, release-IsRunning, start-IsRunning, cancel-IsRunning,
  delete-IsRunning, ready_end-IsRunning, other_session,
}

module _ (stoi : List ℕ → Option (ℤ × ℕ)) (to_string : ℤ → List ℕ) (items : Items) where
  module _ (address : ℕ) (s : TradeSession) (t : Trades) (paired : IsPaired t)
      (runs : IsRunning address s t) (busy : s.executing ≡ true) (bags : ℤ → Inventories) where
    upload_item-IsRunning :
        (id : ℤ) (item : TradeItem)
        → IsRunning address s (upload_item stoi to_string items bags id item t).1
    unfolding upload_item
    upload_item-IsRunning id item = parsed (parse_id stoi to_string items bags item.id)
      where
        Kept : Outcome × Trades → Type 0
        Kept r = IsRunning address s r.1

        totalled :
            (item_id type : ℤ) (ad : ℕ) (r : TradeSession) (is_a : Bool) (o : Offer)
            → address ≢ ad
            → Kept (upload_total stoi to_string items bags id item_id type item ad r is_a o t)
        totalled item_id type ad r is_a (rejected e) ne = runs
        totalled item_id type ad r is_a (offered total) ne =
            if_cases Kept (not (has_item_by_slot type item.slot_index item_id total (bags id)))
              (λ e. runs) (λ e. store-IsRunning address s t paired runs ad _ ne)

        at :
            (item_id type : ℤ) (ad : ℕ) (o : Option TradeSession)
            → lookup ad t.heap ≡ o
            → Kept (upload_at stoi to_string items bags id item_id type item ad o t)
        at item_id type ad none f = runs
        at item_id type ad (some r) f =
            let is_a = eqb_ℤ r.a_id id in
            if_cases Kept (not (is_a || eqb_ℤ r.b_id id)) (λ e. runs)
              λ member.
                if_cases Kept (r.a_ready || r.b_ready || r.executing) (λ e. runs)
                  λ e.
                    totalled item_id type ad r is_a
                      (sum_offers stoi to_string items bags item_id item.slot_index
                        (if is_a then r.a_items else r.b_items) (offered item.amount))
                      (other_session address s t paired runs busy ad r f (ground arith))

        found :
            (item_id type : ℤ) (o : Option ℕ)
            → Kept (upload_found stoi to_string items bags id item_id type item o t)
        found item_id type none = runs
        found item_id type (some ad) = at item_id type ad (lookup ad t.heap) refl

        of :
            (item_id : ℤ) (o : Option ItemInitData)
            → Kept (upload_item_of stoi to_string items bags id item_id item o t)
        of item_id none = runs
        of item_id (some def) = found item_id _ (lookup id t.sessions)

        parsed : (o : Option ℤ) → Kept (upload_parsed stoi to_string items bags id item o t)
        parsed none = runs
        parsed (some item_id) =
            if_cases Kept
              (leb_ℤ item_id (pos 0) || leb_ℤ item.amount (pos 0) || ltb_ℤ item.slot_index (pos 0))
              (λ e. runs) λ e. of item_id (lookup item_id items)

    ready_begin-IsRunning :
        (id : ℤ) → IsRunning address s (ready_begin stoi to_string items bags id t).1
    unfolding ready_begin
    ready_begin-IsRunning id = found (lookup id t.sessions)
      where
        Kept : Readiness × Trades → Type 0
        Kept r = IsRunning address s r.1

        both :
            (ad : ℕ) (r r' : TradeSession)
            → lookup ad t.heap ≡ some r
            → address ≢ ad
            → r'.a_id ≡ r.a_id
            → r'.b_id ≡ r.b_id
            → Kept (ready_both stoi to_string items bags ad r' t)
        both ad r r' f ne same_a same_b =
            if_cases Kept (not (r'.a_ready && r'.b_ready))
              (λ e. store-IsRunning address s t paired runs ad r' ne)
              λ e.
                if_cases Kept
                  (not (
                    validate_trade_items stoi to_string items bags r'.a_id r'.a_items
                    && validate_trade_items stoi to_string items bags r'.b_id r'.b_items))
                  (λ e. release-IsRunning address s t paired runs ad r r' ne f same_a same_b)
                  (λ e.
                    store-IsRunning address s t paired runs ad (record r' { executing = true }) ne)

        at :
            (ad : ℕ) (o : Option TradeSession)
            → lookup ad t.heap ≡ o
            → Kept (ready_at stoi to_string items bags id ad o t)
        at ad none f = runs
        at ad (some r) f =
            if_cases Kept r.executing (λ e. runs)
              λ e.
                let ne = other_session address s t paired runs busy ad r f e in
                if_cases Kept (eqb_ℤ r.a_id id)
                  (λ e. both ad r (record r { a_ready = true }) f ne refl refl)
                  λ e.
                    if_cases Kept (eqb_ℤ r.b_id id)
                      (λ e. both ad r (record r { b_ready = true }) f ne refl refl) (λ e. runs)

        found : (o : Option ℕ) → Kept (ready_found stoi to_string items bags id o t)
        found none = runs
        found (some ad) = at ad (lookup ad t.heap) refl

  -- Calls of TradeService in any order, by any players, that come in while `Execute` runs for the session
  -- at an address: all but the end of that `Ready`, and no deletion of that very session.
  pub data Calls (address : ℕ) (t : Trades) : Trades → Type 0 where
    no_call : Calls address t t
    call_start :
        {u : Trades} (p_at q_at : ℕ) (p q : Player)
        → Calls address t u
        → Calls address t (start p_at p q_at q u).1
    call_upload :
        {u : Trades} (bags : ℤ → Inventories) (id : ℤ) (item : TradeItem)
        → Calls address t u
        → Calls address t (upload_item stoi to_string items bags id item u).1
    call_ready :
        {u : Trades} (bags : ℤ → Inventories) (id : ℤ)
        → Calls address t u
        → Calls address t (ready_begin stoi to_string items bags id u).1
    call_end :
        {u : Trades} (id : ℤ) (other : ℕ) (executed : Bool)
        → address ≢ other
        → Calls address t u
        → Calls address t (ready_end id other executed u).1
    call_cancel : {u : Trades} (id : ℤ) → Calls address t u → Calls address t (cancel id u).1
    call_delete :
        {u : Trades} (other : ℕ) (r : TradeSession)
        → address ≢ other
        → lookup other u.heap ≡ some r
        → Calls address t u
        → Calls address t (delete_trade_session other u).1

  Calls-lem :
      (address : ℕ) {t u : Trades} (s : TradeSession)
      → IsPaired t
      → IsRunning address s t
      → s.executing ≡ true
      → Calls address t u
      → IsPaired u × IsRunning address s u
  Calls-lem address s paired runs busy no_call = (paired, runs)
  Calls-lem address s paired runs busy (call_start {u} p_at q_at p q c) =
      let (pu, ru) = Calls-lem address s paired runs busy c in
      ((start-IsSafe p_at q_at p q u pu).1, start-IsRunning address s u pu ru p_at q_at p q)
  Calls-lem address s paired runs busy (call_upload {u} bags id item c) =
      let (pu, ru) = Calls-lem address s paired runs busy c in
      (
        (upload_item-IsSafe stoi to_string items bags id item u pu).1,
        upload_item-IsRunning address s u pu ru busy bags id item,
      )
  Calls-lem address s paired runs busy (call_ready {u} bags id c) =
      let (pu, ru) = Calls-lem address s paired runs busy c in
      (
        (ready_begin-IsReadySafe stoi to_string items bags id u pu).1,
        ready_begin-IsRunning address s u pu ru busy bags id,
      )
  Calls-lem address s paired runs busy (call_end {u} id other executed ne c) =
      let (pu, ru) = Calls-lem address s paired runs busy c in
      (
        (ready_end-IsSafe id other executed u pu).1,
        ready_end-IsRunning address s u pu ru id other executed ne,
      )
  Calls-lem address s paired runs busy (call_cancel {u} id c) =
      let (pu, ru) = Calls-lem address s paired runs busy c in
      ((cancel-IsSafe id u pu).1, cancel-IsRunning address s u pu ru busy id)
  Calls-lem address s paired runs busy (call_delete {u} other r ne f c) =
      let (pu, ru) = Calls-lem address s paired runs busy c in
      ((delete_trade_session-IsSafe other r u f pu).1, delete-IsRunning address s u pu ru other ne)

  -- From a table as it should be, with a session whose trade runs: after calls of TradeService in any
  -- order, by its own participants or by others, the same session with the same items stands at its
  -- address and both participants still map to it, as long as its own `Ready` has not come back from
  -- `Execute` and nobody deletes that very session.
  pub Calls-IsRunning :
      (address : ℕ) {t u : Trades} (s : TradeSession)
      → IsPaired t
      → lookup address t.heap ≡ some s
      → s.executing ≡ true
      → Calls address t u
      → IsRunning address s u
  Calls-IsRunning address {t} s paired found busy c =
      let (below, two, at_a, at_b) = paired.mapped address s found in
      (Calls-lem address s paired (found, at_a, at_b) busy c).1
