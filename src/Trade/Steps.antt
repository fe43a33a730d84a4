-- ===== src/Trade/Steps.antt =====
-- The operations of TradeService.cpp in any order: what every one of them keeps.
use ll2games_rpg_server.Common.{
  none≢some, ℕ, ◌≡◌, refl, sym, ap, subst, ◌∙◌, ◌≢◌, Bool, true, ◌&&◌, ◌||◌, not, Option, none,
  some, List, arith, ◌==◌, if◌then◌else◌, is_some, if_cases,
}
use ll2games_rpg_server.Common.Int.{ℤ, pos, ltb_ℤ, leb_ℤ, eqb_ℤ}
use ll2games_rpg_server.Common.Keys.{lookup, ℤ_eq, ℕ_eq}
use ll2games_rpg_server.InventoryManager.{Inventories, Items, ItemInitData, has_item_by_slot}
use ll2games_rpg_server.Player.{Player, is_alive}
use ll2games_rpg_server.Trade.{
  TradeItem, TradeSession, Trades, Outcome, refused, done, fault, create_trade_session, start,
  same_map, cancel, cancel_at, cancel_found, delete_trade_session, delete_at,
}
use ll2games_rpg_server.Trade.Offers.{
  Offer, rejected, offered, sum_offers, upload_item, upload_parsed, upload_item_of, upload_found,
  upload_at, upload_total, parse_id, ready_end, finish_at,
}
use ll2games_rpg_server.Trade.Pairing.{IsPaired, store-IsPaired, release-IsPaired, create-IsPaired}

-- No dangling pointer was used, and the table is as it should be.
abbrev pub IsSafe : Outcome × Trades → Type 0
IsSafe r = (r.0 ≢ fault) × IsPaired r.1

refused≢fault : (e : List ℕ) → refused e ≢ fault
refused≢fault e h = absurd (ground arith)

done≢fault : (n : ℕ) → done n ≢ fault
done≢fault n h = absurd (ground arith)

pub start-IsSafe :
    (p_at q_at : ℕ) (p q : Player) (t : Trades) → IsPaired t → IsSafe (start p_at p q_at q t)
unfolding start
start-IsSafe p_at q_at p q t paired =
    if_cases IsSafe (eqb_ℤ p.id q.id) (λ e. (refused≢fault _, paired))
      λ two.
        if_cases IsSafe (not (is_some p.current_map && is_some q.current_map))
          (λ e. (refused≢fault _, paired))
          λ placed.
            if_cases IsSafe (not (same_map p.current_map q.current_map))
              (λ e. (refused≢fault _, paired))
              λ near.
                if_cases IsSafe (not (is_alive p) || not (is_alive q))
                  (λ e. (refused≢fault _, paired))
                  λ alive.
                    if_cases IsSafe (not (create_trade_session p_at p.id q_at q.id t).0)
                      (λ e. (refused≢fault _, create-IsPaired p_at q_at p.id q.id t paired))
                      (λ e. (done≢fault _, create-IsPaired p_at q_at p.id q.id t paired))

pub cancel-IsSafe : (id : ℤ) (t : Trades) → IsPaired t → IsSafe (cancel id t)
unfolding cancel
cancel-IsSafe id t paired = found (lookup id t.sessions) refl
  where
    at : (ad : ℕ) (s : TradeSession) → lookup ad t.heap ≡ some s → IsSafe (cancel_at ad (some s) t)
    at ad s f =
        if_cases IsSafe s.executing (λ e. (refused≢fault _, paired))
          (λ e. (done≢fault _, release-IsPaired t ad s f paired))

    found : (o : Option ℕ) → lookup id t.sessions ≡ o → IsSafe (cancel_found o t)
    found none e = (refused≢fault _, paired)
    found (some ad) e =
        let (s, f, p) = paired.live id ad e in
        subst (λ o. IsSafe (cancel_at ad o t)) (sym f) (at ad s f)

pub delete_trade_session-IsSafe :
    (ad : ℕ) (s : TradeSession) (t : Trades)
    → lookup ad t.heap ≡ some s
    → IsPaired t
    → IsSafe (delete_trade_session ad t)
unfolding delete_trade_session
delete_trade_session-IsSafe ad s t f paired =
    subst (λ o. IsSafe (delete_at ad o t)) (sym f) (done≢fault _, release-IsPaired t ad s f paired)

pub ready_end-IsSafe :
    (id : ℤ) (ad : ℕ) (ok : Bool) (t : Trades) → IsPaired t → IsSafe (ready_end id ad ok t)
unfolding ready_end
ready_end-IsSafe id ad ok t paired =
    if_cases IsSafe ok (λ e. (done≢fault _, paired))
      (λ e. ended (lookup id t.sessions) (lookup ad t.heap) refl refl)
  where
    same : (k : ℕ) → (k == ad) ≡ true → k ≡ ad
    same k q = ground arith

    ended :
        (o : Option ℕ) (s : Option TradeSession)
        → lookup id t.sessions ≡ o
        → lookup ad t.heap ≡ s
        → IsSafe (finish_at ad o s t)
    ended none s e f = (refused≢fault _, paired)
    ended (some k) (some s) e f =
        if_cases IsSafe (k == ad) (λ q. (refused≢fault _, release-IsPaired t ad s f paired))
          (λ q. (refused≢fault _, paired))
    ended (some k) none e f =
        if_cases IsSafe (k == ad)
          (λ q.
            let (s, g, p) = paired.live id k e in
            absurd (none≢some (sym f ∙ ap (λ (x : ℕ). lookup x t.heap) (sym (same k q)) ∙ g)))
          (λ q. (refused≢fault _, paired))

module _ (stoi : List ℕ → Option (ℤ × ℕ)) (to_string : ℤ → List ℕ) (items : Items)
    (bags : ℤ → Inventories) where
  pub upload_item-IsSafe :
      (id : ℤ) (item : TradeItem) (t : Trades)
      → IsPaired t
      → IsSafe (upload_item stoi to_string items bags id item t)
  unfolding upload_item
  upload_item-IsSafe id item t paired = parsed (parse_id stoi to_string items bags item.id)
    where
      totalled :
          (item_id type : ℤ) (ad : ℕ) (s : TradeSession) (is_a : Bool) (o : Offer)
          → lookup ad t.heap ≡ some s
          → IsSafe (upload_total stoi to_string items bags id item_id type item ad s is_a o t)
      totalled item_id type ad s is_a (rejected e) f = (refused≢fault _, paired)
      totalled item_id type ad s is_a (offered total) f =
          if_cases IsSafe (not (has_item_by_slot type item.slot_index item_id total (bags id)))
            (λ e. (refused≢fault _, paired))
            λ held. (
              done≢fault _,
              store-IsPaired t ad s _ f
                  (if_cases (λ (x : TradeSession). x.a_id ≡ s.a_id) is_a (λ e. refl) (λ e. refl))
                  (if_cases (λ (x : TradeSession). x.b_id ≡ s.b_id) is_a (λ e. refl) (λ e. refl))
                  paired,
            )

      at :
          (item_id type : ℤ) (ad : ℕ) (s : TradeSession)
          → lookup ad t.heap ≡ some s
          → IsSafe (upload_at stoi to_string items bags id item_id type item ad (some s) t)
      at item_id type ad s f =
          let is_a = eqb_ℤ s.a_id id in
          if_cases IsSafe (not (is_a || eqb_ℤ s.b_id id)) (λ e. (refused≢fault _, paired))
            λ member.
              if_cases IsSafe (s.a_ready || s.b_ready || s.executing)
                (λ e. (refused≢fault _, paired))
                λ e.
                  totalled item_id type ad s is_a
                    (sum_offers stoi to_string items bags item_id item.slot_index
                      (if is_a then s.a_items else s.b_items) (offered item.amount))
                    f

      found :
          (item_id type : ℤ) (o : Option ℕ)
          → lookup id t.sessions ≡ o
          → IsSafe (upload_found stoi to_string items bags id item_id type item o t)
      found item_id type none e = (refused≢fault _, paired)
      found item_id type (some ad) e =
          let (s, f, p) = paired.live id ad e in
          subst (λ o. IsSafe (upload_at stoi to_string items bags id item_id type item ad o t))
            (sym f) (at item_id type ad s f)

      of :
          (item_id : ℤ) (o : Option ItemInitData)
          → IsSafe (upload_item_of stoi to_string items bags id item_id item o t)
      of item_id none = (refused≢fault _, paired)
      of item_id (some def) = found item_id _ (lookup id t.sessions) refl

      parsed : (o : Option ℤ) → IsSafe (upload_parsed stoi to_string items bags id item o t)
      parsed none = (refused≢fault _, paired)
      parsed (some item_id) =
          if_cases IsSafe
            (leb_ℤ item_id (pos 0) || leb_ℤ item.amount (pos 0) || ltb_ℤ item.slot_index (pos 0))
            (λ e. (refused≢fault _, paired)) λ e. of item_id (lookup item_id items)
