-- ===== src/Trade/Offers.antt =====
-- `UploadItem`, `ValidateTradeItems` and `Ready` of SERVER/src/CHANNEL/service/TradeService.cpp. The
-- texts of the error of `ValidateTradeItems` are left out.
use ll2games_rpg_server.Common.{
  ℕ, ◌-◌, ◌^◌, ◌≡◌, ◌↔◌, Bool, true, false, ◌&&◌, ◌||◌, not, Option, none, some, List, [], ◌∷◌,
  ◌++◌, arith, ◌==◌, if◌then◌else◌, codes, length,
}
use ll2games_rpg_server.Common.Int.{ℤ, pos, ◌+ℤ◌, ltb_ℤ, leb_ℤ, eqb_ℤ, eqb_ℤ_iff}
use ll2games_rpg_server.Common.Keys.{Dict, lookup, insert, ℤ_eq, ℕ_eq, Eq}
use ll2games_rpg_server.InventoryManager.{
  Inventories, Items, ItemInitData, has_item_by_slot, convert_item_type_to_inventory_type,
}
use ll2games_rpg_server.Trade.{
  TradeItem, TradeSession, Trades, Outcome, refused, done, fault, Readiness, answers, executes,
  release, store,
}

-- `std::numeric_limits<int>::max()`
abbrev pub max_int : ℕ
max_int = 2 ^ 31 - 1

-- The running total of `UploadItem`
pub data Offer : Type 0 where
  rejected : List ℕ → Offer
  offered : ℤ → Offer

-- A key of `offeredAmounts`: inventory, slot and item
abbrev eqb_key : ℤ × ℤ × ℤ → ℤ × ℤ × ℤ → Bool
eqb_key (a, b, c) (x, y, z) = eqb_ℤ a x && eqb_ℤ b y && eqb_ℤ c z

pub eqb_key_iff : (k j : ℤ × ℤ × ℤ) → (eqb_key k j ≡ true) ↔ (k ≡ j)
eqb_key_iff (a, b, c) (x, y, z) = ground (arith, eqb_ℤ_iff a x, eqb_ℤ_iff b y, eqb_ℤ_iff c z)

instance abbrev pub offer_key_eq : Eq (ℤ × ℤ × ℤ)
offer_key_eq = record { beq = eqb_key; beq_iff = eqb_key_iff }

-- A missing key of `offeredAmounts[key]` is made with 0.
abbrev or_zero : Option ℤ → ℤ
or_zero none = pos 0
or_zero (some n) = n

-- `stoi` is `std::stoi` with the number of bytes it read, `none` where it throws, and `to_string` is
-- `std::to_string`. `items` is the item table and `bags` the inventories of each player.
module _ (stoi : List ℕ → Option (ℤ × ℕ)) (to_string : ℤ → List ℕ) (items : Items)
    (bags : ℤ → Inventories) where
  abbrev whole_id : List ℕ → Option (ℤ × ℕ) → Option ℤ
  whole_id text none = none
  whole_id text (some (n, read)) = if not (read == length text) then none else some n

  -- The parse of an item id that has to take the whole text
  abbrev pub parse_id : List ℕ → Option ℤ
  parse_id text = whole_id text (stoi text)

  abbrev first_of : Option (ℤ × ℕ) → Option ℤ
  first_of none = none
  first_of (some (n, read)) = some n

  -- One turn of the loop of `UploadItem` for an uploaded item of the same slot
  abbrev pub add_offer : ℤ → ℤ → TradeItem → Option ℤ → Offer
  add_offer item_id total uploaded none = rejected (codes "Invalid item in trade session")
  add_offer item_id total uploaded (some id) =
      if not (eqb_ℤ id item_id)
      then rejected (codes "Trade slot item mismatch")
      else if ltb_ℤ (pos max_int) (total +ℤ uploaded.amount)
      then rejected (codes "Trade item amount is too large")
      else offered (total +ℤ uploaded.amount)

  unfoldable pub sum_offers : ℤ → ℤ → List TradeItem → Offer → Offer
  sum_offers item_id slot uploaded (rejected e) = rejected e
  sum_offers item_id slot [] (offered total) = offered total
  sum_offers item_id slot (u ∷ us) (offered total) =
      let stop = sum_offers item_id slot us (offered total) in
      let go = sum_offers item_id slot us (add_offer item_id total u (first_of (stoi u.id))) in
      if not (eqb_ℤ u.slot_index slot) then stop else go

  -- `validatedItem`
  abbrev pub validated : ℤ → ℤ → TradeItem → TradeItem
  validated item_id type item = record item { id = to_string item_id; type = to_string type }

  -- From the check of the total to the end of `UploadItem`
  abbrev pub upload_total :
      ℤ → ℤ → ℤ → TradeItem → ℕ → TradeSession → Bool → Offer → Trades → Outcome × Trades
  upload_total id item_id type item address s is_a (rejected e) t = (refused e, t)
  upload_total id item_id type item address s is_a (offered total) t =
      if not (has_item_by_slot type item.slot_index item_id total (bags id))
      then (refused (codes "Item ownership or amount validation failed"), t)
      else let added = validated item_id type item ∷ [] in
        (
          done 0,
          store address
              (if is_a
                then record s { a_items = s.a_items ++ added }
                else record s { b_items = s.b_items ++ added })
              t,
        )

  abbrev pub upload_at : ℤ → ℤ → ℤ → TradeItem → ℕ → Option TradeSession → Trades → Outcome × Trades
  upload_at id item_id type item address none t = (fault, t)
  upload_at id item_id type item address (some s) t =
      let is_a = eqb_ℤ s.a_id id in
      if not (is_a || eqb_ℤ s.b_id id)
      then (refused (codes "Player does not belong to this trade"), t)
      else if s.a_ready || s.b_ready || s.executing
      then (refused (codes "Trade items cannot be changed after ready"), t)
      else upload_total id item_id type item address s is_a
          (sum_offers item_id item.slot_index (if is_a then s.a_items else s.b_items)
            (offered item.amount))
          t

  abbrev pub upload_found : ℤ → ℤ → ℤ → TradeItem → Option ℕ → Trades → Outcome × Trades
  upload_found id item_id type item none t = (refused (codes "Player trade session not found"), t)
  upload_found id item_id type item (some address) t =
      upload_at id item_id type item address (lookup address t.heap) t

  abbrev pub upload_item_of : ℤ → ℤ → TradeItem → Option ItemInitData → Trades → Outcome × Trades
  upload_item_of id item_id item none t = (refused (codes "Item does not exist"), t)
  upload_item_of id item_id item (some def) t =
      upload_found id item_id (convert_item_type_to_inventory_type def.type) item
        (lookup id t.sessions) t

  abbrev pub upload_parsed : ℤ → TradeItem → Option ℤ → Trades → Outcome × Trades
  upload_parsed id item none t = (refused (codes "Invalid item id"), t)
  upload_parsed id item (some item_id) t =
      if leb_ℤ item_id (pos 0) || leb_ℤ item.amount (pos 0) || ltb_ℤ item.slot_index (pos 0)
      then (refused (codes "Invalid trade item"), t)
      else upload_item_of id item_id item (lookup item_id items) t

  -- `UploadItem` of a player that is not null
  unfoldable pub upload_item : ℤ → TradeItem → Trades → Outcome × Trades
  upload_item id item t = upload_parsed id item (parse_id item.id) t

  -- The first loop of `ValidateTradeItems`: the total for each inventory, slot and item.
  abbrev tally_key : ℤ → ℤ × ℤ × ℤ → Dict (ℤ × ℤ × ℤ) ℤ → Option (Dict (ℤ × ℤ × ℤ) ℤ)
  tally_key amount key d =
      let total = or_zero (lookup key d) +ℤ amount in
      if ltb_ℤ (pos max_int) total then none else some (insert key total d)

  abbrev tally_item :
      TradeItem → ℤ → Option ItemInitData → Dict (ℤ × ℤ × ℤ) ℤ → Option (Dict (ℤ × ℤ × ℤ) ℤ)
  tally_item item item_id none d = none
  tally_item item item_id (some def) d =
      tally_key item.amount (convert_item_type_to_inventory_type def.type, item.slot_index, item_id)
        d

  abbrev tally : TradeItem → Option ℤ → Dict (ℤ × ℤ × ℤ) ℤ → Option (Dict (ℤ × ℤ × ℤ) ℤ)
  tally item none d = none
  tally item (some item_id) d =
      if leb_ℤ item_id (pos 0) || leb_ℤ item.amount (pos 0) || ltb_ℤ item.slot_index (pos 0)
      then none
      else tally_item item item_id (lookup item_id items) d

  unfoldable pub tally_all :
      List TradeItem → Option (Dict (ℤ × ℤ × ℤ) ℤ) → Option (Dict (ℤ × ℤ × ℤ) ℤ)
  tally_all offers none = none
  tally_all [] (some d) = some d
  tally_all (item ∷ offers) (some d) = tally_all offers (tally item (parse_id item.id) d)

  abbrev pub all_held : ℤ → Dict (ℤ × ℤ × ℤ) ℤ → Bool
  all_held id [] = true
  all_held id (((type, slot, item_id), total) ∷ d) =
      if not (has_item_by_slot type slot item_id total (bags id)) then false else all_held id d

  -- `ValidateTradeItems`, without its error text
  unfoldable pub validate_trade_items : ℤ → List TradeItem → Bool
  validate_trade_items id offers = elim (tally_all offers (some [])) [
    | none ↦ false
    | some d ↦ all_held id d
  ]

  -- The first critical section of `Ready`
  abbrev pub ready_both : ℕ → TradeSession → Trades → Readiness × Trades
  ready_both address s t =
      if not (s.a_ready && s.b_ready)
      then (answers (done 2), store address s t)
      else if not (validate_trade_items s.a_id s.a_items && validate_trade_items s.b_id s.b_items)
      then (answers (refused (codes "Trade items are not valid")), release address s t)
      else (
        executes address
            (record { a_id = s.a_id; b_id = s.b_id; a_items = s.a_items; b_items = s.b_items }),
        store address (record s { executing = true }) t,
      )

  abbrev pub ready_at : ℤ → ℕ → Option TradeSession → Trades → Readiness × Trades
  ready_at id address none t = (answers fault, t)
  ready_at id address (some s) t =
      if s.executing
      then (answers (refused (codes "Trade is already executing")), t)
      else if eqb_ℤ s.a_id id
      then ready_both address (record s { a_ready = true }) t
      else if eqb_ℤ s.b_id id
      then ready_both address (record s { b_ready = true }) t
      else (answers (refused (codes "Player does not belong to this trade")), t)

  abbrev pub ready_found : ℤ → Option ℕ → Trades → Readiness × Trades
  ready_found id none t = (answers (refused (codes "Player trade session not found")), t)
  ready_found id (some address) t = ready_at id address (lookup address t.heap) t

  unfoldable pub ready_begin : ℤ → Trades → Readiness × Trades
  ready_begin id t = ready_found id (lookup id t.sessions) t

-- The rest of `Ready`, for the result of `Execute`: the session is released where it failed and the
-- player still maps to it.
abbrev pub finish_at : ℕ → Option ℕ → Option TradeSession → Trades → Outcome × Trades
finish_at address none o t = (refused (codes "Trade transaction failed"), t)
finish_at address (some found) none t =
    if found == address then (fault, t) else (refused (codes "Trade transaction failed"), t)
finish_at address (some found) (some s) t =
    if found == address
    then (refused (codes "Trade transaction failed"), release address s t)
    else (refused (codes "Trade transaction failed"), t)

unfoldable pub ready_end : ℤ → ℕ → Bool → Trades → Outcome × Trades
ready_end id address executed t =
    if executed
    then (done 0, t)
    else finish_at address (lookup id t.sessions) (lookup address t.heap) t
