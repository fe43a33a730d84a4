-- ===== src/Shop.antt =====
-- SERVER/src/CHANNEL/service/ShopService.cpp, with the data of SERVER/src/CHANNEL/domain/ShopData.h and
-- the table of SERVER/src/CHANNEL/manager/ShopManager.cpp. `Buy` and `Sell` run under
-- `Gameplay::gate` as a whole, so each is one step. The destructors of the refund guards are written
-- out on the paths that leave them active. A service that is not set up is `none`.
pub mod Exchange
pub mod Buy
pub mod Sell
pub mod Price
mod Tests
use ll2games_rpg_server.Common.{
  ℕ, ◌/◌, Bool, false, ◌&&◌, ◌||◌, not, Option, none, some, List, [], ◌∷◌, map, if◌then◌else◌,
  codes,
}
use ll2games_rpg_server.Common.Int.{ℤ, pos, ◌-ℤ◌, ◌*ℤ◌, ltb_ℤ, leb_ℤ, eqb_ℤ, pos_part}
use ll2games_rpg_server.Common.Keys.{Dict, lookup, ℤ_eq}
use ll2games_rpg_server.Inventory.{InventorySlot, AddItemResult}
use ll2games_rpg_server.InventoryManager
use ll2games_rpg_server.InventoryManager.{
  Items, ItemInitData, convert_item_type_to_inventory_type, get_slot_snapshot,
}
use ll2games_rpg_server.Player.{Player, Vec2, MapInstance, max_int64, try_add_gold, try_spend_gold}
use ll2games_rpg_server.Npc.{
  Answer, failed, answered, NpcDefinition, NpcInteractionResult, interact,
}

pub record ShopProduct : Type 0 where
  pub product_id : ℤ
  pub item_id : ℤ
  pub price : ℤ
  pub max_per_purchase : ℤ

pub record ShopDefinition : Type 0 where
  pub shop_id : ℤ
  pub allow_sell : Bool
  pub products : List ShopProduct

pub record ShopBuyResult : Type 0 where
  pub map_id : ℤ
  pub spawn_id : ℤ
  pub shop_id : ℤ
  pub product_id : ℤ
  pub item_id : ℤ
  pub count : ℤ
  pub total_price : ℤ
  pub gold : ℤ
  pub updated_slots : List AddItemResult

pub record ShopSellResult : Type 0 where
  pub map_id : ℤ
  pub spawn_id : ℤ
  pub shop_id : ℤ
  pub item_id : ℤ
  pub count : ℤ
  pub total_price : ℤ
  pub gold : ℤ
  pub updated_slot : AddItemResult

-- The managers that the service is set up with, and the item table.
pub record ShopService : Type 0 where
  pub npcs : Option (Dict ℤ NpcDefinition)
  pub shops : Dict ℤ ShopDefinition
  pub items : Items

-- The search for the product
abbrev pub find_product : ℤ → List ShopProduct → Option ShopProduct
find_product id [] = none
find_product id (p ∷ ps) = if eqb_ℤ p.product_id id then some p else find_product id ps

-- `std::numeric_limits<std::int64_t>::max() / count` for a positive count
abbrev pub max_unit_price : ℤ → ℤ
max_unit_price count = pos (max_int64 / pos_part count)

-- `player->GetCurrentMap()` is the map that the client names.
abbrev pub is_map : ℤ → Option MapInstance → Bool
is_map map_id none = false
is_map map_id (some map) = ltb_ℤ (pos 0) map_id && eqb_ℤ (pos map.map_id) map_id

-- From `TrySpendGold` to the end of `Buy`
pub pay_and_add : Items → ShopBuyResult → Player → Answer ShopBuyResult × Player
pay_and_add items result player =
    let (paid, poor) = try_spend_gold result.total_price player in
    if not paid
    then (failed (codes "not enough gold"), poor)
    else let (added, inventories, updated) =
        InventoryManager.add_item items result.item_id result.count poor.inventories [] in
      let served : Player = record poor { inventories = inventories } in
      if not added
      then (
        failed (codes "failed to add purchased items"),
        (try_add_gold result.total_price served).1,
      )
      else (answered (record result { gold = poor.gold; updated_slots = updated }), served)

-- `result` of `Buy`, before the gold is taken
abbrev pub bought : ℤ → ℤ → ShopDefinition → ℤ → ShopProduct → ShopBuyResult
bought map_id spawn_id shop count product = record {
  map_id = map_id;
  spawn_id = spawn_id;
  shop_id = shop.shop_id;
  product_id = product.product_id;
  item_id = product.item_id;
  count = count;
  total_price = product.price *ℤ count;
  gold = pos 0;
  updated_slots = [];
}

abbrev pub buy_product :
    Items → ℤ → ℤ → ShopDefinition → ℤ → Option ShopProduct → Player → Answer ShopBuyResult × Player
buy_product items map_id spawn_id shop count none player =
    (failed (codes "product not found"), player)
buy_product items map_id spawn_id shop count (some product) player =
    if ltb_ℤ product.max_per_purchase count
    then (failed (codes "purchase count exceeds limit"), player)
    else if leb_ℤ product.price (pos 0) || ltb_ℤ (max_unit_price count) product.price
    then (failed (codes "invalid total price"), player)
    else pay_and_add items (bought map_id spawn_id shop count product) player

abbrev pub buy_shop :
    Items → ℤ → ℤ → ℤ → ℤ → Option ShopDefinition → Player → Answer ShopBuyResult × Player
buy_shop items map_id spawn_id product_id count none player =
    (failed (codes "shop not found"), player)
buy_shop items map_id spawn_id product_id count (some shop) player =
    buy_product items map_id spawn_id shop count (find_product product_id shop.products) player

abbrev pub buy_at :
    ShopService
    → ℤ
    → ℤ
    → ℤ
    → ℤ
    → Answer NpcInteractionResult
    → Player
    → Answer ShopBuyResult × Player
buy_at service map_id spawn_id product_id count (failed e) player = (failed e, player)
buy_at service map_id spawn_id product_id count (answered npc) player =
    if leb_ℤ npc.shop_id (pos 0)
    then (failed (codes "npc has no shop"), player)
    else buy_shop service.items map_id spawn_id product_id count (lookup npc.shop_id service.shops)
        player

-- `result.updatedSlot`, the slot that a sale reports
abbrev pub sold_slot : ℤ → ℤ → InventorySlot → ℤ → AddItemResult
sold_slot type slot_pos slot count =
    let remaining = slot.item_count -ℤ count in
    record {
      inventory_type = type;
      slot_pos = slot_pos;
      item_id = if ltb_ℤ (pos 0) remaining then slot.item_id else pos 0;
      item_count = remaining;
    }

-- From `TryAddGold` to the end of `Sell`
pub credit_and_remove : ℤ → ℤ → ShopSellResult → Player → Answer ShopSellResult × Player
credit_and_remove type slot_pos result player =
    let (credited, rich) = try_add_gold result.total_price player in
    if not credited
    then (failed (codes "gold balance limit exceeded"), rich)
    else let (removed, inventories) =
        InventoryManager.remove_item_by_slot type slot_pos result.item_id result.count
          rich.inventories in
      let served : Player = record rich { inventories = inventories } in
      if not removed
      then (
        failed (codes "failed to remove sold items"),
        (try_spend_gold result.total_price served).1,
      )
      else (answered (record result { gold = rich.gold }), served)

-- `result` of `Sell`, before the gold is given
abbrev pub sold : ℤ → ℤ → ShopDefinition → ℤ → ℤ → ℤ → InventorySlot → ItemInitData → ShopSellResult
sold map_id spawn_id shop type slot_pos count slot item = record {
  map_id = map_id;
  spawn_id = spawn_id;
  shop_id = shop.shop_id;
  item_id = slot.item_id;
  count = count;
  total_price = item.sell_price *ℤ count;
  gold = pos 0;
  updated_slot = sold_slot type slot_pos slot count;
}

abbrev pub sell_item :
    ℤ
    → ℤ
    → ShopDefinition
    → ℤ
    → ℤ
    → ℤ
    → InventorySlot
    → Option ItemInitData
    → Player
    → Answer ShopSellResult × Player
sell_item map_id spawn_id shop type slot_pos count slot none player =
    (failed (codes "invalid item definition"), player)
sell_item map_id spawn_id shop type slot_pos count slot (some item) player =
    if not (eqb_ℤ (convert_item_type_to_inventory_type item.type) type)
    then (failed (codes "invalid item definition"), player)
    else if leb_ℤ item.sell_price (pos 0)
    then (failed (codes "item cannot be sold"), player)
    else if ltb_ℤ (max_unit_price count) item.sell_price
    then (failed (codes "invalid total sale price"), player)
    else credit_and_remove type slot_pos (sold map_id spawn_id shop type slot_pos count slot item)
        player

abbrev pub sell_slot :
    Items
    → ℤ
    → ℤ
    → ShopDefinition
    → ℤ
    → ℤ
    → ℤ
    → Option InventorySlot
    → Player
    → Answer ShopSellResult × Player
sell_slot items map_id spawn_id shop type slot_pos count none player =
    (failed (codes "inventory item not found"), player)
sell_slot items map_id spawn_id shop type slot_pos count (some slot) player =
    if ltb_ℤ slot.item_count count
    then (failed (codes "not enough items"), player)
    else sell_item map_id spawn_id shop type slot_pos count slot (lookup slot.item_id items) player

abbrev pub sell_shop :
    Items → ℤ → ℤ → ℤ → ℤ → ℤ → Option ShopDefinition → Player → Answer ShopSellResult × Player
sell_shop items map_id spawn_id type slot_pos count none player =
    (failed (codes "shop does not accept sales"), player)
sell_shop items map_id spawn_id type slot_pos count (some shop) player =
    if not shop.allow_sell
    then (failed (codes "shop does not accept sales"), player)
    else sell_slot items map_id spawn_id shop type slot_pos count
        (get_slot_snapshot type slot_pos player.inventories) player

abbrev pub sell_at :
    ShopService
    → ℤ
    → ℤ
    → ℤ
    → ℤ
    → ℤ
    → Answer NpcInteractionResult
    → Player
    → Answer ShopSellResult × Player
sell_at service map_id spawn_id type slot_pos count (failed e) player = (failed e, player)
sell_at service map_id spawn_id type slot_pos count (answered npc) player =
    if leb_ℤ npc.shop_id (pos 0)
    then (failed (codes "npc has no shop"), player)
    else sell_shop service.items map_id spawn_id type slot_pos count
        (lookup npc.shop_id service.shops) player

module _ (out_of_range : Vec2 → Vec2 → ℕ → Bool) where
  -- `Buy`
  pub buy : Option ShopService → ℤ → ℤ → ℤ → ℤ → Player → Answer ShopBuyResult × Player
  buy none map_id spawn_id product_id count player =
      (failed (codes "shop service unavailable"), player)
  buy (some service) map_id spawn_id product_id count player =
      if not (is_map map_id player.current_map)
      then (failed (codes "map mismatch"), player)
      else if leb_ℤ product_id (pos 0) || leb_ℤ count (pos 0)
      then (failed (codes "invalid purchase request"), player)
      else buy_at service map_id spawn_id product_id count
          (interact out_of_range service.npcs player spawn_id) player

  -- `Sell`
  pub sell : Option ShopService → ℤ → ℤ → ℤ → ℤ → ℤ → Player → Answer ShopSellResult × Player
  sell none map_id spawn_id type slot_pos count player =
      (failed (codes "shop service unavailable"), player)
  sell (some service) map_id spawn_id type slot_pos count player =
      if not (is_map map_id player.current_map)
      then (failed (codes "map mismatch"), player)
      else if ltb_ℤ slot_pos (pos 0) || leb_ℤ count (pos 0)
      then (failed (codes "invalid sale request"), player)
      else sell_at service map_id spawn_id type slot_pos count
          (interact out_of_range service.npcs player spawn_id) player
