-- ===== src/Shop/Tests.antt =====
-- Runs of ShopService.cpp on concrete inputs.
use ll2games_rpg_server.Common.{ℕ, ◌≡◌, refl, Bool, true, false, none, some, [], ◌∷◌, arith, codes}
use ll2games_rpg_server.Common.Int.{pos, ◌*ℤ◌, ◌-ℤ◌, ◌+ℤ◌}
use ll2games_rpg_server.Common.Keys.{ℤ_eq, ℕ_eq}
use ll2games_rpg_server.Inventory
use ll2games_rpg_server.Inventory.{InventorySlot}
use ll2games_rpg_server.InventoryManager.{
  ItemInitData, add_item, convert_item_type_to_inventory_type,
}
use ll2games_rpg_server.Player.{
  Player, Vec2, idle, is_alive, try_spend_gold, try_add_gold, mark_save_needed,
}
use ll2games_rpg_server.Player.Gold.{IsFunded}
use ll2games_rpg_server.Shop.Price.{IsOffered, buy-IsOffered}
use ll2games_rpg_server.Npc.{
  answered, NpcInteractionResult, interact, validate_interaction, find_npc, is_finite,
}
use ll2games_rpg_server.Shop.{ShopBuyResult, ShopService, buy, sell, pay_and_add}
use ll2games_rpg_server.Shop.Exchange.{IsBought, IsSold}
use ll2games_rpg_server.Shop.Buy.{buy-IsBought}
use ll2games_rpg_server.Shop.Sell.{sell-IsSold}

-- Everything is near.
abbrev never : Vec2 → Vec2 → ℕ → Bool
never a b range = false

abbrev potion : ItemInitData
potion = record {
  item_id = pos 5;
  type = codes "consumable";
  stackable = true;
  max_stack = pos 10;
  sell_price = pos 2;
  use_effect = none;
}

-- A shop with one product for 3 gold
abbrev potion_shop : ShopService
potion_shop = record {
  npcs = some (
      (pos 8, record { npc_id = pos 8; name = []; role = []; dialogue = []; shop = some (pos 3) })
      ∷ []);
  shops =
      (
        pos 3,
        record {
          shop_id = pos 3;
          allow_sell = true;
          products =
              record {
                product_id = pos 1;
                item_id = pos 5;
                price = pos 3;
                max_per_purchase = pos 99;
              }
              ∷ [];
        },
      )
      ∷ [];
  items = (pos 5, potion) ∷ [];
}

abbrev eight_potions : InventorySlot
eight_potions = record {
  inventory_type = pos 1;
  slot_pos = pos 0;
  item_id = pos 5;
  item_count = pos 8;
  is_enable = true;
}

abbrev customer : Player
customer = record {
  id = pos 1;
  state = idle;
  current_map = some (record {
    map_id = 2;
    npc_spawns =
        record {
          spawn_id = pos 6;
          npc_id = pos 8;
          position = record { x = 0; y = 0 };
          interaction_range = 0;
        }
        ∷ [];
  });
  position = record { x = 0; y = 0 };
  gold = pos 100;
  stat = record {
    base = record { str = pos 4; dex = pos 4; intel = pos 4; luck = pos 4 };
    derived = record { max_hp = pos 50; max_mp = pos 20 };
    level = pos 1;
    exp = pos 0;
    cur_hp = pos 50;
    cur_mp = pos 20;
    remain_ap = pos 0;
  };
  stat_dirty = false;
  inventories =
      (
        pos 1,
        record {
          slots = (pos 0, eight_potions) ∷ [];
          inventory_type = pos 1;
          max_slot = pos 1;
          current_slot_size = pos 1;
        },
      )
      ∷ [];
  save_version = 0;
}

-- Two potions cost 6; four do not fit into the slot, and the gold comes back.
two_bought : (buy never (some potion_shop) (pos 2) (pos 6) (pos 1) (pos 2) customer).1.gold ≡ pos 94
unfolding buy interact validate_interaction find_npc is_finite is_alive pay_and_add try_spend_gold
    try_add_gold mark_save_needed add_item convert_item_type_to_inventory_type Inventory.add_item
    ◌*ℤ◌ ◌-ℤ◌ ◌+ℤ◌
two_bought = refl

four_refused :
    (buy never (some potion_shop) (pos 2) (pos 6) (pos 1) (pos 4) customer).1.gold ≡ pos 100
unfolding buy interact validate_interaction find_npc is_finite is_alive pay_and_add try_spend_gold
    try_add_gold mark_save_needed add_item convert_item_type_to_inventory_type Inventory.add_item
    ◌*ℤ◌ ◌-ℤ◌ ◌+ℤ◌
four_refused = refl

buy-IsBought_example :
    let (answer, p') = buy never (some potion_shop) (pos 2) (pos 6) (pos 1) (pos 2) customer in
    IsFunded p' × IsBought (some potion_shop) (pos 1) (pos 2) customer answer p'
buy-IsBought_example =
    buy-IsBought never (some potion_shop) (pos 2) (pos 6) (pos 1) (pos 2) customer
      (ground arith, ground arith)

sell-IsSold_example :
    let (answer, p') =
      sell never (some potion_shop) (pos 2) (pos 6) (pos 1) (pos 0) (pos 3) customer in
    IsFunded p' × IsSold (some potion_shop) (pos 1) (pos 0) (pos 3) customer answer p'
sell-IsSold_example =
    sell-IsSold never (some potion_shop) (pos 2) (pos 6) (pos 1) (pos 0) (pos 3) customer
      (ground arith, ground arith)

abbrev receipt : ShopBuyResult
receipt = record {
  map_id = pos 2;
  spawn_id = pos 6;
  shop_id = pos 3;
  product_id = pos 1;
  item_id = pos 5;
  count = pos 2;
  total_price = pos 6;
  gold = pos 94;
  updated_slots =
      record { inventory_type = pos 1; slot_pos = pos 0; item_id = pos 5; item_count = pos 10 }
      ∷ [];
}

receipt_given :
    (buy never (some potion_shop) (pos 2) (pos 6) (pos 1) (pos 2) customer).0 ≡ answered receipt
unfolding buy interact validate_interaction find_npc is_finite is_alive pay_and_add try_spend_gold
    try_add_gold mark_save_needed add_item convert_item_type_to_inventory_type Inventory.add_item
    ◌*ℤ◌ ◌-ℤ◌ ◌+ℤ◌
receipt_given = refl

buy-IsOffered_example :
    (npc : NpcInteractionResult) × (interact never potion_shop.npcs customer (pos 6) ≡ answered npc)
    × IsOffered potion_shop npc (pos 1) (pos 2) receipt
buy-IsOffered_example =
    buy-IsOffered never potion_shop (pos 2) (pos 6) (pos 1) (pos 2) customer receipt receipt_given
