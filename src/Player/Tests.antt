-- ===== src/Player/Tests.antt =====
-- Runs of Player.cpp on concrete inputs.
use ll2games_rpg_server.Common.{
  some, false, true, codes, ◌≢◌, ◌≡◌, ◌↔◌, true, false, none, [], arith, ◌∷◌, refl,
}
use ll2games_rpg_server.Common.Int.{pos, ◌+ℤ◌, ◌-ℤ◌, ◌≤ℤ◌, ◌<ℤ◌, ℤ}
use ll2games_rpg_server.Common.Keys.{ℤ_eq, ℕ_eq}
use ll2games_rpg_server.Player.{
  can_use_item, use_item, Player, idle, max_int64, try_add_gold, try_spend_gold,
}
use ll2games_rpg_server.Inventory
use ll2games_rpg_server.InventoryManager
use ll2games_rpg_server.InventoryManager.{Items}
use ll2games_rpg_server.InventoryManager.Holdings.{held}
use ll2games_rpg_server.Player.Usage.{IsHealthy, use_item-can_use_item}
use ll2games_rpg_server.Player.Gold.{IsFunded, try_add_gold-IsFunded, try_spend_gold-IsFunded}

abbrev buyer : Player
buyer = record {
  id = pos 1;
  state = idle;
  current_map = none;
  position = record { x = 0; y = 0 };
  gold = pos 100;
  stat = record {
    base = record { str = pos 4; dex = pos 4; intel = pos 4; luck = pos 4 };
    derived = record { max_hp = pos 50; max_mp = pos 20 };
    level = pos 1;
    exp = pos 0;
    cur_hp = pos 50;
    cur_mp = pos 20;
    remain_ap = pos 0;
  };
  stat_dirty = false;
  inventories = [];
  save_version = 0;
}

try_add_gold-IsFunded_example :
    let (ok, p') = try_add_gold (pos 7) buyer in
    IsFunded p'
    × ((ok ≡ true) ↔ ((pos 0 <ℤ pos 7) × (pos 100 +ℤ pos 7 ≤ℤ pos max_int64)))
    × (ok ≡ true → p'.gold ≡ pos 100 +ℤ pos 7)
    × (ok ≡ false → p' ≡ buyer)
try_add_gold-IsFunded_example = try_add_gold-IsFunded (pos 7) buyer (ground arith, ground arith)

try_spend_gold-IsFunded_example :
    let (ok, p') = try_spend_gold (pos 7) buyer in
    IsFunded p'
    × ((ok ≡ true) ↔ ((pos 0 <ℤ pos 7) × (pos 7 ≤ℤ pos 100)))
    × (ok ≡ true → p'.gold ≡ pos 100 -ℤ pos 7)
    × (ok ≡ false → p' ≡ buyer)
try_spend_gold-IsFunded_example = try_spend_gold-IsFunded (pos 7) buyer (ground arith, ground arith)

-- Eight potions of 30 hit points, and a hurt player
abbrev potions : Items
potions =
    (
      pos 5,
      record {
        item_id = pos 5;
        type = codes "consumable";
        stackable = true;
        max_stack = pos 10;
        sell_price = pos 2;
        use_effect = some (record { hp_restore = pos 30; mp_restore = pos 0; cooldown_ms = pos 0 });
      },
    )
    ∷ []

abbrev hurt : Player
hurt = record buyer {
  stat = record buyer.stat { cur_hp = pos 40 };
  inventories =
      (
        pos 1,
        record {
          slots =
              (
                pos 0,
                record {
                  inventory_type = pos 1;
                  slot_pos = pos 0;
                  item_id = pos 5;
                  item_count = pos 8;
                  is_enable = true;
                },
              )
              ∷ [];
          inventory_type = pos 1;
          max_slot = pos 1;
          current_slot_size = pos 1;
        },
      )
      ∷ [];
}

usable_potion : can_use_item potions (pos 1) (pos 0) (pos 5) (pos 1) hurt ≡ true
unfolding can_use_item InventoryManager.has_item_by_slot Inventory.has_item_by_slot
usable_potion = refl

use_item-can_use_item_example :
    let (ok, p') = use_item potions (pos 1) (pos 0) (pos 5) (pos 1) hurt in
    (ok ≡ true)
    × (held (pos 5) p'.inventories +ℤ pos 1 ≡ held (pos 5) hurt.inventories)
    × ((other : ℤ) → other ≢ pos 5 → held other p'.inventories ≡ held other hurt.inventories)
    × (p'.gold ≡ hurt.gold)
    × (IsHealthy hurt → IsHealthy p')
use_item-can_use_item_example =
    use_item-can_use_item potions (pos 1) (pos 0) (pos 5) (pos 1) hurt usable_potion
