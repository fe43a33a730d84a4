-- ===== src/InventoryManager/Tests.antt =====
-- Runs of InventoryManager.cpp on concrete inputs.
use ll2games_rpg_server.Common.{◌≡◌, refl, ◌≢◌, true, false, none, some, [], ◌∷◌, arith, codes}
use ll2games_rpg_server.Common.Int.{ℤ, pos, ◌+ℤ◌}
use ll2games_rpg_server.Common.Keys.{ℤ_eq, ℕ_eq}
use ll2games_rpg_server.Inventory
use ll2games_rpg_server.Inventory.{Inventory, InventorySlot, AddItemResult}
use ll2games_rpg_server.InventoryManager.{
  Items, ItemInitData, Inventories, add_item, remove_item_by_slot, get_slot_snapshot,
}
use ll2games_rpg_server.InventoryManager.Holdings.{
  held, add_item-held, remove_item_by_slot-held, remove_item_by_slot-get_slot_snapshot,
}

abbrev potion : ItemInitData
potion = record {
  item_id = pos 5;
  type = codes "consumable";
  stackable = true;
  max_stack = pos 10;
  sell_price = pos 2;
  use_effect = none;
}

abbrev potions : Items
potions = (pos 5, potion) ∷ []

abbrev eight_potions : InventorySlot
eight_potions = record {
  inventory_type = pos 1;
  slot_pos = pos 0;
  item_id = pos 5;
  item_count = pos 8;
  is_enable = true;
}

abbrev bags : Inventories
bags =
    (
      pos 1,
      record {
        slots = (pos 0, eight_potions) ∷ [];
        inventory_type = pos 1;
        max_slot = pos 1;
        current_slot_size = pos 1;
      },
    )
    ∷ []

-- Three potions do not fit, two do.
add_item-held_example :
    let (ok, m', results') = add_item potions (pos 5) (pos 2) bags [] in
    (ok ≡ false → (m' ≡ bags) × (results' ≡ []))
    × (ok ≡ true
        → (held (pos 5) m' ≡ held (pos 5) bags +ℤ pos 2)
          × ((other : ℤ) → other ≢ pos 5 → other ≢ pos 0 → held other m' ≡ held other bags))
add_item-held_example = add_item-held potions (pos 5) (pos 2) bags []

remove_item_by_slot-held_example :
    let (ok, m') = remove_item_by_slot (pos 1) (pos 0) (pos 5) (pos 3) bags in
    (ok ≡ false → (other : ℤ) → held other m' ≡ held other bags)
    × (ok ≡ true
        → (held (pos 5) m' +ℤ pos 3 ≡ held (pos 5) bags)
          × ((other : ℤ) → other ≢ pos 5 → held other m' ≡ held other bags))
remove_item_by_slot-held_example = remove_item_by_slot-held (pos 1) (pos 0) (pos 5) (pos 3) bags

seen : get_slot_snapshot (pos 1) (pos 0) bags ≡ some eight_potions
unfolding get_slot_snapshot Inventory.find_slot
seen = refl

remove_item_by_slot-get_slot_snapshot_example :
    (remove_item_by_slot (pos 1) (pos 0) (pos 5) (pos 8) bags).0 ≡ true
remove_item_by_slot-get_slot_snapshot_example =
    remove_item_by_slot-get_slot_snapshot (pos 1) (pos 0) (pos 8) eight_potions bags seen
      (ground arith) (ground arith)
