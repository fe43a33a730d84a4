-- ===== src/Inventory/Tests.antt =====
-- Runs of Inventory.cpp on concrete inputs.
use ll2games_rpg_server.Common.{◌≡◌, refl, ◌≢◌, true, false, [], ◌∷◌, arith, ◌↔◌}
use ll2games_rpg_server.Common.Int.{ℤ, pos, ◌+ℤ◌, ◌-ℤ◌}
use ll2games_rpg_server.Common.Keys.{ℤ_eq, ℕ_eq}
use ll2games_rpg_server.Inventory.{
  Inventory, InventorySlot, MoveItem, AddItemData, add_item, add_item_loops, remove_item_by_slot,
  move_item_slot,
}
use ll2games_rpg_server.Inventory.Amount.{amount, AllSlots}
use ll2games_rpg_server.Inventory.Add.{add_item-amount}
use ll2games_rpg_server.Inventory.Limit.{IsWithin, add_item-IsWithin}
use ll2games_rpg_server.Inventory.Slots.{
  remove_item_by_slot-amount, move_item_slot-IsExchanged, CanMove, IsExchanged,
}

-- Three slots, the first with 8 of item 5
abbrev slot_at : ℤ → ℤ → ℤ → InventorySlot
slot_at k id n = record {
  inventory_type = pos 1;
  slot_pos = k;
  item_id = id;
  item_count = n;
  is_enable = true;
}

abbrev bag : Inventory
bag = record {
  slots =
      (pos 0, slot_at (pos 0) (pos 5) (pos 8))
      ∷ (pos 1, slot_at (pos 1) (pos 0) (pos 0))
      ∷ (pos 2, slot_at (pos 2) (pos 0) (pos 0))
      ∷ [];
  inventory_type = pos 1;
  max_slot = pos 3;
  current_slot_size = pos 3;
}

abbrev seven_potions : AddItemData
seven_potions = record { item_id = pos 5; count = pos 7; stackable = true; max_stack = pos 10 }

adds : (add_item seven_potions bag []).0 ≡ true
unfolding add_item add_item_loops ◌-ℤ◌
adds = refl

add_item-amount_example :
    let slots = (add_item seven_potions bag []).1.slots in
    (amount (pos 5) slots ≡ amount (pos 5) bag.slots +ℤ pos 7)
    × ((id : ℤ) → id ≢ pos 5 → id ≢ pos 0 → amount id slots ≡ amount id bag.slots)
add_item-amount_example = add_item-amount seven_potions bag [] (λ e. absurd (ground arith)) adds

add_item-IsWithin_example :
    AllSlots (IsWithin seven_potions) (add_item seven_potions bag []).1.slots
add_item-IsWithin_example = add_item-IsWithin seven_potions bag [] (ground arith) bag_fits
  where
    bag_fits : AllSlots (IsWithin seven_potions) bag.slots
    bag_fits = (
      λ e. (ground arith, ground arith),
      (λ e. absurd (ground arith), (λ e. absurd (ground arith), _)),
    )

takes : (remove_item_by_slot (pos 0) (pos 5) (pos 3) bag).0 ≡ true
unfolding remove_item_by_slot
takes = refl

remove_item_by_slot-amount_example :
    let slots = (remove_item_by_slot (pos 0) (pos 5) (pos 3) bag).1.slots in
    (amount (pos 5) slots +ℤ pos 3 ≡ amount (pos 5) bag.slots)
    × ((other : ℤ) → other ≢ pos 5 → amount other slots ≡ amount other bag.slots)
remove_item_by_slot-amount_example = remove_item_by_slot-amount (pos 0) (pos 5) (pos 3) bag takes

abbrev to_the_end : MoveItem
to_the_end = record { inventory_type = pos 1; from_slot_pos = pos 0; to_slot_pos = pos 2 }

move_item_slot-IsExchanged_example :
    let (ok, inv', updates') = move_item_slot to_the_end bag [] in
    ((ok ≡ true) ↔ CanMove to_the_end bag)
    × (ok ≡ true
        → IsExchanged to_the_end bag [] inv' updates'
          × ((id : ℤ) → amount id inv'.slots ≡ amount id bag.slots))
    × (ok ≡ false → (inv' ≡ bag) × (updates' ≡ []))
move_item_slot-IsExchanged_example = move_item_slot-IsExchanged to_the_end bag []
