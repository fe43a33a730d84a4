-- ===== src/InventoryManager.antt =====
-- SERVER/src/CHANNEL/manager/InventoryManager.h and InventoryManager.cpp, and the item table of
-- SERVER/src/CHANNEL/manager/ItemManager.cpp that it looks items up in. Each operation runs under
-- `m_inventoryMutex`, so it is one step.
pub mod Holdings
mod Tests
use ll2games_rpg_server.Common.{
  ℕ, zero, suc, ◌+◌, ◌-◌, ◌*◌, ◌/◌, ◌%◌, ◌^◌, ◌≤◌, ◌<◌, ◌≡◌, refl, sym, ap, ap₂, subst, ◌∙◌, ◌≢◌,
  false≢true, ◌↔◌, ◌⊎◌, inl, inr, Bool, true, false, ◌&&◌, ◌||◌, not, Option, none, some, List, [],
  ◌∷◌, ◌++◌, map, arith, ltb, leb, ◌==◌, if◌then◌else◌, Bool-cases, Option-cases, is_some, codes,
  if_cases, not-false, length, take, drop, length-append,
}
use ll2games_rpg_server.Common.Int.{
  ℤ, pos, negsuc, ◌+ℤ◌, ◌-ℤ◌, ◌*ℤ◌, ◌≤ℤ◌, ◌<ℤ◌, ltb_ℤ, leb_ℤ, eqb_ℤ, eqb_ℤ_iff, min_ℤ, min-le_left,
  min-le_right, le-min, pos_part, neg_part, int_laws, parts, eqb_ℤ_refl, eqb_ℤ_ne, ne_of_eqb_ℤ,
  +ℤ_parts, -ℤ_parts, eq_of_parts,
}
use ll2games_rpg_server.Common.Keys.{Dict, lookup, insert, erase, ℤ_eq, lookup-insert, lookup-erase}
use ll2games_rpg_server.Common.Keys.{eqb_bytes}
use ll2games_rpg_server.Inventory
use ll2games_rpg_server.Inventory.{
  Inventory, InventorySlot, InventoryMetaInfo, InventoryItemInfo, MoveItem, InventorySlotUpdate,
  AddItemData, AddItemResult, make_inventory, move_item_slot, make_item_infos,
}

pub record UseEffect : Type 0 where
  pub hp_restore : ℤ
  pub mp_restore : ℤ
  pub cooldown_ms : ℤ

-- `ItemInitData`, without the display name.
pub record ItemInitData : Type 0 where
  pub item_id : ℤ
  pub type : List ℕ
  pub stackable : Bool
  pub max_stack : ℤ
  pub sell_price : ℤ
  pub use_effect : Option UseEffect

-- The item table that `ItemManager` loads; `Find` is `lookup`.
abbrev pub Items : Type 0
Items = Dict ℤ ItemInitData

-- `inven::ConvertItemTypeToInventoryType`
unfoldable pub convert_item_type_to_inventory_type : List ℕ → ℤ
convert_item_type_to_inventory_type type =
    if eqb_bytes type (codes "equip")
    then pos 0
    else if eqb_bytes type (codes "consumable")
    then pos 1
    else if eqb_bytes type (codes "etc")
    then pos 2
    else if eqb_bytes type (codes "setup")
    then pos 3
    else if eqb_bytes type (codes "cash")
    then pos 4
    else negsuc 0

-- `inven::Invalid`
abbrev pub invalid_type : ℤ
invalid_type = negsuc 0

-- `m_inventories`
abbrev pub Inventories : Type 0
Inventories = Dict ℤ Inventory

unfoldable create_inventory : InventoryMetaInfo → Inventories → Bool × Inventories
create_inventory meta m =
    if is_some (lookup meta.inventory_type m)
    then (false, m)
    else (true, insert meta.inventory_type (make_inventory meta) m)

unfoldable ensure_inventory : InventoryMetaInfo → Inventories → Inventories
ensure_inventory meta m =
    if is_some (lookup meta.inventory_type m)
    then m
    else insert meta.inventory_type (make_inventory meta) m

-- `MoveItemSlots`
abbrev move_found :
    MoveItem
    → Option Inventory
    → Inventories
    → List InventorySlotUpdate
    → Bool × Inventories × List InventorySlotUpdate
move_found move none m updates = (false, m, updates)
move_found move (some inv) m updates =
    let (ok, inv', updates') = move_item_slot move inv updates in
    (ok, insert move.inventory_type inv' m, updates')

unfoldable move_item_slots :
    MoveItem
    → Inventories
    → List InventorySlotUpdate
    → Bool × Inventories × List InventorySlotUpdate
move_item_slots move m updates = move_found move (lookup move.inventory_type m) m updates

-- `AddItem`. The last part works on a copy of the inventory, and writes it back where the copy's
-- `AddItem` succeeded.
abbrev add_candidate :
    AddItemData
    → ℤ
    → Option Inventory
    → Inventories
    → List AddItemResult
    → Bool × Inventories × List AddItemResult
add_candidate d type none m results = (false, m, results)
add_candidate d type (some inv) m results =
    let (ok, candidate, pending) = Inventory.add_item d inv [] in
    if not ok then (false, m, results) else (true, insert type candidate m, results ++ pending)

abbrev add_found :
    ℤ
    → ℤ
    → Option ItemInitData
    → Inventories
    → List AddItemResult
    → Bool × Inventories × List AddItemResult
add_found item_id count none m results = (false, m, results)
add_found item_id count (some item) m results =
    if item.stackable && leb_ℤ item.max_stack (pos 0)
    then (false, m, results)
    else let type = convert_item_type_to_inventory_type item.type in
      if eqb_ℤ type invalid_type
      then (false, m, results)
      else add_candidate
          (record {
            item_id = item_id;
            count = count;
            stackable = item.stackable;
            max_stack = item.max_stack;
          })
          type (lookup type m) m results

unfoldable pub add_item :
    Items → ℤ → ℤ → Inventories → List AddItemResult → Bool × Inventories × List AddItemResult
add_item items item_id count m results =
    if leb_ℤ item_id (pos 0) || leb_ℤ count (pos 0)
    then (false, m, results)
    else add_found item_id count (lookup item_id items) m results

-- `GetInventory`
unfoldable get_inventory : ℤ → Inventories → Option Inventory
get_inventory type m = lookup type m

-- `FindSlot`
unfoldable pub find_slot : ℤ → ℤ → Inventories → Option InventorySlot
find_slot type slot_pos m = elim (lookup type m) [
  | none ↦ none
  | some inv ↦ Inventory.find_slot slot_pos inv
]

-- `HasItemBySlot`
unfoldable pub has_item_by_slot : ℤ → ℤ → ℤ → ℤ → Inventories → Bool
has_item_by_slot type slot_pos item_id count m = elim (lookup type m) [
  | none ↦ false
  | some inv ↦ Inventory.has_item_by_slot slot_pos item_id count inv
]

-- `RemoveItemBySlot`
abbrev remove_from : ℤ → ℤ → ℤ → ℤ → Option Inventory → Inventories → Bool × Inventories
remove_from type slot_pos item_id count none m = (false, m)
remove_from type slot_pos item_id count (some inv) m =
    let (ok, inv') = Inventory.remove_item_by_slot slot_pos item_id count inv in
    (ok, insert type inv' m)

unfoldable pub remove_item_by_slot : ℤ → ℤ → ℤ → ℤ → Inventories → Bool × Inventories
remove_item_by_slot type slot_pos item_id count m =
    if leb_ℤ count (pos 0)
    then (false, m)
    else remove_from type slot_pos item_id count (lookup type m) m

-- `GetItemCount`
unfoldable pub get_item_count : ℤ → ℤ → ℤ → Inventories → ℤ
get_item_count type slot_pos item_id m = elim (lookup type m) [
  | none ↦ pos 0
  | some inv ↦ Inventory.get_item_count slot_pos item_id inv
]

-- `GetSlotSnapshot`; `none` is `false`, where `outSlot` is left empty.
abbrev pub snapshot : Option InventorySlot → Option InventorySlot
snapshot none = none
snapshot (some slot) =
    if not slot.is_enable
    then none
    else if leb_ℤ slot.item_id (pos 0) || leb_ℤ slot.item_count (pos 0)
    then none
    else some slot

pub get_slot_snapshot : ℤ → ℤ → Inventories → Option InventorySlot
get_slot_snapshot type slot_pos m = elim (lookup type m) [
  | none ↦ none
  | some inv ↦ snapshot (Inventory.find_slot slot_pos inv)
]

-- `GetAllMetaInfos`, `GetAllItemInfos` and `MakeSaveInventoryData`, in the order of the dictionary.
abbrev pub meta_info : Inventory → InventoryMetaInfo
meta_info inv = record {
  inventory_type = inv.inventory_type;
  max_slots = inv.max_slot;
  current_slots_size = inv.current_slot_size;
}

get_all_meta_infos : Inventories → List InventoryMetaInfo
get_all_meta_infos [] = []
get_all_meta_infos ((type, inv) ∷ m) = meta_info inv ∷ get_all_meta_infos m

get_all_item_infos : Inventories → List InventoryItemInfo
get_all_item_infos [] = []
get_all_item_infos ((type, inv) ∷ m) = make_item_infos inv ++ get_all_item_infos m

pub record InventorySaveData : Type 0 where
  pub meta_infos : List InventoryMetaInfo
  pub item_infos : List InventoryItemInfo

unfoldable make_save_inventory_data : Inventories → InventorySaveData
unfolding get_all_meta_infos get_all_item_infos
make_save_inventory_data m = record {
  meta_infos = get_all_meta_infos m;
  item_infos = get_all_item_infos m;
}

-- `Clear`
unfoldable clear : Inventories → Inventories
clear m = []
