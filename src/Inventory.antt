-- ===== src/Inventory.antt =====
-- SERVER/src/CHANNEL/domain/Inventory.h and Inventory.cpp, with the data of
-- SERVER/include/COMMON/Inventory_Info.h. A slot reference is a key of the dictionary, and a write
-- through it an `insert` at that key. Log lines are left out.
pub mod Amount
pub mod Add
pub mod Limit
pub mod Slots
mod Tests
use ll2games_rpg_server.Common.{
  ℕ, zero, suc, ◌+◌, ◌-◌, ◌*◌, ◌/◌, ◌%◌, ◌^◌, ◌≤◌, ◌<◌, ◌≡◌, refl, sym, ap, ◌∙◌, ◌≢◌, ◌↔◌, ◌⊎◌, inl,
  inr, Bool, true, false, ◌&&◌, ◌||◌, not, Option, none, some, List, [], ◌∷◌, ◌++◌, map, arith, ltb,
  leb, ◌==◌, if◌then◌else◌, Bool-cases, Option-cases, length, take, drop, length-append,
}
use ll2games_rpg_server.Common.Int.{
  ℤ, pos, negsuc, ◌+ℤ◌, ◌-ℤ◌, ◌*ℤ◌, ◌≤ℤ◌, ◌<ℤ◌, ltb_ℤ, leb_ℤ, eqb_ℤ, eqb_ℤ_iff, min_ℤ, pos_part,
  neg_part, int_laws, +ℤ_parts, -ℤ_parts, eq_of_parts,
}
use ll2games_rpg_server.Common.Keys.{Dict, lookup, insert, erase, ℤ_eq, lookup-insert, lookup-erase}

pub record InventorySlot : Type 0 where
  pub inventory_type : ℤ
  pub slot_pos : ℤ
  pub item_id : ℤ
  pub item_count : ℤ
  pub is_enable : Bool

pub record InventoryMetaInfo : Type 0 where
  pub inventory_type : ℤ
  pub max_slots : ℤ
  pub current_slots_size : ℤ

pub record InventoryItemInfo : Type 0 where
  pub inventory_type : ℤ
  pub slot_pos : ℤ
  pub item_id : ℤ
  pub item_count : ℤ

pub record MoveItem : Type 0 where
  pub inventory_type : ℤ
  pub from_slot_pos : ℤ
  pub to_slot_pos : ℤ

pub record AddItemData : Type 0 where
  pub item_id : ℤ
  pub count : ℤ
  pub stackable : Bool
  pub max_stack : ℤ

pub record InventorySlotUpdate : Type 0 where
  pub slot_pos : ℤ
  pub item_id : ℤ
  pub item_count : ℤ

pub record AddItemResult : Type 0 where
  pub inventory_type : ℤ
  pub slot_pos : ℤ
  pub item_id : ℤ
  pub item_count : ℤ

pub record Inventory : Type 0 where
  pub slots : Dict ℤ InventorySlot
  pub inventory_type : ℤ
  pub max_slot : ℤ
  pub current_slot_size : ℤ

abbrev pub empty_slot : ℤ → ℕ → InventorySlot
empty_slot type i = record {
  inventory_type = type;
  slot_pos = pos i;
  item_id = pos 0;
  item_count = pos 0;
  is_enable = true;
}

-- The loop of the constructor: `emplace` of the positions from `i` on.
pub make_slots : ℤ → ℕ → ℕ → Dict ℤ InventorySlot
make_slots type zero i = []
make_slots type (suc n) i = (pos i, empty_slot type i) ∷ make_slots type n (suc i)

-- `Inventory(InventoryMetaInfo&)`
unfoldable pub make_inventory : InventoryMetaInfo → Inventory
unfolding make_slots
make_inventory meta = record {
  slots = make_slots meta.inventory_type (pos_part meta.max_slots) 0;
  inventory_type = meta.inventory_type;
  max_slot = meta.max_slots;
  current_slot_size = meta.current_slots_size;
}

-- `SetSlotItem`, which loads a row of the database.
unfoldable set_slot_item : ℤ → ℤ → ℤ → Inventory → Bool × Inventory
set_slot_item slot_pos item_id count inv = (
  true,
  record inv {
    slots =
        insert slot_pos
          (record {
            inventory_type = inv.inventory_type;
            slot_pos = slot_pos;
            item_id = item_id;
            item_count = count;
            is_enable = true;
          })
          inv.slots;
  },
)

-- `AddItem`: the slots, `remainCount` and the results during its two loops.
pub record Filling : Type 0 where
  pub slots : Dict ℤ InventorySlot
  pub remain : ℤ
  pub results : List AddItemResult

-- A slot takes an amount: `slot.itemId` (which in the first loop is the item's already) and `slot.itemCount` are written, and the result is pushed.
abbrev pub give : ℤ → ℕ → InventorySlot → ℤ → ℤ → Filling → Filling
give item_id p slot new_count add_count f = record {
  slots = insert (pos p) (record slot { item_id = item_id; item_count = new_count }) f.slots;
  remain = f.remain -ℤ add_count;
  results =
      f.results
      ++ (record {
        inventory_type = slot.inventory_type;
        slot_pos = pos p;
        item_id = item_id;
        item_count = new_count;
      }
          ∷ []);
}

-- One round of a loop at a position: whether `AddItem` returns true there, and the state.
abbrev pub finished : Filling → Bool × Filling
finished f = (leb_ℤ f.remain (pos 0), f)

-- The first loop: slots that hold the item already.
abbrev stack_found : AddItemData → ℕ → Option InventorySlot → Filling → Bool × Filling
stack_found d p none f = (false, f)
stack_found d p (some slot) f =
    if not slot.is_enable
    then (false, f)
    else if not (eqb_ℤ slot.item_id d.item_id)
    then (false, f)
    else if leb_ℤ d.max_stack slot.item_count
    then (false, f)
    else let add_count = min_ℤ (d.max_stack -ℤ slot.item_count) f.remain in
      finished (give d.item_id p slot (slot.item_count +ℤ add_count) add_count f)

pub stack_slot : AddItemData → ℕ → Filling → Bool × Filling
stack_slot d p f = stack_found d p (lookup (pos p) f.slots) f

-- The second loop: empty slots.
abbrev empty_found : AddItemData → ℕ → Option InventorySlot → Filling → Bool × Filling
empty_found d p none f = (false, f)
empty_found d p (some slot) f =
    if not slot.is_enable
    then (false, f)
    else if not (eqb_ℤ slot.item_id (pos 0))
    then (false, f)
    else let add_count = if d.stackable then min_ℤ d.max_stack f.remain else pos 1 in
      finished (give d.item_id p slot add_count add_count f)

pub fill_empty_slot : AddItemData → ℕ → Filling → Bool × Filling
fill_empty_slot d p f = empty_found d p (lookup (pos p) f.slots) f

-- `for (int slotPos = 0; slotPos < m_maxSlot; ++slotPos)`, left early by `return true`.
pub each_slot : (ℕ → Filling → Bool × Filling) → ℕ → ℕ → Filling → Bool × Filling
each_slot round zero p f = (false, f)
each_slot round (suc n) p f =
    let (done, f') = round p f in
    let rest = each_slot round n (suc p) f' in if done then (true, f') else rest

-- The first loop, for a stackable item, and the second where the first did not return.
pub stack_loop : AddItemData → ℕ → Filling → Bool × Filling
unfolding each_slot stack_slot
stack_loop d n f = if d.stackable then each_slot (stack_slot d) n 0 f else (false, f)

pub after_stacks : AddItemData → ℕ → Bool × Filling → Bool × Filling
unfolding each_slot fill_empty_slot
after_stacks d n (true, f) = (true, f)
after_stacks d n (false, f) = each_slot (fill_empty_slot d) n 0 f

pub add_item_loops : AddItemData → ℕ → Filling → Bool × Filling
unfolding stack_loop after_stacks
add_item_loops d n start = after_stacks d n (stack_loop d n start)

-- `AddItem`: the result, the inventory (written also where it fails) and the results.
unfoldable pub add_item :
    AddItemData → Inventory → List AddItemResult → Bool × Inventory × List AddItemResult
unfolding add_item_loops
add_item d inv results =
    if leb_ℤ d.count (pos 0)
    then (false, inv, results)
    else let (done, f) =
        add_item_loops d (pos_part inv.max_slot)
          (record { slots = inv.slots; remain = d.count; results = results }) in
      (done, record inv { slots = f.slots }, f.results)

-- `RemoveItemBySlot`
abbrev pub remove_found : ℤ → ℤ → ℤ → Option InventorySlot → Inventory → Bool × Inventory
remove_found slot_pos item_id count none inv = (false, inv)
remove_found slot_pos item_id count (some slot) inv =
    if not (eqb_ℤ slot.item_id item_id)
    then (false, inv)
    else if ltb_ℤ slot.item_count count
    then (false, inv)
    else let left = slot.item_count -ℤ count in
      (
        true,
        record inv {
          slots =
              insert slot_pos
                (if eqb_ℤ left (pos 0)
                  then record slot { item_id = pos 0; item_count = pos 0 }
                  else record slot { item_count = left })
                inv.slots;
        },
      )

unfoldable pub remove_item_by_slot : ℤ → ℤ → ℤ → Inventory → Bool × Inventory
remove_item_by_slot slot_pos item_id count inv =
    remove_found slot_pos item_id count (lookup slot_pos inv.slots) inv

-- `HasItemBySlot`
unfoldable pub has_item_by_slot : ℤ → ℤ → ℤ → Inventory → Bool
has_item_by_slot slot_pos item_id count inv = elim (lookup slot_pos inv.slots) [
  | none ↦ false
  | some slot ↦
      if not (eqb_ℤ slot.item_id item_id)
      then false
      else if ltb_ℤ slot.item_count count
      then false
      else true
]

-- `FindSlot`
unfoldable pub find_slot : ℤ → Inventory → Option InventorySlot
find_slot slot_pos inv = lookup slot_pos inv.slots

-- `GetItemCount`
unfoldable pub get_item_count : ℤ → ℤ → Inventory → ℤ
get_item_count slot_pos item_id inv = elim (lookup slot_pos inv.slots) [
  | none ↦ pos 0
  | some slot ↦ if not (eqb_ℤ slot.item_id item_id) then pos 0 else slot.item_count
]

-- `MakeItemInfos`
unfoldable pub item_infos : ℤ → Dict ℤ InventorySlot → List InventoryItemInfo
item_infos type [] = []
item_infos type ((k, item) ∷ slots) =
    let rest = item_infos type slots in
    if not item.is_enable
    then rest
    else if eqb_ℤ item.item_id (pos 0) || leb_ℤ item.item_count (pos 0)
    then rest
    else record {
      inventory_type = type;
      slot_pos = item.slot_pos;
      item_id = item.item_id;
      item_count = item.item_count;
    }
      ∷ rest

unfoldable pub make_item_infos : Inventory → List InventoryItemInfo
unfolding item_infos
make_item_infos inv = item_infos inv.inventory_type inv.slots

-- `MoveItemSlot`: the result, the inventory and the updates. The error text is a parameter passed by
-- value, so no caller sees it.
abbrev moved :
    ℤ
    → ℤ
    → Option InventorySlot
    → Option InventorySlot
    → Inventory
    → List InventorySlotUpdate
    → Bool × Inventory × List InventorySlotUpdate
moved from to none to_slot inv updates = (false, inv, updates)
moved from to (some a) none inv updates = (false, inv, updates)
moved from to (some a) (some b) inv updates =
    if eqb_ℤ a.item_id (pos 0) then (false, inv, updates) else (
      true,
      record inv {
        slots =
            insert to (record b { item_id = a.item_id; item_count = a.item_count })
              (insert from (record a { item_id = b.item_id; item_count = b.item_count }) inv.slots);
      },
      updates
          ++ (record { slot_pos = from; item_id = b.item_id; item_count = b.item_count }
              ∷ record { slot_pos = to; item_id = a.item_id; item_count = a.item_count }
              ∷ []),
    )

pub move_item_slot :
    MoveItem → Inventory → List InventorySlotUpdate → Bool × Inventory × List InventorySlotUpdate
unfolding find_slot
move_item_slot m inv updates =
    if eqb_ℤ m.from_slot_pos m.to_slot_pos
    then (false, inv, updates)
    else moved m.from_slot_pos m.to_slot_pos (find_slot m.from_slot_pos inv)
        (find_slot m.to_slot_pos inv) inv updates
