-- ===== src/Inventory/Limit.antt =====
-- `AddItem` of Inventory.cpp and the sizes of stacks.
use ll2games_rpg_server.Common.{
  ℕ, ◌≡◌, refl, Bool, true, false, not, Option, none, some, List, arith, if◌then◌else◌, if_cases,
  not-false,
}
use ll2games_rpg_server.Common.Int.{
  ℤ, pos, ◌-ℤ◌, ◌≤ℤ◌, ◌<ℤ◌, leb_ℤ, eqb_ℤ, eqb_ℤ_iff, min_ℤ, min-le_left, le-min, pos_part, int_laws,
  parts,
}
use ll2games_rpg_server.Common.Keys.{lookup, ℤ_eq}
use ll2games_rpg_server.Inventory.{
  InventorySlot, Inventory, AddItemData, AddItemResult, Filling, give, finished, stack_slot,
  stack_found, fill_empty_slot, empty_found, stack_loop, after_stacks, add_item_loops, add_item,
}
use ll2games_rpg_server.Inventory.Amount.{AllSlots, AllSlots-insert, AllSlots-lookup}
use ll2games_rpg_server.Inventory.Add.{each_slot_inv}

-- How many of the item one slot may hold.
abbrev pub limit : AddItemData → ℤ
limit d = if d.stackable then d.max_stack else pos 1

-- A slot with the item holds at least one of it and no more than the limit.
abbrev pub IsWithin : AddItemData → InventorySlot → Type 0
IsWithin d slot =
    slot.item_id ≡ d.item_id → (pos 1 ≤ℤ slot.item_count) × (slot.item_count ≤ℤ limit d)

module _ (d : AddItemData) (room : pos 1 ≤ℤ limit d) where
  Keeps : Bool × Filling → Type 0
  Keeps r = (r.0 ≡ false → pos 0 <ℤ r.1.remain) × AllSlots (IsWithin d) r.1.slots

  give-Keeps :
      (p : ℕ) (slot : InventorySlot) (new_count add_count : ℤ) (f : Filling)
      → AllSlots (IsWithin d) f.slots
      → pos 1 ≤ℤ new_count
      → new_count ≤ℤ limit d
      → Keeps (finished (give d.item_id p slot new_count add_count f))
  unfolding Keeps
  give-Keeps p slot new_count add_count f all low high = (
    λ e. ground arith,
    AllSlots-insert (IsWithin d) (pos p)
        (record slot { item_id = d.item_id; item_count = new_count }) f.slots all
        (λ e. (low, high)),
  )

  stack_slot-Keeps :
      (p : ℕ) (f : Filling) → d.stackable ≡ true → Keeps (false, f) → Keeps (stack_slot d p f)
  unfolding Keeps stack_slot
  stack_slot-Keeps p f stacks k = split (lookup (pos p) f.slots) refl
    where
      split : (o : Option InventorySlot) → lookup (pos p) f.slots ≡ o → Keeps (stack_found d p o f)
      split none found = k
      split (some slot) found =
          if_cases Keeps (not slot.is_enable) (λ e. k)
            λ e.
              if_cases Keeps (not (eqb_ℤ slot.item_id d.item_id)) (λ e. k)
                λ same.
                  if_cases Keeps (leb_ℤ d.max_stack slot.item_count) (λ e. k)
                    λ less.
                      let within =
                        AllSlots-lookup (IsWithin d) (pos p) slot f.slots k.1 found
                          ((eqb_ℤ_iff _ _).0 (not-false same)) in
                      let under : slot.item_count <ℤ d.max_stack = ground arith in
                      let left : pos 0 <ℤ f.remain = k.0 refl in
                      let space = d.max_stack -ℤ slot.item_count in
                      let some_fits : pos 0 ≤ℤ min_ℤ space f.remain =
                        le-min space f.remain (pos 0) (omega int_laws) (omega (arith, left)) in
                      let no_more = min-le_left space f.remain in
                      let most : limit d ≡ d.max_stack = rw stacks in
                      give-Keeps p slot _ _ f k.1 (omega (int_laws, within.0, some_fits))
                        (omega (int_laws, no_more, parts most))

  fill_empty_slot-Keeps : (p : ℕ) (f : Filling) → Keeps (false, f) → Keeps (fill_empty_slot d p f)
  unfolding Keeps fill_empty_slot
  fill_empty_slot-Keeps p f k = split (lookup (pos p) f.slots) refl
    where
      split : (o : Option InventorySlot) → lookup (pos p) f.slots ≡ o → Keeps (empty_found d p o f)
      split none found = k
      split (some slot) found =
          if_cases Keeps (not slot.is_enable) (λ e. k)
            λ e.
              if_cases Keeps (not (eqb_ℤ slot.item_id (pos 0))) (λ e. k)
                λ empty.
                  give-Keeps p slot _ _ f k.1
                    (if_cases (λ c. pos 1 ≤ℤ c) d.stackable
                      (λ e.
                        le-min d.max_stack f.remain (pos 1) (rw e at room)
                          (omega (arith, k.0 refl)))
                      (λ e. omega arith))
                    (if_cases (λ c. c ≤ℤ limit d) d.stackable
                      (λ e. rw e (min-le_left d.max_stack f.remain)) (λ e. rw e (omega arith)))

  stack_loop-Keeps : (n : ℕ) (f : Filling) → Keeps (false, f) → Keeps (stack_loop d n f)
  unfolding stack_loop
  stack_loop-Keeps n f k =
      if_cases Keeps d.stackable
        (λ e. each_slot_inv Keeps (stack_slot d) (λ p g h. stack_slot-Keeps p g e h) n 0 f k)
        (λ e. k)

  after_stacks-Keeps : (n : ℕ) (r : Bool × Filling) → Keeps r → Keeps (after_stacks d n r)
  unfolding after_stacks
  after_stacks-Keeps n (true, f) k = k
  after_stacks-Keeps n (false, f) k =
      each_slot_inv Keeps (fill_empty_slot d) fill_empty_slot-Keeps n 0 f k

-- `AddItem` never overfills: if an item may be held at all, every slot with the item holds between
-- one and `max_stack` of it (exactly one, where it does not stack) after the call, whether it
-- succeeds or fails, provided the slots did so before.
pub add_item-IsWithin :
    (d : AddItemData) (inv : Inventory) (results : List AddItemResult)
    → pos 1 ≤ℤ limit d
    → AllSlots (IsWithin d) inv.slots
    → AllSlots (IsWithin d) (add_item d inv results).1.slots
unfolding add_item add_item_loops Keeps
add_item-IsWithin d inv results room all =
    if_cases (λ (r : Bool × Inventory × List AddItemResult). AllSlots (IsWithin d) r.1.slots)
      (leb_ℤ d.count (pos 0)) (λ e. all)
      λ some_count.
        let start : Filling = record { slots = inv.slots; remain = d.count; results = results } in
        let n = pos_part inv.max_slot in
        (after_stacks-Keeps d room n (stack_loop d n start)
          (stack_loop-Keeps d room n start (λ e. ground arith, all))).1
