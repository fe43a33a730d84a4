-- ===== src/InventoryManager/Holdings.antt =====
-- What a player holds over all inventories of InventoryManager.cpp, and how the operations change it.
use ll2games_rpg_server.Common.{
  ◌≡◌, refl, sym, ap, subst, ◌∙◌, ◌≢◌, false≢true, Bool, true, false, ◌&&◌, ◌||◌, not, Option, none,
  some, List, [], arith, if_cases, not-false,
}
use ll2games_rpg_server.Common.Int.{ℤ, pos, ◌+ℤ◌, leb_ℤ, eqb_ℤ, int_laws, parts, ◌<ℤ◌, ◌≤ℤ◌, ltb_ℤ}
use ll2games_rpg_server.Common.Keys.{lookup, ℤ_eq}
use ll2games_rpg_server.Common.Sums.{sum_over, sum_over-insert}
use ll2games_rpg_server.Inventory
use ll2games_rpg_server.Inventory.{
  Inventory, InventorySlot, AddItemData, AddItemResult, remove_found,
}
use ll2games_rpg_server.Inventory.Amount.{amount}
use ll2games_rpg_server.Inventory.Add.{add_item-amount}
use ll2games_rpg_server.Inventory.Slots.{remove_item_by_slot-has, remove_item_by_slot-amount}
use ll2games_rpg_server.InventoryManager.{
  has_item_by_slot, Items, ItemInitData, Inventories, add_item, add_found, add_candidate,
  remove_item_by_slot, remove_from, convert_item_type_to_inventory_type, invalid_type,
  get_slot_snapshot, snapshot,
}

-- How much of an item all inventories hold.
abbrev pub held : ℤ → Inventories → ℤ
held id = sum_over (λ inv. amount id inv.slots)

-- `AddItem` is all or nothing: where it returns false the inventories and the results are as they
-- were; where it returns true exactly `count` more of the item is held, and as much of every other
-- item as before.
-- (Id 0 marks an empty slot and is no item.)
pub add_item-held :
    (items : Items) (id count : ℤ) (m : Inventories) (results : List AddItemResult)
    → let (ok, m', results') = add_item items id count m results in
      (ok ≡ false → (m' ≡ m) × (results' ≡ results))
      × (ok ≡ true
          → (held id m' ≡ held id m +ℤ count)
            × ((other : ℤ) → other ≢ id → other ≢ pos 0 → held other m' ≡ held other m))
unfolding add_item
add_item-held items id count m results =
    if_cases IsAtomic (leb_ℤ id (pos 0) || leb_ℤ count (pos 0)) (λ e. same)
      (λ valid. found valid (lookup id items))
  where
    IsAtomic : Bool × Inventories × List AddItemResult → Type 0
    IsAtomic r =
        (r.0 ≡ false → (r.1 ≡ m) × (r.2 ≡ results))
        × (r.0 ≡ true
            → (held id r.1 ≡ held id m +ℤ count)
              × ((other : ℤ) → other ≢ id → other ≢ pos 0 → held other r.1 ≡ held other m))

    same : IsAtomic (false, m, results)
    same = (λ e. (refl, refl), λ e. absurd (false≢true e))

    positive : (leb_ℤ id (pos 0) || leb_ℤ count (pos 0)) ≡ false → id ≢ pos 0
    positive e z = absurd (ground arith)

    added :
        (d : AddItemData) (type : ℤ) (o : Option Inventory)
        → d.item_id ≡ id
        → d.count ≡ count
        → id ≢ pos 0
        → lookup type m ≡ o
        → IsAtomic (add_candidate d type o m results)
    added d type none same_id same_count real e = same
    added d type (some inv) same_id same_count real e =
        if_cases IsAtomic (not (Inventory.add_item d inv []).0) (λ failed. same)
          λ done.
            let after = (Inventory.add_item d inv []).1 in
            let changed = add_item-amount d inv [] (λ z. real (sym same_id ∙ z)) (not-false done) in
            let one : amount id after.slots ≡ amount id inv.slots +ℤ count =
              subst (λ i. amount i after.slots ≡ amount i inv.slots +ℤ count) same_id
                (subst (λ n. amount d.item_id after.slots ≡ amount d.item_id inv.slots +ℤ n)
                  same_count changed.0) in
            let put =
              λ (i : ℤ). sum_over-insert (λ (v : Inventory). amount i v.slots) type inv after m e in
            (
              λ h. absurd (false≢true (sym h)),
              λ h. (
                omega (int_laws, parts (put id), parts one),
                λ other ne nz. omega (
                  int_laws,
                  parts (put other),
                  parts (changed.1 other (λ q. ne (q ∙ same_id)) nz),
                ),
              ),
            )

    found :
        (leb_ℤ id (pos 0) || leb_ℤ count (pos 0)) ≡ false
        → (o : Option ItemInitData) → IsAtomic (add_found id count o m results)
    found valid none = same
    found valid (some item) =
        if_cases IsAtomic (item.stackable && leb_ℤ item.max_stack (pos 0)) (λ e. same)
          λ e.
            if_cases IsAtomic (eqb_ℤ (convert_item_type_to_inventory_type item.type) invalid_type)
              (λ e. same)
              λ e.
                let type = convert_item_type_to_inventory_type item.type in
                added
                  (record {
                    item_id = id;
                    count = count;
                    stackable = item.stackable;
                    max_stack = item.max_stack;
                  })
                  type (lookup type m) refl refl (positive valid) refl

-- `RemoveItemBySlot` that returns true takes exactly `count` of the item from what is held and leaves
-- every other item alone; one that returns false leaves what is held of every item as it was.
pub remove_item_by_slot-held :
    (type k id count : ℤ) (m : Inventories)
    → let (ok, m') = remove_item_by_slot type k id count m in
      (ok ≡ false → (other : ℤ) → held other m' ≡ held other m)
      × (ok ≡ true
          → (held id m' +ℤ count ≡ held id m)
            × ((other : ℤ) → other ≢ id → held other m' ≡ held other m))
unfolding remove_item_by_slot
remove_item_by_slot-held type k id count m =
    if_cases IsTaken (leb_ℤ count (pos 0)) (λ e. same) (λ e. split (lookup type m) refl)
  where
    IsTaken : Bool × Inventories → Type 0
    IsTaken r =
        (r.0 ≡ false → (other : ℤ) → held other r.1 ≡ held other m)
        × (r.0 ≡ true
            → (held id r.1 +ℤ count ≡ held id m)
              × ((other : ℤ) → other ≢ id → held other r.1 ≡ held other m))

    same : IsTaken (false, m)
    same = (λ e other. refl, λ e. absurd (false≢true e))

    split : (o : Option Inventory) → lookup type m ≡ o → IsTaken (remove_from type k id count o m)
    split none e = same
    split (some inv) e =
        let after = (Inventory.remove_item_by_slot k id count inv).1 in
        let put =
          λ (i : ℤ). sum_over-insert (λ (v : Inventory). amount i v.slots) type inv after m e in
        let has = remove_item_by_slot-has k id count inv in
        (
          λ failed other.
              let kept : amount other after.slots ≡ amount other inv.slots =
                ap (λ (v : Inventory). amount other v.slots) (has.1 (sym has.0 ∙ failed)) in
              omega (int_laws, parts (put other), parts kept),
          λ ok.
              let took = remove_item_by_slot-amount k id count inv ok in
              (
                omega (int_laws, parts (put id), parts took.0),
                λ other ne. omega (int_laws, parts (put other), parts (took.1 other ne)),
              ),
        )

snapshot_same : (s slot : InventorySlot) → snapshot (some s) ≡ some slot → s ≡ slot
snapshot_same s slot e = ground arith

-- A slot that `GetSlotSnapshot` answers with holds its items: taking up to its count of its item out
-- of it succeeds.
pub remove_item_by_slot-get_slot_snapshot :
    (type k count : ℤ) (slot : InventorySlot) (m : Inventories)
    → get_slot_snapshot type k m ≡ some slot
    → pos 0 <ℤ count
    → count ≤ℤ slot.item_count
    → (remove_item_by_slot type k slot.item_id count m).0 ≡ true
unfolding get_slot_snapshot remove_item_by_slot Inventory.find_slot Inventory.remove_item_by_slot
remove_item_by_slot-get_slot_snapshot type k count slot m found positive enough =
    if_cases (λ (r : Bool × Inventories). r.0 ≡ true) (leb_ℤ count (pos 0))
      (λ e. absurd (ground arith)) (λ e. split (lookup type m) found)
  where
    split :
        (o : Option Inventory)
        → elim o [ none ↦ none | some inv ↦ snapshot (Inventory.find_slot k inv) ] ≡ some slot
        → (remove_from type k slot.item_id count o m).0 ≡ true
    split none e = ground arith
    split (some inv) e = takes (lookup k inv.slots) e
      where
        takes :
            (o : Option InventorySlot)
            → snapshot o ≡ some slot
            → (remove_found k slot.item_id count o inv).0 ≡ true
        takes none e = ground arith
        takes (some s) e =
            let Succeeds = λ (r : Bool × Inventory). r.0 ≡ true in
            let same : s ≡ slot = snapshot_same s slot e in
            if_cases Succeeds (not (eqb_ℤ s.item_id slot.item_id))
              (λ q. absurd (ground (arith, ap (λ (v : InventorySlot). v.item_id) same)))
              λ own.
                if_cases Succeeds (ltb_ℤ s.item_count count)
                  (λ q. absurd (ground (arith, ap (λ (v : InventorySlot). v.item_count) same)))
                  λ rest. refl

-- Where `HasItemBySlot` says yes, `RemoveItemBySlot` with the same arguments succeeds.
pub remove_item_by_slot-has_item_by_slot :
    (type k id count : ℤ) (m : Inventories)
    → has_item_by_slot type k id count m ≡ true
    → pos 0 <ℤ count
    → (remove_item_by_slot type k id count m).0 ≡ true
unfolding has_item_by_slot remove_item_by_slot
remove_item_by_slot-has_item_by_slot type k id count m has positive =
    if_cases (λ (r : Bool × Inventories). r.0 ≡ true) (leb_ℤ count (pos 0))
      (λ e. absurd (ground arith)) (λ e. split (lookup type m) has)
  where
    split :
        (o : Option Inventory)
        → elim o [ none ↦ false | some inv ↦ Inventory.has_item_by_slot k id count inv ] ≡ true
        → (remove_from type k id count o m).0 ≡ true
    split none e = e
    split (some inv) e = (remove_item_by_slot-has k id count inv).0 ∙ e
