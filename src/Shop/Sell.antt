-- ===== src/Shop/Sell.antt =====
-- A sale as a whole, for `ShopService::Sell` of ShopService.cpp.
use ll2games_rpg_server.Common.{
  ℕ, ◌≡◌, refl, sym, ap, subst, ◌∙◌, false≢true, Bool, true, ◌||◌, not, Option, none, some, List,
  arith, if_cases, not-false, codes,
}
use ll2games_rpg_server.Common.Int.{ℤ, pos, ◌<ℤ◌, ◌≤ℤ◌, ltb_ℤ, leb_ℤ, eqb_ℤ}
use ll2games_rpg_server.Common.Keys.{lookup, ℤ_eq}
use ll2games_rpg_server.Inventory.{InventorySlot}
use ll2games_rpg_server.InventoryManager.{
  remove_item_by_slot, Inventories, ItemInitData, convert_item_type_to_inventory_type,
  get_slot_snapshot,
}
use ll2games_rpg_server.InventoryManager.Holdings.{
  remove_item_by_slot-held, remove_item_by_slot-get_slot_snapshot,
}
use ll2games_rpg_server.Player.{Player, Vec2, try_add_gold}
use ll2games_rpg_server.Player.Gold.{IsFunded, try_add_gold-IsFunded, try_add_gold-inventories}
use ll2games_rpg_server.Npc.{Answer, failed, answered, NpcInteractionResult, interact}
use ll2games_rpg_server.Shop.{
  sold, ShopDefinition, ShopSellResult, ShopService, max_unit_price, credit_and_remove, sell_item,
  sell_slot, sell_shop, sell_at, sell, is_map,
}
use ll2games_rpg_server.Shop.Exchange.{
  IsHeldMore, IsTotal, IsUntouched, IsPaidOut, IsSold, mul-IsTotal, unpaid,
}

-- `RemoveItemBySlot` of a sale takes items that are there.
abbrev IsThere : ℤ → ℤ → ShopSellResult → Inventories → Type 0
IsThere type k r m = (remove_item_by_slot type k r.item_id r.count m).0 ≡ true

-- `IsSold` of the gold, the item and the count that the rest of `Sell` is given.
abbrev IsPaid : ShopSellResult → Player → Answer ShopSellResult → Player → Type 0
IsPaid result p (failed e) p' = IsUntouched p p'
IsPaid result p (answered r) p' = IsPaidOut result.total_price result.item_id result.count p r p'

credit_and_remove-IsPaid :
    (type k : ℤ) (result : ShopSellResult) (p : Player)
    → IsFunded p
    → IsTotal result.total_price
    → IsThere type k result p.inventories
    → let (answer, p') = credit_and_remove type k result p in
      IsFunded p' × IsPaid result p answer p'
unfolding credit_and_remove
credit_and_remove-IsPaid type k result p funded (real, small) there =
    let total = result.total_price in
    let rich = (try_add_gold total p).1 in
    let added = try_add_gold-IsFunded total p funded in
    let before = try_add_gold-inventories total p in
    if_cases IsRight (not (try_add_gold total p).0)
      (λ e. (added.0, (ap (λ (q : Player). q.gold) (added.3 (unpaid _ e)), before)))
      λ paid.
        let taken = remove_item_by_slot type k result.item_id result.count rich.inventories in
        let ok : taken.0 ≡ true = subst (IsThere type k result) (sym before) there in
        let holds =
          (remove_item_by_slot-held type k result.item_id result.count rich.inventories).1 ok in
        if_cases IsRight (not taken.0) (λ e. absurd (false≢true (sym (unpaid _ e) ∙ ok)))
          λ done. (
            added.0,
            (
              (real, small),
              added.2 (not-false paid),
              refl,
              refl,
              refl,
              refl,
              subst (λ (m : Inventories). IsHeldMore result.item_id result.count taken.1 m) before
                  (sym holds.0, λ other ne nz. sym (holds.1 other ne)),
            ),
          )
  where
    IsRight : Answer ShopSellResult × Player → Type 0
    IsRight r = IsFunded r.1 × IsPaid result p r.0 r.1

-- `Sell` is all or nothing, for a player whose balance is in range and whatever the tables hold. Where
-- it fails the player has the same gold and the same inventories as before; where it succeeds the
-- slot held an item of the table and at least the count to sell, the player got exactly the sell price
-- of that item times the count, which is positive and did not overflow, and holds exactly that count
-- less of the item of the slot and as much of every other item as before, and the result
-- reports the balance, the item, the count and the price. The balance stays in range. (Id 0 marks an
-- empty slot and is no item.)
pub sell-IsSold :
    (out_of_range : Vec2 → Vec2 → ℕ → Bool) (service : Option ShopService)
    (map_id spawn_id type slot_pos count : ℤ) (p : Player)
    → IsFunded p
    → let (answer, p') = sell out_of_range service map_id spawn_id type slot_pos count p in
      IsFunded p' × IsSold service type slot_pos count p answer p'
unfolding sell
sell-IsSold out_of_range none map_id spawn_id type slot_pos count p funded = (funded, (refl, refl))
sell-IsSold out_of_range (some service) map_id spawn_id type slot_pos count p funded =
    if_cases IsRight (not (is_map map_id p.current_map)) (λ e. same (codes "map mismatch"))
      λ here.
        if_cases IsRight (ltb_ℤ slot_pos (pos 0) || leb_ℤ count (pos 0))
          (λ e. same (codes "invalid sale request"))
          λ valid. at_npc (ground arith) (interact out_of_range service.npcs p spawn_id)
  where
    IsRight : Answer ShopSellResult × Player → Type 0
    IsRight r = IsFunded r.1 × IsSold (some service) type slot_pos count p r.0 r.1

    same : (e : List ℕ) → IsRight (failed e, p)
    same e = (funded, (refl, refl))

    by_answer :
        (shop : ShopDefinition) (slot : InventorySlot) (def : ItemInitData)
        → get_slot_snapshot type slot_pos p.inventories ≡ some slot
        → lookup slot.item_id service.items ≡ some def
        → count ≤ℤ slot.item_count
        → (r : Answer ShopSellResult × Player)
        → IsFunded r.1 × IsPaid (sold map_id spawn_id shop type slot_pos count slot def) p r.0 r.1
        → IsRight r
    by_answer shop slot def found known enough (failed e, p') paid = paid
    by_answer shop slot def found known enough (answered r, p') (kept, paid) =
        (kept, (slot, def, found, known, enough, paid))

    item :
        pos 0 <ℤ count
        → (shop : ShopDefinition) (slot : InventorySlot) (o : Option ItemInitData)
        → get_slot_snapshot type slot_pos p.inventories ≡ some slot
        → lookup slot.item_id service.items ≡ o
        → count ≤ℤ slot.item_count
        → (remove_item_by_slot type slot_pos slot.item_id count p.inventories).0 ≡ true
        → IsRight (sell_item map_id spawn_id shop type slot_pos count slot o p)
    item positive shop slot none found known enough there = same (codes "invalid item definition")
    item positive shop slot (some def) found known enough there =
        if_cases IsRight (not (eqb_ℤ (convert_item_type_to_inventory_type def.type) type))
          (λ e. same (codes "invalid item definition"))
          λ own.
            if_cases IsRight (leb_ℤ def.sell_price (pos 0))
              (λ e. same (codes "item cannot be sold"))
              λ priced.
                if_cases IsRight (ltb_ℤ (max_unit_price count) def.sell_price)
                  (λ e. same (codes "invalid total sale price"))
                  λ fits.
                    by_answer shop slot def found known enough
                      (credit_and_remove type slot_pos
                        (sold map_id spawn_id shop type slot_pos count slot def) p)
                      (credit_and_remove-IsPaid type slot_pos
                        (sold map_id spawn_id shop type slot_pos count slot def) p funded
                        (mul-IsTotal def.sell_price count (ground arith) positive (ground arith))
                        there)

    in_slot :
        pos 0 <ℤ count
        → (shop : ShopDefinition) (o : Option InventorySlot)
        → get_slot_snapshot type slot_pos p.inventories ≡ o
        → IsRight (sell_slot service.items map_id spawn_id shop type slot_pos count o p)
    in_slot positive shop none found = same (codes "inventory item not found")
    in_slot positive shop (some slot) found =
        if_cases IsRight (ltb_ℤ slot.item_count count) (λ e. same (codes "not enough items"))
          λ enough.
            item positive shop slot (lookup slot.item_id service.items) found refl (ground arith) (
              remove_item_by_slot-get_slot_snapshot type slot_pos count slot p.inventories found
                positive (ground arith))

    in_shop :
        pos 0 <ℤ count
        → (o : Option ShopDefinition)
        → IsRight (sell_shop service.items map_id spawn_id type slot_pos count o p)
    in_shop positive none = same (codes "shop does not accept sales")
    in_shop positive (some shop) =
        if_cases IsRight (not shop.allow_sell) (λ e. same (codes "shop does not accept sales"))
          λ open_shop. in_slot positive shop (get_slot_snapshot type slot_pos p.inventories) refl

    at_npc :
        pos 0 <ℤ count
        → (a : Answer NpcInteractionResult)
        → IsRight (sell_at service map_id spawn_id type slot_pos count a p)
    at_npc positive (failed e) = same e
    at_npc positive (answered npc) =
        if_cases IsRight (leb_ℤ npc.shop_id (pos 0)) (λ e. same (codes "npc has no shop"))
          λ real. in_shop positive (lookup npc.shop_id service.shops)
