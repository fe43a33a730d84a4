-- ===== src/Shop/Buy.antt =====
-- A purchase as a whole, for `ShopService::Buy` of ShopService.cpp.
use ll2games_rpg_server.Common.{
  ℕ, ◌≡◌, refl, ap, subst, ◌∙◌, Bool, ◌||◌, not, Option, none, some, List, [], arith, if_cases,
  not-false, codes,
}
use ll2games_rpg_server.Common.Int.{
  ℤ, pos, ◌+ℤ◌, ◌-ℤ◌, ◌≤ℤ◌, ◌<ℤ◌, ltb_ℤ, leb_ℤ, parts, +ℤ_parts, -ℤ_parts, eq_of_parts,
}
use ll2games_rpg_server.Common.Keys.{lookup, ℤ_eq}
use ll2games_rpg_server.InventoryManager.{add_item, Inventories, Items}
use ll2games_rpg_server.InventoryManager.Holdings.{add_item-held}
use ll2games_rpg_server.Player.{Player, Vec2, max_int64, try_spend_gold}
use ll2games_rpg_server.Player.Gold.{
  IsFunded, try_add_gold-IsFunded, try_spend_gold-IsFunded, try_add_gold-inventories,
  try_spend_gold-inventories,
}
use ll2games_rpg_server.Npc.{Answer, failed, answered, NpcInteractionResult, interact}
use ll2games_rpg_server.Shop.{
  bought, ShopProduct, ShopDefinition, ShopBuyResult, ShopService, find_product, max_unit_price,
  pay_and_add, buy_product, buy_shop, buy_at, buy, is_map,
}
use ll2games_rpg_server.Shop.Exchange.{
  IsHeldMore, IsTotal, IsUntouched, IsPaidFor, IsBought, mul-IsTotal, unpaid,
}

-- `IsBought` of the gold, the item and the count that the rest of `Buy` is given.
abbrev IsPaid : ShopBuyResult → Player → Answer ShopBuyResult → Player → Type 0
IsPaid result p (failed e) p' = IsUntouched p p'
IsPaid result p (answered r) p' = IsPaidFor result.total_price result.item_id result.count p r p'

pay_and_add-IsPaid :
    (items : Items) (result : ShopBuyResult) (p : Player)
    → IsFunded p
    → IsTotal result.total_price
    → let (answer, p') = pay_and_add items result p in IsFunded p' × IsPaid result p answer p'
unfolding pay_and_add
pay_and_add-IsPaid items result p funded (real, small) =
    let total = result.total_price in
    let poor = (try_spend_gold total p).1 in
    let spent = try_spend_gold-IsFunded total p funded in
    let before = try_spend_gold-inventories total p in
    if_cases IsRight (not (try_spend_gold total p).0)
      (λ e.
        let same = spent.3 (unpaid _ e) in (spent.0, (ap (λ (q : Player). q.gold) same, before)))
      λ paid.
        let pays : poor.gold ≡ p.gold -ℤ total = spent.2 (not-false paid) in
        let added = add_item items result.item_id result.count poor.inventories [] in
        let holds = add_item-held items result.item_id result.count poor.inventories [] in
        if_cases IsRight (not added.0)
          (λ e.
            let kept = (holds.0 (unpaid _ e)).0 in
            let served : Player = record poor { inventories = added.1 } in
            let refunded = try_add_gold-IsFunded total served spent.0 in
            let less = -ℤ_parts p.gold total in
            let pay = parts pays in
            let more = +ℤ_parts poor.gold total in
            let (sign, top) = funded in
            let fits : poor.gold +ℤ total ≤ℤ pos max_int64 = ground arith in
            let back = refunded.2 (refunded.1.1 (real, fits)) in
            let whole : poor.gold +ℤ total ≡ p.gold =
              ground (arith, eq_of_parts (poor.gold +ℤ total) p.gold) in
            (refunded.0, (back ∙ whole, try_add_gold-inventories total served ∙ kept ∙ before)))
          λ ok.
            let more = holds.1 (not-false ok) in
            (
              spent.0,
              (
                (real, small),
                pays,
                refl,
                refl,
                refl,
                refl,
                subst (λ (m : Inventories). IsHeldMore result.item_id result.count m added.1) before
                    more,
              ),
            )
  where
    IsRight : Answer ShopBuyResult × Player → Type 0
    IsRight r = IsFunded r.1 × IsPaid result p r.0 r.1

-- `Buy` is all or nothing, for a player whose balance is in range and whatever the tables hold. Where
-- it fails the player has the same gold and the same inventories as before, also where the gold was
-- already taken and the items did not fit; where it succeeds the product asked for stands in a shop
-- of the service, the player paid exactly its price times the count asked for, which is positive and did
-- not overflow, holds exactly that count more of the product's item and as much of every other item as
-- before, and the result reports the balance, the item, the count and the price paid. The balance
-- stays in range. (Id 0 marks an empty slot and is no item.)
pub buy-IsBought :
    (out_of_range : Vec2 → Vec2 → ℕ → Bool) (service : Option ShopService)
    (map_id spawn_id product_id count : ℤ) (p : Player)
    → IsFunded p
    → let (answer, p') = buy out_of_range service map_id spawn_id product_id count p in
      IsFunded p' × IsBought service product_id count p answer p'
unfolding buy
buy-IsBought out_of_range none map_id spawn_id product_id count p funded = (funded, (refl, refl))
buy-IsBought out_of_range (some service) map_id spawn_id product_id count p funded =
    if_cases IsRight (not (is_map map_id p.current_map)) (λ e. same (codes "map mismatch"))
      λ here.
        if_cases IsRight (leb_ℤ product_id (pos 0) || leb_ℤ count (pos 0))
          (λ e. same (codes "invalid purchase request"))
          λ valid. at_npc (ground arith) (interact out_of_range service.npcs p spawn_id)
  where
    IsRight : Answer ShopBuyResult × Player → Type 0
    IsRight r = IsFunded r.1 × IsBought (some service) product_id count p r.0 r.1

    same : (e : List ℕ) → IsRight (failed e, p)
    same e = (funded, (refl, refl))

    by_answer :
        (shop_id : ℤ) (shop : ShopDefinition) (item : ShopProduct)
        → lookup shop_id service.shops ≡ some shop
        → find_product product_id shop.products ≡ some item
        → (r : Answer ShopBuyResult × Player)
        → IsFunded r.1 × IsPaid (bought map_id spawn_id shop count item) p r.0 r.1
        → IsRight r
    by_answer shop_id shop item open_shop found (failed e, p') paid = paid
    by_answer shop_id shop item open_shop found (answered r, p') (kept, paid) =
        (kept, (shop_id, shop, item, open_shop, found, paid))

    product :
        pos 0 <ℤ count
        → (shop_id : ℤ) (shop : ShopDefinition) (o : Option ShopProduct)
        → lookup shop_id service.shops ≡ some shop
        → find_product product_id shop.products ≡ o
        → IsRight (buy_product service.items map_id spawn_id shop count o p)
    product positive shop_id shop none open_shop found = same (codes "product not found")
    product positive shop_id shop (some item) open_shop found =
        if_cases IsRight (ltb_ℤ item.max_per_purchase count)
          (λ e. same (codes "purchase count exceeds limit"))
          λ few.
            if_cases IsRight (leb_ℤ item.price (pos 0) || ltb_ℤ (max_unit_price count) item.price)
              (λ e. same (codes "invalid total price"))
              λ fits.
                by_answer shop_id shop item open_shop found
                  (pay_and_add service.items (bought map_id spawn_id shop count item) p)
                  (pay_and_add-IsPaid service.items (bought map_id spawn_id shop count item) p
                    funded (mul-IsTotal item.price count (ground arith) positive (ground arith)))

    in_shop :
        pos 0 <ℤ count
        → (shop_id : ℤ) (o : Option ShopDefinition) → lookup shop_id service.shops ≡ o
        → IsRight (buy_shop service.items map_id spawn_id product_id count o p)
    in_shop positive shop_id none open_shop = same (codes "shop not found")
    in_shop positive shop_id (some shop) open_shop =
        product positive shop_id shop (find_product product_id shop.products) open_shop refl

    at_npc :
        pos 0 <ℤ count
        → (a : Answer NpcInteractionResult)
        → IsRight (buy_at service map_id spawn_id product_id count a p)
    at_npc positive (failed e) = same e
    at_npc positive (answered npc) =
        if_cases IsRight (leb_ℤ npc.shop_id (pos 0)) (λ e. same (codes "npc has no shop"))
          λ real. in_shop positive npc.shop_id (lookup npc.shop_id service.shops) refl
