-- ===== src/Shop/Price.antt =====
-- Which product `ShopService::Buy` of ShopService.cpp sells, and for how much.
use ll2games_rpg_server.Common.{
  ℕ, ◌≡◌, refl, subst, Bool, ◌||◌, not, Option, none, some, [], arith, if_cases,
}
use ll2games_rpg_server.Common.Int.{ℤ, pos, ◌*ℤ◌, ◌≤ℤ◌, ltb_ℤ, leb_ℤ}
use ll2games_rpg_server.Common.Keys.{lookup, ℤ_eq, ℕ_eq}
use ll2games_rpg_server.InventoryManager.{add_item}
use ll2games_rpg_server.Player.{Player, Vec2, try_spend_gold}
use ll2games_rpg_server.Npc.{Answer, failed, answered, NpcInteractionResult, interact}
use ll2games_rpg_server.Shop.{
  ShopProduct, ShopDefinition, ShopBuyResult, ShopService, find_product, max_unit_price,
  pay_and_add, bought, buy_product, buy_shop, buy_at, buy, is_map,
}

-- The purchase of `count` pieces of a product of the NPC's shop, at its price and within its limit.
abbrev pub IsOffered : ShopService → NpcInteractionResult → ℤ → ℤ → ShopBuyResult → Type 0
IsOffered service npc product_id count r =
    (shop : ShopDefinition) × (product : ShopProduct) × (lookup npc.shop_id service.shops
      ≡ some shop)
    × (find_product product_id shop.products ≡ some product)
    × (r.item_id ≡ product.item_id)
    × (r.count ≡ count)
    × (count ≤ℤ product.max_per_purchase)
    × (r.total_price ≡ product.price *ℤ count)

-- What a purchase promises on an answer
abbrev Offered : ShopService → ℤ → ℤ → NpcInteractionResult → Answer ShopBuyResult → Type 0
Offered service product_id count npc (failed e) = Unit {0}
Offered service product_id count npc (answered r) = IsOffered service npc product_id count r

pay_and_add-Offered :
    (service : ShopService) (npc : NpcInteractionResult) (product_id count : ℤ) (r : ShopBuyResult)
    (p : Player)
    → IsOffered service npc product_id count r
    → Offered service product_id count npc (pay_and_add service.items r p).0
unfolding pay_and_add
pay_and_add-Offered service npc product_id count r p offered =
    let poor = (try_spend_gold r.total_price p).1 in
    if_cases Holds (not (try_spend_gold r.total_price p).0) (λ e. _)
      λ paid.
        if_cases Holds (not (add_item service.items r.item_id r.count poor.inventories []).0)
          (λ e. _) (λ e. offered)
  where
    Holds : Answer ShopBuyResult × Player → Type 0
    Holds a = Offered service product_id count npc a.0

-- `Buy` only succeeds in the reach of an NPC, and then for a product of that NPC's shop: the result
-- names the product's item and the count asked for, the count is within the product's limit, and the
-- total is the product's price times the count.
pub buy-IsOffered :
    (out_of_range : Vec2 → Vec2 → ℕ → Bool) (service : ShopService)
    (map_id spawn_id product_id count : ℤ) (p : Player) (r : ShopBuyResult)
    → (buy out_of_range (some service) map_id spawn_id product_id count p).0 ≡ answered r
    → (npc : NpcInteractionResult) × (interact out_of_range service.npcs p spawn_id ≡ answered npc)
      × IsOffered service npc product_id count r
unfolding buy
buy-IsOffered out_of_range service map_id spawn_id product_id count p r =
    if_cases Leads (not (is_map map_id p.current_map)) (λ e h. absurd (ground arith))
      λ here.
        if_cases Leads (leb_ℤ product_id (pos 0) || leb_ℤ count (pos 0))
          (λ e h. absurd (ground arith))
          λ valid. at_npc (interact out_of_range service.npcs p spawn_id) refl
  where
    Leads : Answer ShopBuyResult × Player → Type 0
    Leads a =
        a.0 ≡ answered r
        → (npc : NpcInteractionResult) × (interact out_of_range service.npcs p spawn_id
            ≡ answered npc)
          × IsOffered service npc product_id count r

    product :
        (npc : NpcInteractionResult) (shop : ShopDefinition) (o : Option ShopProduct)
        → interact out_of_range service.npcs p spawn_id ≡ answered npc
        → lookup npc.shop_id service.shops ≡ some shop
        → find_product product_id shop.products ≡ o
        → Leads (buy_product service.items map_id spawn_id shop count o p)
    product npc shop none near open_shop found = λ h. absurd (ground arith)
    product npc shop (some item) near open_shop found =
        if_cases Leads (ltb_ℤ item.max_per_purchase count) (λ e h. absurd (ground arith))
          λ few.
            if_cases Leads (leb_ℤ item.price (pos 0) || ltb_ℤ (max_unit_price count) item.price)
              (λ e h. absurd (ground arith))
              λ fits h.
                let made = bought map_id spawn_id shop count item in
                let offered : IsOffered service npc product_id count made =
                  (shop, item, open_shop, found, refl, refl, ground arith, refl) in
                (
                  npc,
                  near,
                  subst (Offered service product_id count npc) h
                      (pay_and_add-Offered service npc product_id count made p offered),
                )

    in_shop :
        (npc : NpcInteractionResult) (o : Option ShopDefinition)
        → interact out_of_range service.npcs p spawn_id ≡ answered npc
        → lookup npc.shop_id service.shops ≡ o
        → Leads (buy_shop service.items map_id spawn_id product_id count o p)
    in_shop npc none near open_shop = λ h. absurd (ground arith)
    in_shop npc (some shop) near open_shop =
        product npc shop (find_product product_id shop.products) near open_shop refl

    at_npc :
        (a : Answer NpcInteractionResult)
        → interact out_of_range service.npcs p spawn_id ≡ a
        → Leads (buy_at service map_id spawn_id product_id count a p)
    at_npc (failed e) near = λ h. absurd (ground arith)
    at_npc (answered npc) near =
        if_cases Leads (leb_ℤ npc.shop_id (pos 0)) (λ e h. absurd (ground arith))
          λ real. in_shop npc (lookup npc.shop_id service.shops) near refl
