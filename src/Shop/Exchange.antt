-- ===== src/Shop/Exchange.antt =====
-- What a purchase and a sale of ShopService.cpp promise, and the total that both compute.
use ll2games_rpg_server.Common.{
  ℕ, zero, suc, ◌*◌, ◌≡◌, ◌≢◌, Bool, true, false, not, arith, Option, none, some,
}
use ll2games_rpg_server.Common.Int.{ℤ, pos, negsuc, ◌+ℤ◌, ◌-ℤ◌, ◌*ℤ◌, ◌≤ℤ◌, ◌<ℤ◌}
use ll2games_rpg_server.Common.Keys.{ℤ_eq, lookup}
use ll2games_rpg_server.InventoryManager.{Inventories, ItemInitData, get_slot_snapshot}
use ll2games_rpg_server.InventoryManager.Holdings.{held}
use ll2games_rpg_server.Inventory.{InventorySlot}
use ll2games_rpg_server.Player.{Player, max_int64}
use ll2games_rpg_server.Npc.{Answer, failed, answered}
use ll2games_rpg_server.Shop.{
  ShopProduct, ShopDefinition, ShopBuyResult, ShopSellResult, ShopService, find_product,
  max_unit_price,
}
use native.Mathlib.Nat.{le-div_iff_mul-le}

-- The player is as before, but for the save version.
abbrev pub IsUntouched : Player → Player → Type 0
IsUntouched p p' = (p'.gold ≡ p.gold) × (p'.inventories ≡ p.inventories)

-- Of item `id` there is `count` more in `m'` than in `m`, and as much of every other item.
abbrev pub IsHeldMore : ℤ → ℤ → Inventories → Inventories → Type 0
IsHeldMore id count m m' =
    (held id m' ≡ held id m +ℤ count)
    × ((other : ℤ) → other ≢ id → other ≢ pos 0 → held other m' ≡ held other m)

-- A total that is positive and fits 64 bits
abbrev pub IsTotal : ℤ → Type 0
IsTotal total = (pos 0 <ℤ total) × (total ≤ℤ pos max_int64)

-- The balance, the inventories and the report after a purchase of `count` of item `item_id` for `total`
abbrev pub IsPaidFor : ℤ → ℤ → ℤ → Player → ShopBuyResult → Player → Type 0
IsPaidFor total item_id count p r p' =
    IsTotal total
    × (p'.gold ≡ p.gold -ℤ total)
    × (r.gold ≡ p'.gold)
    × (r.item_id ≡ item_id)
    × (r.count ≡ count)
    × (r.total_price ≡ total)
    × IsHeldMore item_id count p.inventories p'.inventories

-- A purchase of `count` of the product `product_id` of a shop of the service takes the price of that
-- many and gives that many of the product's item, or does neither.
abbrev pub IsBought : Option ShopService → ℤ → ℤ → Player → Answer ShopBuyResult → Player → Type 0
IsBought service product_id count p (failed e) p' = IsUntouched p p'
IsBought none product_id count p (answered r) p' = ⊥
IsBought (some service) product_id count p (answered r) p' =
    (shop_id : ℤ) × (shop : ShopDefinition) × (product : ShopProduct) × (lookup shop_id
        service.shops
      ≡ some shop)
    × (find_product product_id shop.products ≡ some product)
    × IsPaidFor (product.price *ℤ count) product.item_id count p r p'

-- The balance, the inventories and the report after a sale of `count` of item `item_id` for `total`
abbrev pub IsPaidOut : ℤ → ℤ → ℤ → Player → ShopSellResult → Player → Type 0
IsPaidOut total item_id count p r p' =
    IsTotal total
    × (p'.gold ≡ p.gold +ℤ total)
    × (r.gold ≡ p'.gold)
    × (r.item_id ≡ item_id)
    × (r.count ≡ count)
    × (r.total_price ≡ total)
    × IsHeldMore item_id count p'.inventories p.inventories

-- A sale of `count` out of a slot takes that many of the item that lies in the slot and gives the sell
-- price of that many, or does neither.
abbrev pub IsSold :
    Option ShopService → ℤ → ℤ → ℤ → Player → Answer ShopSellResult → Player → Type 0
IsSold service type slot_pos count p (failed e) p' = IsUntouched p p'
IsSold none type slot_pos count p (answered r) p' = ⊥
IsSold (some service) type slot_pos count p (answered r) p' =
    (slot : InventorySlot) × (item : ItemInitData) × (get_slot_snapshot type slot_pos p.inventories
      ≡ some slot)
    × (lookup slot.item_id service.items ≡ some item)
    × (count ≤ℤ slot.item_count)
    × IsPaidOut (item.sell_price *ℤ count) slot.item_id count p r p'

mul_pos : (a b : ℕ) → pos a *ℤ pos b ≡ pos (a * b)
unfolding ◌*ℤ◌
mul_pos a b = ground arith

-- `price > max / count` is the exact test for an overflow of `price * count`.
pub mul-IsTotal :
    (price count : ℤ)
    → pos 0 <ℤ price
    → pos 0 <ℤ count
    → price ≤ℤ max_unit_price count
    → IsTotal (price *ℤ count)
mul-IsTotal (pos (suc p)) (pos (suc c)) hp hc fits =
    let within =
      (le-div_iff_mul-le {k = suc c} {x = suc p} {y = max_int64} (ground arith)).0 (ground arith) in
    rw (mul_pos (suc p) (suc c)) (ground arith, ground (arith, within))
mul-IsTotal (pos (suc p)) (pos zero) hp hc fits = absurd (ground arith)
mul-IsTotal (pos (suc p)) (negsuc c) hp hc fits = absurd (ground arith)
mul-IsTotal (pos zero) c hp hc fits = absurd (ground arith)
mul-IsTotal (negsuc p) c hp hc fits = absurd (ground arith)

pub unpaid : (b : Bool) → not b ≡ true → b ≡ false
unpaid b e = ground arith
