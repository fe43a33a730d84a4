-- ===== src/Player/Usage.antt =====
-- Using an item, for `CanUseItem` and `UseItem` of Player.cpp.
use ll2games_rpg_server.Common.{
  ◌≡◌, refl, sym, ap, ◌∙◌, ◌≢◌, false≢true, Bool, true, not, Option, none, some, arith,
  if◌then◌else◌, if_cases,
}
use ll2games_rpg_server.Common.Int.{◌*ℤ◌, ℤ, pos, ◌+ℤ◌, ◌≤ℤ◌, ◌<ℤ◌, ltb_ℤ, leb_ℤ}
use ll2games_rpg_server.Common.Keys.{lookup, ℤ_eq}
use ll2games_rpg_server.InventoryManager.{
  Items, Inventories, ItemInitData, UseEffect, remove_item_by_slot,
}
use ll2games_rpg_server.InventoryManager
use ll2games_rpg_server.InventoryManager.Holdings.{
  held, remove_item_by_slot-held, remove_item_by_slot-has_item_by_slot,
}
use ll2games_rpg_server.Player.{
  Player, mark_save_needed, add_hp, add_mp, apply_effect, use_item, use_found, can_use_item, usable,
}

-- The points do not exceed their maximum.
abbrev pub IsHealthy : Player → Type 0
IsHealthy p = (p.stat.cur_hp ≤ℤ p.stat.derived.max_hp) × (p.stat.cur_mp ≤ℤ p.stat.derived.max_mp)

-- What an effect leaves alone
abbrev IsAside : Player → Player → Type 0
IsAside p p' = (p'.inventories ≡ p.inventories) × (p'.gold ≡ p.gold) × (IsHealthy p → IsHealthy p')

capped : (a top : ℤ) → (if ltb_ℤ top a then top else a) ≤ℤ top
capped a top = ground arith

apply_effect-IsAside :
    (n : ℤ) (effect : Option UseEffect) (p : Player) → IsAside p (apply_effect n effect p)
unfolding add_hp add_mp mark_save_needed
apply_effect-IsAside n none p = (refl, refl, λ h. h)
apply_effect-IsAside n (some effect) p = (
  refl,
  refl,
  λ h. (
    capped (p.stat.cur_hp +ℤ effect.hp_restore *ℤ n) p.stat.derived.max_hp,
    capped (p.stat.cur_mp +ℤ effect.mp_restore *ℤ n) p.stat.derived.max_mp,
  ),
)

-- Where `CanUseItem` says yes, `UseItem` succeeds: it takes exactly `useCount` of the item and nothing
-- else, does not touch the gold, and lets neither the hit points nor the mana points exceed their
-- maximum.
pub use_item-can_use_item :
    (items : Items) (type slot_pos id n : ℤ) (p : Player)
    → can_use_item items type slot_pos id n p ≡ true
    → let (ok, p') = use_item items type slot_pos id n p in
      (ok ≡ true)
      × (held id p'.inventories +ℤ n ≡ held id p.inventories)
      × ((other : ℤ) → other ≢ id → held other p'.inventories ≡ held other p.inventories)
      × (p'.gold ≡ p.gold)
      × (IsHealthy p → IsHealthy p')
unfolding can_use_item use_item mark_save_needed
use_item-can_use_item items type slot_pos id n p =
    if_cases (λ (b : Bool). b ≡ true → Used (use_item items type slot_pos id n p)) (leb_ℤ n (pos 0))
      (λ e h. absurd (false≢true h))
      (λ e h.
        if_cases Used (leb_ℤ n (pos 0)) (λ few. absurd (false≢true (sym e ∙ few)))
          (λ some_items. used (ground arith) (lookup id items) h))
  where
    Used : Bool × Player → Type 0
    Used r =
        (r.0 ≡ true)
        × (held id r.1.inventories +ℤ n ≡ held id p.inventories)
        × ((other : ℤ) → other ≢ id → held other r.1.inventories ≡ held other p.inventories)
        × (r.1.gold ≡ p.gold)
        × (IsHealthy p → IsHealthy r.1)

    used :
        pos 0 <ℤ n
        → (o : Option ItemInitData) → usable type slot_pos id n p o ≡ true
        → Used (use_found type slot_pos id n o p)
    used positive none h = absurd (false≢true h)
    used positive (some def) h =
        let m = p.inventories in
        let has : InventoryManager.has_item_by_slot type slot_pos id n m ≡ true = ground arith in
        let ok = remove_item_by_slot-has_item_by_slot type slot_pos id n m has positive in
        let taken = remove_item_by_slot type slot_pos id n m in
        let holds = (remove_item_by_slot-held type slot_pos id n m).1 ok in
        let rest : Player = mark_save_needed (record p { inventories = taken.1 }) in
        let aside = apply_effect-IsAside n def.use_effect rest in
        if_cases Used (not taken.0) (λ e. absurd (ground arith))
          (λ e. (
            refl,
            ap (λ (v : Inventories). held id v +ℤ n) aside.0 ∙ holds.0,
            λ other ne. ap (λ (v : Inventories). held other v) aside.0 ∙ holds.1 other ne,
            aside.1,
            aside.2,
          ))
