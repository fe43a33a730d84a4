-- ===== src/Player.antt =====
-- SERVER/src/CHANNEL/domain/Player.h and Player.cpp: the part of a player that shops, trades and saving
-- use. Each operation runs under `Gameplay::gate` or `m_statMutex`, so it is one step.
pub mod Gold
pub mod Usage
mod Tests
use ll2games_rpg_server.Common.{
  ℕ, zero, suc, ◌+◌, ◌-◌, ◌*◌, ◌/◌, ◌%◌, ◌^◌, ◌≤◌, ◌<◌, ◌≡◌, refl, sym, ap, ap₂, subst, ◌∙◌, ◌≢◌,
  false≢true, ◌↔◌, ◌⊎◌, inl, inr, Bool, true, false, ◌&&◌, ◌||◌, not, Option, none, some, List, [],
  ◌∷◌, ◌++◌, map, arith, ltb, leb, ◌==◌, if◌then◌else◌, Bool-cases, Option-cases, is_some, codes,
  if_cases, not-false, length, take, drop, length-append,
}
use ll2games_rpg_server.Common.Int.{
  ℤ, pos, negsuc, ◌+ℤ◌, ◌-ℤ◌, ◌*ℤ◌, ◌≤ℤ◌, ◌<ℤ◌, ltb_ℤ, leb_ℤ, eqb_ℤ, eqb_ℤ_iff, min_ℤ, min-le_left,
  min-le_right, le-min, pos_part, neg_part, int_laws, parts, eqb_ℤ_refl, eqb_ℤ_ne, ne_of_eqb_ℤ,
  +ℤ_parts, -ℤ_parts, eq_of_parts,
}
use ll2games_rpg_server.Common.Keys.{
  Dict, lookup, insert, erase, ℤ_eq, lookup-insert, lookup-erase, eqb_bytes,
}
use ll2games_rpg_server.CharacterStat.{CharacterStat, ExpResult, add_exp, reduce_exp, up}
use ll2games_rpg_server.InventoryManager
use ll2games_rpg_server.InventoryManager.{Inventories, Items, ItemInitData, UseEffect}

pub data PlayerState : Type 0 where
  idle : PlayerState
  move : PlayerState
  jump : PlayerState
  attack : PlayerState
  stunned : PlayerState
  dead : PlayerState

-- The components are bit patterns of 32-bit floats.
pub record Vec2 : Type 0 where
  pub x : ℕ
  pub y : ℕ

pub record NpcSpawnData : Type 0 where
  pub spawn_id : ℤ
  pub npc_id : ℤ
  pub position : Vec2
  pub interaction_range : ℕ

-- Of `MapInstance` what the services read through `m_current_map`.
pub record MapInstance : Type 0 where
  pub map_id : ℕ
  pub npc_spawns : List NpcSpawnData

pub record Player : Type 0 where
  pub id : ℤ
  pub state : PlayerState
  pub current_map : Option MapInstance
  pub position : Vec2
  pub gold : ℤ
  pub stat : CharacterStat
  pub stat_dirty : Bool
  pub inventories : Inventories
  pub save_version : ℕ

abbrev is_dead : PlayerState → Bool
is_dead dead = true
is_dead _ = false

-- `IsAlive`
unfoldable pub is_alive : Player → Bool
is_alive p = not (is_dead p.state)

-- `std::numeric_limits<std::int64_t>::max()`
abbrev pub max_int64 : ℕ
max_int64 = 2 ^ 63 - 1

-- `MarkSaveNeeded`: an atomic counter of 64 bits.
unfoldable pub mark_save_needed : Player → Player
mark_save_needed p = record p { save_version = (p.save_version + 1) % 2 ^ 64 }

unfoldable pub is_save_needed : Player → Bool
is_save_needed p = not (p.save_version == 0)

-- `TryMarkSaved`: a compare and exchange with 0.
unfoldable pub try_mark_saved : ℕ → Player → Bool × Player
try_mark_saved version p =
    if p.save_version == version then (true, record p { save_version = 0 }) else (false, p)

unfoldable pub try_add_gold : ℤ → Player → Bool × Player
try_add_gold amount p =
    if leb_ℤ amount (pos 0)
    then (false, p)
    else if ltb_ℤ (pos max_int64 -ℤ p.gold) amount
    then (false, p)
    else (true, mark_save_needed (record p { gold = p.gold +ℤ amount }))

unfoldable pub try_spend_gold : ℤ → Player → Bool × Player
try_spend_gold amount p =
    if leb_ℤ amount (pos 0)
    then (false, p)
    else if ltb_ℤ p.gold amount
    then (false, p)
    else (true, mark_save_needed (record p { gold = p.gold -ℤ amount }))

pub add_hp : ℤ → Player → Player
add_hp hp p =
    let raised = p.stat.cur_hp +ℤ hp in
    let cur_hp = if ltb_ℤ p.stat.derived.max_hp raised then p.stat.derived.max_hp else raised in
    mark_save_needed (record p { stat = record p.stat { cur_hp = cur_hp }; stat_dirty = true })

pub add_mp : ℤ → Player → Player
add_mp mp p =
    let raised = p.stat.cur_mp +ℤ mp in
    let cur_mp = if ltb_ℤ p.stat.derived.max_mp raised then p.stat.derived.max_mp else raised in
    mark_save_needed (record p { stat = record p.stat { cur_mp = cur_mp }; stat_dirty = true })

unfoldable up_stat : List ℕ → Player → Player
up_stat stat_type p = mark_save_needed (record p { stat = up stat_type p.stat; stat_dirty = true })

-- `AddExp`
unfoldable gain_exp : (ℤ → ℤ) → ℤ → Player → ExpResult × Player
gain_exp get_need_exp exp p =
    let (result, stat) = add_exp get_need_exp exp p.stat in
    (result, mark_save_needed (record p { stat = stat; stat_dirty = true }))

-- `DeadLocked`, but for the reset of the movement input.
unfoldable die : (ℤ → ℤ) → (ℤ → ℤ) → Player → Player
die get_need_exp share p =
    if is_dead p.state
    then p
    else let stat : CharacterStat = record p.stat { cur_hp = pos 0 } in
      mark_save_needed (record p {
        state = dead;
        stat = (reduce_exp get_need_exp share stat).1;
        stat_dirty = true;
      })

-- `CanUseItem`
abbrev pub usable : ℤ → ℤ → ℤ → ℤ → Player → Option ItemInitData → Bool
usable type slot_pos item_id use_count p none = false
usable type slot_pos item_id use_count p (some def) =
    if not (eqb_bytes def.type (codes "consumable"))
    then false
    else InventoryManager.has_item_by_slot type slot_pos item_id use_count p.inventories

pub can_use_item : Items → ℤ → ℤ → ℤ → ℤ → Player → Bool
can_use_item items type slot_pos item_id use_count p =
    if leb_ℤ use_count (pos 0)
    then false
    else usable type slot_pos item_id use_count p (lookup item_id items)

-- `UseItem`
abbrev pub apply_effect : ℤ → Option UseEffect → Player → Player
apply_effect use_count none p = p
apply_effect use_count (some effect) p =
    add_mp (effect.mp_restore *ℤ use_count) (add_hp (effect.hp_restore *ℤ use_count) p)

abbrev pub use_found : ℤ → ℤ → ℤ → ℤ → Option ItemInitData → Player → Bool × Player
use_found type slot_pos item_id use_count none p = (false, p)
use_found type slot_pos item_id use_count (some def) p =
    let (ok, inventories) =
      InventoryManager.remove_item_by_slot type slot_pos item_id use_count p.inventories in
    let used : Player = record p { inventories = inventories } in
    if not ok
    then (false, used)
    else (true, apply_effect use_count def.use_effect (mark_save_needed used))

pub use_item : Items → ℤ → ℤ → ℤ → ℤ → Player → Bool × Player
use_item items type slot_pos item_id use_count p =
    if leb_ℤ use_count (pos 0)
    then (false, p)
    else use_found type slot_pos item_id use_count (lookup item_id items) p
