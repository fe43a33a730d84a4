-- ===== src/Npc.antt =====
-- SERVER/src/CHANNEL/service/NPCInteractionService.cpp, `MapInstance::FindNPC` of
-- SERVER/src/CHANNEL/map/MapInstance.cpp and the NPC table of
-- SERVER/src/CHANNEL/manager/NPCDataManager.cpp. A `float` is its IEEE 754 bit pattern; the test of the
-- distance, in `double` arithmetic, is a parameter.
use ll2games_rpg_server.Common.{
  ℕ, ◌/◌, ◌%◌, ◌^◌, Bool, ◌||◌, not, Option, none, some, List, [], ◌∷◌, map, ltb, ◌==◌,
  if◌then◌else◌, codes,
}
use ll2games_rpg_server.Common.Int.{ℤ, pos, ◌-ℤ◌, leb_ℤ, eqb_ℤ}
use ll2games_rpg_server.Common.Keys.{Dict, lookup, ℤ_eq}
use ll2games_rpg_server.Player.{Player, Vec2, NpcSpawnData, MapInstance, is_alive}

pub record NpcDefinition : Type 0 where
  pub npc_id : ℤ
  pub name : List ℕ
  pub role : List ℕ
  pub dialogue : List (List ℕ)
  pub shop : Option ℤ

pub record NpcInteractionResult : Type 0 where
  pub map_id : ℤ
  pub spawn_id : ℤ
  pub npc_id : ℤ
  pub name : List ℕ
  pub role : List ℕ
  pub dialogue : List (List ℕ)
  pub shop_id : ℤ

-- A call that returns false with an error text, or true with its result.
pub data Answer (R : Type 0) : Type 0 where
  failed : List ℕ → Answer R
  answered : R → Answer R

-- `std::isfinite` of a 32-bit float: its exponent bits are not all ones.
unfoldable pub is_finite : ℕ → Bool
is_finite bits = not ((bits / 2 ^ 23) % 256 == 255)

-- `MapInstance::FindNPC`
abbrev find_spawn : ℤ → List NpcSpawnData → Option NpcSpawnData
find_spawn id [] = none
find_spawn id (npc ∷ npcs) = if eqb_ℤ npc.spawn_id id then some npc else find_spawn id npcs

unfoldable pub find_npc : ℤ → MapInstance → Option NpcSpawnData
find_npc id map = if leb_ℤ id (pos 0) then none else find_spawn id map.npc_spawns

-- `static_cast<int>` of a 32-bit unsigned number
abbrev pub to_int : ℕ → ℤ
to_int n = if ltb n (2 ^ 31) then pos n else pos n -ℤ pos (2 ^ 32)

-- `out_of_range player npc range` is `dx * dx + dy * dy > range * range`.
module _ (out_of_range : Vec2 → Vec2 → ℕ → Bool) where
  abbrev spawn_in_reach : Player → Option NpcSpawnData → Answer NpcSpawnData
  spawn_in_reach player none = failed (codes "npc not found")
  spawn_in_reach player (some npc) =
      if not (is_finite player.position.x) || not (is_finite player.position.y)
      then failed (codes "invalid player position")
      else if out_of_range player.position npc.position npc.interaction_range
      then failed (codes "npc is out of range")
      else answered npc

  abbrev spawn_on_map : Player → ℤ → Option MapInstance → Answer NpcSpawnData
  spawn_on_map player spawn_id none = failed (codes "current map not found")
  spawn_on_map player spawn_id (some map) = spawn_in_reach player (find_npc spawn_id map)

  -- `ValidateInteraction` of a player that is not null
  unfoldable pub validate_interaction : Player → ℤ → Answer NpcSpawnData
  validate_interaction player spawn_id =
      if not (is_alive player)
      then failed (codes "player is dead")
      else spawn_on_map player spawn_id player.current_map

  abbrev describe : Player → NpcSpawnData → Option NpcDefinition → Answer NpcInteractionResult
  describe player spawn none = failed (codes "npc definition not found")
  describe player spawn (some npc) = answered (record {
    map_id = elim player.current_map [ none ↦ pos 0 | some map ↦ to_int map.map_id ];
    spawn_id = spawn.spawn_id;
    npc_id = spawn.npc_id;
    name = npc.name;
    role = npc.role;
    dialogue = npc.dialogue;
    shop_id = elim npc.shop [ none ↦ pos 0 | some shop ↦ shop ];
  })

  abbrev interact_spawn :
      Dict ℤ NpcDefinition → Player → Answer NpcSpawnData → Answer NpcInteractionResult
  interact_spawn npcs player (failed e) = failed e
  interact_spawn npcs player (answered spawn) = describe player spawn (lookup spawn.npc_id npcs)

  -- `Interact`; `npcs` is the table of `m_npcManager`, `none` where that is null.
  unfoldable pub interact : Option (Dict ℤ NpcDefinition) → Player → ℤ → Answer NpcInteractionResult
  interact none player spawn_id = failed (codes "npc manager unavailable")
  interact (some npcs) player spawn_id =
      interact_spawn npcs player (validate_interaction player spawn_id)
