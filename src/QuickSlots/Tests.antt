-- ===== src/QuickSlots/Tests.antt =====
-- Quick slots at concrete inputs, and the theorem applied to them.
use ll2games_rpg_server.Common.{◌≡◌, refl, some, [], ◌∷◌}
use ll2games_rpg_server.Common.Int.{ℤ, pos}
use ll2games_rpg_server.Common.Keys.{lookup, ℤ_eq}
use ll2games_rpg_server.QuickSlots.{
  skill, QuickSlotData, QuickSlots, blank, init, is_same_target, clear_targets, set_slot,
  remove_slot, clear_slot,
}
use ll2games_rpg_server.QuickSlots.Unique.{begins, sets, IsUnique, Reach-IsUnique}

abbrev fireball : ℤ → QuickSlotData
fireball i = record (blank i) { type = skill; ref_id = pos 40 }

-- The skill is put into slot 2, then into slot 5.
abbrev moved_skill : QuickSlots
moved_skill = (set_slot (fireball (pos 5)) (set_slot (fireball (pos 2)) init).1).1

Reach-IsUnique_example : IsUnique moved_skill
Reach-IsUnique_example = Reach-IsUnique (sets (fireball (pos 5)) (sets (fireball (pos 2)) begins))

slot_left : lookup (pos 2) moved_skill ≡ some (blank (pos 2))
unfolding set_slot init clear_targets is_same_target
slot_left = refl

both_changed :
    (set_slot (fireball (pos 5)) (set_slot (fireball (pos 2)) init).1).0
    ≡ blank (pos 2) ∷ fireball (pos 5) ∷ []
unfolding set_slot init clear_targets is_same_target
both_changed = refl

-- `RemoveSlot` leaves slot index 0 in the slot, and `ClearSlot` its own.
removed_index : lookup (pos 3) (remove_slot (pos 3) init) ≡ some (blank (pos 0))
unfolding remove_slot init
removed_index = refl

cleared_index : lookup (pos 3) (clear_slot (pos 3) init) ≡ some (blank (pos 3))
unfolding clear_slot init
cleared_index = refl
