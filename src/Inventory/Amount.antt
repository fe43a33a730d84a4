-- ===== src/Inventory/Amount.antt =====
-- How much of an item the slots of Inventory.cpp hold.
use ll2games_rpg_server.Common.{◌≡◌, inl, inr, none, some, [], ◌∷◌, if◌then◌else◌, Bool-cases}
use ll2games_rpg_server.Common.Int.{ℤ, pos, ◌+ℤ◌, eqb_ℤ}
use ll2games_rpg_server.Common.Keys.{Dict, lookup, insert, ℤ_eq}
use mathlib.Core.Option.{some-injective}
use mathlib.Core.Path.{subst}
use ll2games_rpg_server.Common.Sums.{sum_over, sum_over-insert}
use ll2games_rpg_server.Inventory.{InventorySlot}

-- What one slot holds of an item.
abbrev pub weight : ℤ → InventorySlot → ℤ
weight id slot = if eqb_ℤ slot.item_id id then slot.item_count else pos 0

abbrev pub amount : ℤ → Dict ℤ InventorySlot → ℤ
amount id = sum_over (weight id)

-- A write through a slot reference changes the amount by the difference.
pub amount-insert :
    (id k : ℤ) (old new : InventorySlot) (slots : Dict ℤ InventorySlot)
    → lookup k slots ≡ some old
    → amount id (insert k new slots) +ℤ weight id old ≡ amount id slots +ℤ weight id new
amount-insert id = sum_over-insert (weight id)

-- A property of every slot.
abbrev pub AllSlots : (InventorySlot → Type 0) → Dict ℤ InventorySlot → Type 0
AllSlots P [] = Unit {0}
AllSlots P ((k, slot) ∷ slots) = P slot × AllSlots P slots

pub AllSlots-insert :
    (P : InventorySlot → Type 0) (k : ℤ) (new : InventorySlot) (slots : Dict ℤ InventorySlot)
    → AllSlots P slots
    → P new
    → AllSlots P (insert k new slots)
AllSlots-insert P k new [] a h = (h, tt)
AllSlots-insert P k new ((j, slot) ∷ slots) a h = elim (Bool-cases (eqb_ℤ k j)) [
  | inl hit ↦ rw hit (h, a.1)
  | inr miss ↦ rw miss (a.0, AllSlots-insert P k new slots a.1 h)
]

pub AllSlots-lookup :
    (P : InventorySlot → Type 0) (k : ℤ) (slot : InventorySlot) (slots : Dict ℤ InventorySlot)
    → AllSlots P slots
    → lookup k slots ≡ some slot
    → P slot
AllSlots-lookup P k slot [] a e = absurd (none_some e)
  where
    none_some : none ≡ some slot → ⊥
    none_some h = cc
AllSlots-lookup P k slot ((j, other) ∷ slots) a e = elim (Bool-cases (eqb_ℤ k j)) [
  | inl hit ↦ subst P (some-injective _ _ (rw hit at e)) a.0
  | inr miss ↦ AllSlots-lookup P k slot slots a.1 (rw miss at e)
]
