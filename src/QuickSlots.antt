-- ===== src/QuickSlots.antt =====
-- SERVER/src/CHANNEL/manager/QuickSlotManager.cpp: the quick slots of a player. Each operation holds
-- `m_quickSlotMutex`, so it is one step.
pub mod Unique
mod Tests
use ll2games_rpg_server.Common.{
  ℕ, zero, suc, ◌+◌, ◌-◌, ◌*◌, ◌/◌, ◌%◌, ◌^◌, ◌≤◌, ◌<◌, ◌≡◌, refl, sym, ap, ap₂, subst, ◌∙◌, ◌≢◌,
  false≢true, ◌↔◌, ◌⊎◌, inl, inr, Bool, true, false, ◌&&◌, ◌||◌, not, Option, none, some, List, [],
  ◌∷◌, ◌++◌, map, arith, ltb, leb, ◌==◌, if◌then◌else◌, Bool-cases, Option-cases, some_inj, is_some,
  codes, if_cases, not-false, length, take, drop, length-append, get_elem?, modify, replicate,
  length-modify, get-modify_ne, get-modify_self, modify-none, length-replicate, get-replicate,
}
use ll2games_rpg_server.Common.Int.{
  ℤ, pos, negsuc, ◌+ℤ◌, ◌-ℤ◌, ◌*ℤ◌, ◌≤ℤ◌, ◌<ℤ◌, ltb_ℤ, leb_ℤ, eqb_ℤ, eqb_ℤ_iff, min_ℤ, min-le_left,
  min-le_right, le-min, pos_part, neg_part, int_laws, parts, eqb_ℤ_refl, eqb_ℤ_ne, ne_of_eqb_ℤ,
  +ℤ_parts, -ℤ_parts, eq_of_parts,
}
use ll2games_rpg_server.Common.Keys.{Dict, lookup, insert, erase, ℤ_eq, lookup-insert, lookup-erase}

pub data QuickSlotType : Type 0 where
  no_type skill item ui emote : QuickSlotType

pub record QuickSlotData : Type 0 where
  pub slot_index : ℤ
  pub type : QuickSlotType
  pub ref_id : ℤ
  pub inventory_type : ℤ
  pub inventory_slot_pos : ℤ
  pub count : ℤ

-- `QuickSlotData{}` with a slot index
abbrev pub blank : ℤ → QuickSlotData
blank i = record {
  slot_index = i;
  type = no_type;
  ref_id = pos 0;
  inventory_type = pos 0;
  inventory_slot_pos = pos 0;
  count = pos 0;
}

-- `m_quickSlots`, in the order in which the source runs through it.
abbrev pub QuickSlots : Type 0
QuickSlots = Dict ℤ QuickSlotData

abbrev pub max_slot_count : ℕ
max_slot_count = 32

abbrev pub blanks_from : ℕ → ℕ → QuickSlots
blanks_from zero i = []
blanks_from (suc n) i = (pos i, blank (pos i)) ∷ blanks_from n (i + 1)

-- `Init`
pub init : QuickSlots
init = blanks_from max_slot_count 0

-- Whether `IsSameTarget` compares the ids of two slots of these types.
abbrev pub comparable : QuickSlotType → QuickSlotType → Bool
comparable skill skill = true
comparable item item = true
comparable _ _ = false

pub is_same_target : QuickSlotData → QuickSlotData → Bool
is_same_target a b = comparable a.type b.type && eqb_ℤ a.ref_id b.ref_id

-- The loop of `SetSlot`: the slots after it, and those that it changed.
pub clear_targets : QuickSlotData → QuickSlots → QuickSlots × List QuickSlotData
clear_targets new [] = ([], [])
clear_targets new ((i, old) ∷ slots) =
    let (slots', changed) = clear_targets new slots in
    if eqb_ℤ i new.slot_index
    then ((i, old) ∷ slots', changed)
    else if is_same_target old new
    then ((i, blank i) ∷ slots', blank i ∷ changed)
    else ((i, old) ∷ slots', changed)

abbrev pub set_found :
    Option QuickSlotData → QuickSlotData → QuickSlots → List QuickSlotData × QuickSlots
set_found none new slots = ([], slots)
set_found (some old) new slots =
    let (cleared, changed) = clear_targets new slots in
    (changed ++ (new ∷ []), insert new.slot_index new cleared)

pub set_slot : QuickSlotData → QuickSlots → List QuickSlotData × QuickSlots
set_slot new slots =
    if ltb_ℤ new.slot_index (pos 0)
    then ([], slots)
    else set_found (lookup new.slot_index slots) new slots

abbrev pub put_found : Option QuickSlotData → ℤ → QuickSlotData → QuickSlots → QuickSlots
put_found none i new slots = slots
put_found (some old) i new slots = insert i new slots

-- `RemoveSlot`: the slot index of the empty slot is that of `QuickSlotData{}`, 0.
pub remove_slot : ℤ → QuickSlots → QuickSlots
remove_slot i slots = put_found (lookup i slots) i (blank (pos 0)) slots

pub clear_slot : ℤ → QuickSlots → QuickSlots
clear_slot i slots = put_found (lookup i slots) i (blank i) slots

unfoldable get_slot : ℤ → QuickSlots → Option QuickSlotData
get_slot i slots = lookup i slots

unfoldable get_slot_list : QuickSlots → List QuickSlotData
get_slot_list slots = map (λ (e : ℤ × QuickSlotData). e.1) slots
