-- ===== src/Inventory/Slots.antt =====
-- `RemoveItemBySlot`, `HasItemBySlot` and `MoveItemSlot` of Inventory.cpp.
use ll2games_rpg_server.Common.{
  ◌≡◌, refl, sym, ◌∙◌, ◌≢◌, inl, inr, Bool, true, false, not, Option, none, some, List, arith,
  if◌then◌else◌, Bool-cases, if_cases, not-false, ap₂, false≢true, ap, ◌↔◌, none≢some, some_inj, [],
  ◌∷◌, ◌++◌,
}
use ll2games_rpg_server.Common.Int.{
  ℤ, pos, ◌+ℤ◌, ◌-ℤ◌, ltb_ℤ, eqb_ℤ, eqb_ℤ_iff, int_laws, parts, eqb_ℤ_ne, ne_of_eqb_ℤ,
}
use ll2games_rpg_server.Common.Keys.{lookup, insert, ℤ_eq, lookup-insert_self, lookup-insert_ne}
use ll2games_rpg_server.Inventory.{
  InventorySlot, Inventory, MoveItem, InventorySlotUpdate, remove_item_by_slot, remove_found,
  has_item_by_slot, move_item_slot, moved,
}
use ll2games_rpg_server.Inventory.Amount.{weight, amount, amount-insert}

-- `RemoveItemBySlot` succeeds exactly where `HasItemBySlot` with the same arguments says so, and
-- changes nothing where it fails.
pub remove_item_by_slot-has :
    (k id count : ℤ) (inv : Inventory)
    → ((remove_item_by_slot k id count inv).0 ≡ has_item_by_slot k id count inv)
      × (has_item_by_slot k id count inv ≡ false → (remove_item_by_slot k id count inv).1 ≡ inv)
unfolding remove_item_by_slot has_item_by_slot
remove_item_by_slot-has k id count inv = ground arith

weight-eq :
    (id : ℤ) (a b : InventorySlot)
    → a.item_id ≡ b.item_id
    → a.item_count ≡ b.item_count
    → weight id a ≡ weight id b
weight-eq id a b e f = ap₂ (λ i n. if eqb_ℤ i id then n else pos 0) e f

weight-zero : (id : ℤ) (a : InventorySlot) → a.item_count ≡ pos 0 → weight id a ≡ pos 0
weight-zero id a e = if_cases (λ w. w ≡ pos 0) (eqb_ℤ a.item_id id) (λ _. e) (λ _. refl)

-- The slot that `RemoveItemBySlot` writes.
abbrev taken : ℤ → InventorySlot → InventorySlot
taken left slot =
    if eqb_ℤ left (pos 0)
    then record slot { item_id = pos 0; item_count = pos 0 }
    else record slot { item_count = left }

weight-taken :
    (id : ℤ) (left : ℤ) (slot : InventorySlot)
    → weight id (taken left slot) ≡ (if eqb_ℤ slot.item_id id then left else pos 0)
weight-taken id left slot = elim (Bool-cases (eqb_ℤ left (pos 0))) [
  | inl nothing ↦ rw nothing (
      weight-zero id (record slot { item_id = pos 0; item_count = pos 0 }) refl
      ∙ if_cases (λ w. pos 0 ≡ w) (eqb_ℤ slot.item_id id)
          (λ _. sym ((eqb_ℤ_iff left (pos 0)).0 nothing)) (λ _. refl))
  | inr more ↦ rw more
]

-- A removal that succeeds takes exactly `count` of the item out of the inventory, and leaves the
-- amount of every other item alone.
pub remove_item_by_slot-amount :
    (k id count : ℤ) (inv : Inventory)
    → (remove_item_by_slot k id count inv).0 ≡ true
    → let slots = (remove_item_by_slot k id count inv).1.slots in
      (amount id slots +ℤ count ≡ amount id inv.slots)
      × ((other : ℤ) → other ≢ id → amount other slots ≡ amount other inv.slots)
unfolding remove_item_by_slot
remove_item_by_slot-amount k id count inv = split (lookup k inv.slots) refl
  where
    Took : Bool × Inventory → Type 0
    Took r =
        r.0 ≡ true
        → (amount id r.1.slots +ℤ count ≡ amount id inv.slots)
          × ((other : ℤ) → other ≢ id → amount other r.1.slots ≡ amount other inv.slots)

    split :
        (o : Option InventorySlot) → lookup k inv.slots ≡ o → Took (remove_found k id count o inv)
    split none found = λ h. absurd (false≢true h)
    split (some slot) found =
        if_cases Took (not (eqb_ℤ slot.item_id id)) (λ e h. absurd (false≢true h))
          λ same.
            if_cases Took (ltb_ℤ slot.item_count count) (λ e h. absurd (false≢true h))
              λ enough h.
                let left = slot.item_count -ℤ count in
                let put = λ (i : ℤ). amount-insert i k slot (taken left slot) inv.slots found in
                let own : weight id (taken left slot) ≡ left =
                  weight-taken id left slot ∙ rw (not-false same) in
                let own' : weight id slot ≡ slot.item_count = rw (not-false same) in
                (
                  omega (int_laws, parts (put id), parts own, parts own'),
                  λ other ne.
                      let differs : eqb_ℤ slot.item_id other ≡ false =
                        eqb_ℤ_ne slot.item_id other
                          (λ e. ne (sym e ∙ (eqb_ℤ_iff slot.item_id id).0 (not-false same))) in
                      let before : weight other slot ≡ pos 0 = rw differs in
                      let after : weight other (taken left slot) ≡ pos 0 =
                        weight-taken other left slot ∙ rw differs in
                      omega (int_laws, parts (put other), parts before, parts after),
                )

-- A slot with what another slot holds
abbrev pub holding : InventorySlot → InventorySlot → InventorySlot
holding other slot = record slot { item_id = other.item_id; item_count = other.item_count }

-- Two different slots, of which the first holds an item
abbrev pub CanMove : MoveItem → Inventory → Type 0
CanMove m inv =
    (m.from_slot_pos ≢ m.to_slot_pos)
    × ((a : InventorySlot) × (b : InventorySlot) × (lookup m.from_slot_pos inv.slots ≡ some a)
        × (lookup m.to_slot_pos inv.slots ≡ some b)
        × (a.item_id ≢ pos 0))

-- Each of the two slots holds what the other held, every other slot is as it was, and both are reported.
abbrev pub IsExchanged :
    MoveItem → Inventory → List InventorySlotUpdate → Inventory → List InventorySlotUpdate → Type 0
IsExchanged m inv updates inv' updates' =
    (a : InventorySlot) × (b : InventorySlot) × (lookup m.from_slot_pos inv.slots ≡ some a)
    × (lookup m.to_slot_pos inv.slots ≡ some b)
    × (lookup m.from_slot_pos inv'.slots ≡ some (holding b a))
    × (lookup m.to_slot_pos inv'.slots ≡ some (holding a b))
    × ((k : ℤ) → k ≢ m.from_slot_pos → k ≢ m.to_slot_pos → lookup k inv'.slots ≡ lookup k inv.slots)
    × (updates'
        ≡ updates
          ++ (record { slot_pos = m.from_slot_pos; item_id = b.item_id; item_count = b.item_count }
              ∷ record { slot_pos = m.to_slot_pos; item_id = a.item_id; item_count = a.item_count }
              ∷ []))

-- `MoveItemSlot` succeeds exactly where the two slots exist and differ and the first holds an item. A
-- move that succeeds exchanges what the two slots hold, leaves every other slot and the amount of every
-- item as it was, and reports both slots; one that fails leaves the whole inventory and the updates as
-- they were.
pub move_item_slot-IsExchanged :
    (m : MoveItem) (inv : Inventory) (updates : List InventorySlotUpdate)
    → let (ok, inv', updates') = move_item_slot m inv updates in
      ((ok ≡ true) ↔ CanMove m inv)
      × (ok ≡ true
          → IsExchanged m inv updates inv' updates'
            × ((id : ℤ) → amount id inv'.slots ≡ amount id inv.slots))
      × (ok ≡ false → (inv' ≡ inv) × (updates' ≡ updates))
unfolding move_item_slot
move_item_slot-IsExchanged m inv updates =
    if_cases Moves (eqb_ℤ from to) (λ same. stays λ can. can.0 ((eqb_ℤ_iff from to).0 same))
      (λ apart. split apart (lookup from inv.slots) (lookup to inv.slots) refl refl)
  where
    open m use {from_slot_pos as from, to_slot_pos as to}

    Moves : Bool × Inventory × List InventorySlotUpdate → Type 0
    Moves r =
        ((r.0 ≡ true) ↔ CanMove m inv)
        × (r.0 ≡ true
            → IsExchanged m inv updates r.1 r.2
              × ((id : ℤ) → amount id r.1.slots ≡ amount id inv.slots))
        × (r.0 ≡ false → (r.1 ≡ inv) × (r.2 ≡ updates))

    stays : (CanMove m inv → ⊥) → Moves (false, inv, updates)
    stays cannot = (
      (λ h. absurd (false≢true h), λ can. absurd (cannot can)),
      λ h. absurd (false≢true h),
      λ h. (refl, refl),
    )

    split :
        eqb_ℤ from to ≡ false
        → (o p : Option InventorySlot) → lookup from inv.slots ≡ o
        → lookup to inv.slots ≡ p
        → Moves (moved from to o p inv updates)
    split apart none p found found' = stays λ can. none≢some (sym found ∙ can.1.2)
    split apart (some a) none found found' = stays λ can. none≢some (sym found' ∙ can.1.3)
    split apart (some a) (some b) found found' =
        if_cases Moves (eqb_ℤ a.item_id (pos 0))
          (λ blank. stays λ can. can.1.4 (
            ap (λ (s : InventorySlot). s.item_id) (some_inj (sym can.1.2 ∙ found))
            ∙ (eqb_ℤ_iff a.item_id (pos 0)).0 blank))
          λ filled.
            let distinct = ne_of_eqb_ℤ from to apart in
            let half = insert from (holding b a) inv.slots in
            let reach : lookup to half ≡ some b =
              lookup-insert_ne to from (holding b a) inv.slots (some b) (λ e. distinct (sym e))
                found' in
            (
              (
                λ h. (distinct, (a, b, found, found', ne_of_eqb_ℤ a.item_id (pos 0) filled)),
                λ can. refl,
              ),
              λ h. (
                (
                  a,
                  b,
                  found,
                  found',
                  lookup-insert_ne from to (holding a b) half (some (holding b a)) distinct
                      (lookup-insert_self from (holding b a) inv.slots),
                  lookup-insert_self to (holding a b) half,
                  λ k not_from not_to.
                      lookup-insert_ne k to (holding a b) half (lookup k inv.slots) not_to (
                        lookup-insert_ne k from (holding b a) inv.slots (lookup k inv.slots)
                          not_from refl),
                  refl,
                ),
                λ id. omega (
                  int_laws,
                  parts (amount-insert id from a (holding b a) inv.slots found),
                  parts (amount-insert id to b (holding a b) half reach),
                ),
              ),
              λ h. absurd (false≢true (sym h)),
            )
