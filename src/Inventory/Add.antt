-- ===== src/Inventory/Add.antt =====
-- `AddItem` of Inventory.cpp: what it adds, and where.
use ll2games_rpg_server.Common.{
  ℕ, zero, suc, ◌≡◌, refl, sym, ap, ◌∙◌, ◌≢◌, ◌⊎◌, inl, inr, Bool, true, false, not, Option, none,
  some, List, arith, if◌then◌else◌, Bool-cases, if_cases, not-false,
}
use ll2games_rpg_server.Common.Int.{
  ℤ, pos, ◌+ℤ◌, ◌-ℤ◌, ◌≤ℤ◌, ◌<ℤ◌, leb_ℤ, eqb_ℤ, eqb_ℤ_iff, min_ℤ, pos_part, int_laws, parts,
  eqb_ℤ_refl, eqb_ℤ_ne, min-le_right,
}
use ll2games_rpg_server.Common.Keys.{lookup, ℤ_eq}
use ll2games_rpg_server.Inventory.{
  InventorySlot, Inventory, AddItemData, AddItemResult, Filling, give, finished, stack_slot,
  stack_found, fill_empty_slot, empty_found, each_slot, add_item_loops, add_item, stack_loop,
  after_stacks,
}
use ll2games_rpg_server.Inventory.Amount.{weight, amount, amount-insert}

-- What a round or a loop does: the slots and what remains hold together as much of the item as
-- before, no other item changes, and the loop goes on exactly while something remains.
record Conserves (d : AddItemData) (f : Filling) (done : Bool) (g : Filling) : Type 0 where
  total : amount d.item_id g.slots +ℤ g.remain ≡ amount d.item_id f.slots +ℤ f.remain
  others : (id : ℤ) → id ≢ d.item_id → id ≢ pos 0 → amount id g.slots ≡ amount id f.slots
  goes_on : done ≡ false → pos 0 <ℤ g.remain
  exact : done ≡ true → g.remain ≡ pos 0

Conserves-refl : (d : AddItemData) (f : Filling) → pos 0 <ℤ f.remain → Conserves d f false f
Conserves-refl d f h = record {
  total = refl;
  others = λ id n z. refl;
  goes_on = λ e. h;
  exact = λ e. cc;
}

weight-own : (slot : InventorySlot) → weight slot.item_id slot ≡ slot.item_count
weight-own slot = rw (eqb_ℤ_refl slot.item_id)

weight-other : (id : ℤ) (slot : InventorySlot) → slot.item_id ≢ id → weight id slot ≡ pos 0
weight-other id slot n = rw (eqb_ℤ_ne slot.item_id id n)

-- Giving to a slot that held `held` of the item (or was empty) an amount that is no more than what
-- remains.
give-Conserves :
    (d : AddItemData) (p : ℕ) (slot : InventorySlot) (new_count add_count : ℤ) (f : Filling)
    → lookup (pos p) f.slots ≡ some slot
    → (slot.item_id ≡ d.item_id) ⊎ (slot.item_id ≡ pos 0)
    → new_count ≡ weight d.item_id slot +ℤ add_count
    → add_count ≤ℤ f.remain
    → Conserves d f
        (finished (give d.item_id p slot new_count add_count f)).0
        (finished (give d.item_id p slot new_count add_count f)).1
give-Conserves d p slot new_count add_count f found holds new fits = record {
  total =
      let own = weight-own written in
      let put = amount-insert d.item_id (pos p) slot written f.slots found in
      omega (int_laws, parts own, parts put, parts new);
  others = λ id n z.
      let put = amount-insert id (pos p) slot written f.slots found in
      let none_before = weight-other id slot (elsewhere holds n z) in
      let none_after = weight-other id written (λ e. n (sym e)) in
      omega (int_laws, parts put, parts none_before, parts none_after);
  goes_on = λ e. ground arith;
  exact = λ e. let left : f.remain -ℤ add_count ≤ℤ pos 0 = ground arith in omega (int_laws, left);
}
  where
    written : InventorySlot
    written = record slot { item_id = d.item_id; item_count = new_count }

    elsewhere :
        {id : ℤ}
        → (slot.item_id ≡ d.item_id) ⊎ (slot.item_id ≡ pos 0)
        → id ≢ d.item_id
        → id ≢ pos 0
        → slot.item_id ≢ id
    elsewhere (inl h) n z e = n (sym e ∙ h)
    elsewhere (inr h) n z e = z (sym e ∙ h)

stack_slot-Conserves :
    (d : AddItemData) (p : ℕ) (f : Filling)
    → pos 0 <ℤ f.remain
    → Conserves d f (stack_slot d p f).0 (stack_slot d p f).1
unfolding stack_slot
stack_slot-Conserves d p f h = split (lookup (pos p) f.slots) refl
  where
    IsKept : Bool × Filling → Type 0
    IsKept r = Conserves d f r.0 r.1

    split :
        (o : Option InventorySlot)
        → lookup (pos p) f.slots ≡ o
        → Conserves d f (stack_found d p o f).0 (stack_found d p o f).1
    split none found = Conserves-refl d f h
    split (some slot) found =
        if_cases IsKept (not slot.is_enable) (λ e. Conserves-refl d f h)
          λ e.
            if_cases IsKept (not (eqb_ℤ slot.item_id d.item_id)) (λ e. Conserves-refl d f h)
              λ same.
                if_cases IsKept (leb_ℤ d.max_stack slot.item_count) (λ e. Conserves-refl d f h)
                  λ room.
                    let add_count = min_ℤ (d.max_stack -ℤ slot.item_count) f.remain in
                    let item : slot.item_id ≡ d.item_id = (eqb_ℤ_iff _ _).0 (not-false same) in
                    let held : weight d.item_id slot ≡ slot.item_count = rw (not-false same) in
                    give-Conserves d p slot (slot.item_count +ℤ add_count) add_count f found
                      (inl item) (ap (λ w. w +ℤ add_count) (sym held))
                      (min-le_right (d.max_stack -ℤ slot.item_count) f.remain)

fill_empty_slot-Conserves :
    (d : AddItemData) (p : ℕ) (f : Filling)
    → d.item_id ≢ pos 0
    → pos 0 <ℤ f.remain
    → Conserves d f (fill_empty_slot d p f).0 (fill_empty_slot d p f).1
unfolding fill_empty_slot
fill_empty_slot-Conserves d p f real h = split (lookup (pos p) f.slots) refl
  where
    IsKept : Bool × Filling → Type 0
    IsKept r = Conserves d f r.0 r.1

    split :
        (o : Option InventorySlot)
        → lookup (pos p) f.slots ≡ o
        → Conserves d f (empty_found d p o f).0 (empty_found d p o f).1
    split none found = Conserves-refl d f h
    split (some slot) found =
        if_cases IsKept (not slot.is_enable) (λ e. Conserves-refl d f h)
          λ e.
            if_cases IsKept (not (eqb_ℤ slot.item_id (pos 0))) (λ e. Conserves-refl d f h)
              λ empty.
                let add_count = if d.stackable then min_ℤ d.max_stack f.remain else pos 1 in
                let vacant : slot.item_id ≡ pos 0 = (eqb_ℤ_iff _ _).0 (not-false empty) in
                let held : weight d.item_id slot ≡ pos 0 =
                  weight-other d.item_id slot (λ e. real (sym e ∙ vacant)) in
                give-Conserves d p slot add_count add_count f found (inr vacant)
                  (omega (int_laws, parts held))
                  (if_cases (λ c. c ≤ℤ f.remain) d.stackable
                    (λ e. min-le_right d.max_stack f.remain) (λ e. omega (int_laws, h)))

Conserves-trans :
    (d : AddItemData) {f g h : Filling} {done : Bool}
    → Conserves d f false g
    → Conserves d g done h
    → Conserves d f done h
Conserves-trans d a b = record {
  total = b.total ∙ a.total;
  others = λ id n z. b.others id n z ∙ a.others id n z;
  goes_on = b.goes_on;
  exact = b.exact;
}

-- A property that every round keeps holds when the loop ends, early or not.
pub each_slot_inv {κ} :
    (P : Bool × Filling → Type κ) (round : ℕ → Filling → Bool × Filling)
    → ((p : ℕ) (f : Filling) → P (false, f) → P (round p f))
    → (n p : ℕ) (f : Filling) → P (false, f)
    → P (each_slot round n p f)
unfolding each_slot
each_slot_inv P round keeps zero p f h = h
each_slot_inv P round keeps (suc n) p f h =
    split (round p f) (keeps p f h) (each_slot_inv P round keeps n (suc p))
  where
    split :
        (r : Bool × Filling)
        → P r
        → ((g : Filling) → P (false, g) → P (each_slot round n (suc p) g))
        → P (if r.0 then (true, r.1) else each_slot round n (suc p) r.1)
    split (true, g) k rest = k
    split (false, g) k rest = rest g k

each_slot-Conserves :
    (d : AddItemData) (round : ℕ → Filling → Bool × Filling)
    → ((p : ℕ) (f : Filling) → pos 0 <ℤ f.remain → Conserves d f (round p f).0 (round p f).1)
    → (n p : ℕ) (f : Filling) → pos 0 <ℤ f.remain
    → Conserves d f (each_slot round n p f).0 (each_slot round n p f).1
each_slot-Conserves d round keeps n p f h =
    each_slot_inv (λ (r : Bool × Filling). Conserves d f r.0 r.1) round
      (λ q g c. Conserves-trans d c (keeps q g (c.goes_on refl))) n p f (Conserves-refl d f h)

stack_loop-Conserves :
    (d : AddItemData) (n : ℕ) (f : Filling)
    → pos 0 <ℤ f.remain
    → Conserves d f (stack_loop d n f).0 (stack_loop d n f).1
unfolding stack_loop
stack_loop-Conserves d n f h =
    if_cases (λ (r : Bool × Filling). Conserves d f r.0 r.1) d.stackable
      (λ e. each_slot-Conserves d (stack_slot d) (stack_slot-Conserves d) n 0 f h)
      (λ e. Conserves-refl d f h)

after_stacks-Conserves :
    (d : AddItemData) (n : ℕ) (f : Filling) (r : Bool × Filling)
    → d.item_id ≢ pos 0
    → Conserves d f r.0 r.1
    → Conserves d f (after_stacks d n r).0 (after_stacks d n r).1
unfolding after_stacks
after_stacks-Conserves d n f (true, g) real c = c
after_stacks-Conserves d n f (false, g) real c = Conserves-trans d c (
    each_slot-Conserves d (fill_empty_slot d) (λ p f' h'. fill_empty_slot-Conserves d p f' real h')
      n 0 g (c.goes_on refl))

add_item_loops-Conserves :
    (d : AddItemData) (n : ℕ) (f : Filling)
    → d.item_id ≢ pos 0
    → pos 0 <ℤ f.remain
    → Conserves d f (add_item_loops d n f).0 (add_item_loops d n f).1
unfolding add_item_loops
add_item_loops-Conserves d n f real h =
    after_stacks-Conserves d n f (stack_loop d n f) real (stack_loop-Conserves d n f h)

-- Where `AddItem` returns true the inventory holds exactly `count` more of the item, and as much of
-- every other item as before, however it was spread over stacks and empty slots.
-- The item is not id 0, which marks an empty slot, and id 0 is not counted.
pub add_item-amount :
    (d : AddItemData) (inv : Inventory) (results : List AddItemResult)
    → d.item_id ≢ pos 0
    → (add_item d inv results).0 ≡ true
    → let slots = (add_item d inv results).1.slots in
      (amount d.item_id slots ≡ amount d.item_id inv.slots +ℤ d.count)
      × ((id : ℤ) → id ≢ d.item_id → id ≢ pos 0 → amount id slots ≡ amount id inv.slots)
unfolding add_item
add_item-amount d inv results real ok = elim (Bool-cases (leb_ℤ d.count (pos 0))) [
  | inl few ↦ absurd (refused few (rw (few, add_item) at ok))
  | inr some_count ↦
      let start : Filling = record { slots = inv.slots; remain = d.count; results = results } in
      let n = pos_part inv.max_slot in
      let c = add_item_loops-Conserves d n start real (ground arith) in
      rw (some_count, add_item)
        (
          omega (int_laws, parts c.total, parts (c.exact (rw (some_count, add_item) at ok))),
          c.others,
        )
]
  where
    refused : leb_ℤ d.count (pos 0) ≡ true → false ≡ true → ⊥
    refused h k = cc
