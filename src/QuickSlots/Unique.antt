-- ===== src/QuickSlots/Unique.antt =====
-- Which quick slots share a target, after calls in any order.
use ll2games_rpg_server.Common.{
  ◌≡◌, sym, ap, subst, ◌∙◌, ◌≢◌, false≢true, ◌⊎◌, inl, inr, true, false, some, List, [], ◌∷◌, arith,
  if◌then◌else◌, Bool-cases, some_inj, if_cases, none≢some, Option, ℕ, suc, ◌+◌, none, zero, refl,
}
use ll2games_rpg_server.Common.Int.{ℤ, eqb_ℤ, eqb_ℤ_iff, ne_of_eqb_ℤ, pos, eqb_ℤ_ne, ltb_ℤ}
use ll2games_rpg_server.Common.Keys.{lookup, insert, ℤ_eq, lookup-insert_inv}
use ll2games_rpg_server.QuickSlots.{
  blanks_from, max_slot_count, QuickSlotType, no_type, skill, item, ui, emote, QuickSlotData,
  QuickSlots, blank, init, comparable, is_same_target, clear_targets, set_slot, remove_slot,
  clear_slot, set_found, put_found,
}

-- The slots that calls in any order lead to.
pub data Reach : QuickSlots → Type 0 where
  begins : Reach init
  sets : {slots : QuickSlots} (new : QuickSlotData) → Reach slots → Reach (set_slot new slots).1
  removes : {slots : QuickSlots} (i : ℤ) → Reach slots → Reach (remove_slot i slots)
  clears : {slots : QuickSlots} (i : ℤ) → Reach slots → Reach (clear_slot i slots)

-- A skill or an item, the two kinds of target that a slot shares with no other
abbrev pub IsExclusive : QuickSlotType → Type 0
IsExclusive type = (type ≡ skill) ⊎ (type ≡ item)

-- No two slots hold the same skill or the same item.
abbrev pub IsUnique : QuickSlots → Type 0
IsUnique slots =
    (i j : ℤ) (a b : QuickSlotData)
    → lookup i slots ≡ some a
    → lookup j slots ≡ some b
    → IsExclusive a.type
    → a.type ≡ b.type
    → a.ref_id ≡ b.ref_id
    → i ≡ j

-- The same by the test of the code
abbrev IsApart : QuickSlots → Type 0
IsApart slots =
    (i j : ℤ) (a b : QuickSlotData)
    → lookup i slots ≡ some a
    → lookup j slots ≡ some b
    → is_same_target a b ≡ true
    → i ≡ j

-- The test of the code holds of two slots with the same skill or the same item.
exclusive-is_same_target :
    (a b : QuickSlotData)
    → IsExclusive a.type
    → a.type ≡ b.type
    → a.ref_id ≡ b.ref_id
    → is_same_target a b ≡ true
unfolding is_same_target
exclusive-is_same_target a b (inl e) types ids =
    rw (sym types, e, (eqb_ℤ_iff a.ref_id b.ref_id).1 ids)
exclusive-is_same_target a b (inr e) types ids =
    rw (sym types, e, (eqb_ℤ_iff a.ref_id b.ref_id).1 ids)

same_target-comparable :
    (a b : QuickSlotData)
    → is_same_target a b ≡ true
    → (comparable a.type b.type ≡ true) × (a.ref_id ≡ b.ref_id)
unfolding is_same_target
same_target-comparable a b h = (ground arith, (eqb_ℤ_iff a.ref_id b.ref_id).0 (ground arith))

comparable_comm : (s t : QuickSlotType) → comparable s t ≡ true → comparable t s ≡ true
comparable_comm skill skill h = h
comparable_comm item item h = h
comparable_comm skill no_type h = absurd (false≢true h)
comparable_comm skill item h = absurd (false≢true h)
comparable_comm skill ui h = absurd (false≢true h)
comparable_comm skill emote h = absurd (false≢true h)
comparable_comm item no_type h = absurd (false≢true h)
comparable_comm item skill h = absurd (false≢true h)
comparable_comm item ui h = absurd (false≢true h)
comparable_comm item emote h = absurd (false≢true h)
comparable_comm no_type t h = absurd (false≢true h)
comparable_comm ui t h = absurd (false≢true h)
comparable_comm emote t h = absurd (false≢true h)

is_same_target_comm : (a b : QuickSlotData) → is_same_target a b ≡ true → is_same_target b a ≡ true
unfolding is_same_target
is_same_target_comm a b h =
    let (types, ids) = same_target-comparable a b h in
    ground (arith, comparable_comm a.type b.type types, eqb_ℤ_iff b.ref_id a.ref_id, sym ids)

untyped_left : (a b : QuickSlotData) → a.type ≡ no_type → is_same_target a b ≢ true
unfolding is_same_target
untyped_left a b e h =
    false≢true (subst (λ t. comparable t b.type ≡ true) e (same_target-comparable a b h).0)

-- A slot after the loop of `SetSlot`, other than the one that is set.
lookup-clear_targets :
    (new : QuickSlotData) (slots : QuickSlots) (i : ℤ) (a : QuickSlotData)
    → eqb_ℤ i new.slot_index ≡ false
    → lookup i (clear_targets new slots).0 ≡ some a
    → (a.type ≡ no_type) ⊎ ((lookup i slots ≡ some a) × (is_same_target a new ≡ false))
unfolding clear_targets
lookup-clear_targets new [] i a far = λ h. absurd (none≢some h)
lookup-clear_targets new ((k, old) ∷ slots) i a far =
    let later = lookup-clear_targets new slots i a far in
    if_cases Goal (eqb_ℤ k new.slot_index) (λ e. at_set e later)
      λ e. if_cases Goal (is_same_target old new) (λ s. at_target later) λ s. at_other s later
  where
    Goal : QuickSlots × List QuickSlotData → Type 0
    Goal r =
        lookup i r.0 ≡ some a
        → (a.type ≡ no_type)
          ⊎ ((lookup i ((k, old) ∷ slots) ≡ some a) × (is_same_target a new ≡ false))

    Later : Type 0
    Later =
        lookup i (clear_targets new slots).0 ≡ some a
        → (a.type ≡ no_type) ⊎ ((lookup i slots ≡ some a) × (is_same_target a new ≡ false))

    At : (QuickSlotData → Type 0)
    At b =
        (if eqb_ℤ i k then some b else lookup i (clear_targets new slots).0) ≡ some a
        → (a.type ≡ no_type)
          ⊎ (((if eqb_ℤ i k then some old else lookup i slots) ≡ some a)
              × (is_same_target a new ≡ false))

    by_key :
        (b : QuickSlotData)
        → (eqb_ℤ i k ≡ true
            → b ≡ a
            → (a.type ≡ no_type) ⊎ ((old ≡ a) × (is_same_target a new ≡ false)))
        → Later
        → At b
    by_key b own later = elim (Bool-cases (eqb_ℤ i k)) [
      | inl g ↦
          rw g λ h. elim (own g (some_inj h)) [ inl t ↦ inl t | inr (e, s) ↦ inr (ap some e, s) ]
      | inr g ↦ rw g later
    ]

    at_set : eqb_ℤ k new.slot_index ≡ true → Later → At old
    at_set e = by_key old λ g same.
        absurd (
          ne_of_eqb_ℤ i new.slot_index far ((eqb_ℤ_iff i k).0 g ∙ (eqb_ℤ_iff k new.slot_index).0 e))

    at_target : Later → At (blank k)
    at_target = by_key (blank k) λ g same. inl (sym (ap QuickSlotData.type same))

    at_other : is_same_target old new ≡ false → Later → At old
    at_other s = by_key old λ g same. inr (same, subst (λ b. is_same_target b new ≡ false) same s)

insert-IsApart :
    (slots slots' : QuickSlots) (k : ℤ) (new : QuickSlotData)
    → IsApart slots
    → ((i : ℤ) (a : QuickSlotData)
        → i ≢ k
        → lookup i slots' ≡ some a
        → (a.type ≡ no_type) ⊎ ((lookup i slots ≡ some a) × (is_same_target a new ≡ false)))
    → IsApart (insert k new slots')
insert-IsApart slots slots' k new unique kept i j a b at_i at_j same =
    elim (lookup-insert_inv i k new a slots' at_i) [
      | inl (i_k, e) ↦ elim (lookup-insert_inv j k new b slots' at_j) [
        | inl (j_k, f) ↦ i_k ∙ sym j_k
        | inr (far, old) ↦ elim (kept j b far old) [
          | inl t ↦ absurd (untyped_left b a t (is_same_target_comm a b same))
          | inr (found, differs) ↦ absurd (
              false≢true (
                sym differs
                ∙ subst (λ c. is_same_target b c ≡ true) (sym (some_inj e))
                    (is_same_target_comm a b same)))
        ]
      ]
      | inr (far_i, old_i) ↦ elim (kept i a far_i old_i) [
        | inl t ↦ absurd (untyped_left a b t same)
        | inr (found_i, differs_i) ↦ elim (lookup-insert_inv j k new b slots' at_j) [
          | inl (j_k, f) ↦ absurd (
              false≢true
                (sym differs_i ∙ subst (λ c. is_same_target a c ≡ true) (sym (some_inj f)) same))
          | inr (far_j, old_j) ↦ elim (kept j b far_j old_j) [
            | inl t ↦ absurd (untyped_left b a t (is_same_target_comm a b same))
            | inr (found_j, differs_j) ↦ unique i j a b found_i found_j same
          ]
        ]
      ]
    ]

set_slot-IsApart :
    (new : QuickSlotData) (slots : QuickSlots) → IsApart slots → IsApart (set_slot new slots).1
unfolding set_slot
set_slot-IsApart new slots unique =
    if_cases (λ (r : List QuickSlotData × QuickSlots). IsApart r.1) (ltb_ℤ new.slot_index (pos 0))
      (λ e. unique) λ e. by_slot (lookup new.slot_index slots)
  where
    by_slot : (o : Option QuickSlotData) → IsApart (set_found o new slots).1
    by_slot none = unique
    by_slot (some old) =
        insert-IsApart slots (clear_targets new slots).0 new.slot_index new unique
          λ i a far h. lookup-clear_targets new slots i a (eqb_ℤ_ne i new.slot_index far) h

put_blank-IsApart :
    (o : Option QuickSlotData) (i j : ℤ) (slots : QuickSlots)
    → IsApart slots
    → IsApart (put_found o i (blank j) slots)
put_blank-IsApart none i j slots unique = unique
put_blank-IsApart (some old) i j slots unique =
    insert-IsApart slots slots i (blank j) unique λ k a far h. inr (h, not_blank a)
  where
    not_blank : (a : QuickSlotData) → is_same_target a (blank j) ≡ false
    not_blank a = elim (Bool-cases (is_same_target a (blank j))) [
      | inl e ↦ absurd (untyped_left (blank j) a refl (is_same_target_comm a (blank j) e))
      | inr e ↦ e
    ]

blanks-untyped :
    (n i : ℕ) (k : ℤ) (a : QuickSlotData) → lookup k (blanks_from n i) ≡ some a → a.type ≡ no_type
blanks-untyped zero i k a h = absurd (none≢some h)
blanks-untyped (suc n) i k a h = elim (Bool-cases (eqb_ℤ k (pos i))) [
  | inl e ↦ sym (ap QuickSlotData.type (some_inj (rw e at h)))
  | inr e ↦ blanks-untyped n (i + 1) k a (rw e at h)
]

Reach-IsApart : {slots : QuickSlots} → Reach slots → IsApart slots
unfolding init remove_slot clear_slot
Reach-IsApart begins = λ i j a b at_i at_j same.
    absurd (untyped_left a b (blanks-untyped max_slot_count 0 i a at_i) same)
Reach-IsApart (sets {slots} new r) = set_slot-IsApart new slots (Reach-IsApart r)
Reach-IsApart (removes {slots} i r) =
    put_blank-IsApart (lookup i slots) i (pos 0) slots (Reach-IsApart r)
Reach-IsApart (clears {slots} i r) = put_blank-IsApart (lookup i slots) i i slots (Reach-IsApart r)

-- After `Init` and any calls of `SetSlot`, `RemoveSlot` and `ClearSlot` in any order, no skill and no
-- item stands in two quick slots: two slots that both hold a skill, or both hold an item, with the same
-- id are one slot.
pub Reach-IsUnique : {slots : QuickSlots} → Reach slots → IsUnique slots
Reach-IsUnique r i j a b at_i at_j exclusive types ids =
    Reach-IsApart r i j a b at_i at_j (exclusive-is_same_target a b exclusive types ids)
