-- ===== src/Trade/Tables.antt =====
-- How the statements of TradeService.cpp change the number of items in `character_inventory`.
use ll2games_rpg_server.Common.{
  ◌≡◌, refl, sym, ap, ap₂, subst, ◌∙◌, inl, inr, Bool, true, false, ◌&&◌, List, [], ◌∷◌, ◌++◌,
  arith, if◌then◌else◌, Bool-cases, if_cases,
}
use ll2games_rpg_server.Common.Int.{
  ℤ, pos, ◌+ℤ◌, ◌-ℤ◌, ◌≤ℤ◌, ◌<ℤ◌, leb_ℤ, eqb_ℤ, eqb_ℤ_iff, pos_part, neg_part, int_laws, parts,
}
use ll2games_rpg_server.Trade.Database.{
  Row, Place, is_at, updated, selected, deleted, has_amount, is_used_up,
}

-- How many items of an inventory type and an item id a row, or a table, has.
abbrev pub weight : ℤ → ℤ → Row → ℤ
weight t i r = if eqb_ℤ r.inventory_type t && eqb_ℤ r.item_id i then r.item_count else pos 0

abbrev pub total : ℤ → ℤ → List Row → ℤ
total t i [] = pos 0
total t i (r ∷ rows) = weight t i r +ℤ total t i rows

-- What an amount at a place adds
abbrev pub gain : ℤ → ℤ → Place → ℤ → ℤ
gain t i p amount = if eqb_ℤ p.inventory_type t && eqb_ℤ p.item_id i then amount else pos 0

abbrev pub AllRows : (Row → Type 0) → List Row → Type 0
AllRows P [] = Unit
AllRows P (r ∷ rows) = P r × AllRows P rows

abbrev pub IsPositive : Row → Type 0
IsPositive r = pos 0 <ℤ r.item_count

-- A row that is positive, or empty at the place.
abbrev pub IsPositiveOff : Place → Row → Type 0
IsPositiveOff p r = (pos 0 ≤ℤ r.item_count) × (is_at p r ≡ false → pos 0 <ℤ r.item_count)

add_first : (a b g x y : ℤ) → a ≡ b +ℤ g → x ≡ y → a +ℤ x ≡ (b +ℤ y) +ℤ g
add_first a b g x y e f = omega (int_laws, parts e, parts f)

add_later : (a g x y : ℤ) → x ≡ y +ℤ g → a +ℤ x ≡ (a +ℤ y) +ℤ g
add_later a g x y e = omega (int_laws, parts e)

split_weight :
    (b : Bool) (x c : ℤ)
    → (if b then x +ℤ c else pos 0) ≡ (if b then x else pos 0) +ℤ (if b then c else pos 0)
split_weight true x c = refl
split_weight false x c = omega int_laws

module _ (t i : ℤ) (p : Place) (sel : Row → Bool) (change : ℤ) where
  updated_none :
      (rows : List Row)
      → selected sel rows ≡ 0
      → total t i (updated sel change rows) ≡ total t i rows
  updated_none [] h = refl
  updated_none (r ∷ rows) h = elim (Bool-cases (sel r)) [
    | inl e ↦ absurd (ground arith)
    | inr e ↦ rw e (ap (◌+ℤ◌ (weight t i r)) (updated_none rows (ground arith)))
  ]

  weight-change :
      (r : Row)
      → is_at p r ≡ true
      → weight t i (record r { item_count = r.item_count +ℤ change })
        ≡ weight t i r +ℤ gain t i p change
  weight-change r h =
      let type = (eqb_ℤ_iff r.inventory_type p.inventory_type).0 (ground arith) in
      let id = (eqb_ℤ_iff r.item_id p.item_id).0 (ground arith) in
      subst
        (λ (b : Bool).
          (if b then r.item_count +ℤ change else pos 0)
          ≡ (if b then r.item_count else pos 0) +ℤ gain t i p change)
        (sym (ap₂ (λ (x y : ℤ). eqb_ℤ x t && eqb_ℤ y i) type id))
        (split_weight (eqb_ℤ p.inventory_type t && eqb_ℤ p.item_id i) r.item_count change)

  -- An update of one row, at the place, adds what it changes.
  pub total-updated :
      ((r : Row) → sel r ≡ true → is_at p r ≡ true)
      → (rows : List Row) → selected sel rows ≡ 1
      → total t i (updated sel change rows) ≡ total t i rows +ℤ gain t i p change
  total-updated at [] h = absurd (omega arith)
  total-updated at (r ∷ rows) h = elim (Bool-cases (sel r)) [
    | inl e ↦
        let same = updated_none rows (ground arith) in
        let w = weight-change r (at r e) in
        rw e (add_first _ (weight t i r) (gain t i p change) _ (total t i rows) w same)
    | inr e ↦
        let ih = total-updated at rows (ground arith) in
        rw e (add_later (weight t i r) (gain t i p change) _ (total t i rows) ih)
  ]

drop_empty : (b : Bool) (x y : ℤ) → pos_part x ≡ neg_part x → y ≡ (if b then x else pos 0) +ℤ y
drop_empty true x y e = omega (int_laws, e)
drop_empty false x y e = omega int_laws

pub total-deleted :
    (t i : ℤ) (p : Place) (rows : List Row)
    → AllRows (IsPositiveOff p) rows
    → total t i (deleted (is_used_up p) rows) ≡ total t i rows
total-deleted t i p [] h = refl
total-deleted t i p (r ∷ rows) (first, rest) = elim (Bool-cases (is_used_up p r)) [
  | inl e ↦
      let ih = total-deleted t i p rows rest in
      rw e (
        ih
        ∙ drop_empty (eqb_ℤ r.inventory_type t && eqb_ℤ r.item_id i) r.item_count (total t i rows)
            (ground (arith, first)))
  | inr e ↦ rw e (ap (◌+ℤ◌ (weight t i r)) (total-deleted t i p rows rest))
]

pub deleted-IsPositive :
    (p : Place) (rows : List Row)
    → AllRows (IsPositiveOff p) rows
    → AllRows IsPositive (deleted (is_used_up p) rows)
deleted-IsPositive p [] h = tt
deleted-IsPositive p (r ∷ rows) (first, rest) = elim (Bool-cases (is_used_up p r)) [
  | inl e ↦ rw e (deleted-IsPositive p rows rest)
  | inr e ↦ rw e (kept (is_at p r) refl e, deleted-IsPositive p rows rest)
]
  where
    kept : (b : Bool) → is_at p r ≡ b → b && leb_ℤ r.item_count (pos 0) ≡ false → IsPositive r
    kept true at f = ground (arith, f)
    kept false at f = first.1 at

pub total-append :
    (t i : ℤ) (rows : List Row) (r : Row)
    → total t i (rows ++ (r ∷ [])) ≡ total t i rows +ℤ weight t i r
total-append t i [] r = omega int_laws
total-append t i (s ∷ rows) r = let ih = total-append t i rows r in omega (int_laws, parts ih)

-- A row after `updateInventoryItemCountMinus`
taken_row :
    (p : Place) (amount : ℤ) (r : Row)
    → IsPositive r
    → IsPositiveOff p (
        if has_amount p amount r
        then record r { item_count = r.item_count +ℤ (pos 0 -ℤ amount) }
        else r)
taken_row p amount r positive =
    if_cases (IsPositiveOff p) (has_amount p amount r)
      (λ e. (left (r.item_count) amount (ground arith), λ off. absurd (ground arith)))
      λ e. (ground arith, λ off. positive)
  where
    left : (x y : ℤ) → y ≤ℤ x → pos 0 ≤ℤ x +ℤ (pos 0 -ℤ y)
    left x y h = omega (int_laws, h)

pub taken-IsPositiveOff :
    (p : Place) (amount : ℤ) (rows : List Row)
    → AllRows IsPositive rows
    → AllRows (IsPositiveOff p) (updated (has_amount p amount) (pos 0 -ℤ amount) rows)
taken-IsPositiveOff p amount [] h = tt
taken-IsPositiveOff p amount (r ∷ rows) (first, rest) =
    (taken_row p amount r first, taken-IsPositiveOff p amount rows rest)

pub given-IsPositive :
    (sel : Row → Bool) (amount : ℤ) (rows : List Row)
    → pos 0 <ℤ amount
    → AllRows IsPositive rows
    → AllRows IsPositive (updated sel amount rows)
given-IsPositive sel amount [] more h = tt
given-IsPositive sel amount (r ∷ rows) more (first, rest) = (
  if_cases IsPositive (sel r) (λ e. sum r.item_count amount first more) (λ e. first),
  given-IsPositive sel amount rows more rest,
)
  where
    sum : (x y : ℤ) → pos 0 <ℤ x → pos 0 <ℤ y → pos 0 <ℤ x +ℤ y
    sum x y h g = omega (int_laws, h, g)

pub append-IsPositive :
    (rows : List Row) (r : Row)
    → IsPositive r
    → AllRows IsPositive rows
    → AllRows IsPositive (rows ++ (r ∷ []))
append-IsPositive [] r h all = (h, tt)
append-IsPositive (s ∷ rows) r h (first, rest) = (first, append-IsPositive rows r h rest)
