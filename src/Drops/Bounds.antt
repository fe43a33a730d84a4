-- ===== src/Drops/Bounds.antt =====
-- How many items drop, and which.
use ll2games_rpg_server.Common.{
  ℕ, zero, suc, ◌+◌, ◌≤◌, ◌≡◌, refl, Bool, true, false, ◌||◌, Option, none, some, List, [], ◌∷◌,
  ◌++◌, arith, if◌then◌else◌, if_cases, length, length-append,
}
use ll2games_rpg_server.Common.Int.{ℤ, pos, negsuc, ◌+ℤ◌, ◌≤ℤ◌, ltb_ℤ, leb_ℤ, pos_part}
use ll2games_rpg_server.Drops.{
  DropEntry, DropGroup, DropResult, calculate_weight, keep_first, select_entry, result_of,
  is_bad_range, drop_loop, is_empty_list, select_drop_item,
}

abbrev pub AllOf : {A : Type 0} → (A → Type 0) → List A → Type 0
AllOf P [] = Unit
AllOf P (x ∷ xs) = P x × AllOf P xs

AllOf-append :
    {A : Type 0} (P : A → Type 0) (xs : List A) (x : A)
    → AllOf P xs
    → P x
    → AllOf P (xs ++ (x ∷ []))
AllOf-append P [] x all h = (h, tt)
AllOf-append P (y ∷ xs) x (first, rest) h = (first, AllOf-append P xs x rest h)

-- The random numbers lie in their ranges.
abbrev pub IsUniform : (ℕ → ℤ → ℤ → ℤ) → Type 0
IsUniform random =
    (n : ℕ) (low high : ℤ) → low ≤ℤ high → (low ≤ℤ random n low high) × (random n low high ≤ℤ high)

-- A drop of an entry with the property, and of a count in the entry's range.
abbrev pub IsDropOf : (DropEntry → Type 0) → DropResult → Type 0
IsDropOf P r =
    (e : DropEntry) × P e
    × (r.type ≡ e.type)
    × (r.item_id ≡ e.item_id)
    × (e.min_count ≤ℤ r.count)
    × (r.count ≤ℤ e.max_count)

abbrev Chosen : (DropEntry → Type 0) → Option (DropEntry × List DropEntry) → Type 0
Chosen P none = Unit
Chosen P (some (e, rest)) = P e × AllOf P rest

keep-Chosen :
    (P : DropEntry → Type 0) (e : DropEntry) (o : Option (DropEntry × List DropEntry))
    → P e
    → Chosen P o
    → Chosen P (keep_first e o)
keep-Chosen P e none h c = tt
keep-Chosen P e (some (chosen, rest)) h (p, all) = (p, (h, all))

select_entry-Chosen :
    (P : DropEntry → Type 0) (d acc : ℤ) (entries : List DropEntry)
    → AllOf P entries
    → Chosen P (select_entry d acc entries)
unfolding select_entry
select_entry-Chosen P d acc [] all = tt
select_entry-Chosen P d acc (e ∷ entries) (first, rest) =
    let skipped = keep-Chosen P e _ first (select_entry-Chosen P d acc entries rest) in
    let passed = keep-Chosen P e _ first (select_entry-Chosen P d (acc +ℤ e.weight) entries rest) in
    if_cases (Chosen P) (leb_ℤ e.weight (pos 0)) (λ h. skipped)
      λ h. if_cases (Chosen P) (leb_ℤ d (acc +ℤ e.weight)) (λ g. (first, rest)) λ g. passed

module _ (random : ℕ → ℤ → ℤ → ℤ) (P : DropEntry → Type 0) where
  abbrev Within : ℕ → Bool × List DropResult × ℕ → Type 0
  Within most r = (length r.1 ≤ most) × AllOf (IsDropOf P) r.1

  drop_loop-IsWithin :
      (allow : Bool) (left n : ℕ) (entries : List DropEntry) (items : List DropResult)
      → IsUniform random
      → AllOf P entries
      → AllOf (IsDropOf P) items
      → Within (length items + left) (drop_loop random allow left n entries items)
  unfolding drop_loop
  drop_loop-IsWithin allow zero n entries items uniform all got = (omega arith, got)
  drop_loop-IsWithin allow (suc left) n [] items uniform all got = (omega arith, got)
  drop_loop-IsWithin allow (suc left) n (e ∷ entries) items uniform all got =
      if_cases (Within (length items + suc left)) (leb_ℤ (calculate_weight (e ∷ entries)) (pos 0))
        (λ h. (omega arith, got))
        λ h.
          by_choice
            (select_entry (random n (pos 1) (calculate_weight (e ∷ entries))) (pos 0) (e ∷ entries))
            (select_entry-Chosen P _ (pos 0) (e ∷ entries) all)
            λ chosen rest all_rest more.
              drop_loop-IsWithin allow left (n + 2) rest
                (items ++ (result_of random allow (n + 1) chosen ∷ [])) uniform all_rest more
    where
      Later : Type 0
      Later =
          (chosen : DropEntry) (rest : List DropEntry)
          → AllOf P rest
          → AllOf (IsDropOf P) (items ++ (result_of random allow (n + 1) chosen ∷ []))
          → Within (length (items ++ (result_of random allow (n + 1) chosen ∷ [])) + left) (
              drop_loop random allow left (n + 2) rest
                (items ++ (result_of random allow (n + 1) chosen ∷ [])))

      by_choice :
          (o : Option (DropEntry × List DropEntry))
          → Chosen P o
          → Later
          → Within (length items + suc left) (elim o as (λ _. Bool × List DropResult × ℕ) [
            | none ↦ (true, items, n + 1)
            | some (chosen, rest) ↦
                let next =
                  drop_loop random allow left
                    (n + 2)
                    (if allow then e ∷ entries else rest)
                    (items ++ (result_of random allow (n + 1) chosen ∷ [])) in
                if is_bad_range random allow chosen then (false, items, n + 1) else next
          ])
      by_choice none c later = (omega arith, got)
      by_choice (some (chosen, rest)) (p, all_rest) later =
          if_cases (Within (length items + suc left)) (is_bad_range random allow chosen)
            (λ b. (omega arith, got))
            λ b.
              let (low, high) = uniform (n + 1) chosen.min_count chosen.max_count (ground arith) in
              let more =
                AllOf-append (IsDropOf P) items (result_of random allow (n + 1) chosen) got
                  (chosen, p, refl, refl, low, high) in
              let (most, dropped) =
                later chosen (if allow then e ∷ entries else rest)
                  (if_cases (AllOf P) allow (λ a. all) (λ a. all_rest)) more in
              (
                omega
                    (arith, most, length-append items (result_of random allow (n + 1) chosen ∷ [])),
                dropped,
              )

pos_part_mono : (x y : ℤ) → x ≤ℤ y → pos_part x ≤ pos_part y
pos_part_mono (pos m) (pos n) h = omega (arith, h)
pos_part_mono (pos m) (negsuc n) h = absurd (omega (arith, h))
pos_part_mono (negsuc m) y h = omega arith

-- `SelectDropItem`, with random numbers that lie in their ranges, gives at most maxDrop items, each of
-- an entry of the group and of a count within the entry's minimum and maximum, whatever the weights are:
-- what holds of all entries holds of each entry that an item is of.
pub select_drop_item-IsWithin :
    (random : ℕ → ℤ → ℤ → ℤ) (P : DropEntry → Type 0) (group : DropGroup) (n : ℕ)
    → IsUniform random
    → AllOf P group.entries
    → (length (select_drop_item random group n []).1 ≤ pos_part group.max_drop)
      × AllOf (IsDropOf P) (select_drop_item random group n []).1
unfolding select_drop_item
select_drop_item-IsWithin random P group n uniform all =
    if_cases Goal
      (ltb_ℤ group.min_drop (pos 0)
        || ltb_ℤ group.max_drop (pos 0)
        || ltb_ℤ group.max_drop group.min_drop)
      (λ e. (omega arith, tt))
      λ e.
        if_cases Goal (is_empty_list random group.entries) (λ f. (omega arith, tt))
          λ f.
            let (low, high) = uniform n group.min_drop group.max_drop (ground arith) in
            let (most, dropped) =
              drop_loop-IsWithin random P group.allow_duplicate
                (pos_part (random n group.min_drop group.max_drop)) (n + 1) group.entries [] uniform
                all tt in
            let top = pos_part_mono (random n group.min_drop group.max_drop) group.max_drop high in
            (omega (arith, most, top), dropped)
  where
    Goal : Bool × List DropResult × ℕ → Type 0
    Goal r = (length r.1 ≤ pos_part group.max_drop) × AllOf (IsDropOf P) r.1
