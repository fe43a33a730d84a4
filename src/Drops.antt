-- ===== src/Drops.antt =====
-- SERVER/src/CHANNEL/manager/DropManager.cpp: the choice of the items that a monster drops. The n-th
-- number that a `uniform_int_distribution` gives on a range is an argument.
pub mod Bounds
mod Tests
use ll2games_rpg_server.Common.{
  ℕ, zero, suc, ◌+◌, Bool, true, false, ◌||◌, not, Option, none, some, List, [], ◌∷◌, ◌++◌,
  if◌then◌else◌,
}
use ll2games_rpg_server.Common.Int.{ℤ, pos, ◌+ℤ◌, ltb_ℤ, leb_ℤ, pos_part}
use ll2games_rpg_server.Common.Keys.{Dict, lookup, bytes_eq}

pub data DropType : Type 0 where
  gold item : DropType

pub record DropEntry : Type 0 where
  pub type : DropType
  pub item_id : ℤ
  pub weight : ℤ
  pub min_count : ℤ
  pub max_count : ℤ

pub record DropGroup : Type 0 where
  pub min_drop : ℤ
  pub max_drop : ℤ
  pub allow_duplicate : Bool
  pub entries : List DropEntry

pub record DropResult : Type 0 where
  pub type : DropType
  pub item_id : ℤ
  pub count : ℤ

unfoldable pub calculate_weight : List DropEntry → ℤ
calculate_weight [] = pos 0
calculate_weight (e ∷ entries) = e.weight +ℤ calculate_weight entries

abbrev pub keep_first :
    DropEntry → Option (DropEntry × List DropEntry) → Option (DropEntry × List DropEntry)
keep_first e none = none
keep_first e (some (chosen, rest)) = some (chosen, e ∷ rest)

-- The loop over the entries: the entry selected, and the others.
unfoldable pub select_entry : ℤ → ℤ → List DropEntry → Option (DropEntry × List DropEntry)
select_entry drop_weight acc [] = none
select_entry drop_weight acc (e ∷ entries) =
    let skipped = select_entry drop_weight acc entries in
    let passed = select_entry drop_weight (acc +ℤ e.weight) entries in
    if leb_ℤ e.weight (pos 0)
    then keep_first e skipped
    else if leb_ℤ drop_weight (acc +ℤ e.weight)
    then some (e, entries)
    else keep_first e passed

-- The loop over the drops, with `random n low high` the n-th random number.
module _ (random : ℕ → ℤ → ℤ → ℤ) (allow_duplicate : Bool) where
  abbrev pub result_of : ℕ → DropEntry → DropResult
  result_of n e = record {
    type = e.type;
    item_id = e.item_id;
    count = random n e.min_count e.max_count;
  }

  abbrev pub is_bad_range : DropEntry → Bool
  is_bad_range e =
      ltb_ℤ e.min_count (pos 0) || ltb_ℤ e.max_count (pos 0) || ltb_ℤ e.max_count e.min_count

  unfoldable pub drop_loop : ℕ → ℕ → List DropEntry → List DropResult → Bool × List DropResult × ℕ
  drop_loop zero n entries items = (true, items, n)
  drop_loop (suc left) n [] items = (true, items, n)
  drop_loop (suc left) n (e ∷ entries) items =
      let sum = calculate_weight (e ∷ entries) in
      let selected : Bool × List DropResult × ℕ =
        elim (select_entry (random n (pos 1) sum) (pos 0) (e ∷ entries)) [
          | none ↦ (true, items, n + 1)
          | some (chosen, rest) ↦
              let next =
                drop_loop left (n + 2) (if allow_duplicate then e ∷ entries else rest)
                  (items ++ (result_of (n + 1) chosen ∷ [])) in
              if is_bad_range chosen then (false, items, n + 1) else next
        ] in
      if leb_ℤ sum (pos 0) then (true, items, n) else selected

module _ (random : ℕ → ℤ → ℤ → ℤ) where
  abbrev pub is_empty_list : List DropEntry → Bool
  is_empty_list [] = true
  is_empty_list (e ∷ entries) = false

  unfoldable pub select_drop_item : DropGroup → ℕ → List DropResult → Bool × List DropResult × ℕ
  select_drop_item group n items =
      if ltb_ℤ group.min_drop (pos 0)
        || ltb_ℤ group.max_drop (pos 0)
        || ltb_ℤ group.max_drop group.min_drop
      then (false, items, n)
      else if is_empty_list group.entries
      then (false, items, n)
      else drop_loop random group.allow_duplicate
          (pos_part (random n group.min_drop group.max_drop)) (n + 1) group.entries items

  abbrev pub set_found : Option DropGroup → Option DropGroup → ℕ → List DropResult × ℕ
  set_found none unique n = ([], n)
  set_found (some common) none n = ([], n)
  set_found (some common) (some unique) n =
      let (common_ok, items, m) = select_drop_item common n [] in
      let (unique_ok, all_items, k) = select_drop_item unique m items in
      if ltb_ℤ common.max_drop common.min_drop
      then ([], n)
      else if ltb_ℤ unique.max_drop unique.min_drop
      then ([], n)
      else if not common_ok
      then (items, m)
      else (all_items, k)

  unfoldable pub set_drop_item :
      Dict (List ℕ) DropGroup → Dict (List ℕ) DropGroup → List ℕ → List ℕ → ℕ → List DropResult × ℕ
  set_drop_item commons uniques common unique n =
      set_found (lookup common commons) (lookup unique uniques) n
