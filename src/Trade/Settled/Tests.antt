-- ===== src/Trade/Settled/Tests.antt =====
-- `Execute` on a database in memory, and the theorems applied to it.
use ll2games_rpg_server.Common.{
  ℕ, ◌+◌, ◌-◌, ◌≡◌, refl, sym, ap, false≢true, Bool, true, false, ◌&&◌, Option, none, some, List,
  [], ◌∷◌, ◌++◌, arith, if◌then◌else◌, some_inj, codes,
}
use ll2games_rpg_server.Common.Int.{ℤ, pos, negsuc, ◌+ℤ◌, ◌-ℤ◌, eqb_ℤ}
use ll2games_rpg_server.Trade.{TradeItem, TradeExecuteData}
use ll2games_rpg_server.Trade.Database.{
  Row, Database, is_at, updated, selected, deleted, has_amount, is_used_up,
}
use ll2games_rpg_server.Trade.Execute.{
  Returned, released, execute, decrease_item, increase_item, move_items, conclude,
  update_inventory_item_count_minus, update_inventory_item_count_plus,
}
use ll2games_rpg_server.Trade.Tables.{total, AllRows, IsPositive}
use ll2games_rpg_server.Trade.Settled.{execute-rolls_back, execute-conserves}

-- The rows that the transaction sees and those that are committed.
abbrev Memory : Type 0
Memory = List Row × List Row

abbrev is_item : ℤ → ℤ → ℤ → Row → Bool
is_item char type id r = eqb_ℤ r.char_id char && eqb_ℤ r.inventory_type type && eqb_ℤ r.item_id id

abbrev first_slot : (Row → Bool) → List Row → Option ℤ
first_slot p [] = none
first_slot p (r ∷ rows) = if p r then some r.slot_pos else first_slot p rows

abbrev memory : Database
memory = record {
  Connection = Memory;
  rows = λ c. c.0;
  committed = λ c. c.1;
  start_transaction = λ c. (true, (c.1, c.1));
  commit = λ c. (true, (c.0, c.0));
  rollback = λ c. (true, (c.1, c.1));
  take_items = λ p m c.
      (some (selected (has_amount p m) c.0), (updated (has_amount p m) (pos 0 -ℤ m) c.0, c.1));
  give_items = λ p m c. (some (selected (is_at p) c.0), (updated (is_at p) m c.0, c.1));
  delete_items = λ p c. (true, (deleted (is_used_up p) c.0, c.1));
  insert_item = λ r c. (true, (c.0 ++ (r ∷ []), c.1));
  select_slot = λ a b i c. (some (first_slot (is_item a b i) c.0), c);
  select_next_slot = λ a b c. (some (pos 7), c);
  start_rows = λ c h. (refl, refl);
  commit_rows = λ c h. (refl, refl);
  commit_refused = λ c h. absurd (false≢true (sym h));
  rollback_rows = λ c h. (refl, refl);
  take_rows = λ p m n c h. (refl, sym (some_inj h));
  give_rows = λ p m n c h. (refl, sym (some_inj h));
  delete_rows = λ p c h. refl;
  insert_rows = λ r c h. refl;
  slot_rows = λ a b i c. refl;
  next_rows = λ a b c. refl;
  take_hidden = λ p m c. refl;
  give_hidden = λ p m c. refl;
  delete_hidden = λ p c. refl;
  insert_hidden = λ r c. refl;
  slot_hidden = λ a b i c. refl;
  next_hidden = λ a b c. refl;
}

abbrev digit_text : ℤ → List ℕ
digit_text (pos n) = (48 + n) ∷ []
digit_text (negsuc n) = 45 ∷ (49 + n) ∷ []

abbrev digit_value : List ℕ → Option (ℤ × ℕ)
digit_value (c ∷ []) = some (pos (c - 48), 1)
digit_value _ = none

abbrev row : ℕ → ℕ → ℕ → Row
row char item count = record {
  char_id = pos char;
  inventory_type = pos 0;
  slot_pos = pos 1;
  item_id = pos item;
  item_count = pos count;
}

-- Player 1 has 5 of item 8, player 2 has 3 of item 9.
abbrev before : List Row
before = row 1 8 5 ∷ row 2 9 3 ∷ []

abbrev offer : ℕ → ℕ → TradeItem
offer item amount = record {
  id = (48 + item) ∷ [];
  type = codes "0";
  amount = pos amount;
  slot_index = pos 1;
}

abbrev deal : ℕ → TradeExecuteData
deal amount = record {
  a_id = pos 1;
  b_id = pos 2;
  a_items = offer 8 amount ∷ [];
  b_items = offer 9 3 ∷ [];
}

abbrev after : List Row
after =
    row 1 8 3
    ∷ record (row 2 8 2) { slot_pos = pos 7 }
    ∷ record (row 1 9 3) { slot_pos = pos 7 }
    ∷ []

exchanged :
    (execute memory digit_value digit_value digit_text (deal 2) ([], before)).0
    ≡ (true, released, (after, after))
unfolding execute conclude move_items decrease_item increase_item update_inventory_item_count_minus
    update_inventory_item_count_plus ◌+ℤ◌ ◌-ℤ◌
exchanged = refl

-- Player 1 offers more than there is.
rolled_back :
    (execute memory digit_value digit_value digit_text (deal 6) ([], before)).0
    ≡ (false, released, (before, before))
unfolding execute conclude move_items decrease_item increase_item update_inventory_item_count_minus
    update_inventory_item_count_plus ◌+ℤ◌ ◌-ℤ◌
rolled_back = refl

execute-rolls_back_example :
    let (rows, committed) =
      (execute memory digit_value digit_value digit_text (deal 6) ([], before)).0.2 in
    (rows ≡ committed)
    × ((execute memory digit_value digit_value digit_text (deal 6) ([], before)).0.0 ≡ false
        → committed ≡ before)
execute-rolls_back_example =
    execute-rolls_back memory digit_value digit_value digit_text (deal 6) ([], before)
      (ap (λ (r : Bool × Returned × Memory). r.1) rolled_back)

execute-conserves_example :
    AllRows IsPositive
      (execute memory digit_value digit_value digit_text (deal 2) ([], before)).0.2.1
    × ((t i : ℤ)
        → total t i (execute memory digit_value digit_value digit_text (deal 2) ([], before)).0.2.1
          ≡ total t i before)
execute-conserves_example =
    execute-conserves memory digit_value digit_value digit_text (deal 2) ([], before)
      ((omega arith), ((omega arith), tt)) (ap (λ (r : Bool × Returned × Memory). r.0) exchanged)
