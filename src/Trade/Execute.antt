-- ===== src/Trade/Execute.antt =====
-- SERVER/src/CHANNEL/service/TradeService.cpp: `Execute` and the functions that run its statements, on a
-- connection from the pool. A result of -1 is `false`. A truncated column, which an integer column
-- cannot give, and the failures between `mysql_stmt_init` and `mysql_stmt_execute`, which all return
-- -1, are one error reply of the statement.
use ll2games_rpg_server.Common.{
  ℕ, Bool, true, false, ◌||◌, not, Option, none, some, List, [], ◌∷◌, ◌==◌, if◌then◌else◌,
}
use ll2games_rpg_server.Common.Int.{ℤ, pos, ltb_ℤ, leb_ℤ}
use ll2games_rpg_server.Trade.{TradeItem, TradeExecuteData}
use ll2games_rpg_server.Trade.Database.{Place, Database}

-- What becomes of the connection: it goes back to the pool, or it is closed.
pub data Returned : Type 0 where
  released closed : Returned

-- `affectedRows == 1`
abbrev pub one_row : Option ℕ → Bool
one_row none = false
one_row (some n) = n == 1

-- The parsed parameters of an item: the character, the inventory type and the item id.
abbrev pub item_numbers : Option (ℤ × ℕ) → Option (ℤ × ℕ) → Option (ℤ × ℕ) → Option (ℤ × ℤ × ℤ)
item_numbers (some (char, n)) (some (type, m)) (some (id, k)) = some (char, type, id)
item_numbers _ _ _ = none

abbrev pub place : ℤ → ℤ → ℤ → ℤ → Place
place char type slot id = record {
  char_id = char;
  inventory_type = type;
  slot_pos = slot;
  item_id = id;
}

module _ (db : Database) where
  unfoldable pub update_inventory_item_count_minus :
      Place → ℤ → db.Connection → Bool × db.Connection
  update_inventory_item_count_minus p amount c =
      (one_row (db.take_items p amount c).0, (db.take_items p amount c).1)

  unfoldable pub update_inventory_item_count_plus : Place → ℤ → db.Connection → Bool × db.Connection
  update_inventory_item_count_plus p amount c =
      (one_row (db.give_items p amount c).0, (db.give_items p amount c).1)

  abbrev pub take_out : ℤ → ℤ → ℤ → TradeItem → db.Connection → Bool × db.Connection
  take_out char type id item c =
      let (taken, c') =
        update_inventory_item_count_minus (place char type item.slot_index id) item.amount c in
      if leb_ℤ char (pos 0)
        || leb_ℤ id (pos 0)
        || ltb_ℤ type (pos 0)
        || ltb_ℤ item.slot_index (pos 0)
        || leb_ℤ item.amount (pos 0)
      then (false, c)
      else if not taken
      then (false, c')
      else db.delete_items (place char type item.slot_index id) c'

  abbrev pub decrease_parsed : Option (ℤ × ℤ × ℤ) → TradeItem → db.Connection → Bool × db.Connection
  decrease_parsed none item c = (false, c)
  decrease_parsed (some (char, type, id)) item c = take_out char type id item c

  -- `SelectNextInventorySlotPos` and `InsertInventoryItem`
  abbrev pub put_new :
      ℤ → ℤ → ℤ → TradeItem → Option ℤ → db.Connection → Bool × TradeItem × db.Connection
  put_new char type id item none c = (false, item, c)
  put_new char type id item (some slot) c =
      let (ok, c') =
        db.insert_item
          (record {
            char_id = char;
            inventory_type = type;
            slot_pos = slot;
            item_id = id;
            item_count = item.amount;
          })
          c in
      if not ok then (false, item, c') else (true, record item { slot_index = slot }, c')

  -- By the result of `SelectInventoryItemSlot`
  abbrev pub put_in :
      ℤ → ℤ → ℤ → TradeItem → Option (Option ℤ) → db.Connection → Bool × TradeItem × db.Connection
  put_in char type id item none c = (false, item, c)
  put_in char type id item (some (some slot)) c =
      let (ok, c') = update_inventory_item_count_plus (place char type slot id) item.amount c in
      (ok, record item { slot_index = slot }, c')
  put_in char type id item (some none) c =
      put_new char type id item (db.select_next_slot char type c).0
        (db.select_next_slot char type c).1

  abbrev pub increase_parsed :
      Option (ℤ × ℤ × ℤ) → TradeItem → db.Connection → Bool × TradeItem × db.Connection
  increase_parsed none item c = (false, item, c)
  increase_parsed (some (char, type, id)) item c =
      if leb_ℤ char (pos 0) || ltb_ℤ type (pos 0) || leb_ℤ id (pos 0) || leb_ℤ item.amount (pos 0)
      then (false, item, c)
      else put_in char type id item (db.select_slot char type id c).0
          (db.select_slot char type id c).1

  -- `Execute` after the loops: `COMMIT`, or `ROLLBACK` where a step failed.
  abbrev pub roll_back : db.Connection → Bool × Returned × db.Connection
  roll_back c =
      if not (db.rollback c).0
      then (false, closed, (db.rollback c).1)
      else (false, released, (db.rollback c).1)

  unfoldable pub conclude : Bool → db.Connection → Bool × Returned × db.Connection
  conclude result c =
      if result
      then (let (ok, c') = db.commit c in if not ok then roll_back c' else (true, released, c'))
      else roll_back c

module _ (db : Database) (stoi : List ℕ → Option (ℤ × ℕ)) (stoll : List ℕ → Option (ℤ × ℕ)) where
  abbrev pub numbers : List ℕ → TradeItem → Option (ℤ × ℤ × ℤ)
  numbers char_id item = item_numbers (stoll char_id) (stoi item.type) (stoi item.id)

  unfoldable pub decrease_item : List ℕ → TradeItem → db.Connection → Bool × db.Connection
  decrease_item char_id item c = decrease_parsed db (numbers char_id item) item c

  unfoldable pub increase_item :
      List ℕ → TradeItem → db.Connection → Bool × TradeItem × db.Connection
  increase_item char_id item c = increase_parsed db (numbers char_id item) item c

  -- One round of a loop of `Execute`
  abbrev pub move_item :
      List ℕ → List ℕ → TradeItem → db.Connection → Bool × TradeItem × db.Connection
  move_item giver taker item c =
      let (ok, c') = decrease_item giver item c in
      if not ok then (false, item, c') else increase_item taker item c'

  -- A loop of `Execute`, which ends at the first failure.
  unfoldable pub move_items :
      List ℕ → List ℕ → List TradeItem → db.Connection → Bool × List TradeItem × db.Connection
  move_items giver taker [] c = (true, [], c)
  move_items giver taker (item ∷ items) c =
      let (ok, item', c') = move_item giver taker item c in
      let (all_ok, items', c'') = move_items giver taker items c' in
      if not ok then (false, item' ∷ items, c') else (all_ok, item' ∷ items', c'')

  module _ (to_string : ℤ → List ℕ) where
    -- Both loops
    abbrev pub exchange : TradeExecuteData → db.Connection → Bool × TradeExecuteData × db.Connection
    exchange data' c =
        let (a_ok, a_items, c') =
          move_items (to_string data'.a_id) (to_string data'.b_id) data'.a_items c in
        let (b_ok, b_items, c'') =
          move_items (to_string data'.b_id) (to_string data'.a_id) data'.b_items c' in
        if not a_ok
        then (false, record data' { a_items = a_items }, c')
        else (b_ok, record data' { a_items = a_items; b_items = b_items }, c'')

    unfoldable pub execute :
        TradeExecuteData → db.Connection → (Bool × Returned × db.Connection) × TradeExecuteData
    execute data' c =
        let (started, c1) = db.start_transaction c in
        let (ok, data'', c2) = exchange data' c1 in
        if not started then ((false, closed, c1), data') else (conclude db ok c2, data'')
