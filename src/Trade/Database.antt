-- ===== src/Trade/Database.antt =====
-- The database below SERVER/src/CHANNEL/service/TradeService.cpp, which is a parameter: its connections,
-- the replies to the statements on `character_inventory`, and what MySQL documents of statements and
-- transactions.
use ll2games_rpg_server.Common.{
  ℕ, suc, ◌≡◌, Bool, true, false, ◌&&◌, Option, some, List, [], ◌∷◌, ◌++◌, if◌then◌else◌,
}
use ll2games_rpg_server.Common.Int.{ℤ, pos, ◌+ℤ◌, ◌-ℤ◌, leb_ℤ, eqb_ℤ}

-- A row of `character_inventory`
pub record Row : Type 0 where
  pub char_id : ℤ
  pub inventory_type : ℤ
  pub slot_pos : ℤ
  pub item_id : ℤ
  pub item_count : ℤ

-- The four columns that the conditions of the statements name.
pub record Place : Type 0 where
  pub char_id : ℤ
  pub inventory_type : ℤ
  pub slot_pos : ℤ
  pub item_id : ℤ

abbrev pub is_at : Place → Row → Bool
is_at p r =
    eqb_ℤ r.char_id p.char_id
    && eqb_ℤ r.inventory_type p.inventory_type
    && eqb_ℤ r.slot_pos p.slot_pos
    && eqb_ℤ r.item_id p.item_id

-- `UPDATE character_inventory SET item_count = item_count + change` of the rows that a condition
-- selects, and the number of these rows.
abbrev pub updated : (Row → Bool) → ℤ → List Row → List Row
updated selects change [] = []
updated selects change (r ∷ rows) =
    (if selects r then record r { item_count = r.item_count +ℤ change } else r)
    ∷ updated selects change rows

abbrev pub selected : (Row → Bool) → List Row → ℕ
selected selects [] = 0
selected selects (r ∷ rows) =
    if selects r then suc (selected selects rows) else selected selects rows

-- `DELETE FROM character_inventory` of the rows that a condition selects.
abbrev pub deleted : (Row → Bool) → List Row → List Row
deleted selects [] = []
deleted selects (r ∷ rows) = if selects r then deleted selects rows else r ∷ deleted selects rows

-- The condition of `updateInventoryItemCountMinus`
abbrev pub has_amount : Place → ℤ → Row → Bool
has_amount p amount r = is_at p r && leb_ℤ amount r.item_count

-- The condition of `DeleteInventoryItem`
abbrev pub is_used_up : Place → Row → Bool
is_used_up p r = is_at p r && leb_ℤ r.item_count (pos 0)

-- A database: `false` or `none` is a reply that is an error.
pub record Database : Type 1 where
  pub Connection : Type 0
  -- the rows that a transaction sees, and those that others see
  pub rows : Connection → List Row
  pub committed : Connection → List Row
  pub start_transaction : Connection → Bool × Connection
  pub commit : Connection → Bool × Connection
  pub rollback : Connection → Bool × Connection
  -- the statements; an update replies with the number of rows
  pub take_items : Place → ℤ → Connection → Option ℕ × Connection
  pub give_items : Place → ℤ → Connection → Option ℕ × Connection
  pub delete_items : Place → Connection → Bool × Connection
  pub insert_item : Row → Connection → Bool × Connection
  -- the slot of the first row of an item, if there is one, and the slot after the last
  pub select_slot : ℤ → ℤ → ℤ → Connection → Option (Option ℤ) × Connection
  pub select_next_slot : ℤ → ℤ → Connection → Option ℤ × Connection
  -- what is documented
  pub start_rows :
      (c : Connection)
      → (start_transaction c).0 ≡ true
      → (rows (start_transaction c).1 ≡ committed c)
        × (committed (start_transaction c).1 ≡ committed c)
  pub commit_rows :
      (c : Connection)
      → (commit c).0 ≡ true
      → (rows (commit c).1 ≡ rows c) × (committed (commit c).1 ≡ rows c)
  -- a COMMIT that is refused on a connection that still answers has committed nothing
  pub commit_refused :
      (c : Connection)
      → (commit c).0 ≡ false
      → (rollback (commit c).1).0 ≡ true
      → committed (commit c).1 ≡ committed c
  pub rollback_rows :
      (c : Connection)
      → (rollback c).0 ≡ true
      → (rows (rollback c).1 ≡ committed c) × (committed (rollback c).1 ≡ committed c)
  pub take_rows :
      (p : Place) (amount : ℤ) (n : ℕ) (c : Connection)
      → (take_items p amount c).0 ≡ some n
      → (rows (take_items p amount c).1 ≡ updated (has_amount p amount) (pos 0 -ℤ amount) (rows c))
        × (n ≡ selected (has_amount p amount) (rows c))
  pub give_rows :
      (p : Place) (amount : ℤ) (n : ℕ) (c : Connection)
      → (give_items p amount c).0 ≡ some n
      → (rows (give_items p amount c).1 ≡ updated (is_at p) amount (rows c))
        × (n ≡ selected (is_at p) (rows c))
  pub delete_rows :
      (p : Place) (c : Connection)
      → (delete_items p c).0 ≡ true
      → rows (delete_items p c).1 ≡ deleted (is_used_up p) (rows c)
  pub insert_rows :
      (r : Row) (c : Connection)
      → (insert_item r c).0 ≡ true
      → rows (insert_item r c).1 ≡ rows c ++ (r ∷ [])
  pub slot_rows : (a b i : ℤ) (c : Connection) → rows (select_slot a b i c).1 ≡ rows c
  pub next_rows : (a b : ℤ) (c : Connection) → rows (select_next_slot a b c).1 ≡ rows c
  -- a statement of a transaction is not seen by others
  pub take_hidden :
      (p : Place) (m : ℤ) (c : Connection) → committed (take_items p m c).1 ≡ committed c
  pub give_hidden :
      (p : Place) (m : ℤ) (c : Connection) → committed (give_items p m c).1 ≡ committed c
  pub delete_hidden : (p : Place) (c : Connection) → committed (delete_items p c).1 ≡ committed c
  pub insert_hidden : (r : Row) (c : Connection) → committed (insert_item r c).1 ≡ committed c
  pub slot_hidden : (a b i : ℤ) (c : Connection) → committed (select_slot a b i c).1 ≡ committed c
  pub next_hidden : (a b : ℤ) (c : Connection) → committed (select_next_slot a b c).1 ≡ committed c
